-- ===== src/Datatypes/Integers.antt =====
-- The integers of crates/shacl/src/datatypes.rs: their lexical forms, the `i128` that the standard
-- library parses, and the digit-wise comparison of those too large for it. A text is its bytes.
pub mod Digits
pub mod Lexical
pub mod Order
pub mod Ordered
use shacl_engine.Common.{
  ℕ, zero, suc, ◌+◌, ◌-◌, ◌*◌, ◌^◌, Bool, true, false, ◌&&◌, Option, none, some, List, [], ◌∷◌,
  length, ltb, leb, ◌==◌, if◌then◌else◌,
}
use shacl_engine.Common.Maybe.{◌>>=◌}

-- The bytes of a `str`.
abbrev pub Text : Type 0
Text = List ℕ

pub data Ordering : Type 0 where
  less equal greater : Ordering

abbrev pub reverse_order : Ordering → Ordering
reverse_order less = greater
reverse_order equal = equal
reverse_order greater = less

abbrev pub then_with : Ordering → Ordering → Ordering
then_with equal o = o
then_with less o = less
then_with greater o = greater

abbrev pub cmp_nat : ℕ → ℕ → Ordering
cmp_nat m n = if ltb m n then less else if m == n then equal else greater

-- `str::cmp`: byte by byte.
abbrev pub cmp_text : Text → Text → Ordering
cmp_text [] [] = equal
cmp_text [] (y ∷ ys) = less
cmp_text (x ∷ xs) [] = greater
cmp_text (x ∷ xs) (y ∷ ys) = then_with (cmp_nat x y) (cmp_text xs ys)

pub data ℤ : Type 0 where
  pos negsuc : ℕ → ℤ

abbrev pub cmp_int : ℤ → ℤ → Ordering
cmp_int (pos m) (pos n) = cmp_nat m n
cmp_int (pos m) (negsuc n) = greater
cmp_int (negsuc m) (pos n) = less
cmp_int (negsuc m) (negsuc n) = cmp_nat n m

abbrev pub signed : Bool → ℕ → ℤ
signed false n = pos n
signed true zero = pos zero
signed true (suc n) = negsuc n

abbrev pub is_digit : ℕ → Bool
is_digit c = leb 48 c && leb c 57

abbrev pub all_digits : Text → Bool
all_digits [] = true
all_digits (c ∷ cs) = is_digit c && all_digits cs

-- The sign byte, and what follows it.
abbrev pub sign_of : ℕ → Bool
sign_of c = c == 45

abbrev pub unsigned_part : ℕ → Text → Text
unsigned_part c cs = if c == 45 then cs else if c == 43 then cs else c ∷ cs

-- `trim_start_matches('0')`
abbrev pub trim_zeros : Text → Text
trim_zeros [] = []
trim_zeros (c ∷ cs) = let rest = trim_zeros cs in if c == 48 then rest else c ∷ cs

-- `rest.is_empty() || !rest.bytes().all(..)` is false.
abbrev pub is_digits : Text → Bool
is_digits [] = false
is_digits (c ∷ cs) = all_digits (c ∷ cs)

-- Every spelling of zero becomes one.
abbrev pub normalise_digits : Bool → Text → Bool × Text
normalise_digits neg [] = (false, 48 ∷ [])
normalise_digits neg (c ∷ cs) = (neg, c ∷ cs)

unfoldable pub normalise_integer : Text → Option (Bool × Text)
normalise_integer [] = none
normalise_integer (c ∷ cs) =
    if is_digits (unsigned_part c cs)
    then some (normalise_digits (sign_of c) (trim_zeros (unsigned_part c cs)))
    else none

-- A number in decimal.
abbrev pub value : Text → ℕ
value [] = 0
value (c ∷ cs) = (c - 48) * 10 ^ length cs + value cs

-- The integer that a lexical form denotes.
unfoldable pub integer_of : Text → Option ℤ
integer_of [] = none
integer_of (c ∷ cs) =
    if is_digits (unsigned_part c cs)
    then some (signed (sign_of c) (value (unsigned_part c cs)))
    else none

abbrev pub fits_i128 : ℤ → Bool
fits_i128 (pos n) = ltb n (2 ^ 127)
fits_i128 (negsuc n) = ltb n (2 ^ 127)

-- `parse::<i128>`: a sign and digits, refused out of range.
unfoldable pub parse_i128 : Text → Option ℤ
unfolding integer_of
parse_i128 lex = do z ← integer_of lex; if fits_i128 z then some z else none

unfoldable pub cmp_bigint : Bool → Text → Bool → Text → Ordering
cmp_bigint false a true b = greater
cmp_bigint true a false b = less
cmp_bigint false a false b = then_with (cmp_nat (length a) (length b)) (cmp_text a b)
cmp_bigint true a true b = reverse_order (then_with (cmp_nat (length a) (length b)) (cmp_text a b))

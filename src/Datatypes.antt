-- ===== src/Datatypes.antt =====
-- crates/shacl/src/datatypes.rs: literals by value, lexical well-formedness, and language ranges.
-- The value spaces of `oxsdatatypes` and the floating point numbers are parameters, as are, for
-- now, the term store's readings of a literal.
pub mod Integers
pub mod Compare
pub mod Languages
pub mod Ranges
pub mod Tests
use shacl_engine.Common.{
  ℕ, zero, suc, ◌+◌, ◌-◌, ◌^◌, Bool, true, false, not, ◌&&◌, ◌||◌, Option, none, some, List, [],
  ◌∷◌, length, take, get_or, ltb, leb, ◌==◌, if◌then◌else◌,
}
use shacl_engine.Common.Maybe.{◌>>=◌}
use shacl_engine.Model.Starts.{TermId}
use shacl_engine.Model.Vocab.{Vocab}
use shacl_engine.Datatypes.Integers.{
  Text, Ordering, less, equal, greater, cmp_nat, cmp_text, ℤ, pos, negsuc, cmp_int,
  normalise_integer, parse_i128, cmp_bigint,
}

-- The value spaces that the engine only calls.
pub record Xsd : Type 1 where
  pub Decimal : Type 0
  pub Float : Type 0
  pub DateTime : Type 0
  pub Date : Type 0
  pub Time : Type 0
  pub Duration : Type 0
  pub parse_decimal : Text → Option Decimal
  pub parse_float : Text → Option Float
  pub parse_date_time : Text → Option DateTime
  pub parse_date : Text → Option Date
  pub parse_time : Text → Option Time
  pub parse_duration : Text → Option Duration
  pub cmp_decimal : Decimal → Decimal → Option Ordering
  pub cmp_float : Float → Float → Option Ordering
  pub cmp_date_time : DateTime → DateTime → Option Ordering
  pub cmp_date : Date → Date → Option Ordering
  pub cmp_time : Time → Time → Option Ordering
  pub cmp_duration : Duration → Duration → Option Ordering
  pub decimal_of_i128 : ℤ → Option Decimal
  pub float_of_i128 : ℤ → Float
  pub float_of_decimal : Decimal → Float
  pub negate : Float → Float
  pub infinity : Float
  pub neg_infinity : Float
  pub nan : Float

-- What the term store tells of a literal.
pub record Literals : Type 0 where
  pub lexical_form : TermId → Option Text
  pub datatype : TermId → Option TermId
  pub language : TermId → Option Text

abbrev pub text_eq : Text → Text → Bool
text_eq [] [] = true
text_eq [] (y ∷ ys) = false
text_eq (x ∷ xs) [] = false
text_eq (x ∷ xs) (y ∷ ys) = x == y && text_eq xs ys

abbrev pub lower : ℕ → ℕ
lower c = if leb 65 c && leb c 90 then c + 32 else c

abbrev pub eq_ignore_ascii_case : Text → Text → Bool
eq_ignore_ascii_case [] [] = true
eq_ignore_ascii_case [] (y ∷ ys) = false
eq_ignore_ascii_case (x ∷ xs) [] = false
eq_ignore_ascii_case (x ∷ xs) (y ∷ ys) = lower x == lower y && eq_ignore_ascii_case xs ys

-- `true`, `1`, `false` and `0`.
abbrev pub parse_boolean : Text → Option Bool
parse_boolean lex =
    if text_eq lex (116 ∷ 114 ∷ 117 ∷ 101 ∷ []) || text_eq lex (49 ∷ [])
    then some true
    else if text_eq lex (102 ∷ 97 ∷ 108 ∷ 115 ∷ 101 ∷ []) || text_eq lex (48 ∷ [])
    then some false
    else none

unfoldable pub is_integer_type : TermId → Vocab → Bool
is_integer_type dt v =
    dt == v.xsd_integer
    || dt == v.xsd_long
    || dt == v.xsd_int
    || dt == v.xsd_short
    || dt == v.xsd_byte
    || dt == v.xsd_non_negative_integer
    || dt == v.xsd_positive_integer
    || dt == v.xsd_non_positive_integer
    || dt == v.xsd_negative_integer
    || dt == v.xsd_unsigned_long
    || dt == v.xsd_unsigned_int
    || dt == v.xsd_unsigned_short
    || dt == v.xsd_unsigned_byte

abbrev pub is_some {ℓ} : {A : Type ℓ} → Option A → Bool
is_some none = false
is_some (some _) = true

abbrev pub not_less : Ordering → Bool
not_less less = false
not_less equal = true
not_less greater = true

abbrev pub at_least : ℤ → ℤ → Bool
at_least lo n = not_less (cmp_int n lo)

abbrev pub in_range : ℤ → ℤ → ℤ → Bool
in_range lo hi n = at_least lo n && at_least n hi

-- The fixed-width types.
abbrev pub fits_type : TermId → Vocab → ℤ → Bool
fits_type dt v n =
    if dt == v.xsd_long
    then in_range (negsuc (2 ^ 63 - 1)) (pos (2 ^ 63 - 1)) n
    else if dt == v.xsd_int
    then in_range (negsuc (2 ^ 31 - 1)) (pos (2 ^ 31 - 1)) n
    else if dt == v.xsd_short
    then in_range (negsuc (2 ^ 15 - 1)) (pos (2 ^ 15 - 1)) n
    else if dt == v.xsd_byte
    then in_range (negsuc (2 ^ 7 - 1)) (pos (2 ^ 7 - 1)) n
    else if dt == v.xsd_unsigned_long
    then in_range (pos 0) (pos (2 ^ 64 - 1)) n
    else if dt == v.xsd_unsigned_int
    then in_range (pos 0) (pos (2 ^ 32 - 1)) n
    else if dt == v.xsd_unsigned_short
    then in_range (pos 0) (pos (2 ^ 16 - 1)) n
    else if dt == v.xsd_unsigned_byte
    then in_range (pos 0) (pos (2 ^ 8 - 1)) n
    else true

abbrev pub fits_parsed : TermId → Vocab → Option ℤ → Bool
fits_parsed dt v none = false
fits_parsed dt v (some n) = fits_type dt v n

abbrev pub well_formed_digits : Text → TermId → Vocab → Option (Bool × Text) → Bool
well_formed_digits lex dt v none = false
well_formed_digits lex dt v (some (neg, digits)) =
    let is_zero = text_eq digits (48 ∷ []) in
    if dt == v.xsd_integer
    then true
    else if dt == v.xsd_non_negative_integer
    then not neg
    else if dt == v.xsd_positive_integer
    then not neg && not is_zero
    else if dt == v.xsd_non_positive_integer
    then neg || is_zero
    else if dt == v.xsd_negative_integer
    then neg && not is_zero
    else fits_parsed dt v (parse_i128 lex)

unfoldable pub is_well_formed_integer : Text → TermId → Vocab → Bool
unfolding normalise_integer parse_i128
is_well_formed_integer lex dt v = well_formed_digits lex dt v (normalise_integer lex)

abbrev pub lex_inf : Text
lex_inf = 73 ∷ 78 ∷ 70 ∷ []

abbrev pub lex_nan : Text
lex_nan = 78 ∷ 97 ∷ 78 ∷ []

-- `infinity`
abbrev pub lex_infinity : Text
lex_infinity = 105 ∷ 110 ∷ 102 ∷ 105 ∷ 110 ∷ 105 ∷ 116 ∷ 121 ∷ []

abbrev pub is_empty : Text → Bool
is_empty [] = true
is_empty (_ ∷ _) = false

-- Basic language ranges.
unfoldable pub language_matches : Text → Text → Bool
language_matches tag range =
    if text_eq range (42 ∷ [])
    then not (is_empty tag)
    else if eq_ignore_ascii_case tag range
    then true
    else (ltb (length range) (length tag)
        && get_or tag (length range) 0 == 45
        && eq_ignore_ascii_case (take (length range) tag) range)

module _ (xsd : Xsd) where
  unfoldable pub parse_xsd_double : Text → Option xsd.Float
  parse_xsd_double lex =
      if text_eq lex lex_inf || text_eq lex (43 ∷ lex_inf)
      then some xsd.infinity
      else if text_eq lex (45 ∷ lex_inf)
      then some xsd.neg_infinity
      else if text_eq lex lex_nan
      then some xsd.nan
      else if eq_ignore_ascii_case lex lex_inf
          || eq_ignore_ascii_case lex lex_infinity
          || eq_ignore_ascii_case lex lex_nan
      then none
      else xsd.parse_float lex

  -- A literal reduced to something comparable.
  pub data Value : Type 0 where
    int : ℤ → Value
    big_int : Bool → Text → Value
    dec : xsd.Decimal → Value
    float : xsd.Float → Value
    str : Text → Value
    bool : Bool → Value
    date_time : xsd.DateTime → Value
    date : xsd.Date → Value
    time : xsd.Time → Value
    duration : xsd.Duration → Value

  abbrev pub or_infinity : Option xsd.Float → xsd.Float
  or_infinity none = xsd.infinity
  or_infinity (some x) = x

  unfoldable pub bigint_as_f64 : Bool → Text → xsd.Float
  bigint_as_f64 neg digits =
      let m = or_infinity (xsd.parse_float digits) in if neg then xsd.negate m else m

  abbrev pub cmp_bool : Bool → Bool → Ordering
  cmp_bool false true = less
  cmp_bool true false = greater
  cmp_bool false false = equal
  cmp_bool true true = equal

  -- `None` where the value spaces differ.
  unfoldable pub compare_values : Value → Value → Option Ordering
  unfolding bigint_as_f64 cmp_bigint
  compare_values (int x) (int y) = some (cmp_int x y)
  compare_values (bool x) (bool y) = some (cmp_bool x y)
  compare_values (str x) (str y) = some (cmp_text x y)
  compare_values (date_time x) (date_time y) = xsd.cmp_date_time x y
  compare_values (date x) (date y) = xsd.cmp_date x y
  compare_values (time x) (time y) = xsd.cmp_time x y
  compare_values (dec x) (dec y) = xsd.cmp_decimal x y
  compare_values (int x) (dec y) = xsd.decimal_of_i128 x >>= λ d. xsd.cmp_decimal d y
  compare_values (dec x) (int y) = xsd.decimal_of_i128 y >>= λ d. xsd.cmp_decimal x d
  compare_values (float x) (float y) = xsd.cmp_float x y
  compare_values (int x) (float y) = xsd.cmp_float (xsd.float_of_i128 x) y
  compare_values (float x) (int y) = xsd.cmp_float x (xsd.float_of_i128 y)
  compare_values (dec x) (float y) = xsd.cmp_float (xsd.float_of_decimal x) y
  compare_values (float x) (dec y) = xsd.cmp_float x (xsd.float_of_decimal y)
  compare_values (duration x) (duration y) = xsd.cmp_duration x y
  compare_values (big_int s d) (big_int s' d') = some (cmp_bigint s d s' d')
  compare_values (big_int s d) (int y) = some (if s then less else greater)
  compare_values (big_int s d) (dec y) = some (if s then less else greater)
  compare_values (int x) (big_int s d) = some (if s then greater else less)
  compare_values (dec x) (big_int s d) = some (if s then greater else less)
  compare_values (big_int s d) (float y) = xsd.cmp_float (bigint_as_f64 s d) y
  compare_values (float x) (big_int s d) = xsd.cmp_float x (bigint_as_f64 s d)
  compare_values _ _ = none

  -- Exact where it fits, digits where it does not.
  abbrev pub integer_value : Text → Bool × Text → Option ℤ → Value
  integer_value lex p (some n) = int n
  integer_value lex p none = big_int p.0 p.1

  abbrev pub as_value : {A : Type 0} → (A → Value) → Option A → Option Value
  as_value f none = none
  as_value f (some a) = some (f a)

  unfoldable pub integer_literal : Text → Option Value
  unfolding normalise_integer parse_i128
  integer_literal lex = do p ← normalise_integer lex; some (integer_value lex p (parse_i128 lex))

  -- The value of a lexical form that has no language tag.
  unfoldable pub typed_value : Vocab → Text → TermId → Option Value
  unfolding is_integer_type integer_literal parse_xsd_double
  typed_value v lex dt =
      if dt == v.xsd_string || dt == v.xsd_any_uri
      then some (str lex)
      else if dt == v.xsd_boolean
      then as_value bool (parse_boolean lex)
      else if is_integer_type dt v
      then integer_literal lex
      else if dt == v.xsd_decimal
      then as_value dec (xsd.parse_decimal lex)
      else if dt == v.xsd_float || dt == v.xsd_double
      then as_value float (parse_xsd_double lex)
      else if dt == v.xsd_date_time
      then as_value date_time (xsd.parse_date_time lex)
      else if dt == v.xsd_date
      then as_value date (xsd.parse_date lex)
      else if dt == v.xsd_time
      then as_value time (xsd.parse_time lex)
      else if dt == v.xsd_duration
      then as_value duration (xsd.parse_duration lex)
      else none

  unfoldable pub value_of : TermId → Literals → Vocab → Option Value
  unfolding typed_value
  value_of t store v = do
    lex ← store.lexical_form t
    dt ← store.datatype t
    elim (store.language t) [ some tag ↦ some (str lex) | none ↦ typed_value v lex dt ]

  unfoldable pub compare : TermId → TermId → Literals → Vocab → Option Ordering
  unfolding value_of compare_values
  compare a b store v = do va ← value_of a store v; vb ← value_of b store v; compare_values va vb

  unfoldable pub is_well_formed : Text → TermId → Vocab → Bool
  unfolding is_integer_type is_well_formed_integer parse_xsd_double
  is_well_formed lex dt v =
      if dt == v.xsd_string || dt == v.rdf_lang_string || dt == v.xsd_any_uri
      then true
      else if dt == v.xsd_boolean
      then is_some (parse_boolean lex)
      else if is_integer_type dt v
      then is_well_formed_integer lex dt v
      else if dt == v.xsd_decimal
      then is_some (xsd.parse_decimal lex)
      else if dt == v.xsd_float || dt == v.xsd_double
      then is_some (parse_xsd_double lex)
      else if dt == v.xsd_date_time
      then is_some (xsd.parse_date_time lex)
      else if dt == v.xsd_date
      then is_some (xsd.parse_date lex)
      else if dt == v.xsd_time
      then is_some (xsd.parse_time lex)
      else if dt == v.xsd_duration
      then is_some (xsd.parse_duration lex)
      else true

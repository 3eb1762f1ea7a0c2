-- ===== src/Datatypes/Integers/Order.antt =====
-- What normalising keeps, and the order of integers that are held as digits.
use native.Mathlib.Nat.{pow-le-pow_right}
use shacl_engine.Common.{
  ℕ, zero, suc, ◌-◌, ◌*◌, ◌^◌, ◌≤◌, ◌<◌, ◌≡◌, ◌≢◌, refl, sym, ap, ◌∙◌, ◌⊎◌, inl, inr, Bool, true,
  false, none, some, [], ◌∷◌, length, ◌==◌, if◌then◌else◌, arith, Bool-cases,
}
use shacl_engine.Datatypes.Integers.{
  Text, less, greater, reverse_order, cmp_nat, ℤ, pos, negsuc, cmp_int, signed, all_digits, sign_of,
  unsigned_part, trim_zeros, is_digits, normalise_digits, normalise_integer, value, integer_of,
  fits_i128, cmp_bigint,
}
use shacl_engine.Datatypes.Integers.Digits.{
  value-ge, cmp_nat-less, cmp_nat-greater, IsNormal, magnitude_lem,
}

-- A normalised integer: no leading zero, and no negative zero.
pub record IsNormalised (neg : Bool) (ds : Text) : Type 0 where
  pub normal : IsNormal ds
  pub digits : all_digits ds ≡ true
  pub zero_sign : value ds ≡ 0 → neg ≡ false

value-trim_zeros : (ds : Text) → value (trim_zeros ds) ≡ value ds
value-trim_zeros [] = refl
value-trim_zeros (c ∷ cs) = elim (Bool-cases (c == 48)) [
  | inl e ↦
      let none_here : (c - 48) * 10 ^ length cs ≡ 0 =
        let z : c - 48 ≡ 0 = ground (arith, e) in rw z (omega arith) in
      rw e (value-trim_zeros cs ∙ omega (arith, none_here))
  | inr e ↦ rw e refl
]

trim_zeros-digits : (ds : Text) → all_digits ds ≡ true → all_digits (trim_zeros ds) ≡ true
trim_zeros-digits [] h = refl
trim_zeros-digits (c ∷ cs) h = ground (arith, trim_zeros-digits cs, h)

-- What is left starts with no zero.
trim_zeros-lead :
    (ds : Text)
    → (trim_zeros ds ≡ []) ⊎ ((c : ℕ) × (cs : Text) × (trim_zeros ds ≡ c ∷ cs) × (c ≢ 48))
trim_zeros-lead [] = inl refl
trim_zeros-lead (c ∷ cs) = elim (Bool-cases (c == 48)) [
  | inl e ↦ rw e (trim_zeros-lead cs)
  | inr e ↦ inr (c, cs, rw e refl, ground (arith, e))
]

pub value_pos : (c : ℕ) (cs : Text) → 48 < c → 0 < value (c ∷ cs)
value_pos c cs h =
    let one_le : 10 ^ 0 ≤ 10 ^ length cs = pow-le-pow_right (omega arith) {i = 0} (omega arith) in
    omega (arith, one_le, value-ge c cs h)

signed_zero : (neg : Bool) → signed neg 0 ≡ pos 0
signed_zero false = refl
signed_zero true = refl

normalise_digits_lem :
    (neg : Bool) (ds : Text)
    → all_digits ds ≡ true
    → IsNormalised (normalise_digits neg (trim_zeros ds)).0 (normalise_digits neg (trim_zeros ds)).1
      × (signed
            (normalise_digits neg (trim_zeros ds)).0
            (value (normalise_digits neg (trim_zeros ds)).1)
          ≡ signed neg (value ds))
normalise_digits_lem neg ds h = elim (trim_zeros-lead ds) [
  | inl e ↦
      let nothing : value ds ≡ 0 = sym (value-trim_zeros ds) ∙ ap value e in
      rw (e, nothing)
        (
          record { normal = (refl, inr refl); digits = refl; zero_sign = λ z. refl },
          sym (signed_zero neg),
        )
  | inr (c, cs, e, n) ↦
      let digits : all_digits (c ∷ cs) ≡ true = rw e at (trim_zeros-digits ds h) in
      rw e (
        record {
          normal = (digits, inl n);
          digits = digits;
          zero_sign = λ z. absurd (omega (arith, z, value_pos c cs (ground (arith, digits, n))));
        },
        ap (signed neg) (sym (ap value e) ∙ value-trim_zeros ds),
      )
]

is_digits-all_digits : (ds : Text) → is_digits ds ≡ true → all_digits ds ≡ true
is_digits-all_digits [] h = cc
is_digits-all_digits (c ∷ cs) h = h

-- Normalising keeps the integer.
pub data Normalises (lex : Text) : Type 0 where
  malformed : normalise_integer lex ≡ none → integer_of lex ≡ none → Normalises lex
  number :
      (neg : Bool) (ds : Text)
      → normalise_integer lex ≡ some (neg, ds)
      → IsNormalised neg ds
      → integer_of lex ≡ some (signed neg (value ds))
      → Normalises lex

pub normalises : (lex : Text) → Normalises lex
unfolding normalise_integer integer_of
normalises [] = malformed refl refl
normalises (c ∷ cs) = elim (Bool-cases (is_digits (unsigned_part c cs))) [
  | inl e ↦
      let (good, same) =
        normalise_digits_lem (sign_of c) (unsigned_part c cs)
          (is_digits-all_digits (unsigned_part c cs) e) in
      number (normalise_digits (sign_of c) (trim_zeros (unsigned_part c cs))).0
        (normalise_digits (sign_of c) (trim_zeros (unsigned_part c cs))).1 (rw e refl) good
        (rw e (ap some (sym same)))
  | inr e ↦ malformed (rw e refl) (rw e refl)
]

reverse-cmp_nat : (m n : ℕ) → reverse_order (cmp_nat m n) ≡ cmp_nat n m
reverse-cmp_nat m n = ground arith

pub reverse-cmp_int : (x y : ℤ) → reverse_order (cmp_int x y) ≡ cmp_int y x
reverse-cmp_int (pos m) (pos n) = reverse-cmp_nat m n
reverse-cmp_int (pos m) (negsuc n) = refl
reverse-cmp_int (negsuc m) (pos n) = refl
reverse-cmp_int (negsuc m) (negsuc n) = reverse-cmp_nat n m

pub negative : (ds : Text) → IsNormalised true ds → (n : ℕ) × (value ds ≡ suc n)
negative ds h = elim (Bool-cases (value ds == 0)) [
  | inl e ↦ let wrong = h.zero_sign (ground (arith, e)) in cc
  | inr e ↦ (value ds - 1, ground (arith, e))
]

cmp_nat-suc : (m n : ℕ) → cmp_nat (suc m) (suc n) ≡ cmp_nat m n
cmp_nat-suc m n = ground arith

-- Digit-wise comparison of normalised integers is the order of the integers.
pub cmp_bigint_lem :
    (na : Bool) (a : Text) (nb : Bool) (b : Text)
    → IsNormalised na a
    → IsNormalised nb b
    → cmp_bigint na a nb b ≡ cmp_int (signed na (value a)) (signed nb (value b))
unfolding cmp_bigint
cmp_bigint_lem false a false b ha hb = magnitude_lem a b ha.normal hb.normal ha.digits hb.digits
cmp_bigint_lem false a true b ha hb = let (n, e) = negative b hb in rw e refl
cmp_bigint_lem true a false b ha hb = let (n, e) = negative a ha in rw e refl
cmp_bigint_lem true a true b ha hb =
    let (m, e) = negative a ha in
    let (n, f) = negative b hb in
    ap reverse_order (magnitude_lem a b ha.normal hb.normal ha.digits hb.digits)
    ∙ reverse-cmp_nat (value a) (value b)
    ∙ rw (e, f) (cmp_nat-suc n m)

-- What does not fit is beyond all that does, on the side of its sign.
pub cmp_int-beyond :
    (neg : Bool) (n : ℕ) (y : ℤ)
    → fits_i128 (signed neg n) ≡ false
    → fits_i128 y ≡ true
    → cmp_int (signed neg n) y ≡ (if neg then less else greater)
cmp_int-beyond false n (pos m) h k = cmp_nat-greater n m (ground (arith, h, k))
cmp_int-beyond false n (negsuc m) h k = refl
cmp_int-beyond true zero y h k = cc
cmp_int-beyond true (suc n) (pos m) h k = refl
cmp_int-beyond true (suc n) (negsuc m) h k = cmp_nat-less m n (ground (arith, h, k))

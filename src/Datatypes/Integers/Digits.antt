-- ===== src/Datatypes/Integers/Digits.antt =====
-- Comparing the digits of normalised numbers compares the numbers.
use native.Mathlib.Nat.{pow-succ', pow-le-pow_right}
use shacl_engine.Common.{
  ℕ, zero, suc, ◌+◌, ◌-◌, ◌*◌, ◌^◌, ◌≤◌, ◌<◌, ◌≡◌, ◌≢◌, refl, sym, ap, ◌∙◌, ◌⊎◌, inl, inr, ⊎_elim,
  true, [], ◌∷◌, length, ltb, ◌==◌, arith, Bool-cases,
}
use shacl_engine.Datatypes.Integers.{
  Text, less, equal, greater, then_with, cmp_nat, cmp_text, all_digits, value,
}

pub cmp_nat-less : (m n : ℕ) → m < n → cmp_nat m n ≡ less
cmp_nat-less m n h = ground (arith, h)

pub cmp_nat-greater : (m n : ℕ) → n < m → cmp_nat m n ≡ greater
cmp_nat-greater m n h = ground (arith, h)

pub cmp_nat-equal : (m n : ℕ) → m ≡ n → cmp_nat m n ≡ equal
cmp_nat-equal m n h = ground (arith, h)

cmp_nat-add : (k m n : ℕ) → cmp_nat (k + m) (k + n) ≡ cmp_nat m n
cmp_nat-add k m n = ground arith

pub data Compared (m n : ℕ) : Type 0 where
  below : m < n → Compared m n
  level : m ≡ n → Compared m n
  above : n < m → Compared m n

pub compared : (m n : ℕ) → Compared m n
compared m n = elim (Bool-cases (ltb m n)) [
  | inl e ↦ below (ground (arith, e))
  | inr e ↦ elim (Bool-cases (m == n)) [
    | inl q ↦ level (ground (arith, q))
    | inr q ↦ above (ground (arith, e, q))
  ]
]

mul_mono : (a b p : ℕ) → a ≤ b → a * p ≤ b * p
mul_mono zero b p h = omega arith
mul_mono (suc a) zero p h = absurd (omega arith)
mul_mono (suc a) (suc b) p h = let ih = mul_mono a b p (omega arith) in omega (arith, ih)

-- A smaller leading digit makes the smaller number.
lead_lt : (a b p u w : ℕ) → a < b → u < p → a * p + u < b * p + w
lead_lt a b p u w h k = let le = mul_mono (suc a) b p h in omega (arith, le)

pow_step : (n : ℕ) → 10 ^ suc n ≡ 10 * 10 ^ n
pow_step n = pow-succ' 10 n

pub value-lt : (ds : Text) → all_digits ds ≡ true → value ds < 10 ^ length ds
value-lt [] h = omega arith
value-lt (c ∷ cs) h =
    let rest = value-lt cs (ground (arith, h)) in
    let small : c - 48 < 10 = ground (arith, h) in
    let top = lead_lt (c - 48) 10 (10 ^ length cs) (value cs) 0 small rest in
    omega (arith, top, pow_step (length cs))

pub value-ge : (c : ℕ) (cs : Text) → 48 < c → 10 ^ length cs ≤ value (c ∷ cs)
value-ge c cs h = let le = mul_mono 1 (c - 48) (10 ^ length cs) (omega arith) in omega (arith, le)

-- On as many digits, bytewise order is the order of the numbers.
cmp_text-value :
    (a b : Text)
    → length a ≡ length b
    → all_digits a ≡ true
    → all_digits b ≡ true
    → cmp_text a b ≡ cmp_nat (value a) (value b)
cmp_text-value [] [] e ha hb = refl
cmp_text-value [] (y ∷ ys) e ha hb = absurd (omega (arith, e))
cmp_text-value (x ∷ xs) [] e ha hb = absurd (omega (arith, e))
cmp_text-value (x ∷ xs) (y ∷ ys) e ha hb =
    let same : length xs ≡ length ys = omega (arith, e) in
    let ih = cmp_text-value xs ys same (ground (arith, ha)) (ground (arith, hb)) in
    let shift : (c : ℕ) → (c - 48) * 10 ^ length xs ≡ (c - 48) * 10 ^ length ys =
      λ c. ap (λ n. (c - 48) * 10 ^ n) same in
    let low = value-lt xs (ground (arith, ha)) in
    let low' = value-lt ys (ground (arith, hb)) in
    elim (compared x y) [
      | below l ↦
          let lt =
            lead_lt (x - 48) (y - 48) (10 ^ length xs) (value xs) (value ys) (ground (arith, l, ha))
              low in
          rw (cmp_nat-less x y l)
            (sym (cmp_nat-less (value (x ∷ xs)) (value (y ∷ ys)) (omega (arith, lt, shift y))))
      | level q ↦
          rw (q, cmp_nat-equal y y refl, same)
            (ih ∙ sym (cmp_nat-add ((y - 48) * 10 ^ length ys) (value xs) (value ys)))
      | above g ↦
          let lt =
            lead_lt (y - 48) (x - 48) (10 ^ length ys) (value ys) (value xs) (ground (arith, g, hb))
              low' in
          rw (cmp_nat-greater x y g)
            (sym (cmp_nat-greater (value (x ∷ xs)) (value (y ∷ ys)) (omega (arith, lt, shift x))))
    ]

-- Digits with no leading zero, or the one zero.
abbrev pub IsNormal : Text → Type 0
IsNormal [] = ⊥
IsNormal (c ∷ cs) = (all_digits (c ∷ cs) ≡ true) × ((c ≢ 48) ⊎ (cs ≡ []))

shorter-value : (a b : Text) → IsNormal a → IsNormal b → length a < length b → value a < value b
shorter-value [] b ha hb h = absurd ha
shorter-value (x ∷ xs) [] ha hb h = absurd hb
shorter-value (x ∷ xs) (y ∷ ys) ha hb h =
    let top = value-lt (x ∷ xs) ha.0 in
    let power : 10 ^ suc (length xs) ≤ 10 ^ length ys =
      pow-le-pow_right (omega arith) (omega (arith, h)) in
    ⊎_elim (λ lead. omega (arith, top, power, value-ge y ys (ground (arith, hb.0, lead))))
      (λ single. absurd (omega (arith, h, ap (λ (t : Text). length t) single))) hb.1

-- Length first, then bytewise: the order of the numbers.
pub magnitude_lem :
    (a b : Text)
    → IsNormal a
    → IsNormal b
    → all_digits a ≡ true
    → all_digits b ≡ true
    → then_with (cmp_nat (length a) (length b)) (cmp_text a b) ≡ cmp_nat (value a) (value b)
magnitude_lem a b ha hb da db = elim (compared (length a) (length b)) [
  | below l ↦
      rw (cmp_nat-less (length a) (length b) l)
        (sym (cmp_nat-less (value a) (value b) (shorter-value a b ha hb l)))
  | level q ↦ rw (cmp_nat-equal (length a) (length b) q) (cmp_text-value a b q da db)
  | above g ↦
      rw (cmp_nat-greater (length a) (length b) g)
        (sym (cmp_nat-greater (value a) (value b) (shorter-value b a hb ha g)))
]

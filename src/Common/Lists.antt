-- ===== src/Common/Lists.antt =====
-- Lists under native indices, selection by a Boolean test, and membership.
use Prim.Native.Nat.{ℕ, zero, suc, ◌+◌, ◌≤◌, ◌<◌}
use mathlib.Core.Path.{◌≡◌, refl, ap}
use mathlib.Core.Logic.{◌⊎◌, inl, inr, ◌↔◌, ⊎_elim}
use mathlib.Core.Bool.{Bool, true, false, not}
use mathlib.Core.Option.{Option, none, some}
use mathlib.Core.List.{List, [], ◌∷◌, ◌++◌, map, Memᴰ}
use mathlib.Core.List.Memᴰ
use native.Mathlib.Omega.{arith}
use shacl_engine.Common.Tests.{if◌then◌else◌, Bool-cases}

module _ {ℓ} {A : Type ℓ} where
  abbrev pub length : List A → ℕ
  length [] = 0
  length (_ ∷ xs) = suc (length xs)

  abbrev pub get_elem? : List A → ℕ → Option A
  get_elem? [] i = none
  get_elem? (x ∷ xs) zero = some x
  get_elem? (x ∷ xs) (suc i) = get_elem? xs i

  abbrev pub get_or : List A → ℕ → A → A
  get_or [] i d = d
  get_or (x ∷ xs) zero d = x
  get_or (x ∷ xs) (suc i) d = get_or xs i d

  abbrev pub take : ℕ → List A → List A
  take zero xs = []
  take (suc n) [] = []
  take (suc n) (x ∷ xs) = x ∷ take n xs

  abbrev pub drop : ℕ → List A → List A
  drop zero xs = xs
  drop (suc n) [] = []
  drop (suc n) (x ∷ xs) = drop n xs

  -- What a test keeps, in order.
  abbrev pub filter : (A → Bool) → List A → List A
  filter p [] = []
  filter p (x ∷ xs) = let rest = filter p xs in if p x then x ∷ rest else rest

  pub length-append : (xs ys : List A) → length (xs ++ ys) ≡ length xs + length ys
  length-append [] ys = omega arith
  length-append (x ∷ xs) ys = omega (arith, length-append xs ys)

  pub List-cases : (xs : List A) → (xs ≡ []) ⊎ ((x : A) × (rest : List A) × (xs ≡ x ∷ rest))
  List-cases [] = inl refl
  List-cases (x ∷ xs) = inr (x, xs, refl)

  pub Memᴰ-cons : (a x : A) (xs : List A) → Memᴰ a (x ∷ xs) ↔ ((a ≡ x) ⊎ Memᴰ a xs)
  Memᴰ-cons a x xs = (Memᴰ.cases_cons, ⊎_elim Memᴰ.head Memᴰ.tail)

  pub Memᴰ-append : (a : A) (xs ys : List A) → Memᴰ a (xs ++ ys) ↔ (Memᴰ a xs ⊎ Memᴰ a ys)
  Memᴰ-append a xs ys = (Memᴰ.append_cases xs, ⊎_elim (Memᴰ.append_left ys) (Memᴰ.append_right xs))

  pub Memᴰ-nil : (a : A) → ¬ Memᴰ a []
  Memᴰ-nil a m = Memᴰ.not-nil m

module _ {ℓ} {A : Type ℓ} where
  pub Memᴰ-filter :
      (p : A → Bool) (a : A) (xs : List A) → Memᴰ a (filter p xs) ↔ (Memᴰ a xs × (p a ≡ true))
  Memᴰ-filter p a [] = (λ m. absurd (Memᴰ.not-nil m), λ m. absurd (Memᴰ.not-nil m.0))
  Memᴰ-filter p a (x ∷ xs) = ground (
    arith,
    Memᴰ-filter p a xs,
    Memᴰ-cons a x xs,
    Memᴰ-cons a x (filter p xs),
    λ (e : a ≡ x). ap p e,
  )

  pub length-filter-le : (p : A → Bool) (xs : List A) → length (filter p xs) ≤ length xs
  length-filter-le p [] = omega arith
  length-filter-le p (x ∷ xs) = ground (arith, length-filter-le p xs)

  pub filter-append :
      (p : A → Bool) (xs ys : List A) → filter p (xs ++ ys) ≡ filter p xs ++ filter p ys
  filter-append p [] ys = refl
  filter-append p (x ∷ xs) ys = elim (Bool-cases (p x)) [
    | inl e ↦ rw (e, filter-append p xs ys)
    | inr e ↦ rw (e, filter-append p xs ys)
  ]

module _ {ℓ} {A : Type ℓ} (p q : A → Bool) (weaker : (x : A) → q x ≡ true → p x ≡ true) where
  length-filter_mono : (xs : List A) → length (filter q xs) ≤ length (filter p xs)
  length-filter_mono [] = omega arith
  length-filter_mono (x ∷ xs) = ground (arith, length-filter_mono xs, weaker x)

  -- A test that drops one member more keeps fewer.
  pub length-filter_lt :
      (y : A) (xs : List A)
      → Memᴰ y xs
      → p y ≡ true
      → q y ≡ false
      → length (filter q xs) < length (filter p xs)
  length-filter_lt y [] m hp hq = absurd (Memᴰ.not-nil m)
  length-filter_lt y (x ∷ xs) m hp hq = elim (Memᴰ.cases_cons m) [
    | inl e ↦ ground (arith, length-filter_mono xs, weaker x, ap p e, ap q e)
    | inr k ↦ ground (arith, length-filter_lt y xs k hp hq, weaker x)
  ]

pub length-map {ℓ κ} :
    {A : Type ℓ} {B : Type κ} (f : A → B) (xs : List A) → length (map f xs) ≡ length xs
length-map f [] = refl
length-map f (x ∷ xs) = ap suc (length-map f xs)

pub length-filter_split {ℓ} :
    {A : Type ℓ} (p : A → Bool) (xs : List A)
    → length (filter p xs) + length (filter (λ x. not (p x)) xs) ≡ length xs
length-filter_split p [] = refl
length-filter_split p (x ∷ xs) = ground (arith, length-filter_split p xs)

-- A test that refuses a member keeps fewer than there are.
pub length-filter-all {ℓ} :
    {A : Type ℓ} (q : A → Bool) (y : A) (xs : List A)
    → Memᴰ y xs
    → q y ≡ false
    → length (filter q xs) < length xs
length-filter-all q y [] m h = absurd (Memᴰ.not-nil m)
length-filter-all q y (x ∷ xs) m h = elim (Memᴰ.cases_cons m) [
  | inl e ↦ ground (arith, length-filter-le q xs, ap q e)
  | inr k ↦ ground (arith, length-filter-all q y xs k h)
]

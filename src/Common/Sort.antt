-- ===== src/Common/Sort.antt =====
-- `sort_unstable` and `dedup`: the ascending list of what a list holds, with and without repeats.
-- The library's sort is modelled by insertion; over a total order every sort returns that list.
use mathlib.Core.List.Memᴰ
use shacl_engine.Common.Tests.{if◌then◌else◌, Bool-cases}
use shacl_engine.Common.Lists.{length, Memᴰ-cons}
use shacl_engine.Common.Order.{Ord}
use Prim.Native.Nat.{suc, ◌≤◌}
use mathlib.Core.Path.{◌≡◌, refl, ap}
use mathlib.Core.Logic.{◌⊎◌, inl, inr, ◌↔◌, ⊎_elim}
use mathlib.Core.Bool.{true, false}
use mathlib.Core.List.{List, [], ◌∷◌, Memᴰ}
use native.Mathlib.Omega.{arith}

module _ {ℓ} {A : Type ℓ} ⦃o : Ord A⦄ where
  insert : A → List A → List A
  insert x [] = x ∷ []
  insert x (y ∷ ys) = let rest = insert x ys in if o.lt y x then y ∷ rest else x ∷ y ∷ ys

  unfoldable pub sort : List A → List A
  unfolding insert
  sort [] = []
  sort (x ∷ xs) = insert x (sort xs)

  -- Equal neighbours collapse; `==` is "neither is below the other".
  unfoldable pub dedup : List A → List A
  dedup [] = []
  dedup (x ∷ []) = x ∷ []
  dedup (x ∷ y ∷ ys) =
      let rest = dedup (y ∷ ys) in
      if o.lt x y then x ∷ rest else if o.lt y x then x ∷ rest else rest

  abbrev pub Above : A → List A → Type ℓ
  Above x ys = (y : A) → Memᴰ y ys → o.lt y x ≡ false

  abbrev pub IsSorted : List A → Type ℓ
  IsSorted [] = Unit
  IsSorted (x ∷ xs) = Above x xs × IsSorted xs

  abbrev pub StrictlyAbove : A → List A → Type ℓ
  StrictlyAbove x ys = (y : A) → Memᴰ y ys → o.lt x y ≡ true

  -- Ascending with no repeats.
  abbrev pub IsStrict : List A → Type ℓ
  IsStrict [] = Unit
  IsStrict (x ∷ xs) = StrictlyAbove x xs × IsStrict xs

  pub asymm : (a b : A) → o.lt a b ≡ true → o.lt b a ≡ false
  asymm a b h = ground (arith, o.trans a b a, o.irrefl a)

  Memᴰ-insert : (a x : A) (xs : List A) → Memᴰ a (insert x xs) ↔ ((a ≡ x) ⊎ Memᴰ a xs)
  unfolding insert
  Memᴰ-insert a x [] = Memᴰ-cons a x []
  Memᴰ-insert a x (y ∷ ys) = ground (
    arith,
    Memᴰ-insert a x ys,
    Memᴰ-cons a y ys,
    Memᴰ-cons a y (insert x ys),
    Memᴰ-cons a x (y ∷ ys),
  )

  pub Memᴰ-sort : (a : A) (xs : List A) → Memᴰ a (sort xs) ↔ Memᴰ a xs
  unfolding sort
  Memᴰ-sort a [] = (λ m. m, λ m. m)
  Memᴰ-sort a (x ∷ xs) = ground (arith, Memᴰ-insert a x (sort xs), Memᴰ-sort a xs, Memᴰ-cons a x xs)

  -- What is not below `y` and `y` not below `x` is not below `x`.
  not_lt_trans : (x y z : A) → o.lt y x ≡ false → o.lt z y ≡ false → o.lt z x ≡ false
  not_lt_trans x y z h k =
      ground (arith, o.trans z x y, o.trans y z x, o.connex x y, λ (e : x ≡ y). ap (o.lt z) e)

  insert-IsSorted : (x : A) (xs : List A) → IsSorted xs → IsSorted (insert x xs)
  unfolding insert
  insert-IsSorted x [] h = (λ y m. absurd (Memᴰ.not-nil m), tt)
  insert-IsSorted x (y ∷ ys) h = elim (Bool-cases (o.lt y x)) [
    | inl below ↦ rw below (
      λ z m. ⊎_elim (λ (e : z ≡ x). rw e (asymm y x below)) (h.0 z) ((Memᴰ-insert z x ys).0 m),
      insert-IsSorted x ys h.1,
    )
    | inr above ↦ rw above (
      λ z m.
          ⊎_elim (λ (e : z ≡ y). rw e above) (λ k. not_lt_trans x y z above (h.0 z k))
            (Memᴰ.cases_cons m),
      h,
    )
  ]

  pub sort-IsSorted : (xs : List A) → IsSorted (sort xs)
  unfolding sort
  sort-IsSorted [] = tt
  sort-IsSorted (x ∷ xs) = insert-IsSorted x (sort xs) (sort-IsSorted xs)

  length-insert : (x : A) (xs : List A) → length (insert x xs) ≡ suc (length xs)
  unfolding insert
  length-insert x [] = refl
  length-insert x (y ∷ ys) = ground (arith, length-insert x ys)

  pub length-sort : (xs : List A) → length (sort xs) ≡ length xs
  unfolding sort
  length-sort [] = refl
  length-sort (x ∷ xs) = omega (arith, length-insert x (sort xs), length-sort xs)

  pub length-dedup-le : (xs : List A) → length (dedup xs) ≤ length xs
  unfolding dedup
  length-dedup-le [] = omega arith
  length-dedup-le (x ∷ []) = omega arith
  length-dedup-le (x ∷ y ∷ ys) = ground (arith, length-dedup-le (y ∷ ys))

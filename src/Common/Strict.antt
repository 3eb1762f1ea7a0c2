-- ===== src/Common/Strict.antt =====
-- Ascending lists with no repeats: what `sort` and `dedup` leave is determined by its members.
use mathlib.Core.List.Memᴰ
use mathlib.Core.List.{List, [], ◌∷◌, Memᴰ}
use mathlib.Core.Path.{◌≡◌, refl, ap, ap₂, subst}
use mathlib.Core.Logic.{inl, inr, ◌↔◌, ⊎_elim}
use mathlib.Core.Bool.{Bool, true}
use Prim.Native.Nat.{◌≤◌}
use native.Mathlib.Omega.{arith}
use shacl_engine.Common.Tests.{if◌then◌else◌, Bool-cases}
use shacl_engine.Common.Lists.{length, filter, Memᴰ-cons, Memᴰ-filter}
use shacl_engine.Common.Order.{Ord}
use shacl_engine.Common.Sort.{
  sort, dedup, IsSorted, StrictlyAbove, IsStrict, asymm, Memᴰ-sort, sort-IsSorted, length-sort,
  length-dedup-le,
}

module _ {ℓ} {A : Type ℓ} ⦃o : Ord A⦄ where
  Memᴰ-dedup_step :
      (x y : A) (ys rest : List A)
      → ((a : A) → Memᴰ a rest ↔ Memᴰ a (y ∷ ys))
      → (a : A)
      → Memᴰ a (if o.lt x y then x ∷ rest else if o.lt y x then x ∷ rest else rest)
        ↔ Memᴰ a (x ∷ y ∷ ys)
  Memᴰ-dedup_step x y ys rest ih a =
      ground
        (arith, ih a, Memᴰ-cons a x rest, Memᴰ-cons a x (y ∷ ys), Memᴰ-cons a y ys, o.connex x y)

  pub Memᴰ-dedup : (a : A) (xs : List A) → Memᴰ a (dedup xs) ↔ Memᴰ a xs
  unfolding dedup
  Memᴰ-dedup a [] = (λ m. m, λ m. m)
  Memᴰ-dedup a (x ∷ []) = (λ m. m, λ m. m)
  Memᴰ-dedup a (x ∷ y ∷ ys) = Memᴰ-dedup_step x y ys (dedup (y ∷ ys)) (λ b. Memᴰ-dedup b (y ∷ ys)) a

  dedup_step-IsStrict :
      (x y : A) (ys rest : List A)
      → IsSorted (x ∷ y ∷ ys)
      → ((a : A) → Memᴰ a rest → Memᴰ a (y ∷ ys))
      → IsStrict rest
      → IsStrict (if o.lt x y then x ∷ rest else if o.lt y x then x ∷ rest else rest)
  dedup_step-IsStrict x y ys rest sorted inside strict = elim (Bool-cases (o.lt x y)) [
    | inl below ↦ rw below (
      λ z m.
          ⊎_elim (λ (e : z ≡ y). rw e below)
            (λ k. ground (
              arith,
              sorted.1.0 z k,
              o.connex z y,
              o.trans x y z,
              below,
              λ (e : z ≡ y). ap (o.lt x) e,
            ))
            (Memᴰ.cases_cons (inside z m)),
      strict,
    )
    | inr level ↦ rw (level, sorted.0 y (Memᴰ.head refl)) strict
  ]

  pub dedup-IsStrict : (xs : List A) → IsSorted xs → IsStrict (dedup xs)
  unfolding dedup
  dedup-IsStrict [] h = tt
  dedup-IsStrict (x ∷ []) h = (λ y m. absurd (Memᴰ.not-nil m), tt)
  dedup-IsStrict (x ∷ y ∷ ys) h =
      dedup_step-IsStrict x y ys (dedup (y ∷ ys)) h (λ a. (Memᴰ-dedup a (y ∷ ys)).0)
        (dedup-IsStrict (y ∷ ys) h.1)

  unfoldable pub sort_dedup : List A → List A
  unfolding sort dedup
  sort_dedup xs = dedup (sort xs)

  pub sort_dedup-IsStrict : (xs : List A) → IsStrict (sort_dedup xs)
  unfolding sort_dedup
  sort_dedup-IsStrict xs = dedup-IsStrict (sort xs) (sort-IsSorted xs)

  pub Memᴰ-sort_dedup : (a : A) (xs : List A) → Memᴰ a (sort_dedup xs) ↔ Memᴰ a xs
  unfolding sort_dedup
  Memᴰ-sort_dedup a xs = ground (arith, Memᴰ-dedup a (sort xs), Memᴰ-sort a xs)

  pub length-sort_dedup-le : (xs : List A) → length (sort_dedup xs) ≤ length xs
  unfolding sort_dedup
  length-sort_dedup-le xs = omega (arith, length-sort xs, length-dedup-le (sort xs))

  abbrev pub Subset : List A → List A → Type ℓ
  Subset xs ys = (a : A) → Memᴰ a xs → Memᴰ a ys

  -- All of a strict list lies in `ys` if it lies in `y ∷ ys` and starts behind `y`.
  drop_head :
      (x y : A) (xs ys : List A)
      → IsStrict (x ∷ xs)
      → IsStrict (y ∷ ys)
      → Memᴰ x ys
      → Subset (x ∷ xs) (y ∷ ys)
      → Subset (x ∷ xs) ys
  drop_head x y xs ys hx hy m sub a k =
      ⊎_elim
        (λ (e : a ≡ y).
          ⊎_elim (λ (f : a ≡ x). Memᴰ.cast f m)
            (λ later.
              let below : o.lt x y ≡ true = subst (λ t. o.lt x t ≡ true) e (hx.0 a later) in
              absurd (ground (arith, asymm y x (hy.0 x m), below)))
            (Memᴰ.cases_cons k))
        (λ found. found) (Memᴰ.cases_cons (sub a k))

  -- The tails of two lists with the same head.
  drop_heads :
      (x y : A) (xs ys : List A)
      → x ≡ y
      → StrictlyAbove x xs
      → Subset (x ∷ xs) (y ∷ ys)
      → Subset xs ys
  drop_heads x y xs ys e hx sub a m =
      ⊎_elim
        (λ (f : a ≡ y). absurd (ground (arith, hx a m, o.irrefl x, ap (o.lt x) f, ap (o.lt x) e)))
        (λ k. k) (Memᴰ.cases_cons (sub a (Memᴰ.tail m)))

  pub length-le_of_Subset :
      (xs ys : List A) → IsStrict xs → IsStrict ys → Subset xs ys → length xs ≤ length ys
  length-le_of_Subset [] ys hx hy sub = omega arith
  length-le_of_Subset (x ∷ xs) [] hx hy sub = absurd (Memᴰ.not-nil (sub x (Memᴰ.head refl)))
  length-le_of_Subset (x ∷ xs) (y ∷ ys) hx hy sub =
      ⊎_elim
        (λ e.
          let ih = length-le_of_Subset xs ys hx.1 hy.1 (drop_heads x y xs ys e hx.0 sub) in
          omega (arith, ih))
        (λ m.
          let ih = length-le_of_Subset (x ∷ xs) ys hx hy.1 (drop_head x y xs ys hx hy m sub) in
          omega (arith, ih))
        (Memᴰ.cases_cons (sub x (Memᴰ.head refl)))

  -- A strict list inside another of the same length is that list.
  pub eq_of_length :
      (xs ys : List A) → IsStrict xs → IsStrict ys → Subset xs ys → length ys ≤ length xs → xs ≡ ys
  eq_of_length [] [] hx hy sub le = refl
  eq_of_length [] (y ∷ ys) hx hy sub le = absurd (omega arith)
  eq_of_length (x ∷ xs) [] hx hy sub le = absurd (Memᴰ.not-nil (sub x (Memᴰ.head refl)))
  eq_of_length (x ∷ xs) (y ∷ ys) hx hy sub le =
      ⊎_elim
        (λ e.
          ap₂ ◌∷◌ e (eq_of_length xs ys hx.1 hy.1 (drop_heads x y xs ys e hx.0 sub) (omega arith)))
        (λ m.
          let short = length-le_of_Subset (x ∷ xs) ys hx hy.1 (drop_head x y xs ys hx hy m sub) in
          absurd (omega arith))
        (Memᴰ.cases_cons (sub x (Memᴰ.head refl)))

  -- Two strict lists with the same members are equal.
  pub eq_of_members :
      (xs ys : List A) → IsStrict xs → IsStrict ys → Subset xs ys → Subset ys xs → xs ≡ ys
  eq_of_members xs ys hx hy sub sup =
      eq_of_length xs ys hx hy sub (length-le_of_Subset ys xs hy hx sup)

  pub filter-IsStrict : (p : A → Bool) (xs : List A) → IsStrict xs → IsStrict (filter p xs)
  filter-IsStrict p [] h = tt
  filter-IsStrict p (x ∷ xs) h = elim (Bool-cases (p x)) [
    | inl e ↦ rw e (λ y m. h.0 y ((Memᴰ-filter p y xs).0 m).0, filter-IsStrict p xs h.1)
    | inr e ↦ rw e (filter-IsStrict p xs h.1)
  ]

  pub IsStrict→IsSorted : (xs : List A) → IsStrict xs → IsSorted xs
  IsStrict→IsSorted [] h = tt
  IsStrict→IsSorted (x ∷ xs) h = (λ y m. asymm x y (h.0 y m), IsStrict→IsSorted xs h.1)

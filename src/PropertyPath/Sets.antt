-- ===== src/PropertyPath/Sets.antt =====
-- Total correctness of path evaluation: with enough fuel it returns, and each row is exact.
use mathlib.Core.List.Memᴰ
use shacl_engine.Common.{
  ℕ, zero, suc, ◌+◌, ◌*◌, ◌^◌, ◌≤◌, ◌<◌, ◌≡◌, refl, sym, ap, ◌∙◌, subst, ◌↔◌, inl, inr, Bool, not,
  some, List, [], ◌∷◌, ◌++◌, map, Memᴰ, arith, length, get_elem?, ◌==◌, nat_ord, pair_ord,
  length-append, length-map, Memᴰ-filter,
}
use mathlib.Core.Path.{ap₂}
use shacl_engine.Common.Maybe.{eq_of_some}
use shacl_engine.Common.Sort.{IsStrict}
use shacl_engine.Common.Strict.{
  sort_dedup, sort_dedup-IsStrict, Memᴰ-sort_dedup, length-le_of_Subset, length-sort_dedup-le,
}
use shacl_engine.Model.Starts.{TermId, Row as Triple}
use shacl_engine.Model.Graph.{Graph, len}
use shacl_engine.Model.Graph.Access.{IsIndexed}
use shacl_engine.ValueSet.{ValueSets, Row, rows, row, with_capacity, finish}
use shacl_engine.ValueSet.Rows.{as_u32-eq_of_lt}
use shacl_engine.PropertyPath.{
  PropertyPath, Pair, Pairs, normalise, emit, walk, enumerate, group_rows, eval_sets_dir,
}
use shacl_engine.PropertyPath.Meaning.{Connects, Toward}
use shacl_engine.PropertyPath.Probe.{Memᴰ-emit}
use shacl_engine.PropertyPath.Closure.{Memᴰ-normalise}
use shacl_engine.PropertyPath.Walk.{walk_lem}
use shacl_engine.PropertyPath.Fuel.{Covers, Within, walk-Stays, length-emit}
use shacl_engine.PropertyPath.Rows.{
  reached_from, others, AllFrom, table, Memᴰ-reached_from, group_rows_lem, with_capacity-IsBuilt,
}

-- A row of the relation of `path`: its focus node, and what the path connects to it, ascending.
pub record IsRowOf (g : Graph) (path : PropertyPath) (back : Bool) (f : TermId) (r : Row)
    : Type 0 where
  pub node : r.focus ≡ f
  pub strict : IsStrict r.values
  pub exact :
      (t : TermId)
      → (Memᴰ t r.values → Toward back (Connects g path) f t)
        × (Toward back (Connects g path) f t → Memᴰ t r.values)

-- A relation with one row for each focus node, in their order.
abbrev pub RowsOf : Graph → PropertyPath → Bool → List TermId → List Row → Type 0
RowsOf g path back [] [] = Unit
RowsOf g path back [] (r ∷ rs) = ⊥
RowsOf g path back (f ∷ focus) [] = ⊥
RowsOf g path back (f ∷ focus) (r ∷ rs) = IsRowOf g path back f r × RowsOf g path back focus rs

at_each-RowsOf :
    (g : Graph) (path : PropertyPath) (back : Bool) (focus : List TermId) (rs : List Row)
    → length rs ≡ length focus
    → ((k : ℕ) (f : TermId)
        → get_elem? focus k ≡ some f
        → (r : Row) × (get_elem? rs k ≡ some r) × IsRowOf g path back f r)
    → RowsOf g path back focus rs
at_each-RowsOf g path back [] [] same at = tt
at_each-RowsOf g path back [] (r ∷ rs) same at = absurd (omega (arith, same))
at_each-RowsOf g path back (f ∷ focus) [] same at = absurd (omega (arith, same))
at_each-RowsOf g path back (f ∷ focus) (r ∷ rs) same at =
    let (x, e, row) = at 0 f refl in
    (
      subst (IsRowOf g path back f) (sym (eq_of_some e)) row,
      at_each-RowsOf g path back focus rs (omega (arith, same)) (λ k. at (suc k)),
    )

table_row :
    (i : ℕ) (focus : List TermId) (xs : Pairs) (k : ℕ) (f : TermId)
    → get_elem? focus k ≡ some f
    → (r : Row) × (get_elem? (table i focus xs) k ≡ some r)
      × (r.focus ≡ f)
      × IsStrict r.values
      × ((t : TermId) → Memᴰ t r.values ↔ Memᴰ (i + k, t) xs)
table_row i [] xs k f h = cc
table_row i (x ∷ focus) xs zero f h = (
  record { focus = x; values = sort_dedup (reached_from i xs) },
  refl,
  eq_of_some h,
  sort_dedup-IsStrict (reached_from i xs),
  λ t.
      let e : i + 0 ≡ i = omega arith in
      rw e (ground (arith, Memᴰ-sort_dedup t (reached_from i xs), Memᴰ-reached_from i t xs)),
)
table_row i (x ∷ focus) xs (suc k) f h =
    let (r, e, node, strict, exact) = table_row (suc i) focus (others i xs) k f h in
    (
      r,
      e,
      node,
      strict,
      λ t.
          let same : i + suc k ≡ suc i + k = omega arith in
          rw same
            (ground (arith, exact t, Memᴰ-filter (λ (p : Pair). not (p.0 == i)) (suc i + k, t) xs)),
    )

length-table : (i : ℕ) (focus : List TermId) (xs : Pairs) → length (table i focus xs) ≡ length focus
length-table i [] xs = refl
length-table i (f ∷ focus) xs = ap suc (length-table (suc i) focus (others i xs))

module _ where
  enumerate-from :
      (i : ℕ) (focus : List TermId) (p : Pair)
      → i + length focus ≤ 2 ^ 32
      → Memᴰ p (enumerate i focus)
      → i ≤ p.0
  enumerate-from i [] p h m = absurd (Memᴰ.not-nil m)
  enumerate-from i (f ∷ focus) p h m = elim (Memᴰ.cases_cons m) [
    | inl e ↦ omega (arith, ap (λ (p : Pair). p.0) e, as_u32-eq_of_lt i (omega arith))
    | inr k ↦ omega (arith, enumerate-from (suc i) focus p (omega arith) k)
  ]

  enumerate_at :
      (i : ℕ) (focus : List TermId) (k : ℕ) (n : TermId)
      → i + length focus ≤ 2 ^ 32
      → Memᴰ (i + k, n) (enumerate i focus)
      → get_elem? focus k ≡ some n
  enumerate_at i [] k n h m = absurd (Memᴰ.not-nil m)
  enumerate_at i (f ∷ focus) zero n h m = elim (Memᴰ.cases_cons m) [
    | inl e ↦ ap some (sym (ap (λ (p : Pair). p.1) e))
    | inr k ↦ absurd (omega (arith, enumerate-from (suc i) focus (i + 0, n) (omega arith) k))
  ]
  enumerate_at i (f ∷ focus) (suc k) n h m = elim (Memᴰ.cases_cons m) [
    | inl e ↦ absurd (omega (arith, ap (λ (p : Pair). p.0) e, as_u32-eq_of_lt i (omega arith)))
    | inr l ↦
        let same : i + suc k ≡ suc i + k = omega arith in
        enumerate_at (suc i) focus k n (omega arith)
          (subst (λ j. Memᴰ {A = Pair} (j, n) (enumerate (suc i) focus)) same l)
  ]

  at_enumerate :
      (i : ℕ) (focus : List TermId) (k : ℕ) (n : TermId)
      → i + length focus ≤ 2 ^ 32
      → get_elem? focus k ≡ some n
      → Memᴰ (i + k, n) (enumerate i focus)
  at_enumerate i [] k n h e = cc
  at_enumerate i (f ∷ focus) zero n h e =
      let cast = as_u32-eq_of_lt i (omega arith) in Memᴰ.head (ground (arith, cast, e))
  at_enumerate i (f ∷ focus) (suc k) n h e =
      let same : suc i + k ≡ i + suc k = omega arith in
      Memᴰ.tail (
        subst (λ j. Memᴰ {A = Pair} (j, n) (enumerate (suc i) focus)) same
          (at_enumerate (suc i) focus k n (omega arith) e))

  focus_of_enumerate :
      (i : ℕ) (focus : List TermId) (p : Pair) → Memᴰ p (enumerate i focus) → Memᴰ p.1 focus
  focus_of_enumerate i [] p m = absurd (Memᴰ.not-nil m)
  focus_of_enumerate i (f ∷ focus) p m = elim (Memᴰ.cases_cons m) [
    | inl e ↦ Memᴰ.head (ap (λ (p : Pair). p.1) e)
    | inr k ↦ Memᴰ.tail (focus_of_enumerate (suc i) focus p k)
  ]

  length-enumerate : (i : ℕ) (focus : List TermId) → length (enumerate i focus) ≡ length focus
  length-enumerate i [] = refl
  length-enumerate i (f ∷ focus) = ap suc (length-enumerate (suc i) focus)

-- Both ends of every triple.
abbrev ends : List Triple → List TermId
ends [] = []
ends (r ∷ rs) = r.0 ∷ r.2 ∷ ends rs

length-ends : (rs : List Triple) → length (ends rs) ≡ 2 * length rs
length-ends [] = refl
length-ends (r ∷ rs) = omega (arith, length-ends rs)

ends_hold :
    (rs : List Triple) (s p o : TermId) → Memᴰ (s, p, o) rs → Memᴰ s (ends rs) × Memᴰ o (ends rs)
ends_hold [] s p o m = absurd (Memᴰ.not-nil m)
ends_hold (r ∷ rs) s p o m = elim (Memᴰ.cases_cons m) [
  | inl e ↦
      (Memᴰ.head (ap (λ (r : Triple). r.0) e), Memᴰ.tail (Memᴰ.head (ap (λ (r : Triple). r.2) e)))
  | inr k ↦ let (a, b) = ends_hold rs s p o k in (Memᴰ.tail (Memᴰ.tail a), Memᴰ.tail (Memᴰ.tail b))
]

AllFrom-zero : (xs : Pairs) → AllFrom 0 xs
AllFrom-zero [] = tt
AllFrom-zero (p ∷ xs) = (omega arith, AllFrom-zero xs)

module _ (g : Graph) (path : PropertyPath) (back : Bool) (focus : List TermId)
    (ix : IsIndexed g) where
  abbrev origins : List ℕ
  origins = map (λ (p : Pair). p.0) (enumerate 0 focus)

  abbrev nodes : List TermId
  nodes = focus ++ ends g.spo

  covers : Covers nodes g
  covers s p o m =
      let (a, b) = ends_hold g.spo s p o m in (Memᴰ.append_right focus a, Memᴰ.append_right focus b)

  start_Within : Within (emit origins nodes) (enumerate 0 focus)
  start_Within p m = (Memᴰ-emit p.0 p.1 origins nodes).1 (
    Memᴰ.map (λ (p : Pair). p.0) m,
    Memᴰ.append_left (ends g.spo) (focus_of_enumerate 0 focus p m),
  )

  length_universe : length (emit origins nodes) ≡ (length focus + 2 * len g) * length focus
  unfolding len
  length_universe =
      length-emit origins nodes
      ∙ ap₂ ◌*◌ (length-append focus (ends g.spo) ∙ ap (λ k. length focus + k) (length-ends g.spo))
          (length-map (λ (p : Pair). p.0) (enumerate 0 focus) ∙ length-enumerate 0 focus)

  Image-enumerate :
      (reached : Pairs) (fuel : ℕ) (k : ℕ) (f : TermId) (t : TermId)
      → length focus ≤ 2 ^ 32
      → walk g fuel path back (enumerate 0 focus) ≡ some reached
      → get_elem? focus k ≡ some f
      → Memᴰ (k, t) reached ↔ Toward back (Connects g path) f t
  Image-enumerate reached fuel k f t small e h =
      let y = walk_lem g fuel path back (enumerate 0 focus) reached ix e k t in
      let zero_add : 0 + k ≡ k = omega arith in
      (
        λ m.
            let (n, l, r) = y.0 m in
            let found =
              enumerate_at 0 focus k n (omega arith)
                (subst (λ j. Memᴰ {A = Pair} (j, n) (enumerate 0 focus)) (sym zero_add) l) in
            subst (λ x. Toward back (Connects g path) x t) (eq_of_some (sym found ∙ h)) r,
        λ r. y.1 (
          f,
          subst (λ j. Memᴰ {A = Pair} (j, f) (enumerate 0 focus)) zero_add
              (at_enumerate 0 focus k f (omega arith) h),
          r,
        ),
      )

normalise-IsStrict : (xs : Pairs) → IsStrict (normalise xs)
unfolding normalise
normalise-IsStrict xs = sort_dedup-IsStrict xs

length-normalise-le : (u xs : Pairs) → Within u xs → length (normalise xs) ≤ length u
length-normalise-le u xs within =
    let short =
      length-le_of_Subset (normalise xs) (sort_dedup u) (normalise-IsStrict xs)
        (sort_dedup-IsStrict u)
        (λ p m. (Memᴰ-sort_dedup p u).1 (within p ((Memᴰ-normalise p xs).0 m))) in
    omega (arith, short, length-sort_dedup-le u)

no_rows : (n : ℕ) → rows (finish (with_capacity n)) ≡ []
unfolding rows finish
no_rows n = refl

-- The grouping loop makes a row of the table for each focus node.
rows_of_reached :
    (focus : List TermId) (u reached : Pairs)
    → Within u reached
    → length focus ≤ 2 ^ 32
    → length u < 2 ^ 32
    → rows (finish (group_rows 0 focus (normalise reached) (with_capacity (length focus))))
      ≡ table 0 focus (normalise reached)
rows_of_reached focus u reached within small fits =
    let short = length-normalise-le u reached within in
    group_rows_lem 0 focus (normalise reached) (with_capacity (length focus))
      (with_capacity-IsBuilt (length focus)) (normalise-IsStrict reached)
      (AllFrom-zero (normalise reached)) (omega arith) (omega arith)
    ∙ ap (λ rs. rs ++ table 0 focus (normalise reached)) (no_rows (length focus))

-- Over an indexed graph, with fuel for every pair of a focus node and a node and fewer than `2 ^ 32`
-- such pairs and focus nodes, evaluation in either direction returns; the relation has one row for each focus node, in their order, and a row holds, ascending and once
-- each, exactly the nodes that the path connects to its focus node.
pub eval_sets_dir_lem :
    (g : Graph) (fuel : ℕ) (path : PropertyPath) (back : Bool) (focus : List TermId)
    → IsIndexed g
    → length focus ≤ 2 ^ 32
    → (length focus + 2 * len g) * length focus < 2 ^ 32
    → (length focus + 2 * len g) * length focus < fuel
    → (v : ValueSets) × (eval_sets_dir g fuel path back focus ≡ some v)
      × RowsOf g path back focus (rows v)
unfolding eval_sets_dir
eval_sets_dir_lem g fuel path back focus ix small fits enough =
    let size = length_universe g path back focus ix in
    let (reached, e, inside) =
      walk-Stays g ix (origins g path back focus ix) (nodes g path back focus ix)
        (covers g path back focus ix) fuel path back (omega arith) (enumerate 0 focus)
        (start_Within g path back focus ix) in
    let v : ValueSets =
      finish (group_rows 0 focus (normalise reached) (with_capacity (length focus))) in
    let made =
      rows_of_reached focus (emit (origins g path back focus ix) (nodes g path back focus ix))
        reached inside small (omega arith) in
    (
      v,
      rw e refl,
      at_each-RowsOf g path back focus (rows v)
          (ap length made ∙ length-table 0 focus (normalise reached))
          (λ k f h.
            let (r, at, node, strict, exact) = table_row 0 focus (normalise reached) k f h in
            let zero_add : 0 + k ≡ k = omega arith in
            (
              r,
              ap (λ rs. get_elem? rs k) made ∙ at,
              record {
                node = node;
                strict = strict;
                exact = λ t.
                    let both = rw zero_add at (exact t) in
                    let seen = Memᴰ-normalise (k, t) reached in
                    let image = Image-enumerate g path back focus ix reached fuel k f t small e h in
                    (λ m. image.0 (seen.0 (both.0 m)), λ r. both.1 (seen.1 (image.1 r)));
              },
            )),
    )

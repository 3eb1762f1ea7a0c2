-- ===== src/PropertyPath/Rows.antt =====
-- The relation that `eval_sets` builds: one row for each focus node, in order, with exactly the
-- nodes that the path connects to it.
use mathlib.Core.List.Memᴰ
use mathlib.Core.List.{append-nil, append_assoc}
use shacl_engine.Common.{
  ℕ, zero, suc, ◌+◌, ◌^◌, ◌≤◌, ◌<◌, ◌≡◌, refl, sym, ap, ◌∙◌, ◌↔◌, inl, inr, not, List, [], ◌∷◌,
  ◌++◌, map, Memᴰ, arith, length, get_or, filter, length-filter_split, ◌==◌, nat_ord, pair_ord,
  length-append, length-map, Memᴰ-filter, Bool-cases,
}
use shacl_engine.Common.Sort.{IsSorted, IsStrict}
use shacl_engine.Common.Strict.{
  sort_dedup, length-sort_dedup-le, filter-IsStrict, IsStrict→IsSorted,
}
use shacl_engine.Model.Starts.{TermId}
use shacl_engine.ValueSet.{
  Row, Builder, rows, with_capacity, start_row, push_value, push_row, finish, extend,
}
use shacl_engine.ValueSet.Rows.{as_u32-eq_of_lt, IsBuilt, push_row_lem, rows-push_row}
use shacl_engine.PropertyPath.{Pair, Pairs, push_values, group_rows}

-- The nodes that were reached from one origin.
abbrev pub reached_from : ℕ → Pairs → List TermId
reached_from i xs = map (λ (p : Pair). p.1) (filter (λ (p : Pair). p.0 == i) xs)

abbrev pub others : ℕ → Pairs → Pairs
others i xs = filter (λ (p : Pair). not (p.0 == i)) xs

abbrev pub AllFrom : ℕ → Pairs → Type 0
AllFrom i [] = Unit
AllFrom i (p ∷ xs) = (i ≤ p.0) × AllFrom i xs

pub Memᴰ-reached_from :
    (i : ℕ) (t : TermId) (xs : Pairs) → Memᴰ t (reached_from i xs) ↔ Memᴰ (i, t) xs
Memᴰ-reached_from i t xs = (
  λ m.
      let (p, k, e) = Memᴰ.of_map (λ (p : Pair). p.1) (filter (λ (p : Pair). p.0 == i) xs) m in
      let (inside, same) = (Memᴰ-filter (λ (p : Pair). p.0 == i) p xs).0 k in
      Memᴰ.cast (ground arith) inside,
  λ m.
      Memᴰ.map (λ (p : Pair). p.1)
        ((Memᴰ-filter (λ (p : Pair). p.0 == i) (i, t) xs).1 (m, ground arith)),
)

none_from :
    (i : ℕ) (xs : Pairs) → AllFrom (suc i) xs → (reached_from i xs ≡ []) × (others i xs ≡ xs)
none_from i [] h = (refl, refl)
none_from i (p ∷ xs) h = ground (arith, none_from i xs h.1, h.0)

AllFrom-sorted : (i : ℕ) (p : Pair) (xs : Pairs) → i ≤ p.0 → IsSorted (p ∷ xs) → AllFrom i xs
AllFrom-sorted i p [] h s = tt
AllFrom-sorted i p (q ∷ xs) h s =
    let next = s.0 q (Memᴰ.head refl) in
    let low : i ≤ q.0 = ground arith in (low, AllFrom-sorted i q xs low s.1)

AllFrom-others : (i : ℕ) (xs : Pairs) → AllFrom i xs → AllFrom (suc i) (others i xs)
AllFrom-others i [] h = tt
AllFrom-others i (p ∷ xs) h = elim (Bool-cases (p.0 == i)) [
  | inl e ↦ rw e (AllFrom-others i xs h.1)
  | inr e ↦ rw e (ground (arith, h.0, e), AllFrom-others i xs h.1)
]

-- The inner loop takes the pairs of one origin off the front.
push_values_lem :
    (i : ℕ) (b : Builder) (xs : Pairs)
    → i < 2 ^ 32
    → IsSorted xs
    → AllFrom i xs
    → push_values i b xs ≡ (extend b (reached_from i xs), others i xs)
unfolding push_value extend
push_values_lem i b [] lt s h =
    ap (λ (vs : List TermId). (record b { values = vs }, [])) (sym (append-nil b.values))
push_values_lem i b ((o, v) ∷ xs) lt s h = elim (Bool-cases (o == i)) [
  | inl e ↦
      rw (as_u32-eq_of_lt i lt, e)
        (push_values_lem i (push_value b v) xs lt s.1 h.1
          ∙ ap (λ (vs : List TermId). (record b { values = vs }, others i xs))
              (append_assoc b.values (v ∷ []) (reached_from i xs)))
  | inr e ↦
      let later = none_from i xs (AllFrom-sorted (suc i) (o, v) xs (ground (arith, h.0)) s) in
      rw (as_u32-eq_of_lt i lt, e, later.0, later.1)
        (ap (λ (vs : List TermId). (record b { values = vs }, (o, v) ∷ xs))
          (sym (append-nil b.values)))
]

-- The rows of the focus nodes that are left.
abbrev pub table : ℕ → List TermId → Pairs → List Row
table i [] xs = []
table i (f ∷ focus) xs =
    record { focus = f; values = sort_dedup (reached_from i xs) }
    ∷ table (suc i) focus (others i xs)

values-push_row :
    (b : Builder) (f : TermId) (vs : List TermId)
    → IsBuilt b
    → length b.values + length (sort_dedup vs) < 2 ^ 32
    → length (push_row b f vs).values ≡ length b.values + length (sort_dedup vs)
values-push_row b f vs built fits =
    rw (push_row_lem b f vs built fits) (length-append b.values (sort_dedup vs))

pub group_rows_lem :
    (i : ℕ) (focus : List TermId) (xs : Pairs) (b : Builder)
    → IsBuilt b
    → IsStrict xs
    → AllFrom i xs
    → i + length focus ≤ 2 ^ 32
    → length b.values + length xs < 2 ^ 32
    → rows (finish (group_rows i focus xs b)) ≡ rows (finish b) ++ table i focus xs
unfolding push_row
group_rows_lem i [] xs b built s h n m = sym (append-nil (rows (finish b)))
group_rows_lem i (f ∷ focus) xs b built s h n m =
    let vs = reached_from i xs in
    let rest = others i xs in
    let taken : length (sort_dedup vs) + length rest ≤ length xs = omega (
      arith,
      length-sort_dedup-le vs,
      length-map (λ (p : Pair). p.1) (filter (λ (p : Pair). p.0 == i) xs),
      length-filter_split (λ (p : Pair). p.0 == i) xs,
    ) in
    let fits : length b.values + length (sort_dedup vs) < 2 ^ 32 = omega arith in
    let (built', grown) = rows-push_row b f vs built fits in
    let size = values-push_row b f vs built fits in
    let ih =
      group_rows_lem (suc i) focus rest (push_row b f vs) built'
        (filter-IsStrict (λ (p : Pair). not (p.0 == i)) xs s) (AllFrom-others i xs h) (omega arith)
        (omega arith) in
    rw (push_values_lem i (start_row b f) xs (omega arith) (IsStrict→IsSorted xs s) h) (
      ih
      ∙ ap (λ rs. rs ++ table (suc i) focus rest) grown
      ∙ append_assoc (rows (finish b)) (record { focus = f; values = sort_dedup vs } ∷ [])
          (table (suc i) focus rest))

pub with_capacity-IsBuilt : (n : ℕ) → IsBuilt (with_capacity n)
with_capacity-IsBuilt n = record { size = refl; inside = zero_offset; last = refl }
  where
    zero_offset : (i : ℕ) → get_or (0 ∷ []) i 0 ≤ 0
    zero_offset zero = omega arith
    zero_offset (suc i) = omega arith

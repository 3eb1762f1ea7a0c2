-- ===== src/Model/Collections/Bounded.antt =====
-- Reading a collection against what a collection is: the bound on the loop loses no list.
use mathlib.Core.List.{append_assoc, append-nil}
use shacl_engine.Common.{
  ℕ, zero, suc, ◌+◌, ◌≤◌, ◌<◌, ◌≡◌, ◌≢◌, refl, sym, ap, ◌∙◌, subst, ◌↔◌, inl, inr, Bool, true,
  false, not, some, List, [], ◌∷◌, ◌++◌, Memᴰ, arith, length, filter, ◌==◌, Bool-cases,
  Option-cases, Memᴰ-filter, length-filter-all,
}
use shacl_engine.Common.Maybe.{eq_of_some}
use shacl_engine.Model.Starts.{TermId, Row}
use shacl_engine.Model.Graph.{Graph, GraphBuilder, build, object, len}
use shacl_engine.Model.Graph.Access.{IsIndexed, build-IsIndexed, Memᴰ-build}
use shacl_engine.Model.Graph.Lookups.{Memᴰ-object}
use shacl_engine.Model.Graph.Least.{IsLeast, object_iff}
use shacl_engine.Model.Vocab.{Vocab}
use shacl_engine.Model.Collections.{collect, collect_list, list, then_some}

-- A node that stands for a list: `rdf:nil`, or a cell with a first and a rest. What relates a node,
-- a predicate and an object is a parameter.
pub data IsListBy (R : TermId → TermId → TermId → Type 0) (v : Vocab)
    : TermId → List TermId → Type 0 where
  nil : {node : TermId} → node ≡ v.rdf_nil → IsListBy R v node []
  cell :
      {node first rest : TermId} {items : List TermId}
      → node ≢ v.rdf_nil
      → R node v.rdf_first first
      → R node v.rdf_rest rest
      → IsListBy R v rest items
      → IsListBy R v node (first ∷ items)

-- By the triples themselves.
abbrev pub Given : List Row → TermId → TermId → TermId → Type 0
Given rows s p o = Memᴰ (s, p, o) rows

-- No subject has two objects for the predicate.
abbrev pub IsSingle : List Row → TermId → Type 0
IsSingle rows p = (s x y : TermId) → Memᴰ (s, p, x) rows → Memᴰ (s, p, y) rows → x ≡ y

abbrev ByObject : Graph → TermId → TermId → TermId → Type 0
ByObject g s p o = object g s p ≡ some o

module _ (R Q : TermId → TermId → TermId → Type 0) (v : Vocab)
    (first_to : (s o : TermId) → R s v.rdf_first o → Q s v.rdf_first o)
    (rest_to : (s o : TermId) → R s v.rdf_rest o → Q s v.rdf_rest o) where
  IsListBy-map : (node : TermId) (xs : List TermId) → IsListBy R v node xs → IsListBy Q v node xs
  IsListBy-map node _ (nil e) = nil e
  IsListBy-map node _ (cell {first} {rest} {items} n a b l) =
      cell n (first_to node first a) (rest_to node rest b) (IsListBy-map rest items l)

module _ (g : Graph) (v : Vocab) where
  Chain-unique :
      (node : TermId) (xs ys : List TermId)
      → IsListBy (ByObject g) v node xs
      → IsListBy (ByObject g) v node ys
      → length xs ≡ length ys
  Chain-unique node _ _ (nil e) (nil f) = refl
  Chain-unique node _ _ (nil e) (cell n a b rest) = absurd (n e)
  Chain-unique node _ _ (cell n a b rest) (nil e) = absurd (n e)
  Chain-unique node _ _ (cell {rest} {items} n a b l)
        (cell {rest = rest'} {items = items'} n' a' b' l') =
      let same : rest' ≡ rest = eq_of_some (sym b' ∙ b) in
      ap suc
        (Chain-unique rest items items' l (subst (λ t. IsListBy (ByObject g) v t items') same l'))

  -- The cells of every list of at most `k` items stand among the rows.
  abbrev Cells : ℕ → List Row → Type 0
  Cells k us =
      (node rest : TermId) (xs : List TermId)
      → IsListBy (ByObject g) v node xs
      → length xs ≤ k
      → object g node v.rdf_rest ≡ some rest
      → node ≢ v.rdf_nil
      → Memᴰ (node, v.rdf_rest, rest) us

  length-le_of_Cells :
      (node : TermId) (xs : List TermId) (us : List Row)
      → IsListBy (ByObject g) v node xs
      → Cells (length xs) us
      → length xs ≤ length us
  length-le_of_Cells node _ us (nil e) cells = omega arith
  length-le_of_Cells node _ us (cell {first} {rest} {items} n a b l) cells =
      let other : Row → Bool = λ r. not (r.0 == node) in
      let here = cells node rest (first ∷ items) (cell n a b l) (omega arith) b n in
      let shorter = length-filter-all other (node, v.rdf_rest, rest) us here (ground arith) in
      let fewer : Cells (length items) (filter other us) = λ m r xs lm short e nm.
        (Memᴰ-filter other (m, v.rdf_rest, r) us).1 (
          cells m r xs lm (omega (arith, short)) e nm,
          elim (Bool-cases (m == node)) [
            | inl q ↦
                let same : m ≡ node = ground (arith, q) in
                let level =
                  Chain-unique node xs (first ∷ items)
                    (subst (λ t. IsListBy (ByObject g) v t xs) same lm) (cell n a b l) in
                absurd (omega (arith, level, short))
            | inr q ↦ rw q refl
          ],
        ) in
      omega (arith, shorter, length-le_of_Cells rest items (filter other us) l fewer)

  collect-Chain :
      (limit : ℕ) (node : TermId) (out xs : List TermId)
      → IsListBy (ByObject g) v node xs
      → length xs < limit
      → collect g v limit node out ≡ (true, out ++ xs)
  unfolding collect
  collect-Chain zero node out xs l h = absurd (omega arith)
  collect-Chain (suc limit) node out _ (nil e) h =
      let same : (node == v.rdf_nil) ≡ true = ground (arith, e) in
      rw same (ap (λ (ys : List TermId). (true, ys)) (sym (append-nil out)))
  collect-Chain (suc limit) node out _ (cell {first} {rest} {items} n a b l) h =
      let differ : (node == v.rdf_nil) ≡ false = ground (arith, n) in
      rw (differ, a, b)
        (collect-Chain limit rest (out ++ first ∷ []) items l (omega arith)
          ∙ ap (λ (ys : List TermId). (true, ys)) (append_assoc out (first ∷ []) items))

  Chain-collect :
      (limit : ℕ) (node : TermId) (out ys : List TermId)
      → collect g v limit node out ≡ (true, ys)
      → (xs : List TermId) × (ys ≡ out ++ xs) × IsListBy (ByObject g) v node xs
  unfolding collect
  Chain-collect zero node out ys h = absurd (ground (arith, ap (λ (p : Bool × List TermId). p.0) h))
  Chain-collect (suc limit) node out ys h = elim (Bool-cases (node == v.rdf_nil)) [
    | inl e ↦ (
      [],
      sym (ap (λ (p : Bool × List TermId). p.1) (rw e at h)) ∙ sym (append-nil out),
      nil (ground (arith, e)),
    )
    | inr e ↦ elim (Option-cases (object g node v.rdf_first)) [
      | inl a ↦ absurd (ground (arith, ap (λ (p : Bool × List TermId). p.0) (rw (e, a) at h)))
      | inr (first, a) ↦ elim (Option-cases (object g node v.rdf_rest)) [
        | inl b ↦ absurd (ground (arith, ap (λ (p : Bool × List TermId). p.0) (rw (e, a, b) at h)))
        | inr (rest, b) ↦
            let (xs, q, l) = Chain-collect limit rest (out ++ first ∷ []) ys (rw (e, a, b) at h) in
            (
              first ∷ xs,
              q ∙ append_assoc out (first ∷ []) xs,
              cell (λ s. ground (arith, e, s)) a b l,
            )
      ]
    ]
  ]

then_some-eq :
    (p : Bool × List TermId) (items : List TermId)
    → then_some p.0 p.1 ≡ some items
    → p ≡ (true, items)
then_some-eq (true, out) items h = ap (λ (ys : List TermId). (true, ys)) (eq_of_some h)
then_some-eq (false, out) items h = cc

list-Chain :
    (g : Graph) (v : Vocab) (head : TermId) (items : List TermId)
    → IsIndexed g
    → (list g head v ≡ some items) ↔ IsListBy (ByObject g) v head items
unfolding list collect_list len
list-Chain g v head items ix = (
  λ h.
      let (xs, e, l) =
        Chain-collect g v (length g.spo + 1) head [] items
          (then_some-eq (collect g v (length g.spo + 1) head []) items h) in
      subst (IsListBy (ByObject g) v head) (sym e) l,
  λ l.
      let short =
        length-le_of_Cells g v head items g.spo l
          (λ node rest xs _ _ e _. Memᴰ-object g ix node v.rdf_rest rest e) in
      rw (collect-Chain g v (length g.spo + 1) head [] items l (omega (arith, short))) refl,
)

-- The least object that the graph finds is the least of the pushed triples.
object-IsLeast :
    (rows : GraphBuilder) (g : Graph) (s p o : TermId)
    → build rows ≡ some g
    → (object g s p ≡ some o) ↔ IsLeast rows s p o
object-IsLeast rows g s p o h =
    let found = object_iff g (build-IsIndexed rows g h) s p o in
    let at = λ (x : TermId). Memᴰ-build rows g (s, p, x) h in
    (
      λ e. let (m, le) = found.0 e in ((at o).0 m, λ y k. le y ((at y).1 k)),
      λ (m, le). found.1 ((at o).1 m, λ y k. le y ((at y).0 k)),
    )

-- A built graph's `list` gives exactly the items of the chain from `head` to `rdf:nil` that takes, at
-- each cell, the least `rdf:first` and the least `rdf:rest` of the pushed triples, however long it is;
-- where that chain meets a cell without either, or does not end, it gives nothing. A cell with several
-- of either is not refused: the least is read.
pub list_lem :
    (rows : GraphBuilder) (g : Graph) (v : Vocab) (head : TermId) (items : List TermId)
    → build rows ≡ some g
    → (list g head v ≡ some items) ↔ IsListBy (IsLeast rows) v head items
list_lem rows g v head items h =
    let read = list-Chain g v head items (build-IsIndexed rows g h) in
    (
      λ e.
          IsListBy-map (ByObject g) (IsLeast rows) v
            (λ s o. (object-IsLeast rows g s v.rdf_first o h).0)
            (λ s o. (object-IsLeast rows g s v.rdf_rest o h).0) head items (read.0 e),
      λ l. read.1 (
          IsListBy-map (IsLeast rows) (ByObject g) v
            (λ s o. (object-IsLeast rows g s v.rdf_first o h).1)
            (λ s o. (object-IsLeast rows g s v.rdf_rest o h).1) head items l),
    )

single-IsLeast :
    (rows : List Row) (p s o : TermId) → IsSingle rows p → Given rows s p o → IsLeast rows s p o
single-IsLeast rows p s o single m = (m, λ y k. omega (arith, single s o y m k))

-- Where no node has two values of `rdf:first` or two of `rdf:rest` among the pushed triples, `list` on the
-- built graph decides the well-formed lists: it gives exactly the items of a node from which `rdf:rest`
-- leads through cells with a first and a rest to `rdf:nil`, and nothing for a cyclic or broken one.
pub list_single_lem :
    (rows : GraphBuilder) (g : Graph) (v : Vocab) (head : TermId) (items : List TermId)
    → build rows ≡ some g
    → IsSingle rows v.rdf_first
    → IsSingle rows v.rdf_rest
    → (list g head v ≡ some items) ↔ IsListBy (Given rows) v head items
list_single_lem rows g v head items h firsts rests =
    let read = list_lem rows g v head items h in
    (
      λ e.
          IsListBy-map (IsLeast rows) (Given rows) v (λ s o m. m.0) (λ s o m. m.0) head items
            (read.0 e),
      λ l. read.1 (
          IsListBy-map (Given rows) (IsLeast rows) v
            (λ s o. single-IsLeast rows v.rdf_first s o firsts)
            (λ s o. single-IsLeast rows v.rdf_rest s o rests) head items l),
    )

-- ===== src/PropertyPath/Probe.antt =====
-- Grouping by node before probing the index yields the image of one predicate.
use mathlib.Core.List.Memᴰ
use shacl_engine.Common.{
  ℕ, ◌≡◌, refl, subst, ◌↔◌, ◌⊎◌, inl, inr, ⊎_elim, Bool, List, [], ◌∷◌, map, Memᴰ, arith, ◌==◌,
  pair_ord, Memᴰ-cons, Memᴰ-append, Bool-cases, ==_iff,
}
use shacl_engine.Common.Sort.{sort, Memᴰ-sort}
use shacl_engine.Model.Starts.{TermId}
use shacl_engine.Model.Graph.{Graph}
use shacl_engine.Model.Graph.Access.{IsIndexed, Memᴰ-objects, Memᴰ-subjects}
use shacl_engine.PropertyPath.{
  Pair, Pairs, join_group, groups, neighbours, emit, probe_groups, probe,
}
use shacl_engine.PropertyPath.Meaning.{Toward, Yields}

-- A group holds an origin under a node.
abbrev Grouped : TermId → ℕ → List (TermId × List ℕ) → Type 0
Grouped n o [] = ⊥
Grouped n o (g ∷ gs) = ((n ≡ g.0) × Memᴰ o g.1) ⊎ Grouped n o gs

Grouped-join_group :
    (n node : TermId) (o origin : ℕ) (gs : List (TermId × List ℕ))
    → Grouped n o (join_group node origin gs) ↔ (((n ≡ node) × (o ≡ origin)) ⊎ Grouped n o gs)
Grouped-join_group n node o origin [] =
    ground (arith, Memᴰ-cons o origin [], λ (m : Memᴰ o []). Memᴰ.not-nil m)
Grouped-join_group n node o origin ((m, origins) ∷ gs) = elim (Bool-cases (m == node)) [
  | inl e ↦ rw e (ground (arith, Memᴰ-cons o origin origins, (==_iff m node).0 e))
  | inr e ↦ rw e (ground (arith, Memᴰ-cons o origin [], λ (k : Memᴰ o []). Memᴰ.not-nil k))
]

Grouped-groups :
    (n : TermId) (o : ℕ) (xs : List (TermId × ℕ)) → Grouped n o (groups xs) ↔ Memᴰ (n, o) xs
Grouped-groups n o [] = (λ h. absurd h, λ m. Memᴰ.not-nil m)
Grouped-groups n o ((node, origin) ∷ rest) = ground (
  arith,
  Grouped-join_group n node o origin (groups rest),
  Grouped-groups n o rest,
  Memᴰ-cons (n, o) (node, origin) rest,
)

pub Memᴰ-emit :
    (o : ℕ) (t : TermId) (origins : List ℕ) (ts : List TermId)
    → Memᴰ (o, t) (emit origins ts) ↔ (Memᴰ o origins × Memᴰ t ts)
Memᴰ-emit o t origins [] = (λ m. absurd (Memᴰ.not-nil m), λ m. absurd (Memᴰ.not-nil m.1))
Memᴰ-emit o t origins (x ∷ xs) = ground (
  arith,
  Memᴰ-append (o, t) (map (λ o. (o, x)) origins) (emit origins xs),
  one,
  Memᴰ-emit o t origins xs,
  Memᴰ-cons t x xs,
)
  where
    one : Memᴰ {A = Pair} (o, t) (map (λ (o : ℕ). (o, x)) origins) ↔ (Memᴰ o origins × (t ≡ x))
    one = (
      λ m.
          let (k, inside, e) = Memᴰ.of_map (λ (o : ℕ). (o, x)) origins m in
          (Memᴰ.cast (ground arith) inside, ground arith),
      λ (m, e). rw e (Memᴰ.map (λ (o : ℕ). (o, x)) m),
    )

module _ (g : Graph) (p : TermId) (back : Bool) where
  Memᴰ-probe_groups :
      (o : ℕ) (t : TermId) (gs : List (TermId × List ℕ))
      → Memᴰ (o, t) (probe_groups g p back gs)
        ↔ ((n : TermId) × Grouped n o gs × Memᴰ t (neighbours g p back n))
  Memᴰ-probe_groups o t [] = (λ m. absurd (Memᴰ.not-nil m), λ m. absurd m.1)
  Memᴰ-probe_groups o t ((node, origins) ∷ gs) =
      let ih = Memᴰ-probe_groups o t gs in
      let here = Memᴰ-emit o t origins (neighbours g p back node) in
      (
        λ m.
            ⊎_elim (λ k. let (a, b) = here.0 k in (node, inl (refl, a), b))
              (λ k. let (n, a, b) = ih.0 k in (n, inr a, b))
              (Memᴰ.append_cases (emit origins (neighbours g p back node)) m),
        λ (n, a, b).
            ⊎_elim
              (λ (e, k).
                Memᴰ.append_left _ (here.1 (k, subst (λ z. Memᴰ t (neighbours g p back z)) e b)))
              (λ k. Memᴰ.append_right _ (ih.1 (n, k, b))) a,
      )

  Memᴰ-neighbours :
      IsIndexed g
      → (n t : TermId)
      → Memᴰ t (neighbours g p back n) ↔ Toward back (λ a b. Memᴰ (a, p, b) g.spo) n t
  unfolding neighbours
  Memᴰ-neighbours ix n t = ground (arith, Memᴰ-objects g ix n p t, Memᴰ-subjects g ix t p n)

  pub probe-Yields :
      IsIndexed g
      → (input : Pairs)
      → Yields (probe g p back input) input (Toward back (λ a b. Memᴰ (a, p, b) g.spo))
  unfolding probe
  probe-Yields ix input o t =
      let swapped = map (λ (o, n). (n, o)) input in
      let all = Memᴰ-probe_groups o t (groups (sort swapped)) in
      (
        λ m.
            let (n, k, l) = all.0 m in
            let (r, inside, e) =
              Memᴰ.of_map (λ (o, n). (n, o)) input
                ((Memᴰ-sort (n, o) swapped).0 ((Grouped-groups n o (sort swapped)).0 k)) in
            (n, Memᴰ.cast (ground arith) inside, (Memᴰ-neighbours ix n t).0 l),
        λ (n, k, l). all.1 (
          n,
          (Grouped-groups n o (sort swapped)).1
              ((Memᴰ-sort (n, o) swapped).1 (Memᴰ.map (λ (o, n). (n, o)) k)),
          (Memᴰ-neighbours ix n t).1 l,
        ),
      )

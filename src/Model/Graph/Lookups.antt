-- ===== src/Model/Graph/Lookups.antt =====
-- The graph's lookups against the rows it was built from, and when a build succeeds.
use mathlib.Core.List.Memᴰ
use shacl_engine.Common.{
  ◌<◌, ◌≡◌, refl, ap, ◌↔◌, inl, inr, true, none, some, List, [], ◌∷◌, map, Memᴰ, arith, length,
  length-map, ◌==◌, row_ord, Memᴰ-filter, Memᴰ-cons, List-cases,
}
use shacl_engine.Common.Maybe.{◌>>=◌}
use shacl_engine.Common.Sort.{sort, dedup, IsSorted, sort-IsSorted, length-sort, length-dedup-le}
use shacl_engine.Common.Strict.{dedup-IsStrict, IsStrict→IsSorted}
use shacl_engine.Model.Starts
use shacl_engine.Model.Starts.{TermId, Row, Starts, u32_max, prefix2}
use shacl_engine.Model.Starts.Runs.{run_lem, build-sorted}
use shacl_engine.Model.Graph.{
  Graph, GraphBuilder, to_pos, to_osp, build, holds, first, objects, object, subjects, subjects_of,
  objects_of, contains,
}
use shacl_engine.Model.Graph.Access.{
  IsIndexed, build-IsIndexed, Memᴰ-build, Memᴰ-objects, Memᴰ-subjects, Memᴰ-pos, spo-IsSorted,
  pos-IsSorted,
}

pub Memᴰ-run :
    (rows : List Row) (s : Starts) (a : TermId) (r : Row)
    → IsSorted rows
    → Starts.build rows ≡ some s
    → Memᴰ r (Starts.run s rows a) ↔ (Memᴰ r rows × ((r.0 == a) ≡ true))
Memᴰ-run rows s a r sorted built =
    rw (run_lem rows s a sorted built) (Memᴰ-filter (λ r. r.0 == a) r rows)

pub holds_lem : (rows : List Row) (r : Row) → (holds rows r ≡ true) ↔ Memᴰ r rows
holds_lem [] r = (λ h. cc, λ m. absurd (Memᴰ.not-nil m))
holds_lem (x ∷ xs) r = ground (arith, holds_lem xs r, Memᴰ-cons r x xs)

module _ (g : Graph) (ix : IsIndexed g) where
  pub contains_lem : (s p o : TermId) → (contains g s p o ≡ true) ↔ Memᴰ (s, p, o) g.spo
  unfolding contains
  contains_lem s p o = ground (
    arith,
    holds_lem (Starts.run g.spo_starts g.spo s) (s, p, o),
    Memᴰ-run g.spo g.spo_starts s (s, p, o) (spo-IsSorted g ix) ix.spo_index,
  )

  pub object-eq-first : (s p : TermId) → object g s p ≡ first (objects g s p)
  unfolding object objects
  object-eq-first s p = refl

  pub Memᴰ-object : (s p o : TermId) → object g s p ≡ some o → Memᴰ (s, p, o) g.spo
  Memᴰ-object s p o h = elim (List-cases (objects g s p)) [
    | inl e ↦ cc (h, object-eq-first s p, ap first e)
    | inr (x, rest, e) ↦
        (Memᴰ-objects g ix s p o).0 (rw e (Memᴰ.head (cc (h, object-eq-first s p, ap first e))))
  ]

  pub object-none : (s p o : TermId) → object g s p ≡ none → ¬ Memᴰ (s, p, o) g.spo
  object-none s p o h m = elim (List-cases (objects g s p)) [
    | inl e ↦ Memᴰ.not-nil (rw e at ((Memᴰ-objects g ix s p o).1 m))
    | inr (x, rest, e) ↦ cc (h, object-eq-first s p, ap first e)
  ]

  -- The subjects listed for a predicate are those of its triples.
  pub Memᴰ-subjects_of :
      (p s : TermId) → Memᴰ s (subjects_of g p) ↔ ((o : TermId) × Memᴰ (s, p, o) g.spo)
  unfolding subjects_of
  Memᴰ-subjects_of p s = (
    λ m.
        let (r, k, e) = Memᴰ.of_map (λ (r : Row). r.2) _ m in
        let (inside, lead) = (run p r).0 k in
        (r.1, (Memᴰ-pos g ix s p r.1).0 (Memᴰ.cast (ground arith) inside)),
    λ (o, m).
        Memᴰ.map (λ (r : Row). r.2) ((run p (p, o, s)).1 ((Memᴰ-pos g ix s p o).1 m, ground arith)),
  )
    where
      run :
          (a : TermId) (r : Row)
          → Memᴰ r (Starts.run g.pos_starts g.pos a) ↔ (Memᴰ r g.pos × ((r.0 == a) ≡ true))
      run a r = Memᴰ-run g.pos g.pos_starts a r (pos-IsSorted g ix) ix.pos_index

  -- The objects listed for a predicate are those of its triples.
  pub Memᴰ-objects_of :
      (p o : TermId) → Memᴰ o (objects_of g p) ↔ ((s : TermId) × Memᴰ (s, p, o) g.spo)
  unfolding objects_of
  Memᴰ-objects_of p o = (
    λ m.
        let (r, k, e) = Memᴰ.of_map (λ (r : Row). r.1) _ m in
        let (inside, lead) = (run p r).0 k in
        (r.2, (Memᴰ-pos g ix r.2 p o).0 (Memᴰ.cast (ground arith) inside)),
    λ (s, m).
        Memᴰ.map (λ (r : Row). r.1) ((run p (p, o, s)).1 ((Memᴰ-pos g ix s p o).1 m, ground arith)),
  )
    where
      run :
          (a : TermId) (r : Row)
          → Memᴰ r (Starts.run g.pos_starts g.pos a) ↔ (Memᴰ r g.pos × ((r.0 == a) ≡ true))
      run a r = Memᴰ-run g.pos g.pos_starts a r (pos-IsSorted g ix) ix.pos_index

-- A graph that was built answers each lookup by the triples that were pushed, in any order and
-- however often: `contains`, `objects`, `subjects`, `subjects_of` and `objects_of`.
pub lookups-build :
    (rows : GraphBuilder) (g : Graph) (s p o : TermId)
    → build rows ≡ some g
    → ((contains g s p o ≡ true) ↔ Memᴰ (s, p, o) rows)
      × (Memᴰ o (objects g s p) ↔ Memᴰ (s, p, o) rows)
      × (Memᴰ s (subjects g p o) ↔ Memᴰ (s, p, o) rows)
      × (Memᴰ s (subjects_of g p) ↔ ((x : TermId) × Memᴰ (s, p, x) rows))
      × (Memᴰ o (objects_of g p) ↔ ((x : TermId) × Memᴰ (x, p, o) rows))
lookups-build rows g s p o h =
    let ix = build-IsIndexed rows g h in
    let at = λ (r : Row). Memᴰ-build rows g r h in
    (
      ground (arith, contains_lem g ix s p o, at (s, p, o)),
      ground (arith, Memᴰ-objects g ix s p o, at (s, p, o)),
      ground (arith, Memᴰ-subjects g ix s p o, at (s, p, o)),
      (
        λ m. let (x, k) = (Memᴰ-subjects_of g ix p s).0 m in (x, (at (s, p, x)).0 k),
        λ (x, k). (Memᴰ-subjects_of g ix p s).1 (x, (at (s, p, x)).1 k),
      ),
      (
        λ m. let (x, k) = (Memᴰ-objects_of g ix p o).0 m in (x, (at (x, p, o)).0 k),
        λ (x, k). (Memᴰ-objects_of g ix p o).1 (x, (at (x, p, o)).1 k),
      ),
    )

-- A build of fewer triples than the largest `u32`, pushed in any order and however often, succeeds:
-- beside the assertion, no difference of ids underflows and no index into the counts of the three
-- indexes is out of range.
pub build_returns :
    (rows : GraphBuilder) → length rows < u32_max → (g : Graph) × (build rows ≡ some g)
unfolding build
build_returns rows h =
    let spo = dedup (sort rows) in
    let pos = sort (map to_pos spo) in
    let osp = sort (map to_osp spo) in
    let short : length spo < u32_max =
      omega (arith, length-sort rows, length-dedup-le (sort rows)) in
    let sorted = IsStrict→IsSorted spo (dedup-IsStrict (sort rows) (sort-IsSorted rows)) in
    let (a, ha) = build-sorted spo sorted short in
    let (b, hb) =
      build-sorted pos (sort-IsSorted (map to_pos spo))
        (omega (arith, length-sort (map to_pos spo), length-map to_pos spo)) in
    let (c, hc) =
      build-sorted osp (sort-IsSorted (map to_osp spo))
        (omega (arith, length-sort (map to_osp spo), length-map to_osp spo)) in
    rw (ha, ◌>>=◌) (rw (hb, ◌>>=◌) (rw (hc, ◌>>=◌) (_, refl)))

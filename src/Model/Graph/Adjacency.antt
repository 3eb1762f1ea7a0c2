-- ===== src/Model/Graph/Adjacency.antt =====
-- The lookups by one end of a triple, against the rows that a graph was built from.
use mathlib.Core.List.Memᴰ
use shacl_engine.Common.{
  ◌≡◌, refl, ◌↔◌, ◌⊎◌, inl, inr, true, none, some, map, Memᴰ, arith, row_ord, Option-cases,
  List-cases,
}
use shacl_engine.Common.Sort.{Memᴰ-sort}
use shacl_engine.Model.Starts
use shacl_engine.Model.Starts.{TermId, Row}
use shacl_engine.Model.Graph.{
  Graph, GraphBuilder, to_osp, build, object, predicate_objects, subject_predicates, has_subject,
}
use shacl_engine.Model.Graph.Access.{
  IsIndexed, build-IsIndexed, Memᴰ-build, spo-IsSorted, osp-IsSorted,
}
use shacl_engine.Model.Graph.Lookups.{Memᴰ-run, Memᴰ-object, object-none}

osp_eq : (r : Row) (s p o : TermId) → to_osp r ≡ (o, s, p) → (s, p, o) ≡ r
osp_eq r s p o e = ground arith

module _ (g : Graph) (ix : IsIndexed g) where
  Memᴰ-osp : (s p o : TermId) → Memᴰ {A = Row} (o, s, p) g.osp ↔ Memᴰ {A = Row} (s, p, o) g.spo
  Memᴰ-osp s p o = (
    λ m.
        let (r, k, e) =
          Memᴰ.of_map to_osp _ ((Memᴰ-sort (o, s, p) (map to_osp g.spo)).0 (rw ix.osp_rows at m)) in
        Memᴰ.cast (osp_eq r s p o e) k,
    λ m. rw ix.osp_rows ((Memᴰ-sort (o, s, p) (map to_osp g.spo)).1 (Memᴰ.map to_osp m)),
  )

  Memᴰ-predicate_objects :
      (s p o : TermId)
      → Memᴰ {A = TermId × TermId} (p, o) (predicate_objects g s) ↔ Memᴰ {A = Row} (s, p, o) g.spo
  unfolding predicate_objects
  Memᴰ-predicate_objects s p o =
      let run = λ (r : Row). Memᴰ-run g.spo g.spo_starts s r (spo-IsSorted g ix) ix.spo_index in
      (
        λ m.
            let (r, k, e) = Memᴰ.of_map (λ (r : Row). (r.1, r.2)) _ m in
            let (inside, lead) = (run r).0 k in Memᴰ.cast (ground arith) inside,
        λ m. Memᴰ.map (λ (r : Row). (r.1, r.2)) ((run (s, p, o)).1 (m, ground arith)),
      )

  Memᴰ-subject_predicates :
      (s p o : TermId)
      → Memᴰ {A = TermId × TermId} (s, p) (subject_predicates g o) ↔ Memᴰ {A = Row} (s, p, o) g.spo
  unfolding subject_predicates
  Memᴰ-subject_predicates s p o =
      let run = λ (r : Row). Memᴰ-run g.osp g.osp_starts o r (osp-IsSorted g ix) ix.osp_index in
      (
        λ m.
            let (r, k, e) = Memᴰ.of_map (λ (r : Row). (r.1, r.2)) _ m in
            let (inside, lead) = (run r).0 k in
            (Memᴰ-osp s p o).0 (Memᴰ.cast (ground arith) inside),
        λ m.
            Memᴰ.map (λ (r : Row). (r.1, r.2))
              ((run (o, s, p)).1 ((Memᴰ-osp s p o).1 m, ground arith)),
      )

  has_subject_iff :
      (s : TermId)
      → (has_subject g s ≡ true) ↔ ((p : TermId) × (o : TermId) × Memᴰ {A = Row} (s, p, o) g.spo)
  unfolding has_subject
  has_subject_iff s =
      let run = λ (r : Row). Memᴰ-run g.spo g.spo_starts s r (spo-IsSorted g ix) ix.spo_index in
      elim (List-cases (Starts.run g.spo_starts g.spo s)) [
        | inl e ↦
            rw (has_subject, e)
              (
                λ h. cc,
                λ (p, o, m). absurd (Memᴰ.not-nil (rw e at ((run (s, p, o)).1 (m, ground arith)))),
              )
        | inr (r, rest, e) ↦
            let (inside, lead) = (run r).0 (rw e (Memᴰ.head refl)) in
            rw (has_subject, e) (λ h. (r.1, r.2, Memᴰ.cast (ground arith) inside), λ h. refl)
      ]

-- A graph that was built tells, for a subject, its predicates and objects and whether it has any;
-- for an object, its subjects and predicates; and for a subject and a predicate one object, or that
-- there is none.
pub adjacency-build :
    (rows : GraphBuilder) (g : Graph) (s p o : TermId)
    → build rows ≡ some g
    → (Memᴰ {A = TermId × TermId} (p, o) (predicate_objects g s) ↔ Memᴰ {A = Row} (s, p, o) rows)
      × (Memᴰ {A = TermId × TermId} (s, p) (subject_predicates g o) ↔ Memᴰ {A = Row} (s, p, o) rows)
      × ((has_subject g s ≡ true) ↔ ((x : TermId) × (y : TermId) × Memᴰ {A = Row} (s, x, y) rows))
      × (((object g s p ≡ none) × ((x : TermId) → ¬ Memᴰ {A = Row} (s, p, x) rows))
          ⊎ ((x : TermId) × (object g s p ≡ some x) × Memᴰ {A = Row} (s, p, x) rows))
adjacency-build rows g s p o h =
    let ix = build-IsIndexed rows g h in
    let at = λ (r : Row). Memᴰ-build rows g r h in
    (
      ground (arith, Memᴰ-predicate_objects g ix s p o, at (s, p, o)),
      ground (arith, Memᴰ-subject_predicates g ix s p o, at (s, p, o)),
      (
        λ e. let (x, y, m) = (has_subject_iff g ix s).0 e in (x, y, (at (s, x, y)).0 m),
        λ (x, y, m). (has_subject_iff g ix s).1 (x, y, (at (s, x, y)).1 m),
      ),
      elim (Option-cases (object g s p)) [
        | inl e ↦ inl (e, λ x m. object-none g ix s p x e ((at (s, p, x)).1 m))
        | inr (x, e) ↦ inr (x, e, (at (s, p, x)).0 (Memᴰ-object g ix s p x e))
      ],
    )

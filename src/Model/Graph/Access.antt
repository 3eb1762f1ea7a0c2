-- ===== src/Model/Graph/Access.antt =====
-- Each lookup of the graph finds exactly the triples that were pushed.
use mathlib.Core.List.Memᴰ
use shacl_engine.Common.{
  ℕ, ◌≡◌, refl, sym, ap, ◌∙◌, subst, ◌↔◌, true, some, List, map, Memᴰ, arith, filter, ◌==◌, row_ord,
  Memᴰ-filter,
}
use shacl_engine.Common.Maybe.{>>=-eq-some, eq_of_some}
use shacl_engine.Common.Sort.{sort, dedup, IsSorted, IsStrict, Memᴰ-sort, sort-IsSorted}
use shacl_engine.Common.Strict.{dedup-IsStrict, Memᴰ-dedup, IsStrict→IsSorted}
use shacl_engine.Model.Starts
use shacl_engine.Model.Starts.{TermId, Row, Starts, prefix2}
use shacl_engine.Model.Starts.Runs.{run_lem, prefix2_lem, filter-Ascends}
use shacl_engine.Model.Graph.{Graph, GraphBuilder, to_pos, to_osp, build, objects, subjects}

-- The three permutations hold the same rows, sorted, each under its own index.
pub record IsIndexed (g : Graph) : Type 0 where
  pub strict : IsStrict g.spo
  pub pos_rows : g.pos ≡ sort (map to_pos g.spo)
  pub osp_rows : g.osp ≡ sort (map to_osp g.spo)
  pub spo_index : Starts.build g.spo ≡ some g.spo_starts
  pub pos_index : Starts.build g.pos ≡ some g.pos_starts
  pub osp_index : Starts.build g.osp ≡ some g.osp_starts

pub build-IsIndexed : (rows : GraphBuilder) (g : Graph) → build rows ≡ some g → IsIndexed g
unfolding build
build-IsIndexed rows g h =
    let (a, ha, h1) = >>=-eq-some (Starts.build (dedup (sort rows))) _ h in
    let (b, hb, h2) = >>=-eq-some (Starts.build (sort (map to_pos (dedup (sort rows))))) _ h1 in
    let (c, hc, h3) = >>=-eq-some (Starts.build (sort (map to_osp (dedup (sort rows))))) _ h2 in
    subst IsIndexed (eq_of_some h3) (record {
      strict = dedup-IsStrict (sort rows) (sort-IsSorted rows);
      pos_rows = refl;
      osp_rows = refl;
      spo_index = ha;
      pos_index = hb;
      osp_index = hc;
    })

-- The graph holds exactly the triples that were pushed.
pub Memᴰ-build :
    (rows : GraphBuilder) (g : Graph) (r : Row) → build rows ≡ some g → Memᴰ r g.spo ↔ Memᴰ r rows
unfolding build
Memᴰ-build rows g r h =
    let (a, ha, h1) = >>=-eq-some (Starts.build (dedup (sort rows))) _ h in
    let (b, hb, h2) = >>=-eq-some (Starts.build (sort (map to_pos (dedup (sort rows))))) _ h1 in
    let (c, hc, h3) = >>=-eq-some (Starts.build (sort (map to_osp (dedup (sort rows))))) _ h2 in
    subst (λ (t : Graph). Memᴰ r t.spo ↔ Memᴰ r rows) (eq_of_some h3)
      (ground (arith, Memᴰ-dedup r (sort rows), Memᴰ-sort r rows))

row_eq : (r : Row) (a b x : ℕ) → (r.0 == a) ≡ true → (r.1 == b) ≡ true → r.2 ≡ x → r ≡ (a, b, x)
row_eq r a b x p q e = ground arith

module _ (a b : TermId) (rows : List Row) where
  Memᴰ-lead : (r : Row) → Memᴰ r (filter (λ r. r.0 == a) rows) ↔ (Memᴰ r rows × ((r.0 == a) ≡ true))
  Memᴰ-lead r = Memᴰ-filter (λ r. r.0 == a) r rows

  pub Memᴰ-second :
      (r : Row)
      → Memᴰ r (filter (λ r. r.1 == b) (filter (λ r. r.0 == a) rows))
        ↔ (Memᴰ r rows × ((r.0 == a) ≡ true) × ((r.1 == b) ≡ true))
  Memᴰ-second r =
      ground (arith, Memᴰ-filter (λ r. r.1 == b) r (filter (λ r. r.0 == a) rows), Memᴰ-lead r)

  abbrev pub thirds : List TermId
  thirds = map (λ (r : Row). r.2) (filter (λ r. r.1 == b) (filter (λ r. r.0 == a) rows))

  Memᴰ-thirds : (x : TermId) → Memᴰ x thirds ↔ Memᴰ (a, b, x) rows
  Memᴰ-thirds x = (
    λ m.
        let (r, inside, e) = Memᴰ.of_map (λ (r : Row). r.2) _ m in
        let (k, p, q) = (Memᴰ-second r).0 inside in Memᴰ.cast (sym (row_eq r a b x p q e)) k,
    λ m. Memᴰ.map (λ (r : Row). r.2) ((Memᴰ-second (a, b, x)).1 (m, ground arith, ground arith)),
  )

  -- A lookup by two leading components, through an index that was built over the rows.
  pub lookup_lem :
      (s : Starts)
      → IsSorted rows
      → Starts.build rows ≡ some s
      → map (λ (r : Row). r.2) (prefix2 (Starts.run s rows a) b) ≡ thirds
  lookup_lem s sorted built = ap (map (λ (r : Row). r.2)) (
      ap (λ t. prefix2 t b) (run_lem rows s a sorted built)
      ∙ prefix2_lem b (filter (λ r. r.0 == a) rows) (filter-Ascends a rows sorted))

pos_eq : (r : Row) (s p o : ℕ) → to_pos r ≡ (p, o, s) → (s, p, o) ≡ r
pos_eq r s p o e = ground arith

module _ (g : Graph) (ix : IsIndexed g) where
  pub spo-IsSorted : IsSorted g.spo
  spo-IsSorted = IsStrict→IsSorted g.spo ix.strict

  pub pos-IsSorted : IsSorted g.pos
  pos-IsSorted = rw ix.pos_rows (sort-IsSorted (map to_pos g.spo))

  pub osp-IsSorted : IsSorted g.osp
  osp-IsSorted = rw ix.osp_rows (sort-IsSorted (map to_osp g.spo))

  pub Memᴰ-pos : (s p o : TermId) → Memᴰ (p, o, s) g.pos ↔ Memᴰ (s, p, o) g.spo
  Memᴰ-pos s p o = (
    λ m.
        let (r, k, e) =
          Memᴰ.of_map to_pos _ ((Memᴰ-sort (p, o, s) (map to_pos g.spo)).0 (rw ix.pos_rows at m)) in
        Memᴰ.cast (pos_eq r s p o e) k,
    λ m. rw ix.pos_rows ((Memᴰ-sort (p, o, s) (map to_pos g.spo)).1 (Memᴰ.map to_pos m)),
  )

  -- The objects found for a subject and a predicate are those of the graph's triples.
  pub Memᴰ-objects : (s p o : TermId) → Memᴰ o (objects g s p) ↔ Memᴰ (s, p, o) g.spo
  unfolding objects
  Memᴰ-objects s p o =
      rw (lookup_lem s p g.spo g.spo_starts spo-IsSorted ix.spo_index) (Memᴰ-thirds s p g.spo o)

  -- The subjects found for a predicate and an object are those of the graph's triples.
  pub Memᴰ-subjects : (s p o : TermId) → Memᴰ s (subjects g p o) ↔ Memᴰ (s, p, o) g.spo
  unfolding subjects
  Memᴰ-subjects s p o =
      rw (lookup_lem p o g.pos g.pos_starts pos-IsSorted ix.pos_index)
        (ground (arith, Memᴰ-thirds p o g.pos s, Memᴰ-pos s p o))

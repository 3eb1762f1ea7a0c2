-- ===== src/Model/Graph.antt =====
-- crates/shacl/src/model/graph.rs: the immutable graph over three sorted permutations of its
-- rows. `sort_unstable`, `dedup` and `binary_search` are the standard library's; `none` is a
-- failed assertion of `Starts::build`.
pub mod Access
pub mod Lookups
pub mod Least
pub mod Adjacency
use shacl_engine.Common.{
  ℕ, Bool, true, false, Option, none, some, List, [], ◌∷◌, map, length, ◌==◌, if◌then◌else◌,
  row_ord,
}
use shacl_engine.Common.Maybe.{◌>>=◌}
use shacl_engine.Common.Sort.{sort, dedup}
use shacl_engine.Model.Starts
use shacl_engine.Model.Starts.{TermId, Row, Starts, prefix2}

pub record Graph : Type 0 where
  pub spo : List Row
  pub pos : List Row
  pub osp : List Row
  pub spo_starts : Starts
  pub pos_starts : Starts
  pub osp_starts : Starts

abbrev pub to_pos : Row → Row
to_pos r = (r.1, r.2, r.0)

abbrev pub to_osp : Row → Row
to_osp r = (r.2, r.0, r.1)

-- `GraphBuilder`: the rows pushed so far.
abbrev pub GraphBuilder : Type 0
GraphBuilder = List Row

unfoldable pub build : GraphBuilder → Option Graph
unfolding Starts.build sort dedup
build rows = do
  let spo = dedup (sort rows)
  let pos = sort (map to_pos spo)
  let osp = sort (map to_osp spo)
  spo_starts ← Starts.build spo
  pos_starts ← Starts.build pos
  osp_starts ← Starts.build osp
  some (record {
    spo = spo;
    pos = pos;
    osp = osp;
    spo_starts = spo_starts;
    pos_starts = pos_starts;
    osp_starts = osp_starts;
  })

abbrev pub is_some {ℓ} : {A : Type ℓ} → Option A → Bool
is_some none = false
is_some (some _) = true

abbrev pub first {ℓ} : {A : Type ℓ} → List A → Option A
first [] = none
first (x ∷ _) = some x

-- `binary_search` on a sorted slice: whether it holds the row.
abbrev pub holds : List Row → Row → Bool
holds [] r = false
holds (x ∷ xs) r =
    let rest = holds xs r in
    if x.0 == r.0 then (if x.1 == r.1 then (if x.2 == r.2 then true else rest) else rest) else rest

unfoldable pub len : Graph → ℕ
len g = length g.spo

-- Objects of `(s, p, ?)`.
unfoldable pub objects : Graph → TermId → TermId → List TermId
unfolding prefix2 Starts.run
objects g s p = map (λ r. r.2) (prefix2 (Starts.run g.spo_starts g.spo s) p)

-- The first object of `(s, p, ?)`.
unfoldable pub object : Graph → TermId → TermId → Option TermId
unfolding prefix2 Starts.run
object g s p = first (map (λ r. r.2) (prefix2 (Starts.run g.spo_starts g.spo s) p))

-- Subjects of `(?, p, o)`.
unfoldable pub subjects : Graph → TermId → TermId → List TermId
unfolding prefix2 Starts.run
subjects g p o = map (λ r. r.2) (prefix2 (Starts.run g.pos_starts g.pos p) o)

unfoldable pub subjects_of : Graph → TermId → List TermId
unfolding Starts.run
subjects_of g p = map (λ r. r.2) (Starts.run g.pos_starts g.pos p)

unfoldable pub objects_of : Graph → TermId → List TermId
unfolding Starts.run
objects_of g p = map (λ r. r.1) (Starts.run g.pos_starts g.pos p)

unfoldable pub predicate_objects : Graph → TermId → List (TermId × TermId)
unfolding Starts.run
predicate_objects g s = map (λ r. (r.1, r.2)) (Starts.run g.spo_starts g.spo s)

unfoldable pub subject_predicates : Graph → TermId → List (TermId × TermId)
unfolding Starts.run
subject_predicates g o = map (λ r. (r.1, r.2)) (Starts.run g.osp_starts g.osp o)

unfoldable pub contains : Graph → TermId → TermId → TermId → Bool
unfolding Starts.run
contains g s p o = holds (Starts.run g.spo_starts g.spo s) (s, p, o)

unfoldable pub has_subject : Graph → TermId → Bool
unfolding Starts.run
has_subject g s = elim (Starts.run g.spo_starts g.spo s) [ [] ↦ false | _ ∷ _ ↦ true ]

-- Every triple, in `(s, p, o)` order.
unfoldable pub iter : Graph → List Row
iter g = g.spo

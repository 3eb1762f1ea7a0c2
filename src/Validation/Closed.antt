-- ===== src/Validation/Closed.antt =====
-- crates/shacl/src/validate.rs: the predicates that a closed shape permits.
use mathlib.Core.List.{reverse}
use shacl_engine.Common.{ℕ, zero, suc, ◌+◌, ◌*◌, none, some, List, [], ◌∷◌, ◌++◌, nat_ord}
use shacl_engine.Common.Strict.{sort_dedup}
use shacl_engine.Error.{Bounded}
use shacl_engine.Model.Starts.{TermId}
use shacl_engine.Model.Graph.{objects, subjects, len}
use shacl_engine.PropertyPath.{as_predicate}
use shacl_engine.Shapes.{
  ShapeId, Shape, Constraint, property, and_shapes, or_shapes, xone, get, id_of,
}
use shacl_engine.Validation.{Services, Engine}
use shacl_engine.Validation.Bounded.{◌>>=◌, done, indexed, collect}
use shacl_engine.Validation.Classes.{visit}

module _ (h : Services) (e : Engine h) where
  -- The predicate of a property shape whose path is one.
  abbrev pub predicate_of : ShapeId → Bounded (List TermId)
  predicate_of id = do
    shape ← indexed (get h.compiled e.shapes id)
    done (elim shape.path [
      | none ↦ []
      | some p ↦ elim (as_predicate p) [ none ↦ [] | some q ↦ q ∷ [] ]
    ])

  -- The shapes that a list of ids names go to the top of the queue, the last one topmost.
  abbrev pub enqueue : List ShapeId → List (Shape h.compiled) → Bounded (List (Shape h.compiled))
  enqueue [] queue = done queue
  enqueue (id ∷ ids) queue = do
    shape ← indexed (get h.compiled e.shapes id)
    enqueue ids (shape ∷ queue)

  abbrev pub declared :
      List (Constraint h.compiled)
      → List TermId × List (Shape h.compiled)
      → Bounded (List TermId × List (Shape h.compiled))
  declared [] (out, queue) = done (out, queue)
  declared (property id ∷ cs) (out, queue) = do ps ← predicate_of id; declared cs (out ++ ps, queue)
  declared (Constraint.node id ∷ cs) (out, queue) = do
    queue' ← enqueue (id ∷ []) queue
    declared cs (out, queue')
  declared (and_shapes ids ∷ cs) (out, queue) = do
    queue' ← enqueue ids queue
    declared cs (out, queue')
  declared (or_shapes ids ∷ cs) (out, queue) = do
    queue' ← enqueue ids queue
    declared cs (out, queue')
  declared (xone ids ∷ cs) (out, queue) = do queue' ← enqueue ids queue; declared cs (out, queue')
  declared (_ ∷ cs) (out, queue) = declared cs (out, queue)

  -- The loop, which breaks when it has taken its number of shapes and one more.
  unfoldable pub compose : ℕ → List TermId → List (Shape h.compiled) → Bounded (List TermId)
  compose n out [] = done out
  compose zero out (_ ∷ _) = done out
  compose (suc n) out (s ∷ queue) = do
    (out', queue') ← declared s.constraints (out, queue)
    compose n out' queue'

  -- The predicate paths a shape declares, following the shapes it composes with.
  unfoldable pub property_paths : Shape h.compiled → Bounded (List TermId)
  unfolding compose
  property_paths shape = compose 64 [] (shape ∷ [])

  -- What the shape of that node declares, if it names one.
  unfoldable pub paths_of_node : TermId → Bounded (List TermId)
  unfolding property_paths
  paths_of_node n = elim (id_of h.compiled e.shapes n) [
    | none ↦ done []
    | some id ↦ indexed (get h.compiled e.shapes id) >>= λ shape. property_paths shape
  ]

  unfoldable pub climb : ℕ → List TermId → List TermId → List TermId → Bounded (List TermId)
  climb fuel allowed seen [] = done allowed
  climb zero allowed seen (_ ∷ _) = none
  climb (suc fuel) allowed seen (class ∷ queue) = do
    own ← paths_of_node class
    aimed ← collect paths_of_node (subjects e.shapes_graph e.targets.target_class class)
    let (seen', queue') = visit (objects e.data_graph class e.vocab.rdfs_sub_class_of) (seen, queue)
    climb fuel (allowed ++ own ++ aimed) seen' queue'

  -- Predicates permitted under `sh:closed sh:ByTypes`.
  unfoldable pub closed_by_types : TermId → List TermId → Bounded (List TermId)
  unfolding climb sort_dedup
  closed_by_types focus ignored = do
    let types = objects e.data_graph focus e.vocab.rdf_type
    allowed ←
        climb (2 * len e.data_graph + 2) (ignored ++ e.vocab.rdf_type ∷ []) types (reverse types)
    done (sort_dedup allowed)

  -- The predicate of a constraint that is a property shape.
  abbrev pub declared_property : Constraint h.compiled → Bounded (List TermId)
  declared_property (property id) = predicate_of id
  declared_property _ = done []

  -- Predicates a closed shape permits: its own property shapes' and the ignored ones.
  unfoldable pub closed_allowed : Shape h.compiled → List TermId → Bounded (List TermId)
  unfolding sort_dedup collect
  closed_allowed shape ignored = do
    own ← collect declared_property shape.constraints
    done (sort_dedup (ignored ++ own))

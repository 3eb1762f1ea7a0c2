-- ===== src/Validation/Resolve.antt =====
-- crates/shacl/src/validate.rs: the focus nodes that a shape targets.
pub mod Stacks
use shacl_engine.Common.{ℕ, ◌+◌, Option, none, some, List, [], ◌∷◌, ◌++◌, if◌then◌else◌, nat_ord}
use shacl_engine.Common.Strict.{sort_dedup}
use shacl_engine.Model.Starts.{TermId}
use shacl_engine.Model.Graph
use shacl_engine.Shapes.{
  ShapeId, Shape, Target, node, subjects_of, objects_of, implicit_class, target_where, id_of,
}
use shacl_engine.Validation.{Services, Engine}
use shacl_engine.Validation.Run.{◌>>=◌, return}
use shacl_engine.Validation.Bounded.{bounded}
use shacl_engine.Validation.Classes.{instances_of, all_nodes}
use shacl_engine.Validation.Messages.{lookup, or_else}
use shacl_engine.Validation.Sparql.{this_name, then_option}
use shacl_engine.Validation.Steps.{Step, store, lift, conforms}
use shacl_engine.Validation.Frames.{max_depth, validate_shape}

module _ (h : Services) (e : Engine h) where
  unfoldable pub validated : ℕ → ShapeId → List TermId → Step h (Unit {0})
  unfolding validate_shape
  validated steps id focus = validate_shape h e max_depth steps id focus

  -- The candidates that conform to a shape.
  unfoldable pub conforming : ℕ → ShapeId → List TermId → Step h (List TermId)
  unfolding conforms
  conforming steps id [] = return []
  conforming steps id (candidate ∷ rest) = do
    met ← conforms h (validated steps) id candidate
    more ← conforming steps id rest
    return (if met then candidate ∷ more else more)

  -- The focus nodes that the rows of a selector bind.
  abbrev pub selected : h.Store → List (List (List ℕ × h.Term)) → List TermId
  selected s [] = []
  selected s (row ∷ more) =
      elim (then_option (or_else (lookup row this_name) (h.next_value row))
        (λ t. h.from_term t s)) [ none ↦ selected s more | some id ↦ id ∷ selected s more ]

  -- The nodes of the data that conform to a shape, if it is one.
  unfoldable pub candidates : ℕ → Option ShapeId → Step h (List TermId)
  unfolding conforming all_nodes
  candidates steps none = return []
  candidates steps (some id) = conforming steps id (all_nodes e.data_graph)

  unfoldable pub target_nodes : ℕ → Target h.compiled → Step h (List TermId)
  unfolding candidates instances_of id_of Graph.subjects_of Graph.objects_of
  target_nodes steps (node n) = return (n ∷ [])
  target_nodes steps (Target.class c) = lift h (bounded (instances_of e.data_graph e.vocab c))
  target_nodes steps (implicit_class c) = lift h (bounded (instances_of e.data_graph e.vocab c))
  target_nodes steps (Target.subjects_of p) = return (Graph.subjects_of e.data_graph p)
  target_nodes steps (Target.objects_of p) = return (Graph.objects_of e.data_graph p)
  target_nodes steps (target_where n) = candidates steps (id_of h.compiled e.shapes n)
  target_nodes steps (Target.sparql q) = do
    s ← store h
    solutions ← lift h (some (h.run_query q.query [] e.data_graph s none))
    return (selected s solutions)

  unfoldable pub all_targets : ℕ → List (Target h.compiled) → Step h (List TermId)
  unfolding target_nodes
  all_targets steps [] = return []
  all_targets steps (t ∷ ts) = do
    ns ← target_nodes steps t
    more ← all_targets steps ts
    return (ns ++ more)

  unfoldable pub focus_nodes : ℕ → Shape h.compiled → Step h (List TermId)
  unfolding all_targets sort_dedup
  focus_nodes steps shape = do ns ← all_targets steps shape.targets; return (sort_dedup ns)

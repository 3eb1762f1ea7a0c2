-- ===== src/Validation/Resolve/Stacks.antt =====
-- Validating a shape and resolving targets leave the stack empty, as they found it.
use shacl_engine.Common.{
  ℕ, refl, Option, none, some, List, [], ◌∷◌, ◌++◌, arith, if◌then◌else◌, nat_ord,
}
use shacl_engine.Common.Strict.{sort_dedup}
use shacl_engine.Model.Starts.{TermId}
use shacl_engine.Shapes.{ShapeId, Shape, Target, node, implicit_class, target_where}
use shacl_engine.Validation.{Services, Engine, no_stack}
use shacl_engine.Validation.Run.{or_panics, Keeps}
use shacl_engine.Validation.Safe.{
  IsSafe, IsSafeValidator, return-IsSafe, then_IsSafe, store-IsSafe, lift-IsSafe, conforms-IsSafe,
}
use shacl_engine.Validation.Steps.{Step}
use shacl_engine.Validation.Resolve.{
  validated, conforming, candidates, selected, target_nodes, all_targets, focus_nodes,
}
use shacl_engine.Validation.Frames.{max_depth}
use shacl_engine.Validation.Frames.Nesting.{validate_shape-IsSafe}

module _ (h : Services) (e : Engine h) (steps : ℕ) where
  abbrev Safe {ℓ} : {A : Type ℓ} → Step h A → Type 0
  Safe m = IsSafe h no_stack m

  pub validated-IsSafe : IsSafeValidator h no_stack (validated h e steps)
  unfolding validated
  validated-IsSafe = validate_shape-IsSafe h e max_depth steps no_stack (λ q. refl) (omega arith)

  conforming-IsSafe : (id : ShapeId) (ns : List TermId) → Safe (conforming h e steps id ns)
  unfolding conforming
  conforming-IsSafe id [] = return-IsSafe h no_stack []
  conforming-IsSafe id (n ∷ ns) =
      then_IsSafe h no_stack
        (conforms-IsSafe h no_stack (validated h e steps) validated-IsSafe id n)
        (λ met.
          then_IsSafe h no_stack (conforming-IsSafe id ns)
            (λ more. return-IsSafe h no_stack (if met then n ∷ more else more)))

  candidates-IsSafe : (id : Option ShapeId) → Safe (candidates h e steps id)
  unfolding candidates
  candidates-IsSafe none = return-IsSafe h no_stack []
  candidates-IsSafe (some id) = conforming-IsSafe id _

  target_nodes-IsSafe : (t : Target h.compiled) → Safe (target_nodes h e steps t)
  unfolding target_nodes
  target_nodes-IsSafe (node n) = return-IsSafe h no_stack _
  target_nodes-IsSafe (Target.class c) = lift-IsSafe h no_stack _
  target_nodes-IsSafe (implicit_class c) = lift-IsSafe h no_stack _
  target_nodes-IsSafe (Target.subjects_of p) = return-IsSafe h no_stack _
  target_nodes-IsSafe (Target.objects_of p) = return-IsSafe h no_stack _
  target_nodes-IsSafe (target_where n) = candidates-IsSafe _
  target_nodes-IsSafe (Target.sparql q) = then_IsSafe h no_stack (store-IsSafe h no_stack) (λ s.
      then_IsSafe h no_stack
        (lift-IsSafe h no_stack (some (h.run_query q.query [] e.data_graph s none)))
        (λ solutions. return-IsSafe h no_stack (selected h e s solutions)))

  all_targets-IsSafe : (ts : List (Target h.compiled)) → Safe (all_targets h e steps ts)
  unfolding all_targets
  all_targets-IsSafe [] = return-IsSafe h no_stack []
  all_targets-IsSafe (t ∷ ts) = then_IsSafe h no_stack (target_nodes-IsSafe t) (λ ns.
      then_IsSafe h no_stack (all_targets-IsSafe ts)
        (λ more. return-IsSafe h no_stack (ns ++ more)))

  pub focus_nodes-IsSafe : (shape : Shape h.compiled) → Safe (focus_nodes h e steps shape)
  unfolding focus_nodes
  focus_nodes-IsSafe shape =
      then_IsSafe h no_stack (all_targets-IsSafe shape.targets)
        (λ ns. return-IsSafe h no_stack (sort_dedup ns))

  pub or_panics-IsSafe {ℓ} : {A : Type ℓ} (o : Option A) → Safe (or_panics o)
  unfolding Keeps
  or_panics-IsSafe none = record { keeps = λ c u. tt }
  or_panics-IsSafe (some a) = record { keeps = λ c u. u }

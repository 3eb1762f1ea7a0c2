-- ===== src/Validation/Parallel/Stacks.antt =====
-- The roots validated in pieces leave the caller's stack empty, as they found it, and no piece runs
-- out of levels of calls.
use shacl_engine.Common.{ltb, ◌||◌, ℕ, refl, Bool, true, false, List, [], ◌∷◌, ◌++◌, nat_ord}
use shacl_engine.Model.Starts.{TermId}
use shacl_engine.Shapes.{ShapeId, get}
use shacl_engine.Validation.{Services, Engine, Context, Options, no_stack}
use shacl_engine.Validation.Run.{returns, Keeps}
use shacl_engine.Validation.Safe.{
  Unchanged, IsSafe, return-IsSafe, if_IsSafe, then_IsSafe, lift-IsSafe,
}
use shacl_engine.Validation.Steps.{Step}
use shacl_engine.Validation.Resolve.{validated}
use shacl_engine.Error.{Error}
use shacl_engine.Shapes.{is_focus_separable}
use shacl_engine.Validation.Run.{Run, out_of_steps, out_of_levels, panics, fails}
use shacl_engine.Validation.Resolve.Stacks.{validated-IsSafe, focus_nodes-IsSafe, or_panics-IsSafe}
use shacl_engine.Validation.Parallel.{
  parallel_min_focus, total_focus, is_capped, start, thread_count, resolve_targets,
  validate_resolved, after_error, gather, validate_tasks, validate_pieces, split_roots,
  validate_roots_parallel,
}

module _ (h : Services) (e : Engine h) (steps : ℕ) where
  abbrev Safe {ℓ} : {A : Type ℓ} → Step h A → Type 0
  Safe m = IsSafe h no_stack m

  resolve_targets-IsSafe : (roots : List ShapeId) → Safe (resolve_targets h e steps roots)
  unfolding resolve_targets
  resolve_targets-IsSafe [] = return-IsSafe h no_stack []
  resolve_targets-IsSafe (root ∷ roots) =
      then_IsSafe h no_stack (or_panics-IsSafe h e steps (get h.compiled e.shapes root)) (λ shape.
        then_IsSafe h no_stack (focus_nodes-IsSafe h e steps shape) (λ focus.
          then_IsSafe h no_stack (resolve_targets-IsSafe roots)
            (λ rest. return-IsSafe h no_stack ((root, focus) ∷ rest))))

  validate_resolved-IsSafe :
      (per_root : List (ShapeId × List TermId)) → Safe (validate_resolved h e steps per_root)
  unfolding validate_resolved
  validate_resolved-IsSafe [] = return-IsSafe h no_stack tt
  validate_resolved-IsSafe ((root, focus) ∷ rest) =
      then_IsSafe h no_stack (validated-IsSafe h e steps root focus)
        (λ _. validate_resolved-IsSafe rest)

  after_error-Keeps :
      (reason : Error) (c : Context h) (r : Run (Context h) (Unit {0}))
      → Unchanged h no_stack c
      → Keeps (Unchanged h no_stack) r
      → Keeps (Unchanged h no_stack) (after_error h e reason c r)
  unfolding Keeps
  after_error-Keeps reason c out_of_steps u k = tt
  after_error-Keeps reason c out_of_levels u k = k
  after_error-Keeps reason c panics u k = tt
  after_error-Keeps reason c (fails _ _) u k = u
  after_error-Keeps reason c (returns _ _) u k = u

  gather-Keeps :
      (r : Run (Context h) (Unit {0})) (more : Step h (Unit {0})) (c : Context h)
      → Keeps (Unchanged h no_stack) r
      → Safe more
      → Unchanged h no_stack c
      → Keeps (Unchanged h no_stack) (gather h e r more c)
  unfolding Keeps
  gather-Keeps out_of_steps more c k good u = tt
  gather-Keeps out_of_levels more c k good u = k
  gather-Keeps panics more c k good u = tt
  gather-Keeps (fails reason _) more c k good u =
      after_error-Keeps reason c (more c) u (good.keeps c u)
  gather-Keeps (returns _ local) more c k good u =
      good.keeps (record c { out = c.out ++ local.out }) u

  validate_tasks-IsSafe : (ts : List (ShapeId × List TermId)) → Safe (validate_tasks h e steps ts)
  unfolding validate_tasks
  validate_tasks-IsSafe [] = return-IsSafe h no_stack tt
  validate_tasks-IsSafe ((root, chunk) ∷ rest) = record {
    keeps = λ c u.
        gather-Keeps (validated h e steps root chunk (start h e c.store))
          (validate_tasks h e steps rest) c
          ((validated-IsSafe h e steps root chunk).keeps (start h e c.store) refl)
          (validate_tasks-IsSafe rest) u;
  }

  validate_pieces-IsSafe :
      (threads : ℕ) (per_root : List (ShapeId × List TermId))
      → Safe (validate_pieces h e steps threads per_root)
  unfolding validate_pieces
  validate_pieces-IsSafe threads per_root =
      if_IsSafe h no_stack (ltb (total_focus per_root) parallel_min_focus)
        (validate_resolved-IsSafe per_root) (validate_tasks-IsSafe _)

  split_roots-IsSafe : (threads : ℕ) (b : Bool) → Safe (split_roots h e steps threads b)
  unfolding split_roots
  split_roots-IsSafe threads false = return-IsSafe h no_stack false
  split_roots-IsSafe threads true =
      then_IsSafe h no_stack (resolve_targets-IsSafe e.shapes.roots) (λ per_root.
        then_IsSafe h no_stack (validate_pieces-IsSafe threads per_root)
          (λ _. return-IsSafe h no_stack true))

  pub validate_roots_parallel-IsSafe :
      (options : Options) → Safe (validate_roots_parallel h e steps options)
  unfolding validate_roots_parallel
  validate_roots_parallel-IsSafe options =
      if_IsSafe h no_stack
        (ltb (thread_count h e options.threads) 2 || is_capped options.max_results)
        (return-IsSafe h no_stack false)
        (then_IsSafe h no_stack
          (lift-IsSafe h no_stack (is_focus_separable h.compiled e.shapes steps))
          (split_roots-IsSafe (thread_count h e options.threads)))

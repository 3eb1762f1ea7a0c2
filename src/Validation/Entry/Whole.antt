-- ===== src/Validation/Entry/Whole.antt =====
-- A whole validation run: targets, roots and nominated shapes leave the stack as they found it.
use shacl_engine.Common.{
  ℕ, ◌≡◌, refl, Bool, true, false, Option, none, some, List, [], ◌∷◌, if◌then◌else◌, nat_ord,
}
use shacl_engine.Common.Strict.{sort_dedup}
use shacl_engine.Model.Starts.{TermId}
use shacl_engine.Report.{ValidationResult}
use shacl_engine.Shapes.{ShapeId, get, id_of}
use shacl_engine.Validation.{Services, Engine, Context, Options, no_stack}
use shacl_engine.Validation.Run.{returns, Keeps}
use shacl_engine.Validation.Safe.{Unchanged, IsSafe, return-IsSafe, then_IsSafe}
use shacl_engine.Validation.Steps.{Step}
use shacl_engine.Validation.Entry.{
  root_turn, validate_roots, all_roots, validate_nominee, validate_nominated, run_all, reported,
  validate_in_with, validate_groups, validate_nodes, trim, group_work, capped,
}
use shacl_engine.Validation.Frames.{enough}
use shacl_engine.Validation.Resolve.Stacks.{validated-IsSafe, focus_nodes-IsSafe, or_panics-IsSafe}
use shacl_engine.Validation.Parallel.Stacks.{validate_roots_parallel-IsSafe}

module _ (h : Services) (e : Engine h) (steps : ℕ) where
  abbrev Safe {ℓ} : {A : Type ℓ} → Step h A → Type 0
  Safe m = IsSafe h no_stack m

  stop_Keeps :
      (b : Bool) (m : Step h (Unit {0})) (c : Context h)
      → Unchanged h no_stack c
      → Keeps (Unchanged h no_stack) (m c)
      → Keeps (Unchanged h no_stack) (if b then returns tt c else m c)
  unfolding Keeps
  stop_Keeps true m c u k = u
  stop_Keeps false m c u k = k

  -- A loop that may stop before each of its turns.
  stopping :
      (test : List ValidationResult → Bool) (m : Step h (Unit {0}))
      → Safe m
      → Safe (λ c. if test c.out then returns tt c else m c)
  stopping test m good = record { keeps = λ c u. stop_Keeps (test c.out) m c u (good.keeps c u) }

  root_turn-IsSafe : (root : ShapeId) → Safe (root_turn h e steps root)
  unfolding root_turn
  root_turn-IsSafe root =
      then_IsSafe h no_stack (or_panics-IsSafe h e steps (get h.compiled e.shapes root)) (λ shape.
        then_IsSafe h no_stack (focus_nodes-IsSafe h e steps shape)
          (λ focus. validated-IsSafe h e steps root focus))

  validate_roots-IsSafe : (roots : List ShapeId) → Safe (validate_roots h e steps roots)
  unfolding validate_roots
  validate_roots-IsSafe [] = return-IsSafe h no_stack tt
  validate_roots-IsSafe (root ∷ roots) =
      stopping (enough h e) _
        (then_IsSafe h no_stack (root_turn-IsSafe root) (λ _. validate_roots-IsSafe roots))

  nominee-IsSafe : (n : TermId) (id : Option ShapeId) → Safe (validate_nominee h e steps n id)
  nominee-IsSafe n none = return-IsSafe h no_stack tt
  nominee-IsSafe n (some id) = validated-IsSafe h e steps id (n ∷ [])

  validate_nominated-IsSafe : (ns ss : List TermId) → Safe (validate_nominated h e steps ns ss)
  unfolding validate_nominated
  validate_nominated-IsSafe [] ss = return-IsSafe h no_stack tt
  validate_nominated-IsSafe (n ∷ ns) [] = return-IsSafe h no_stack tt
  validate_nominated-IsSafe (n ∷ ns) (s ∷ ss) = stopping (enough h e) _ (
      then_IsSafe h no_stack (nominee-IsSafe n (id_of h.compiled e.shapes s))
        (λ _. validate_nominated-IsSafe ns ss))

  all_roots-IsSafe : (split : Bool) → Safe (all_roots h e steps split)
  unfolding all_roots
  all_roots-IsSafe true = return-IsSafe h no_stack tt
  all_roots-IsSafe false = validate_roots-IsSafe e.shapes.roots

  run_all-IsSafe : (options : Options) → Safe (run_all h e steps options)
  unfolding run_all
  run_all-IsSafe options =
      then_IsSafe h no_stack
        (then_IsSafe h no_stack (validate_roots_parallel-IsSafe h e steps options) all_roots-IsSafe)
        (λ _. validate_nominated-IsSafe _ _)

  validate_groups-IsSafe :
      (groups : List (ShapeId × List TermId)) → Safe (validate_groups h e steps groups)
  unfolding validate_groups
  validate_groups-IsSafe [] = return-IsSafe h no_stack tt
  validate_groups-IsSafe ((shape, nodes) ∷ rest) =
      then_IsSafe h no_stack (validated-IsSafe h e steps shape (sort_dedup nodes))
        (λ _. validate_groups-IsSafe rest)

  reported-IsSafe :
      (trimmed : List ValidationResult → List ValidationResult) (m : Step h (Unit {0}))
      → Safe m
      → Safe (reported h e trimmed m)
  unfolding reported Keeps
  reported-IsSafe trimmed m good = then_IsSafe h no_stack good (λ _. record { keeps = λ c u. u })

-- The depth limit of the engine bounds the nesting of its own calls, through shape-valued constraints
-- and target selectors, in a run over a whole graph, by workers or in turn, as in one over chosen nodes:
-- neither these calls nor a worker's run out of the limit's levels, and when the run returns or
-- fails with an error, no shape is being validated on its stack any more. A node expression is a parameter here;
-- where its evaluation starts a validation of its own, that has another stack and another limit.
pub validations_leave_no_stack :
    (h : Services) (e : Engine h) (steps : ℕ) (options : Options) (work : List (ShapeId × TermId))
    (store : h.Store)
    → Keeps (λ c. c.stack ≡ no_stack) (validate_in_with h e steps options store)
      × Keeps (λ c. c.stack ≡ no_stack) (validate_nodes h e steps work store)
unfolding validate_in_with validate_nodes
validations_leave_no_stack h e steps options work store = (
  (reported-IsSafe h (capped h e options.max_results options.blocking) steps
        (trim e.severities options) _
        (run_all-IsSafe h (capped h e options.max_results options.blocking) steps options)).keeps
      _ refl,
  (reported-IsSafe h (capped h e none none) steps (λ rs. rs) _
        (validate_groups-IsSafe h (capped h e none none) steps (group_work work []))).keeps
      _ refl,
)

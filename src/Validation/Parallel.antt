-- ===== src/Validation/Parallel.antt =====
-- `validate_roots_parallel` of crates/shacl/src/validate.rs: the roots' focus sets in pieces, each
-- validated by a worker on a stack and a copy of the store of its own. The pieces do not affect each
-- other, so the order of the workers is that of the pieces; the number of processors is a service.
pub mod Stacks
pub mod Pieces
use shacl_engine.Common.{
  ℕ, zero, suc, ◌+◌, ◌-◌, ◌/◌, ◌||◌, ltb, drop, Bool, true, false, not, Option, none, some, List,
  [], ◌∷◌, ◌++◌, map, length, take, if◌then◌else◌,
}
use shacl_engine.Error.{Error}
use shacl_engine.Model.Starts.{TermId}
use shacl_engine.Model.Graph
use shacl_engine.Shapes.{is_focus_separable, ShapeId, get}
use shacl_engine.Validation.{Services, Engine, Context, Options, no_stack}
use shacl_engine.Validation.Run.{
  Run, out_of_steps, out_of_levels, panics, fails, returns, ◌>>=◌, ◌>>◌, return, or_panics,
}
use shacl_engine.Validation.Values.{is_nil}
use shacl_engine.Validation.Steps.{Step, store, lift}
use shacl_engine.Validation.Resolve.{validated, focus_nodes}

abbrev pub parallel_min_focus : ℕ
parallel_min_focus = 4096

-- `slice::chunks`: the pieces of a length, the last one perhaps shorter.
abbrev pub chunks_on {ℓ} : {A : Type ℓ} → ℕ → ℕ → List A → List (List A)
chunks_on zero n xs = []
chunks_on (suc k) n xs = if is_nil xs then [] else take n xs ∷ chunks_on k n (drop n xs)

abbrev pub chunks {ℓ} : {A : Type ℓ} → ℕ → List A → List (List A)
chunks n xs = chunks_on (length xs) n xs

-- How many focus nodes there are in all.
abbrev pub total_focus : List (ShapeId × List TermId) → ℕ
total_focus [] = 0
total_focus ((_, focus) ∷ rest) = length focus + total_focus rest

-- `total.div_ceil(threads).max(1)`
abbrev pub per_task : ℕ → ℕ → ℕ
per_task total threads = let n = (total + (threads - 1)) / threads in if ltb n 1 then 1 else n

abbrev pub tasks : ℕ → List (ShapeId × List TermId) → List (ShapeId × List TermId)
tasks n [] = []
tasks n ((root, focus) ∷ rest) = map (λ chunk. (root, chunk)) (chunks n focus) ++ tasks n rest

abbrev pub is_capped : Option ℕ → Bool
is_capped none = false
is_capped (some _) = true

module _ (h : Services) (e : Engine h) where
  abbrev pub start : h.Store → Context h
  start s = record { out = []; stack = no_stack; store = s }

  abbrev pub thread_count : ℕ → ℕ
  thread_count zero = h.available_parallelism
  thread_count (suc n) = suc n

  -- The focus nodes of each root.
  unfoldable pub resolve_targets : ℕ → List ShapeId → Step h (List (ShapeId × List TermId))
  unfolding focus_nodes
  resolve_targets steps [] = return []
  resolve_targets steps (root ∷ roots) = do
    shape ← or_panics (get h.compiled e.shapes root)
    focus ← focus_nodes h e steps shape
    rest ← resolve_targets steps roots
    return ((root, focus) ∷ rest)

  -- Few focus nodes are validated in turn.
  unfoldable pub validate_resolved : ℕ → List (ShapeId × List TermId) → Step h (Unit {0})
  unfolding validated
  validate_resolved steps [] = return tt
  validate_resolved steps ((root, focus) ∷ rest) =
      validated h e steps root focus >> validate_resolved steps rest

  -- An error waits for the pieces behind it, which all run: one of them may panic.
  abbrev pub after_error {ℓ} :
      {A : Type ℓ} → Error → Context h → Run (Context h) A → Run (Context h) A
  after_error reason c out_of_steps = out_of_steps
  after_error reason c out_of_levels = out_of_levels
  after_error reason c panics = panics
  after_error reason c (fails _ _) = fails reason c
  after_error reason c (returns _ _) = fails reason c

  -- A piece's own run, and what its results do to the run that waits for it.
  abbrev pub gather : Run (Context h) (Unit {0}) → Step h (Unit {0}) → Step h (Unit {0})
  gather out_of_steps more c = out_of_steps
  gather out_of_levels more c = out_of_levels
  gather panics more c = panics
  gather (fails reason _) more c = after_error reason c (more c)
  gather (returns _ local) more c = more (record c { out = c.out ++ local.out })

  unfoldable pub validate_tasks : ℕ → List (ShapeId × List TermId) → Step h (Unit {0})
  unfolding validated
  validate_tasks steps [] c = returns tt c
  validate_tasks steps ((root, chunk) ∷ rest) c =
      gather (validated h e steps root chunk (start c.store)) (validate_tasks steps rest) c

  unfoldable pub validate_pieces : ℕ → ℕ → List (ShapeId × List TermId) → Step h (Unit {0})
  unfolding validate_resolved validate_tasks
  validate_pieces steps threads per_root =
      let total = total_focus per_root in
      if ltb total parallel_min_focus
      then validate_resolved steps per_root
      else validate_tasks steps (tasks (per_task total threads) per_root)

  unfoldable pub split_roots : ℕ → ℕ → Bool → Step h Bool
  unfolding resolve_targets validate_pieces
  split_roots steps threads false = return false
  split_roots steps threads true = do
    per_root ← resolve_targets steps e.shapes.roots
    validate_pieces steps threads per_root
    return true

  -- Whether the roots have been validated here. Only a run that is not capped and whose focus sets can be
  -- validated in pieces qualifies.
  unfoldable pub validate_roots_parallel : ℕ → Options → Step h Bool
  unfolding split_roots is_focus_separable
  validate_roots_parallel steps options =
      let threads = thread_count options.threads in
      if ltb threads 2 || is_capped options.max_results
      then return false
      else (lift h (is_focus_separable h.compiled e.shapes steps) >>= split_roots steps threads)

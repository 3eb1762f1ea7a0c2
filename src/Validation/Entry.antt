-- ===== src/Validation/Entry.antt =====
-- crates/shacl/src/validate.rs: targets, and the calls that validate a graph, chosen nodes or one
-- node. Each nests as deep as the engine's limit allows; `steps` bounds each loop over frames.
pub mod Whole
pub mod Trim
pub mod Groups
use shacl_engine.Common.{
  ℕ, suc, ◌+◌, Bool, true, Option, none, some, List, [], ◌∷◌, ◌++◌, ◌==◌, take, if◌then◌else◌,
  nat_ord,
}
use shacl_engine.Common.Strict.{sort_dedup}
use shacl_engine.Model.Starts.{TermId}
use shacl_engine.Model.Graph
use shacl_engine.Model.Vocab.{Severities}
use shacl_engine.Report.{ValidationResult, ValidationReport, disallowed, blocks, sort_results}
use shacl_engine.Shapes.{ShapeId, node, subjects_of, objects_of, get, id_of}
use shacl_engine.Validation.{Services, Engine, Context, Options}
use shacl_engine.Validation.Run.{Run, returns, ◌>>=◌, ◌>>◌, return, or_panics}
use shacl_engine.Validation.Steps.{Step, conforms}
use shacl_engine.Validation.Frames.{enough}
use shacl_engine.Validation.Resolve.{validated, focus_nodes}
use shacl_engine.Validation.Parallel.{start, validate_roots_parallel}

-- Cuts after the `n`th blocking result: how many have been met, and what is kept.
abbrev pub cut_at : List TermId → ℕ → ℕ → List ValidationResult → List ValidationResult
cut_at severities n met [] = []
cut_at severities n met (r ∷ rs) =
    let more = cut_at severities n (suc met) rs in
    let rest = cut_at severities n met rs in
    if blocks severities r then (if suc met == n then r ∷ [] else r ∷ more) else r ∷ rest

-- The trimming of a capped report.
unfoldable pub trim : Severities → Options → List ValidationResult → List ValidationResult
trim v options results = elim options.max_results [
  | none ↦ results
  | some n ↦ elim options.blocking [
    | some severities ↦ cut_at (disallowed v severities) n 0 results
    | none ↦ take n results
  ]
]

-- The work list of `validate_nodes`, by shape.
abbrev pub join_work :
    ShapeId → TermId → List (ShapeId × List TermId) → List (ShapeId × List TermId)
join_work shape n [] = (shape, n ∷ []) ∷ []
join_work shape n ((s, nodes) ∷ rest) =
    let more = join_work shape n rest in
    if s == shape then (s, nodes ++ n ∷ []) ∷ rest else (s, nodes) ∷ more

unfoldable pub group_work :
    List (ShapeId × TermId) → List (ShapeId × List TermId) → List (ShapeId × List TermId)
group_work [] grouped = grouped
group_work ((shape, n) ∷ work) grouped = group_work work (join_work shape n grouped)

module _ (h : Services) (e : Engine h) where
  -- A root with its focus nodes.
  unfoldable pub root_turn : ℕ → ShapeId → Step h (Unit {0})
  unfolding focus_nodes
  root_turn steps root = do
    shape ← or_panics (get h.compiled e.shapes root)
    focus ← focus_nodes h e steps shape
    validated h e steps root focus

  -- The roots in order, until enough results are in hand.
  unfoldable pub validate_roots : ℕ → List ShapeId → Step h (Unit {0})
  unfolding root_turn enough
  validate_roots steps [] c = returns tt c
  validate_roots steps (root ∷ roots) c =
      if enough h e c.out
      then returns tt c
      else (root_turn steps root >> validate_roots steps roots) c

  abbrev pub validate_nominee : ℕ → TermId → Option ShapeId → Step h (Unit {0})
  validate_nominee steps n none = return tt
  validate_nominee steps n (some id) = validated h e steps id (n ∷ [])

  -- The data nodes that nominate a shape of their own.
  unfoldable pub validate_nominated : ℕ → List TermId → List TermId → Step h (Unit {0})
  unfolding enough id_of
  validate_nominated steps [] shape_nodes c = returns tt c
  validate_nominated steps (_ ∷ _) [] c = returns tt c
  validate_nominated steps (n ∷ nodes) (shape_node ∷ shape_nodes) c =
      if enough h e c.out
      then returns tt c
      else (validate_nominee steps n (id_of h.compiled e.shapes shape_node)
            >> validate_nominated steps nodes shape_nodes)
          c

  -- The roots, by workers if the run qualifies, and otherwise in turn.
  unfoldable pub all_roots : ℕ → Bool → Step h (Unit {0})
  unfolding validate_roots
  all_roots steps split = if split then return tt else validate_roots steps e.shapes.roots

  -- The run, before the results are trimmed and put in order.
  unfoldable pub run_all : ℕ → Options → Step h (Unit {0})
  unfolding validate_roots_parallel all_roots validate_nominated Graph.subjects_of Graph.objects_of
  run_all steps options =
      (validate_roots_parallel h e steps options >>= all_roots steps)
      >> validate_nominated steps (Graph.subjects_of e.data_graph e.targets.sh_shape)
          (Graph.objects_of e.data_graph e.targets.sh_shape)

  unfoldable pub reported :
      (List ValidationResult → List ValidationResult) → Step h (Unit {0}) → Step h ValidationReport
  unfolding sort_results
  reported trimmed run = run >> λ c. returns (record { results = sort_results (trimmed c.out) }) c

  unfoldable pub validate_groups : ℕ → List (ShapeId × List TermId) → Step h (Unit {0})
  unfolding sort_dedup
  validate_groups steps [] = return tt
  validate_groups steps ((shape, nodes) ∷ rest) =
      validated h e steps shape (sort_dedup nodes) >> validate_groups steps rest

module _ (h : Services) (e : Engine h) where
  -- The engine that a call makes, with its own cap.
  abbrev pub capped : Option ℕ → Option (List TermId) → Engine h
  capped max_results blocking = record e { max_results = max_results; blocking = blocking }

  -- `validate_in_with`, with the default feature `parallel`.
  unfoldable pub validate_in_with : ℕ → Options → h.Store → Run (Context h) ValidationReport
  unfolding run_all trim
  validate_in_with steps options s =
      let engine = capped options.max_results options.blocking in
      reported h engine (trim e.severities options) (run_all h engine steps options)
        (start h engine s)

  -- Validates a chosen set of (shape, focus node) pairs.
  unfoldable pub validate_nodes :
      ℕ → List (ShapeId × TermId) → h.Store → Run (Context h) ValidationReport
  unfolding validate_groups group_work
  validate_nodes steps work s =
      let engine = capped none none in
      reported h engine (λ rs. rs) (validate_groups h engine steps (group_work work []))
        (start h engine s)

  -- Whether a node conforms to the shape declared at a node: one result is enough, and each counts.
  unfoldable pub node_conforms : ℕ → TermId → TermId → h.Store → Run (Context h) Bool
  unfolding id_of conforms
  node_conforms steps n shape_node s =
      let engine = record (capped (some 1) none) { shapes_graph = e.data_graph } in
      elim (id_of h.compiled e.shapes shape_node) [
        | none ↦ returns true (start h engine s)
        | some id ↦ conforms h (validated h engine steps) id n (start h engine s)
      ]

  unfoldable pub focus_nodes_of : ℕ → ShapeId → h.Store → Run (Context h) (List TermId)
  unfolding focus_nodes
  focus_nodes_of steps id s =
      let engine = capped none none in
      (or_panics (get h.compiled e.shapes id) >>= λ shape. focus_nodes h engine steps shape)
        (start h engine s)

-- ===== src/Validation/Sparql.antt =====
-- crates/shacl/src/validate.rs: the constraints that run a query, whose evaluation is another
-- library's.
use shacl_engine.Common.{
  Bool, true, false, not, Option, none, some, List, [], ◌∷◌, ◌++◌, if◌then◌else◌,
}
use shacl_engine.Model.Graph.{first}
use shacl_engine.Datatypes.Integers.{Text}
use shacl_engine.Model.Starts.{TermId}
use shacl_engine.Report.{
  ValidationResult, finding, new, with_value, with_path, with_source_shape, with_messages,
  with_source_constraint, with_focus, with_optional_value,
}
use shacl_engine.Shapes.{Shape, SparqlConstraint, CustomConstraint}
use shacl_engine.ValueSet.{Row}
use shacl_engine.Validation.{Services, Engine}
use shacl_engine.Validation.Run.{◌>>=◌, return, each}
use shacl_engine.Validation.Messages.{lookup, or_else, substitute_messages}
use shacl_engine.Validation.Values.{result, unwrap_or, is_nil}
use shacl_engine.Validation.Steps.{Step, push, store, lift, each_value}

-- `this`, `value`, `path`, `currentShape`, `shapesGraph`
abbrev pub this_name : Text
this_name = 116 ∷ 104 ∷ 105 ∷ 115 ∷ []

abbrev pub value_name : Text
value_name = 118 ∷ 97 ∷ 108 ∷ 117 ∷ 101 ∷ []

abbrev pub path_name : Text
path_name = 112 ∷ 97 ∷ 116 ∷ 104 ∷ []

abbrev pub current_shape_name : Text
current_shape_name = 99 ∷ 117 ∷ 114 ∷ 114 ∷ 101 ∷ 110 ∷ 116 ∷ 83 ∷ 104 ∷ 97 ∷ 112 ∷ 101 ∷ []

abbrev pub shapes_graph_name : Text
shapes_graph_name = 115 ∷ 104 ∷ 97 ∷ 112 ∷ 101 ∷ 115 ∷ 71 ∷ 114 ∷ 97 ∷ 112 ∷ 104 ∷ []

abbrev pub map_option {ℓ κ} : {A : Type ℓ} {B : Type κ} → (A → B) → Option A → Option B
map_option f none = none
map_option f (some a) = some (f a)

abbrev pub then_option {ℓ κ} : {A : Type ℓ} {B : Type κ} → Option A → (A → Option B) → Option B
then_option none f = none
then_option (some a) f = f a

module _ (h : Services) (e : Engine h) where
  abbrev pub Solution : Type 0
  Solution = List (Text × h.Term)

  -- Messages substituted from a solution, and the store they are minted in.
  abbrev pub minted : List TermId → (Text → Option Text) → Step h (List TermId)
  minted templates find c =
      let (ms, s) = substitute_messages h templates find c.store in
      return ms (record c { store = s })

  -- A constraint's own messages speak before those of its shape.
  abbrev pub messages_of : List TermId → List TermId → (Text → Option Text) → Step h (List TermId)
  messages_of [] default find = return default
  messages_of (m ∷ ms) default find = minted (m ∷ ms) find

  -- What a solution answers for a name, and after it the bindings.
  abbrev pub solution_or : Option Solution → List (Text × h.Term) → Text → Option Text
  solution_or solution bindings name =
      map_option h.message_value
        (or_else (then_option solution (λ row. lookup row name)) (lookup bindings name))

  -- The solutions that are failures: an `ASK` that holds has one solution and no failure.
  abbrev pub failures : Bool → List Solution → List Solution
  failures true [] = [] ∷ []
  failures true (_ ∷ _) = []
  failures false solutions = solutions

  -- A solution may override the focus node, the value and the path.
  unfoldable pub override : Solution → h.Store → ValidationResult → ValidationResult
  override solution s r =
      let r1 =
        unwrap_or
          (map_option (with_focus r)
            (then_option (lookup solution this_name) (λ t. h.from_term t s)))
          r in
      let value : Option TermId = elim (lookup solution value_name) [
        | some t ↦ h.from_term t s
        | none ↦ some (finding r1).focus_node
      ] in
      let r2 = with_optional_value r1 value in
      unwrap_or
        (map_option (λ id. with_path r2 (some id))
          (then_option (lookup solution path_name) (λ t. h.from_term t s)))
        r2

  abbrev pub prebound : Shape h.compiled → TermId → h.Store → List (Text × h.Term)
  prebound shape focus s =
      (this_name, h.to_term focus s) ∷ (current_shape_name, h.to_term shape.shape_node s) ∷ []

  -- The result of one failure.
  unfoldable pub failure_result :
      Shape h.compiled
      → SparqlConstraint h.compiled
      → Row
      → List (Text × h.Term)
      → Solution
      → Step h (Unit {0})
  unfolding new with_path with_source_shape override
  failure_result shape sc row bound solution = do
    let severity = unwrap_or sc.severity shape.severity
    let r =
        with_source_constraint
          (with_source_shape
            (with_path (new row.focus e.components.sparql_component severity) shape.path_node)
            shape.shape_node)
          sc.source
    messages ← messages_of sc.message shape.messages (solution_or (some solution) bound)
    s ← store h
    push h (override solution s (with_messages r messages) ∷ [])

  -- Runs a `sh:sparql` constraint once per focus node.
  unfoldable pub eval_sparql :
      Shape h.compiled → SparqlConstraint h.compiled → List Row → Step h (Unit {0})
  unfolding each failure_result
  eval_sparql shape sc rows =
      each
        (λ (row : Row). do
          s ← store h
          let bound = prebound shape row.focus s
          solutions ← lift h (
              some (
                h.run_query sc.query (bound ++ (shapes_graph_name, h.shapes_graph_iri) ∷ [])
                  e.data_graph s (some e.shapes_graph)))
          each (failure_result shape sc row bound) (failures sc.is_ask solutions))
        rows

  abbrev pub parameter_bindings : List (Text × TermId) → h.Store → List (Text × h.Term)
  parameter_bindings [] s = []
  parameter_bindings ((name, term) ∷ rest) s = (name, h.to_term term s) ∷ parameter_bindings rest s

  -- Pushes a result, under the messages of a component if it has any.
  abbrev pub fault : List TermId → (Text → Option Text) → ValidationResult → Step h (Unit {0})
  fault [] find r = push h (r ∷ [])
  fault (m ∷ ms) find r = do messages ← minted (m ∷ ms) find; push h (with_messages r messages ∷ [])

  -- Runs a component's validator for one value node.
  unfoldable pub eval_custom_value :
      Shape h.compiled → CustomConstraint h.compiled → TermId → TermId → Step h (Unit {0})
  unfolding result with_value
  eval_custom_value shape custom focus value = do
    s ← store h
    let bindings =
        (this_name, h.to_term focus s)
        ∷ (value_name, h.to_term value s)
        ∷ parameter_bindings custom.bindings s
    solutions ← lift h (some (h.run_query custom.query.query bindings e.data_graph s none))
    let failed = if custom.query.is_ask then is_nil solutions else not (is_nil solutions)
    let r = with_value (result h e shape custom.component focus) value
    if failed
        then fault custom.query.message (solution_or (first solutions) bindings) r
        else return tt

  unfoldable pub eval_custom :
      Shape h.compiled → CustomConstraint h.compiled → List Row → Step h (Unit {0})
  unfolding eval_custom_value
  eval_custom shape custom rows = each_value h (eval_custom_value shape custom) rows

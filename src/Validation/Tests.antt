-- ===== src/Validation/Tests.antt =====
-- A recursive shape and two path comparisons, validated over a small graph.
mod Logical
use mathlib.Core.List.Memᴰ
use shacl_engine.Common.{
  ◌≡◌, ◌↔◌, refl, true, false, Option, none, some, List, [], ◌∷◌, ◌++◌, Memᴰ, arith, ◌+◌, ◌*◌, ◌<◌,
  ◌^◌, ◌≤◌, map, length, filter,
}
use shacl_engine.Error.{ok}
use shacl_engine.Datatypes.Tests.{points, literals}
use shacl_engine.Model.Tests.{small, vocab, small-IsIndexed}
use shacl_engine.Model.Graph.{len}
use shacl_engine.Model.Vocab.{Components, Severities}
use shacl_engine.Model.Terms
use shacl_engine.PropertyPath.{predicate}
use shacl_engine.Report.{ValidationResult, conforms, new, blocks, disallowed, sort_results, finding}
use shacl_engine.Shapes.{
  Compiled, Constraint, Shape, Shapes, Target, property, max_count, equals, disjoint, subset_of,
  ShapeId,
}
use shacl_engine.ValueSet.{Row}
use shacl_engine.Validation.{Services, Engine, Context, Options, Visit, no_stack}
use shacl_engine.Model.Starts.{TermId}
use shacl_engine.PropertyPath.Meaning.{Connects}
use shacl_engine.Validation.Steps.{Validator}
use shacl_engine.Validation.Run.{Run, returns, Keeps}
use shacl_engine.Validation.Frames.{validate_shape}
use shacl_engine.Validation.Frames.Nesting.{validate_shape_restores}
use shacl_engine.Validation.Parallel.{total_focus, per_task, tasks}
use shacl_engine.Validation.Entry.Groups.{AreDistinct, Holds, group_work_lem}
use shacl_engine.Validation.Entry.{group_work, trim, validate_in_with, validate_nodes}
use shacl_engine.Validation.Entry.Whole.{validations_leave_no_stack}
use shacl_engine.Validation.Entry.Trim.{trim_keeps_verdict}
use shacl_engine.Validation.Constraints.{eval_rows}
use shacl_engine.Validation.Classes.{instances_of}
use shacl_engine.Validation.Classes.Instances.{IsInstance, instance_path, instances_of_lem}
use shacl_engine.Validation.Constraints.Classes.{eval_rows_class}
use shacl_engine.Validation.Constraints.Pairs.{Pushes, eval_rows_pairs}

abbrev pub compiled : Compiled
compiled = record { Regex = Unit {0}; Query = Unit {0} }

abbrev pub services : Services
services = record {
  xsd = points;
  compiled = compiled;
  Store = Unit;
  Term = Unit;
  literals = λ s. literals;
  iri = λ s t. none;
  kind = λ s t. Terms.iri;
  direction = λ s t. none;
  get_triple_term = λ s x y z. none;
  literal_with_direction = λ x d l r s. (0, s);
  available_parallelism = 4;
  is_match = λ r t. true;
  eval_expression = λ g k x f s. (ok [], s);
  to_term = λ t s. tt;
  from_term = λ t s. none;
  message_value = λ t. [];
  shapes_graph_iri = tt;
  run_query = λ q b g s k. ok [];
  next_value = λ row. none;
}

abbrev components : Components
components = record {
  class_component = 200;
  datatype_component = 201;
  node_kind_component = 202;
  min_count_component = 203;
  max_count_component = 204;
  min_exclusive_component = 205;
  min_inclusive_component = 206;
  max_exclusive_component = 207;
  max_inclusive_component = 208;
  min_length_component = 209;
  max_length_component = 210;
  pattern_component = 211;
  language_in_component = 212;
  unique_lang_component = 213;
  equals_component = 214;
  disjoint_component = 215;
  less_than_component = 216;
  less_than_or_equals_component = 217;
  not_component = 218;
  and_component = 219;
  or_component = 220;
  xone_component = 221;
  node_component = 222;
  property_component = 223;
  qualified_min_count_component = 224;
  qualified_max_count_component = 225;
  closed_component = 226;
  reifier_shape_component = 227;
  has_value_component = 228;
  in_component = 229;
  min_list_length_component = 230;
  max_list_length_component = 231;
  member_shape_component = 232;
  unique_members_component = 233;
  single_line_component = 234;
  subset_of_component = 235;
  root_class_component = 236;
  some_value_component = 237;
  unique_values_for_component = 238;
  sparql_component = 239;
  expression_component = 240;
  node_by_expression_component = 241;
}

abbrev severities : Severities
severities = record { violation = 300; warning = 301; info = 302 }

-- A shape that follows `20` to itself and allows one value.
abbrev pub recursive : Shape compiled
recursive = record {
  shape_node = 400;
  path = some (predicate 20);
  path_node = some 20;
  values = none;
  targets = Target.node 1 ∷ [];
  constraints = property 0 ∷ max_count 0 ∷ [];
  severity = 300;
  messages = [];
  component_messages = [];
  component_severity = [];
  deactivated = false;
}

abbrev shapes : Shapes compiled
shapes = record { shapes = recursive ∷ []; by_node = []; roots = 0 ∷ [] }

abbrev pub engine : Engine services
engine = record {
  data_graph = small;
  shapes = shapes;
  shapes_graph = small;
  vocab = vocab;
  components = components;
  severities = severities;
  targets = record { target_class = 310; sh_shape = 311; reifies = 312 };
  max_results = none;
  blocking = none;
}

abbrev context : Context services
context = record { out = []; stack = no_stack; store = tt }

validate_shape_restores_example :
    Keeps
      (λ (c : Context services). c.stack ≡ no_stack)
      (validate_shape services engine 48 20 0 (1 ∷ []) context)
validate_shape_restores_example =
    validate_shape_restores services engine 48 20 0 (1 ∷ []) context (λ q. refl) (omega arith)

-- The focus nodes of what a run has found.
abbrev outcome : Run (Context services) (Unit {0}) → Option (List TermId)
outcome (returns _ c) = some (map (λ r. (finding r).focus_node) c.out)
outcome _ = none

abbrev options : Options
options = record { max_results = some 1; blocking = some []; threads = 0 }

validations_leave_no_stack_example :
    Keeps
      (λ (c : Context services). c.stack ≡ no_stack)
      (validate_in_with services engine 20 options tt)
    × Keeps
        (λ (c : Context services). c.stack ≡ no_stack)
        (validate_nodes services engine 20 ((0, 4) ∷ (0, 1) ∷ []) tt)
validations_leave_no_stack_example =
    validations_leave_no_stack services engine 20 options ((0, 4) ∷ (0, 1) ∷ []) tt

abbrev found : List ValidationResult
unfolding new
found = new 4 205 303 ∷ new 1 205 300 ∷ new 2 205 301 ∷ []

trim_keeps_verdict_example :
    (conforms (record { results = sort_results (trim severities options found) }) [] severities
      ≡ conforms (record { results = found }) [] severities)
    × (length (filter (blocks (disallowed severities [])) (trim severities options found)) ≤ 1)
trim_keeps_verdict_example = trim_keeps_verdict severities 0 0 [] found

abbrev pub row : Row
row = record { focus = 1; values = 4 ∷ [] }

abbrev accepts : Validator services
accepts id focus c = returns tt c

small_fits : 1 + 2 * len small < 2 ^ 32
unfolding len
small_fits = omega arith

eval_rows_pairs_example :
    Pushes services engine recursive 210
      (predicate 20)
      small-IsIndexed
      small_fits
      (equals (predicate 20))
      (λ r. (v : TermId) → Memᴰ v r.values ↔ Connects small (predicate 20) r.focus v)
      accepts
      (row ∷ [])
      (4 ∷ [])
      context
    × Pushes services engine recursive 210
        (predicate 20)
        small-IsIndexed
        small_fits
        (disjoint (predicate 20))
        (λ r. (v : TermId) → Memᴰ v r.values → ¬ Connects small (predicate 20) r.focus v)
        accepts
        (row ∷ [])
        (4 ∷ [])
        context
    × Pushes services engine recursive 210
        (predicate 20)
        small-IsIndexed
        small_fits
        (subset_of (predicate 20))
        (λ r. (v : TermId) → Memᴰ v r.values → Connects small (predicate 20) r.focus v)
        accepts
        (row ∷ [])
        (4 ∷ [])
        context
eval_rows_pairs_example =
    eval_rows_pairs services engine recursive 210 (predicate 20) small-IsIndexed small_fits accepts
      (row ∷ []) (4 ∷ []) context

eval_rows_class_example :
    (rs : List ValidationResult) × (eval_rows services engine accepts recursive 200
        (row ∷ [])
        (4 ∷ [])
        (Constraint.class (30 ∷ 31 ∷ []))
        context
      ≡ returns tt (record context { out = [] ++ rs }))
    × ((rs ≡ []) ↔ (
        (r : Row)
        → Memᴰ r (row ∷ [])
        → (v : TermId) → Memᴰ v r.values
        → IsInstance small vocab small-IsIndexed (30 ∷ 31 ∷ []) v))
eval_rows_class_example =
    eval_rows_class services engine recursive 200 small-IsIndexed accepts (row ∷ []) (4 ∷ [])
      (30 ∷ 31 ∷ []) context

instances_of_lem_example :
    (xs : List TermId) × (instances_of small vocab 30 ≡ some xs)
    × ((x : TermId) → Memᴰ x xs ↔ Connects small (instance_path vocab) x 30)
instances_of_lem_example = instances_of_lem small vocab small-IsIndexed 30

group_work_lem_example :
    AreDistinct (group_work ((0, 4) ∷ (1, 4) ∷ (0, 1) ∷ []) [])
    × ((s : ShapeId) (n : TermId)
        → Holds s n (group_work ((0, 4) ∷ (1, 4) ∷ (0, 1) ∷ []) [])
          ↔ Memᴰ {A = Visit} (s, n) ((0, 4) ∷ (1, 4) ∷ (0, 1) ∷ []))
group_work_lem_example = group_work_lem ((0, 4) ∷ (1, 4) ∷ (0, 1) ∷ [])

-- The recursive shape walks the cycle of `1` and `4` once, and faults both, the inner one first.
walks_the_cycle :
    outcome (validate_shape services engine 48 20 0 (1 ∷ []) context) ≡ some (4 ∷ 1 ∷ [])
unfolding validate_shape shacl_engine.Model.Graph.objects
walks_the_cycle = refl

-- Two roots with four focus nodes between them, for two workers.
abbrev resolved : List (ShapeId × List TermId)
resolved = (0, 1 ∷ 4 ∷ 5 ∷ []) ∷ (1, 4 ∷ []) ∷ []

three_pieces :
    tasks (per_task (total_focus resolved) 2) resolved
    ≡ (0, 1 ∷ 4 ∷ []) ∷ (0, 5 ∷ []) ∷ (1, 4 ∷ []) ∷ []
three_pieces = refl

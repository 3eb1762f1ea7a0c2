-- ===== src/Validation/Safe/Eval.antt =====
-- Every constraint leaves the stack as it was, if the validator it calls does.
use shacl_engine.Common.{ℕ, Bool, true, false, Option, none, some, List, [], ◌∷◌, ◌++◌}
use shacl_engine.Datatypes.Integers.{Text}
use shacl_engine.Model.Starts.{TermId}
use shacl_engine.Report.{
  ValidationResult, new, with_value, with_path, with_source_shape, with_messages,
  with_source_constraint,
}
use shacl_engine.Validation.Values.{unwrap_or, result}
use shacl_engine.Model.Graph.{first}
use shacl_engine.Validation.Sparql.{
  solution_or, override, shapes_graph_name, this_name, value_name, parameter_bindings,
}
use shacl_engine.Shapes.{
  ShapeId, Shape, SparqlConstraint, CustomConstraint, Constraint, datatype, node_kind, min_count,
  max_count, min_exclusive, min_inclusive, max_exclusive, max_inclusive, min_length, max_length,
  pattern, language_in, unique_lang, equals, disjoint, less_than, less_than_or_equals, not_shape,
  and_shapes, or_shapes, xone, property, qualified_value_shape, closed, reifier_shape, has_value,
  in_items, min_list_length, max_list_length, member_shape, unique_members, single_line, subset_of,
  root_class, some_value, unique_values_for, custom, expression, node_by_expression,
}
use shacl_engine.ValueSet.{ValueSets, Row, rows}
use shacl_engine.Validation.{Services, Engine, Stack}
use shacl_engine.Validation.Run.{Keeps}
use shacl_engine.Validation.Steps.{Step, Validator, each_value}
use shacl_engine.Validation.Sparql.{
  minted, messages_of, fault, failures, prebound, failure_result, eval_sparql, eval_custom_value,
  eval_custom,
}
use shacl_engine.Validation.Constraints.{
  eval_expr, push_unless, qualified_row, reified_by, reified_value, reified_rows, member_list,
  member_value, expression_value, conforms_to, node_by_expression_value, require, eval_rows, eval,
}
use shacl_engine.Validation.Safe.{
  IsSafe, IsSafeValidator, return-IsSafe, then_IsSafe, if_IsSafe, push-IsSafe, store-IsSafe,
  lift-IsSafe, stored-IsSafe, each-IsSafe, into_scratch-IsSafe, conforms-IsSafe, all_conform-IsSafe,
  any_conforms-IsSafe, count_conforming-IsSafe, some_value_conforms-IsSafe, count_qualified-IsSafe,
}

module _ (h : Services) (e : Engine h) (s : Stack) where
  minted-IsSafe : (ts : List TermId) (find : Text → Option Text) → IsSafe h s (minted h e ts find)
  unfolding Keeps
  minted-IsSafe ts find = record { keeps = λ c u. u }

  messages_of-IsSafe :
      (ts default : List TermId) (find : Text → Option Text)
      → IsSafe h s (messages_of h e ts default find)
  messages_of-IsSafe [] default find = return-IsSafe h s default
  messages_of-IsSafe (t ∷ ts) default find = minted-IsSafe (t ∷ ts) find

  fault-IsSafe :
      (ts : List TermId) (find : Text → Option Text) (r : ValidationResult)
      → IsSafe h s (fault h e ts find r)
  fault-IsSafe [] find r = push-IsSafe h s (r ∷ [])
  fault-IsSafe (t ∷ ts) find r =
      then_IsSafe h s (minted-IsSafe (t ∷ ts) find)
        (λ ms. push-IsSafe h s (with_messages r ms ∷ []))

  push_unless-IsSafe : (b : Bool) (r : ValidationResult) → IsSafe h s (push_unless h e b r)
  push_unless-IsSafe true r = return-IsSafe h s tt
  push_unless-IsSafe false r = push-IsSafe h s (r ∷ [])

  pub eval_expr-IsSafe : (expr focus : TermId) → IsSafe h s (eval_expr h e expr focus)
  unfolding eval_expr
  eval_expr-IsSafe expr focus = stored-IsSafe h s _

  each_value-IsSafe :
      (body : TermId → TermId → Step h (Unit {0})) (rs : List Row)
      → ((focus value : TermId) → IsSafe h s (body focus value))
      → IsSafe h s (each_value h body rs)
  each_value-IsSafe body rs good =
      each-IsSafe h s _ rs (λ row. each-IsSafe h s (body row.focus) row.values (good row.focus))

  failure_result-IsSafe :
      (shape : Shape h.compiled) (sc : SparqlConstraint h.compiled) (row : Row)
      (bound : List (Text × h.Term)) (solution : List (Text × h.Term))
      → IsSafe h s (failure_result h e shape sc row bound solution)
  unfolding failure_result
  failure_result-IsSafe shape sc row bound solution =
      then_IsSafe h s
        (messages_of-IsSafe sc.message shape.messages (solution_or h e (some solution) bound))
        (λ ms. then_IsSafe h s (store-IsSafe h s) (λ st. push-IsSafe h s (
          override h e solution st (
            with_messages
              (with_source_constraint
                (with_source_shape
                  (with_path
                    (new row.focus e.components.sparql_component
                      (unwrap_or sc.severity shape.severity))
                    shape.path_node)
                  shape.shape_node)
                sc.source)
              ms)
          ∷ [])))

  eval_sparql-IsSafe :
      (shape : Shape h.compiled) (sc : SparqlConstraint h.compiled) (rs : List Row)
      → IsSafe h s (eval_sparql h e shape sc rs)
  unfolding eval_sparql
  eval_sparql-IsSafe shape sc rs = each-IsSafe h s _ rs (λ row.
      then_IsSafe h s (store-IsSafe h s) (λ st.
        then_IsSafe h s
          (lift-IsSafe h s (
            some (
              h.run_query sc.query
                (prebound h e shape row.focus st ++ (shapes_graph_name, h.shapes_graph_iri) ∷ [])
                e.data_graph st (some e.shapes_graph))))
          (λ solutions.
            each-IsSafe h s _ (failures h e sc.is_ask solutions)
              (failure_result-IsSafe shape sc row (prebound h e shape row.focus st)))))

  abbrev bindings_of :
      CustomConstraint h.compiled → TermId → TermId → h.Store → List (Text × h.Term)
  bindings_of k focus value st =
      (this_name, h.to_term focus st)
      ∷ (value_name, h.to_term value st)
      ∷ parameter_bindings h e k.bindings st

  eval_custom-IsSafe :
      (shape : Shape h.compiled) (k : CustomConstraint h.compiled) (rs : List Row)
      → IsSafe h s (eval_custom h e shape k rs)
  unfolding eval_custom eval_custom_value
  eval_custom-IsSafe shape k rs = each_value-IsSafe _ rs (λ focus value.
      then_IsSafe h s (store-IsSafe h s) (λ st.
        then_IsSafe h s
          (lift-IsSafe h s
            (some (h.run_query k.query.query (bindings_of k focus value st) e.data_graph st none)))
          (λ solutions.
            if_IsSafe h s _
              (fault-IsSafe k.query.message
                (solution_or h e (first solutions) (bindings_of k focus value st))
                (with_value (result h e shape k.component focus) value))
              (return-IsSafe h s tt))))

  expression-IsSafe :
      (shape : Shape h.compiled) (k expr : TermId) (rs : List Row)
      → IsSafe h s (each_value h (expression_value h e shape k expr) rs)
  unfolding expression_value
  expression-IsSafe shape k expr rs = each_value-IsSafe _ rs (λ focus value.
      then_IsSafe h s (eval_expr-IsSafe expr value)
        (λ got. then_IsSafe h s (store-IsSafe h s) (λ st. push_unless-IsSafe _ _)))

  module _ (validate : Validator h) (safe : IsSafeValidator h s validate) where
    require-IsSafe :
        (shape : Shape h.compiled) (k : TermId) (test : TermId → Step h Bool) (rs : List Row)
        → ((value : TermId) → IsSafe h s (test value))
        → IsSafe h s (require h e shape k test rs)
    require-IsSafe shape k test rs good =
        each_value-IsSafe _ rs
          (λ focus value. then_IsSafe h s (good value) (λ b. push_unless-IsSafe b _))

    qualified_row-IsSafe :
        (shape : Shape h.compiled) (id : ShapeId) (min max : Option ℕ) (apart : Bool)
        (siblings : List ShapeId) (row : Row)
        → IsSafe h s (qualified_row h e validate shape id min max apart siblings row)
    unfolding qualified_row
    qualified_row-IsSafe shape id min max apart siblings row =
        then_IsSafe h s (count_qualified-IsSafe h s validate safe id apart siblings row.values)
          (λ n. push-IsSafe h s _)

    reified_by-IsSafe :
        (shape : Shape h.compiled) (k : TermId) (id : ShapeId) (required : Bool)
        (focus value : TermId) (rs : List TermId)
        → IsSafe h s (reified_by h e validate shape k id required focus value rs)
    unfolding reified_by
    reified_by-IsSafe shape k id required focus value [] = push_unless-IsSafe _ _
    reified_by-IsSafe shape k id required focus value (r ∷ rs) =
        then_IsSafe h s (into_scratch-IsSafe h s (validate id (r ∷ rs)) (safe id (r ∷ rs)))
          (λ nested. push_unless-IsSafe _ _)

    reified_rows-IsSafe :
        (shape : Shape h.compiled) (k : TermId) (id : ShapeId) (required : Bool) (p : Option TermId)
        (rs : List Row)
        → IsSafe h s (reified_rows h e validate shape k id required p rs)
    unfolding reified_rows reified_value
    reified_rows-IsSafe shape k id required none rs = return-IsSafe h s tt
    reified_rows-IsSafe shape k id required (some p) rs = each_value-IsSafe _ rs (λ focus value.
        then_IsSafe h s (store-IsSafe h s)
          (λ st. reified_by-IsSafe shape k id required focus value _))

    member_list-IsSafe :
        (shape : Shape h.compiled) (k : TermId) (id : ShapeId) (focus value : TermId)
        (ms : Option (List TermId))
        → IsSafe h s (member_list h e validate shape k id focus value ms)
    unfolding member_list
    member_list-IsSafe shape k id focus value none = push-IsSafe h s _
    member_list-IsSafe shape k id focus value (some ms) =
        then_IsSafe h s (into_scratch-IsSafe h s (validate id ms) (safe id ms))
          (λ nested. push_unless-IsSafe _ _)

    conforms_to-IsSafe :
        (id : Option ShapeId) (value : TermId) → IsSafe h s (conforms_to h e validate id value)
    unfolding conforms_to
    conforms_to-IsSafe none value = return-IsSafe h s true
    conforms_to-IsSafe (some id) value = conforms-IsSafe h s validate safe id value

    node_by_expression-IsSafe :
        (shape : Shape h.compiled) (k expr focus value : TermId)
        → IsSafe h s (node_by_expression_value h e validate shape k expr focus value)
    unfolding node_by_expression_value
    node_by_expression-IsSafe shape k expr focus value =
        then_IsSafe h s (eval_expr-IsSafe expr value) (λ targets.
          each-IsSafe h s _ targets (λ target.
            then_IsSafe h s (conforms_to-IsSafe _ value) (λ good. push_unless-IsSafe good _)))

    pub eval_rows-IsSafe :
        (shape : Shape h.compiled) (k : TermId) (rs : List Row) (all : List TermId)
        (c : Constraint h.compiled)
        → IsSafe h s (eval_rows h e validate shape k rs all c)
    unfolding eval_rows member_value
    eval_rows-IsSafe shape k rs all (min_count _) = push-IsSafe h s _
    eval_rows-IsSafe shape k rs all (max_count _) = push-IsSafe h s _
    eval_rows-IsSafe shape k rs all (has_value _) = push-IsSafe h s _
    eval_rows-IsSafe shape k rs all (in_items _) = push-IsSafe h s _
    eval_rows-IsSafe shape k rs all (min_list_length _) = push-IsSafe h s _
    eval_rows-IsSafe shape k rs all (max_list_length _) = push-IsSafe h s _
    eval_rows-IsSafe shape k rs all (datatype _) =
        then_IsSafe h s (store-IsSafe h s) (λ st. push-IsSafe h s _)
    eval_rows-IsSafe shape k rs all (node_kind _) =
        then_IsSafe h s (store-IsSafe h s) (λ st. push-IsSafe h s _)
    eval_rows-IsSafe shape k rs all (min_exclusive _) =
        then_IsSafe h s (store-IsSafe h s) (λ st. push-IsSafe h s _)
    eval_rows-IsSafe shape k rs all (min_inclusive _) =
        then_IsSafe h s (store-IsSafe h s) (λ st. push-IsSafe h s _)
    eval_rows-IsSafe shape k rs all (max_exclusive _) =
        then_IsSafe h s (store-IsSafe h s) (λ st. push-IsSafe h s _)
    eval_rows-IsSafe shape k rs all (max_inclusive _) =
        then_IsSafe h s (store-IsSafe h s) (λ st. push-IsSafe h s _)
    eval_rows-IsSafe shape k rs all (min_length _) =
        then_IsSafe h s (store-IsSafe h s) (λ st. push-IsSafe h s _)
    eval_rows-IsSafe shape k rs all (max_length _) =
        then_IsSafe h s (store-IsSafe h s) (λ st. push-IsSafe h s _)
    eval_rows-IsSafe shape k rs all (pattern _) =
        then_IsSafe h s (store-IsSafe h s) (λ st. push-IsSafe h s _)
    eval_rows-IsSafe shape k rs all (language_in _) =
        then_IsSafe h s (store-IsSafe h s) (λ st. push-IsSafe h s _)
    eval_rows-IsSafe shape k rs all single_line =
        then_IsSafe h s (store-IsSafe h s) (λ st. push-IsSafe h s _)
    eval_rows-IsSafe shape k rs all unique_lang =
        then_IsSafe h s (store-IsSafe h s) (λ st. push-IsSafe h s _)
    eval_rows-IsSafe shape k rs all (Constraint.class _) =
        then_IsSafe h s (lift-IsSafe h s _) (λ xs. push-IsSafe h s _)
    eval_rows-IsSafe shape k rs all (equals _) =
        then_IsSafe h s (lift-IsSafe h s _) (λ xs. push-IsSafe h s _)
    eval_rows-IsSafe shape k rs all (disjoint _) =
        then_IsSafe h s (lift-IsSafe h s _) (λ xs. push-IsSafe h s _)
    eval_rows-IsSafe shape k rs all (subset_of _) =
        then_IsSafe h s (lift-IsSafe h s _) (λ xs. push-IsSafe h s _)
    eval_rows-IsSafe shape k rs all (root_class _) =
        then_IsSafe h s (lift-IsSafe h s _) (λ xs. push-IsSafe h s _)
    eval_rows-IsSafe shape k rs all (unique_values_for _) =
        then_IsSafe h s (lift-IsSafe h s _) (λ xs. push-IsSafe h s _)
    eval_rows-IsSafe shape k rs all (closed _ _) =
        then_IsSafe h s (lift-IsSafe h s _) (λ xs. push-IsSafe h s _)
    eval_rows-IsSafe shape k rs all (less_than _) =
        then_IsSafe h s (store-IsSafe h s)
          (λ st. then_IsSafe h s (lift-IsSafe h s _) (λ xs. push-IsSafe h s _))
    eval_rows-IsSafe shape k rs all (less_than_or_equals _) =
        then_IsSafe h s (store-IsSafe h s)
          (λ st. then_IsSafe h s (lift-IsSafe h s _) (λ xs. push-IsSafe h s _))
    eval_rows-IsSafe shape k rs all (not_shape id) =
        require-IsSafe shape k _ rs (λ v.
          then_IsSafe h s (conforms-IsSafe h s validate safe id v) (λ met. return-IsSafe h s _))
    eval_rows-IsSafe shape k rs all (and_shapes ms) =
        require-IsSafe shape k _ rs (all_conform-IsSafe h s validate safe ms)
    eval_rows-IsSafe shape k rs all (or_shapes ms) =
        require-IsSafe shape k _ rs (any_conforms-IsSafe h s validate safe ms)
    eval_rows-IsSafe shape k rs all (xone ms) = require-IsSafe shape k _ rs (λ v.
        then_IsSafe h s (count_conforming-IsSafe h s validate safe ms v) (λ n. return-IsSafe h s _))
    eval_rows-IsSafe shape k rs all (Constraint.node id) =
        require-IsSafe shape k _ rs (conforms-IsSafe h s validate safe id)
    eval_rows-IsSafe shape k rs all (property id) = safe id all
    eval_rows-IsSafe shape k rs all (qualified_value_shape id min max apart siblings) =
        each-IsSafe h s _ rs (qualified_row-IsSafe shape id min max apart siblings)
    eval_rows-IsSafe shape k rs all (reifier_shape id required) =
        reified_rows-IsSafe shape k id required _ rs
    eval_rows-IsSafe shape k rs all (member_shape id) =
        each_value-IsSafe _ rs (λ focus value. member_list-IsSafe shape k id focus value _)
    eval_rows-IsSafe shape k rs all unique_members = each-IsSafe h s _ rs (λ row. push-IsSafe h s _)
    eval_rows-IsSafe shape k rs all (some_value id) = each-IsSafe h s _ rs (λ row.
        then_IsSafe h s (some_value_conforms-IsSafe h s validate safe id row.values)
          (λ found. push_unless-IsSafe found _))
    eval_rows-IsSafe shape k rs all (Constraint.sparql sc) = eval_sparql-IsSafe shape sc rs
    eval_rows-IsSafe shape k rs all (custom c) = eval_custom-IsSafe shape c rs
    eval_rows-IsSafe shape k rs all (expression expr) = expression-IsSafe shape k expr rs
    eval_rows-IsSafe shape k rs all (node_by_expression expr) =
        each_value-IsSafe _ rs (node_by_expression-IsSafe shape k expr)

    pub eval-IsSafe :
        (shape : Shape h.compiled) (c : Constraint h.compiled) (sets : ValueSets)
        → IsSafe h s (eval h e validate shape c sets)
    unfolding eval
    eval-IsSafe shape c sets = eval_rows-IsSafe shape _ (rows sets) sets.values c

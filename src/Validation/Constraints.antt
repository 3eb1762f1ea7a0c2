-- ===== src/Validation/Constraints.antt =====
-- crates/shacl/src/validate.rs: `Engine::eval`, every constraint over the focus→values relation of
-- its shape. A shape is validated by the argument `validate`.
pub mod Pairs
pub mod Classes
pub mod Logical
use shacl_engine.Common.{
  ℕ, Bool, true, false, not, ◌&&◌, ◌||◌, Option, none, some, List, [], ◌∷◌, ◌++◌, length, ltb, leb,
  ◌==◌, if◌then◌else◌, nat_ord,
}
use shacl_engine.Common.Members.{has_id, any}
use shacl_engine.Common.Strict.{sort_dedup}
use shacl_engine.Datatypes.{text_eq}
use shacl_engine.Datatypes.Integers.{Text, less, equal, greater}
use shacl_engine.Error.{Bounded}
use shacl_engine.Model.Starts.{TermId}
use shacl_engine.Model.Graph.{subjects, first}
use shacl_engine.Model.Collections.{list}
use shacl_engine.Model.Terms.{blank, same_kind}
use shacl_engine.PropertyPath.{as_predicate}
use shacl_engine.Report.{ValidationResult, with_source_constraint, with_details}
use shacl_engine.Shapes.{
  ShapeId, Shape, Constraint, datatype, node_kind, min_count, max_count, min_exclusive,
  min_inclusive, max_exclusive, max_inclusive, min_length, max_length, pattern, language_in,
  unique_lang, equals, disjoint, less_than, less_than_or_equals, not_shape, and_shapes, or_shapes,
  xone, property, qualified_value_shape, closed, reifier_shape, has_value, in_items,
  min_list_length, max_list_length, member_shape, unique_members, single_line, subset_of,
  root_class, some_value, unique_values_for, custom, expression, node_by_expression, component,
  id_of,
}
use shacl_engine.ValueSet.{ValueSets, Row, rows, as_u32}
use shacl_engine.Validation.{Services, Engine, Context}
use shacl_engine.Validation.Run.{◌>>=◌, ◌>>◌, return, each}
use shacl_engine.Validation.Bounded.{done, bounded, collect}
use shacl_engine.Validation.Classes.{subclasses, instances_of_any}
use shacl_engine.Validation.Values.{
  node_kind_matches, is_line_break, some_and, is_nil, result, value_result, per_value, per_row,
  cmp_is, str_len, list_len, has_datatype, in_language, unique_lang_results, equals_row,
  disjoint_row, subset_row, pair_order, closed_results, unique_members_row, unique_values_results,
}
use shacl_engine.Validation.Steps.{
  Step, Validator, push, store, lift, stored, into_scratch, conforms, each_value, all_conform,
  any_conforms, count_conforming, some_value_conforms, count_qualified,
}
use shacl_engine.Validation.Sparql.{eval_sparql, eval_custom, then_option}

-- `true`
abbrev pub true_text : Text
true_text = 116 ∷ 114 ∷ 117 ∷ 101 ∷ []

abbrev pub below : Option ℕ → ℕ → Bool
below none n = false
below (some m) n = ltb n m

abbrev pub above : Option ℕ → ℕ → Bool
above none n = false
above (some m) n = ltb m n

abbrev pub when {ℓ} : {A : Type ℓ} → Bool → A → List A
when true a = a ∷ []
when false a = []

module _ (h : Services) (e : Engine h) where
  -- The expression is written in the shapes graph.
  unfoldable pub eval_expr : TermId → TermId → Step h (List TermId)
  eval_expr expr focus = stored h (h.eval_expression e.data_graph e.shapes_graph expr focus)

  abbrev pub push_unless : Bool → ValidationResult → Step h (Unit {0})
  push_unless true r = return tt
  push_unless false r = push h (r ∷ [])

  -- One row of a qualified value shape.
  unfoldable pub qualified_row :
      Validator h
      → Shape h.compiled
      → ShapeId
      → Option ℕ
      → Option ℕ
      → Bool
      → List ShapeId
      → Row
      → Step h (Unit {0})
  unfolding result count_qualified
  qualified_row validate shape id min max apart siblings row = do
    n ← count_qualified h validate id apart siblings row.values
    push h (
        when (below min n) (result h e shape e.components.qualified_min_count_component row.focus)
        ++ when (above max n)
            (result h e shape e.components.qualified_max_count_component row.focus))

  -- The nodes that reify the statement of a row's value.
  unfoldable pub reifiers_of : h.Store → TermId → TermId → TermId → List TermId
  unfolding subjects
  reifiers_of s focus p value = elim (h.get_triple_term s focus p value) [
    | none ↦ []
    | some tt' ↦ subjects e.data_graph e.targets.reifies tt'
  ]

  -- What the reifiers of a value's statement make of it.
  unfoldable pub reified_by :
      Validator h
      → Shape h.compiled
      → TermId
      → ShapeId
      → Bool
      → TermId
      → TermId
      → List TermId
      → Step h (Unit {0})
  unfolding value_result
  reified_by validate shape component inner required focus value [] =
      push_unless (not required) (value_result h e shape component focus value)
  reified_by validate shape component inner required focus value (r ∷ rs) = do
    nested ← into_scratch h (validate inner (r ∷ rs))
    push_unless (is_nil nested) (value_result h e shape component focus value)

  unfoldable pub reified_value :
      Validator h
      → Shape h.compiled
      → TermId
      → ShapeId
      → Bool
      → TermId
      → TermId
      → TermId
      → Step h (Unit {0})
  unfolding reifiers_of reified_by
  reified_value validate shape component inner required p focus value = do
    s ← store h
    reified_by validate shape component inner required focus value (reifiers_of s focus p value)

  -- The statements of a shape whose path is a predicate.
  unfoldable pub reified_rows :
      Validator h
      → Shape h.compiled
      → TermId
      → ShapeId
      → Bool
      → Option TermId
      → List Row
      → Step h (Unit {0})
  unfolding reified_value each
  reified_rows validate shape component inner required none rows = return tt
  reified_rows validate shape component inner required (some p) rows =
      each_value h (reified_value validate shape component inner required p) rows

  -- What the members of a value make of it; a value that is no list is at fault itself.
  unfoldable pub member_list :
      Validator h
      → Shape h.compiled
      → TermId
      → ShapeId
      → TermId
      → TermId
      → Option (List TermId)
      → Step h (Unit {0})
  unfolding value_result
  member_list validate shape component inner focus value none =
      push h (value_result h e shape component focus value ∷ [])
  member_list validate shape component inner focus value (some members) = do
    nested ← into_scratch h (validate inner members)
    push_unless (is_nil nested) (with_details (value_result h e shape component focus value) nested)

  unfoldable pub member_value :
      Validator h → Shape h.compiled → TermId → ShapeId → TermId → TermId → Step h (Unit {0})
  unfolding member_list list
  member_value validate shape component inner focus value =
      member_list validate shape component inner focus value (list e.data_graph value e.vocab)

  unfoldable pub expression_value :
      Shape h.compiled → TermId → TermId → TermId → TermId → Step h (Unit {0})
  unfolding value_result eval_expr
  expression_value shape component expr focus value = do
    got ← eval_expr expr value
    s ← store h
    let truthy =
        some_and (first got)
          (λ t. some_and ((h.literals s).lexical_form t) (λ text. text_eq text true_text))
    push_unless truthy (with_source_constraint (value_result h e shape component focus value) expr)

  -- A value against a shape that an expression names; what names no shape constrains nothing.
  unfoldable pub conforms_to : Validator h → Option ShapeId → TermId → Step h Bool
  unfolding conforms
  conforms_to validate none value = return true
  conforms_to validate (some id) value = conforms h validate id value

  unfoldable pub node_by_expression_value :
      Validator h → Shape h.compiled → TermId → TermId → TermId → TermId → Step h (Unit {0})
  unfolding value_result eval_expr conforms_to each id_of
  node_by_expression_value validate shape component expr focus value = do
    targets ← eval_expr expr value
    each
        (λ (target : TermId). do
          good ← conforms_to validate (id_of h.compiled e.shapes target) value
          push_unless good
              (with_source_constraint (value_result h e shape component focus value) expr))
        targets

  -- Pushes a result for each value that an answer about it is false for.
  abbrev pub require :
      Shape h.compiled → TermId → (TermId → Step h Bool) → List Row → Step h (Unit {0})
  require shape component test rows =
      each_value h
        (λ focus value.
          test value >>= λ good. push_unless good (value_result h e shape component focus value))
        rows

  -- What a constraint does to a row set; `all` is the relation's array of values.
  unfoldable pub eval_rows :
      Validator h
      → Shape h.compiled
      → TermId
      → List Row
      → List TermId
      → Constraint h.compiled
      → Step h (Unit {0})
  unfolding result value_result per_value per_row cmp_is str_len list_len unique_lang_results
      equals_row disjoint_row subset_row pair_order closed_results unique_members_row
      unique_values_results conforms all_conform any_conforms count_conforming some_value_conforms
      qualified_row reified_rows member_value expression_value node_by_expression_value eval_sparql
      eval_custom each collect subclasses sort_dedup as_u32
  eval_rows validate shape component rows all (Constraint.class classes) = do
    instances ← lift h (bounded (instances_of_any e.data_graph e.vocab classes))
    push h (per_value h e shape component (has_id (sort_dedup instances)) rows)
  eval_rows validate shape component rows all (datatype dts) = do
    s ← store h
    push h (per_value h e shape component (λ v. any (has_datatype h e s v) dts) rows)
  eval_rows validate shape component rows all (node_kind kinds) = do
    s ← store h
    push h (per_value h e shape component (λ v. any (node_kind_matches (h.kind s v)) kinds) rows)
  eval_rows validate shape component rows all (min_count n) =
      push h (per_row h e shape component (λ row. not (ltb (as_u32 (length row.values)) n)) rows)
  eval_rows validate shape component rows all (max_count n) =
      push h (per_row h e shape component (λ row. not (ltb n (as_u32 (length row.values)))) rows)
  eval_rows validate shape component rows all (min_exclusive b) = do
    s ← store h
    push h (per_value h e shape component (λ v. cmp_is h e v b (greater ∷ []) s) rows)
  eval_rows validate shape component rows all (min_inclusive b) = do
    s ← store h
    push h (per_value h e shape component (λ v. cmp_is h e v b (greater ∷ equal ∷ []) s) rows)
  eval_rows validate shape component rows all (max_exclusive b) = do
    s ← store h
    push h (per_value h e shape component (λ v. cmp_is h e v b (less ∷ []) s) rows)
  eval_rows validate shape component rows all (max_inclusive b) = do
    s ← store h
    push h (per_value h e shape component (λ v. cmp_is h e v b (less ∷ equal ∷ []) s) rows)
  eval_rows validate shape component rows all (min_length n) = do
    s ← store h
    push h (per_value h e shape component (λ v. some_and (str_len h e v s) (λ l. leb n l)) rows)
  eval_rows validate shape component rows all (max_length n) = do
    s ← store h
    push h (per_value h e shape component (λ v. some_and (str_len h e v s) (λ l. leb l n)) rows)
  eval_rows validate shape component rows all (pattern regex) = do
    s ← store h
    push h (
        per_value h e shape component
          (λ v.
            not (same_kind (h.kind s v) blank)
            && some_and ((h.literals s).lexical_form v) (h.is_match regex))
          rows)
  eval_rows validate shape component rows all (language_in ranges) = do
    s ← store h
    push h (
        per_value h e shape component
          (λ v. some_and ((h.literals s).language v) (λ tag. any (in_language h e s tag) ranges))
          rows)
  eval_rows validate shape component rows all unique_lang = do
    s ← store h
    push h (unique_lang_results h e s shape component rows)
  eval_rows validate shape component rows all (equals p) = do
    rs ← lift h (collect (equals_row h e shape component p) rows)
    push h rs
  eval_rows validate shape component rows all (disjoint p) = do
    rs ← lift h (collect (disjoint_row h e shape component p) rows)
    push h rs
  eval_rows validate shape component rows all (less_than p) = do
    s ← store h
    rs ← lift h (collect (pair_order h e s shape component (less ∷ []) p) rows)
    push h rs
  eval_rows validate shape component rows all (less_than_or_equals p) = do
    s ← store h
    rs ← lift h (collect (pair_order h e s shape component (less ∷ equal ∷ []) p) rows)
    push h rs
  eval_rows validate shape component rows all (not_shape inner) =
      require shape component (λ v. conforms h validate inner v >>= λ met. return (not met)) rows
  eval_rows validate shape component rows all (and_shapes members) =
      require shape component (all_conform h validate members) rows
  eval_rows validate shape component rows all (or_shapes members) =
      require shape component (any_conforms h validate members) rows
  eval_rows validate shape component rows all (xone members) =
      require shape component (λ v. count_conforming h validate members v >>= λ n. return (n == 1))
        rows
  eval_rows validate shape component rows all (Constraint.node inner) =
      require shape component (conforms h validate inner) rows
  eval_rows validate shape component rows all (property inner) = validate inner all
  eval_rows validate shape component rows all (qualified_value_shape id min max apart siblings) =
      each (qualified_row validate shape id min max apart siblings) rows
  eval_rows validate shape component rows all (closed ignored by_types) = do
    rs ← lift h (closed_results h e shape component ignored by_types rows)
    push h rs
  eval_rows validate shape component rows all (reifier_shape inner required) =
      reified_rows validate shape component inner required (then_option shape.path as_predicate)
        rows
  eval_rows validate shape component rows all (has_value wanted) =
      push h (per_row h e shape component (λ row. has_id row.values wanted) rows)
  eval_rows validate shape component rows all (in_items items) =
      push h (per_value h e shape component (has_id items) rows)
  eval_rows validate shape component rows all (min_list_length n) =
      push h (per_value h e shape component (λ v. some_and (list_len h e v) (λ l. leb n l)) rows)
  eval_rows validate shape component rows all (max_list_length n) =
      push h (per_value h e shape component (λ v. some_and (list_len h e v) (λ l. leb l n)) rows)
  eval_rows validate shape component rows all (member_shape inner) =
      each_value h (member_value validate shape component inner) rows
  eval_rows validate shape component rows all unique_members =
      each (λ (row : Row). push h (unique_members_row h e shape component row.focus row.values))
        rows
  eval_rows validate shape component rows all single_line = do
    s ← store h
    push h (
        per_value h e shape component
          (λ v. some_and ((h.literals s).lexical_form v) (λ text. not (any is_line_break text)))
          rows)
  eval_rows validate shape component rows all (subset_of p) = do
    rs ← lift h (collect (subset_row h e shape component p) rows)
    push h rs
  eval_rows validate shape component rows all (root_class root) = do
    classes ← lift h (bounded (subclasses e.data_graph e.vocab root))
    push h (per_value h e shape component (has_id classes) rows)
  eval_rows validate shape component rows all (some_value inner) =
      each
        (λ (row : Row). some_value_conforms h validate inner row.values >>= λ found.
          push_unless found (result h e shape component row.focus))
        rows
  eval_rows validate shape component rows all (unique_values_for paths) = do
    rs ← lift h (unique_values_results h e shape component paths rows)
    push h rs
  eval_rows validate shape component rows all (Constraint.sparql sc) = eval_sparql h e shape sc rows
  eval_rows validate shape component rows all (custom cc) = eval_custom h e shape cc rows
  eval_rows validate shape component rows all (expression expr) =
      each_value h (expression_value shape component expr) rows
  eval_rows validate shape component rows all (node_by_expression expr) =
      each_value h (node_by_expression_value validate shape component expr) rows

  unfoldable pub eval :
      Validator h → Shape h.compiled → Constraint h.compiled → ValueSets → Step h (Unit {0})
  unfolding eval_rows rows component
  eval validate shape c sets =
      eval_rows validate shape (component h.compiled e.components c) (rows sets) sets.values c

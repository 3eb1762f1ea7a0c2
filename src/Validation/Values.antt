-- ===== src/Validation/Values.antt =====
-- crates/shacl/src/validate.rs: the constraints that look at the data and the terms only, and push
-- their results row by row.
pub mod Keys
use shacl_engine.Common.{
  ℕ, zero, suc, ◌+◌, ◌*◌, Bool, true, false, not, ◌&&◌, ◌||◌, Option, none, some, List, [], ◌∷◌,
  ◌++◌, ◌==◌, map, filter, length, if◌then◌else◌, nat_ord,
}
use shacl_engine.Common.Members.{has_id, any}
use shacl_engine.Common.Strict.{sort_dedup}
use shacl_engine.Error.{Bounded}
use shacl_engine.Datatypes.{compare, is_well_formed, language_matches, text_eq, is_empty}
use shacl_engine.Datatypes.Integers.{Text, Ordering, less, equal, greater}
use shacl_engine.Model.Starts.{TermId}
use shacl_engine.Model.Graph.{Graph, len, predicate_objects}
use shacl_engine.Model.Collections.{list}
use shacl_engine.Model.Terms.{Direction, TermKind, same_kind, same_direction}
use shacl_engine.PropertyPath.{PropertyPath, eval}
use shacl_engine.Report.{
  ValidationResult, new, with_value, with_path, with_source_shape, with_messages, with_details,
}
use shacl_engine.Shapes.{
  NodeKind, blank_node, blank_node_or_iri, blank_node_or_literal, iri_or_literal, Shape, get_key,
}
use shacl_engine.ValueSet.{Row}
use shacl_engine.Validation.{Services, Engine}
use shacl_engine.Validation.Bounded.{◌>>=◌, done, bounded, collect, map_all}
use shacl_engine.Validation.Closed.{closed_by_types, closed_allowed}
pub use shacl_engine.Validation.Values.Keys.{
  node_kind_matches, same_ordering, is_line_break, some_and, unwrap_or, list_or_empty, char_count,
  duplicates, same_paths, is_nil, clashes_at, clashing, LangKey, has_key, repeated, copies,
}
unfoldable pub use shacl_engine.Validation.Values.Keys.{path_values}

module _ (h : Services) (e : Engine h) where
  -- A result carrying the fields every violation of the shape shares.
  unfoldable pub result : Shape h.compiled → TermId → TermId → ValidationResult
  unfolding new with_path with_source_shape
  result shape component focus =
      let severity =
        unwrap_or (get_key h.compiled shape.component_severity component) shape.severity in
      let messages =
        unwrap_or (get_key h.compiled shape.component_messages component) shape.messages in
      with_messages
        (with_source_shape (with_path (new focus component severity) shape.path_node)
          shape.shape_node)
        messages

  unfoldable pub value_result : Shape h.compiled → TermId → TermId → TermId → ValidationResult
  unfolding result with_value
  value_result shape component focus value = with_value (result shape component focus) value

  -- A row's values that fail a test, each as a result.
  unfoldable pub faults :
      Shape h.compiled → TermId → TermId → (TermId → Bool) → List TermId → List ValidationResult
  unfolding value_result
  faults shape component focus passes values =
      map (value_result shape component focus) (filter (λ v. not (passes v)) values)

  -- `per_value!`
  unfoldable pub per_value :
      Shape h.compiled → TermId → (TermId → Bool) → List Row → List ValidationResult
  unfolding faults
  per_value shape component passes [] = []
  per_value shape component passes (row ∷ rows) =
      faults shape component row.focus passes row.values ++ per_value shape component passes rows

  -- The rows that fail a test, each as a result without a value.
  unfoldable pub per_row :
      Shape h.compiled → TermId → (Row → Bool) → List Row → List ValidationResult
  unfolding result
  per_row shape component passes [] = []
  per_row shape component passes (row ∷ rows) =
      let rest = per_row shape component passes rows in
      if passes row then rest else result shape component row.focus ∷ rest

  unfoldable pub cmp_is : TermId → TermId → List Ordering → h.Store → Bool
  unfolding compare
  cmp_is a b wanted store =
      some_and (compare h.xsd a b (h.literals store) e.vocab) (λ o. any (same_ordering o) wanted)

  unfoldable pub str_len : TermId → h.Store → Option ℕ
  str_len t store =
      if same_kind (h.kind store t) TermKind.blank
      then none
      else elim ((h.literals store).lexical_form t) [ none ↦ none | some s ↦ some (char_count s) ]

  unfoldable pub list_len : TermId → Option ℕ
  unfolding list
  list_len t = elim (list e.data_graph t e.vocab) [ none ↦ none | some items ↦ some (length items) ]

  abbrev pub has_datatype : h.Store → TermId → TermId → Bool
  has_datatype store value dt =
      some_and ((h.literals store).datatype value) (λ d. d == dt)
      && is_well_formed h.xsd (list_or_empty ((h.literals store).lexical_form value)) dt e.vocab

  abbrev pub in_language : h.Store → Text → TermId → Bool
  in_language store tag r =
      some_and ((h.literals store).lexical_form r) (λ range. language_matches tag range)

  -- The language keys of a row's values that have a language.
  abbrev pub lang_keys : h.Store → List TermId → List LangKey
  lang_keys store [] = []
  lang_keys store (value ∷ values) =
      let more = lang_keys store values in
      elim ((h.literals store).language value) [
        | none ↦ more
        | some tag ↦ if is_empty tag then more else (tag, h.direction store value) ∷ more
      ]

  unfoldable pub unique_lang_results :
      h.Store → Shape h.compiled → TermId → List Row → List ValidationResult
  unfolding result
  unique_lang_results store shape component [] = []
  unique_lang_results store shape component (row ∷ rows) =
      copies (repeated [] [] (lang_keys store row.values)) (result shape component row.focus)
      ++ unique_lang_results store shape component rows

  -- The property pairs: a row's values against those of another path.
  unfoldable pub equals_row :
      Shape h.compiled → TermId → PropertyPath → Row → Bounded (List ValidationResult)
  unfolding path_values faults
  equals_row shape component p row = do
    other ← path_values e.data_graph row.focus p
    done (
        faults shape component row.focus (has_id other) row.values
        ++ faults shape component row.focus (has_id row.values) other)

  unfoldable pub disjoint_row :
      Shape h.compiled → TermId → PropertyPath → Row → Bounded (List ValidationResult)
  unfolding path_values faults
  disjoint_row shape component p row = do
    other ← path_values e.data_graph row.focus p
    done (faults shape component row.focus (λ v. not (has_id other v)) row.values)

  unfoldable pub subset_row :
      Shape h.compiled → TermId → PropertyPath → Row → Bounded (List ValidationResult)
  unfolding path_values faults
  subset_row shape component p row = do
    superset ← path_values e.data_graph row.focus p
    done (faults shape component row.focus (has_id superset) row.values)

  -- One result per pair that is not in order.
  abbrev pub disordered :
      h.Store
      → Shape h.compiled
      → TermId
      → TermId
      → List Ordering
      → List TermId
      → List TermId
      → List ValidationResult
  disordered store shape component focus wanted other [] = []
  disordered store shape component focus wanted other (value ∷ values) =
      map (λ _. value_result shape component focus value)
        (filter (λ o. not (cmp_is value o wanted store)) other)
      ++ disordered store shape component focus wanted other values

  unfoldable pub pair_order :
      h.Store
      → Shape h.compiled
      → TermId
      → List Ordering
      → PropertyPath
      → Row
      → Bounded (List ValidationResult)
  unfolding path_values
  pair_order store shape component wanted p row = do
    other ← path_values e.data_graph row.focus p
    done (disordered store shape component row.focus wanted other row.values)

  abbrev pub closed_faults :
      Shape h.compiled
      → TermId
      → TermId
      → List TermId
      → List (TermId × TermId)
      → List ValidationResult
  closed_faults shape component focus allowed [] = []
  closed_faults shape component focus allowed ((p, o) ∷ rest) =
      let more = closed_faults shape component focus allowed rest in
      if has_id allowed p
      then more
      else with_path (value_result shape component focus o) (some p) ∷ more

  unfoldable pub closed_row :
      Shape h.compiled
      → TermId
      → List TermId
      → Bool
      → List TermId
      → Row
      → Bounded (List ValidationResult)
  unfolding closed_by_types
  closed_row shape component ignored by_types fixed row = do
    allowed ← if by_types then closed_by_types h e row.focus ignored else done fixed
    done
        (closed_faults shape component row.focus allowed (predicate_objects e.data_graph row.focus))

  unfoldable pub closed_results :
      Shape h.compiled → TermId → List TermId → Bool → List Row → Bounded (List ValidationResult)
  unfolding closed_row closed_allowed collect
  closed_results shape component ignored by_types rows = do
    fixed ← if by_types then done [] else closed_allowed h e shape ignored
    collect (closed_row shape component ignored by_types fixed) rows

  unfoldable pub unique_members_row :
      Shape h.compiled → TermId → TermId → List TermId → List ValidationResult
  unfolding value_result list
  unique_members_row shape component focus [] = []
  unique_members_row shape component focus (value ∷ values) =
      let more = unique_members_row shape component focus values in
      elim (list e.data_graph value e.vocab) [
        | none ↦ value_result shape component focus value ∷ more
        | some members ↦ elim (duplicates [] [] members) [
          | [] ↦ more
          | d ∷ ds ↦
              with_details (value_result shape component focus value)
                (map (value_result shape component focus) (d ∷ ds))
              ∷ more
        ]
      ]

  abbrev pub key_of : List PropertyPath → Row → Bounded (TermId × List (List TermId))
  key_of paths row = do
    key ← map_all (path_values e.data_graph row.focus) paths
    done (row.focus, key)

  unfoldable pub unique_values_results :
      Shape h.compiled → TermId → List PropertyPath → List Row → Bounded (List ValidationResult)
  unfolding result map_all
  unique_values_results shape component paths rows = do
    keys ← map_all (key_of paths) rows
    done (map (result shape component) (clashing keys 0 keys))

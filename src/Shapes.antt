-- ===== src/Shapes.antt =====
-- crates/shacl/src/shapes.rs: the compiled shapes. Rules and their order are left to the rules
-- engine; compiled regular expressions and SPARQL queries are other libraries' types, and parameters.
use shacl_engine.Common.{
  ℕ, zero, suc, Bool, true, false, not, ◌||◌, Option, none, some, List, [], ◌∷◌, ◌++◌, length,
  get_elem?, ◌==◌, if◌then◌else◌,
}
use shacl_engine.Common.Members.{any}
use shacl_engine.Error.{Result, err, panic, ok, ◌>>=◌, or_panic}
use shacl_engine.ValueSet.{range_from}
use shacl_engine.Model.Starts.{TermId}
use shacl_engine.Model.Vocab.{Components}
use shacl_engine.Datatypes.Integers.{Text}
use shacl_engine.PropertyPath.{PropertyPath}

abbrev pub ShapeId : Type 0
ShapeId = ℕ

pub data NodeKind : Type 0 where
  iri blank_node literal blank_node_or_iri blank_node_or_literal iri_or_literal : NodeKind

-- The types of compiled expressions and queries.
pub record Compiled : Type 1 where
  pub Regex : Type 0
  pub Query : Type 0

module _ (x : Compiled) where
  -- crates/shacl/src/sparql.rs
  pub record SparqlConstraint : Type 0 where
    pub query : x.Query
    pub is_ask : Bool
    pub source : TermId
    pub message : List TermId
    pub severity : Option TermId

  pub record CustomConstraint : Type 0 where
    pub component : TermId
    pub query : SparqlConstraint
    pub bindings : List (Text × TermId)

  pub data Target : Type 0 where
    node : TermId → Target
    class : TermId → Target
    subjects_of : TermId → Target
    objects_of : TermId → Target
    implicit_class : TermId → Target
    target_where : TermId → Target
    sparql : SparqlConstraint → Target

  pub data Constraint : Type 0 where
    class : List TermId → Constraint
    datatype : List TermId → Constraint
    node_kind : List NodeKind → Constraint
    min_count : ℕ → Constraint
    max_count : ℕ → Constraint
    min_exclusive : TermId → Constraint
    min_inclusive : TermId → Constraint
    max_exclusive : TermId → Constraint
    max_inclusive : TermId → Constraint
    min_length : ℕ → Constraint
    max_length : ℕ → Constraint
    pattern : x.Regex → Constraint
    language_in : List TermId → Constraint
    unique_lang : Constraint
    equals : PropertyPath → Constraint
    disjoint : PropertyPath → Constraint
    less_than : PropertyPath → Constraint
    less_than_or_equals : PropertyPath → Constraint
    not_shape : ShapeId → Constraint
    and_shapes : List ShapeId → Constraint
    or_shapes : List ShapeId → Constraint
    xone : List ShapeId → Constraint
    node : ShapeId → Constraint
    property : ShapeId → Constraint
    qualified_value_shape : ShapeId → Option ℕ → Option ℕ → Bool → List ShapeId → Constraint
    closed : List TermId → Bool → Constraint
    reifier_shape : ShapeId → Bool → Constraint
    has_value : TermId → Constraint
    in_items : List TermId → Constraint
    min_list_length : ℕ → Constraint
    max_list_length : ℕ → Constraint
    member_shape : ShapeId → Constraint
    unique_members : Constraint
    single_line : Constraint
    subset_of : PropertyPath → Constraint
    root_class : TermId → Constraint
    some_value : ShapeId → Constraint
    unique_values_for : List PropertyPath → Constraint
    sparql : SparqlConstraint → Constraint
    custom : CustomConstraint → Constraint
    expression : TermId → Constraint
    node_by_expression : TermId → Constraint

  -- The component that a violation of the constraint is reported under.
  unfoldable pub component : Components → Constraint → TermId
  component v (Constraint.class _) = v.class_component
  component v (datatype _) = v.datatype_component
  component v (node_kind _) = v.node_kind_component
  component v (min_count _) = v.min_count_component
  component v (max_count _) = v.max_count_component
  component v (min_exclusive _) = v.min_exclusive_component
  component v (min_inclusive _) = v.min_inclusive_component
  component v (max_exclusive _) = v.max_exclusive_component
  component v (max_inclusive _) = v.max_inclusive_component
  component v (min_length _) = v.min_length_component
  component v (max_length _) = v.max_length_component
  component v (pattern _) = v.pattern_component
  component v (language_in _) = v.language_in_component
  component v unique_lang = v.unique_lang_component
  component v (equals _) = v.equals_component
  component v (disjoint _) = v.disjoint_component
  component v (less_than _) = v.less_than_component
  component v (less_than_or_equals _) = v.less_than_or_equals_component
  component v (not_shape _) = v.not_component
  component v (and_shapes _) = v.and_component
  component v (or_shapes _) = v.or_component
  component v (xone _) = v.xone_component
  component v (Constraint.node _) = v.node_component
  component v (property _) = v.property_component
  component v (qualified_value_shape _ _ _ _ _) = v.qualified_min_count_component
  component v (closed _ _) = v.closed_component
  component v (reifier_shape _ _) = v.reifier_shape_component
  component v (has_value _) = v.has_value_component
  component v (in_items _) = v.in_component
  component v (min_list_length _) = v.min_list_length_component
  component v (max_list_length _) = v.max_list_length_component
  component v (member_shape _) = v.member_shape_component
  component v unique_members = v.unique_members_component
  component v single_line = v.single_line_component
  component v (subset_of _) = v.subset_of_component
  component v (root_class _) = v.root_class_component
  component v (some_value _) = v.some_value_component
  component v (unique_values_for _) = v.unique_values_for_component
  component v (Constraint.sparql _) = v.sparql_component
  component v (custom c) = c.component
  component v (expression _) = v.expression_component
  component v (node_by_expression _) = v.node_by_expression_component

  pub record Shape : Type 0 where
    pub shape_node : TermId
    pub path : Option PropertyPath
    pub path_node : Option TermId
    pub values : Option TermId
    pub targets : List Target
    pub constraints : List Constraint
    pub severity : TermId
    pub messages : List TermId
    pub component_messages : List (TermId × List TermId)
    pub component_severity : List (TermId × TermId)
    pub deactivated : Bool

  pub record Shapes : Type 0 where
    pub shapes : List Shape
    pub by_node : List (TermId × ShapeId)
    pub roots : List ShapeId

  -- `HashMap::get`
  abbrev pub get_key {ℓ} : {A : Type ℓ} → List (TermId × A) → TermId → Option A
  get_key [] k = none
  get_key ((j, a) ∷ rest) k = let more = get_key rest k in if j == k then some a else more

  -- `&self.shapes[id.index()]`: nothing where the index panics.
  abbrev pub get : Shapes → ShapeId → Option Shape
  get s id = get_elem? s.shapes id

  unfoldable pub id_of : Shapes → TermId → Option ShapeId
  id_of s n = get_key s.by_node n

  -- What a constraint refers to.
  abbrev pub constraint_shapes : Constraint → List ShapeId
  constraint_shapes (not_shape s) = s ∷ []
  constraint_shapes (Constraint.node s) = s ∷ []
  constraint_shapes (property s) = s ∷ []
  constraint_shapes (reifier_shape s _) = s ∷ []
  constraint_shapes (member_shape s) = s ∷ []
  constraint_shapes (some_value s) = s ∷ []
  constraint_shapes (and_shapes v) = v
  constraint_shapes (or_shapes v) = v
  constraint_shapes (xone v) = v
  constraint_shapes (qualified_value_shape s _ _ _ siblings) = s ∷ siblings
  constraint_shapes _ = []

  abbrev pub all_constraint_shapes : List Constraint → List ShapeId
  all_constraint_shapes [] = []
  all_constraint_shapes (c ∷ cs) = constraint_shapes c ++ all_constraint_shapes cs

  abbrev pub found : Option ShapeId → List ShapeId
  found none = []
  found (some s) = s ∷ []

  abbrev pub target_shapes : Shapes → List Target → List ShapeId
  target_shapes s [] = []
  target_shapes s (target_where n ∷ ts) = found (get_key s.by_node n) ++ target_shapes s ts
  target_shapes s (_ ∷ ts) = target_shapes s ts

  -- Every shape that a shape refers to directly.
  unfoldable pub referenced_shapes : Shapes → ShapeId → Result (List ShapeId)
  referenced_shapes s id = or_panic (get s id) >>= λ shape.
      ok (all_constraint_shapes shape.constraints ++ target_shapes s shape.targets)

  abbrev pub is_some {ℓ} : {A : Type ℓ} → Option A → Bool
  is_some none = false
  is_some (some _) = true

  abbrev pub mints_target : Target → Bool
  mints_target (Target.sparql _) = true
  mints_target _ = false

  abbrev pub mints_constraint : Constraint → Bool
  mints_constraint (Constraint.sparql _) = true
  mints_constraint (custom _) = true
  mints_constraint (expression _) = true
  mints_constraint (node_by_expression _) = true
  mints_constraint _ = false

  -- Whether validating can add terms to the store.
  unfoldable pub mints_terms : Shapes → Bool
  mints_terms s =
      any
        (λ (h : Shape).
          is_some h.values || any mints_target h.targets || any mints_constraint h.constraints)
        s.shapes

  abbrev pub is_unique_values_for : Constraint → Bool
  is_unique_values_for (unique_values_for _) = true
  is_unique_values_for _ = false

  pub data Mark : Type 0 where
    white grey black : Mark

  abbrev pub set_mark : List Mark → ℕ → Mark → List Mark
  set_mark [] i m = []
  set_mark (k ∷ ks) zero m = m ∷ ks
  set_mark (k ∷ ks) (suc i) m = k ∷ set_mark ks i m

  abbrev pub whites : ℕ → List Mark
  whites zero = []
  whites (suc n) = white ∷ whites n

  -- The depth-first search from what its stack holds: each entry is a shape and the references that
  -- are left of it. It stops at a grey child; else it leaves its marks.
  unfoldable pub search :
      Shapes → ℕ → List Mark → List (ShapeId × List ShapeId) → Option (Result (Bool × List Mark))
  unfolding referenced_shapes
  search s fuel marks [] = some (ok (false, marks))
  search s zero marks (_ ∷ _) = none
  search s (suc fuel) marks ((at, []) ∷ stack) = search s fuel (set_mark marks at black) stack
  search s (suc fuel) marks ((at, child ∷ children) ∷ stack) = elim (get_elem? marks child) [
    | none ↦ some panic
    | some grey ↦ some (ok (true, marks))
    | some white ↦ elim (referenced_shapes s child) [
      | err e ↦ some (err e)
      | panic ↦ some panic
      | ok below ↦
          search s fuel (set_mark marks child grey) ((child, below) ∷ (at, children) ∷ stack)
    ]
    | some black ↦ search s fuel marks ((at, children) ∷ stack)
  ]

  -- The search from every start that is still white.
  unfoldable pub search_from : Shapes → ℕ → List Mark → List ℕ → Option (Result Bool)
  unfolding search referenced_shapes
  search_from s fuel marks [] = some (ok false)
  search_from s fuel marks (start ∷ starts) = elim (get_elem? marks start) [
    | none ↦ some panic
    | some white ↦ elim (referenced_shapes s start) [
      | err e ↦ some (err e)
      | panic ↦ some panic
      | ok below ↦ elim (search s fuel (set_mark marks start grey) ((start, below) ∷ [])) [
        | none ↦ none
        | some (err e) ↦ some (err e)
        | some panic ↦ some panic
        | some (ok (true, _)) ↦ some (ok true)
        | some (ok (false, marks')) ↦ search_from s fuel marks' starts
      ]
    ]
    | some _ ↦ search_from s fuel marks starts
  ]

  -- Whether a shape reaches itself through the shapes it refers to.
  unfoldable pub has_cycle : Shapes → ℕ → Option (Result Bool)
  unfolding search_from
  has_cycle s fuel = search_from s fuel (whites (length s.shapes)) (range_from 0 (length s.shapes))

  abbrev pub has_unique_values_for : Shape → Bool
  has_unique_values_for h = any is_unique_values_for h.constraints

  -- Whether a focus set can be validated in pieces.
  unfoldable pub is_focus_separable : Shapes → ℕ → Option (Result Bool)
  unfolding mints_terms has_cycle
  is_focus_separable s fuel =
      if mints_terms s
      then some (ok false)
      else if any has_unique_values_for s.shapes
      then some (ok false)
      else elim (has_cycle s fuel) [
        | none ↦ none
        | some (err e) ↦ some (err e)
        | some panic ↦ some panic
        | some (ok found) ↦ some (ok (not found))
      ]

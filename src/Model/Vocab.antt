-- ===== src/Model/Vocab.antt =====
-- crates/shacl/src/model/vocab.rs: the interned names that the modelled code uses. Each is the
-- `TermId` that `Vocab::new` interned; the model takes them as given.
use shacl_engine.Model.Starts.{TermId}

pub record Vocab : Type 0 where
  pub rdf_type : TermId
  pub rdf_first : TermId
  pub rdf_rest : TermId
  pub rdf_nil : TermId
  pub rdfs_domain : TermId
  pub rdfs_range : TermId
  pub rdfs_sub_property_of : TermId
  pub rdfs_sub_class_of : TermId
  pub xsd_string : TermId
  pub xsd_any_uri : TermId
  pub rdf_lang_string : TermId
  pub xsd_boolean : TermId
  pub xsd_decimal : TermId
  pub xsd_float : TermId
  pub xsd_double : TermId
  pub xsd_date_time : TermId
  pub xsd_date : TermId
  pub xsd_time : TermId
  pub xsd_duration : TermId
  pub xsd_integer : TermId
  pub xsd_long : TermId
  pub xsd_int : TermId
  pub xsd_short : TermId
  pub xsd_byte : TermId
  pub xsd_non_negative_integer : TermId
  pub xsd_positive_integer : TermId
  pub xsd_non_positive_integer : TermId
  pub xsd_negative_integer : TermId
  pub xsd_unsigned_long : TermId
  pub xsd_unsigned_int : TermId
  pub xsd_unsigned_short : TermId
  pub xsd_unsigned_byte : TermId

-- The `sh:…ConstraintComponent`s.
pub record Components : Type 0 where
  pub class_component : TermId
  pub datatype_component : TermId
  pub node_kind_component : TermId
  pub min_count_component : TermId
  pub max_count_component : TermId
  pub min_exclusive_component : TermId
  pub min_inclusive_component : TermId
  pub max_exclusive_component : TermId
  pub max_inclusive_component : TermId
  pub min_length_component : TermId
  pub max_length_component : TermId
  pub pattern_component : TermId
  pub language_in_component : TermId
  pub unique_lang_component : TermId
  pub equals_component : TermId
  pub disjoint_component : TermId
  pub less_than_component : TermId
  pub less_than_or_equals_component : TermId
  pub not_component : TermId
  pub and_component : TermId
  pub or_component : TermId
  pub xone_component : TermId
  pub node_component : TermId
  pub property_component : TermId
  pub qualified_min_count_component : TermId
  pub qualified_max_count_component : TermId
  pub closed_component : TermId
  pub reifier_shape_component : TermId
  pub has_value_component : TermId
  pub in_component : TermId
  pub min_list_length_component : TermId
  pub max_list_length_component : TermId
  pub member_shape_component : TermId
  pub unique_members_component : TermId
  pub single_line_component : TermId
  pub subset_of_component : TermId
  pub root_class_component : TermId
  pub some_value_component : TermId
  pub unique_values_for_component : TermId
  pub sparql_component : TermId
  pub expression_component : TermId
  pub node_by_expression_component : TermId

-- The severities that break conformance by default.
pub record Severities : Type 0 where
  pub violation : TermId
  pub warning : TermId
  pub info : TermId

-- The other terms that validation reads.
pub record Targets : Type 0 where
  pub target_class : TermId
  pub sh_shape : TermId
  pub reifies : TermId

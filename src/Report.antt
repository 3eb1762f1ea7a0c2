-- ===== src/Report.antt =====
-- crates/shacl/src/report.rs: validation results, their derived order, and the report's verdict.
-- The serialisation of a report is another library's.
use Prim.Native.Nat.{ℕ, compare, Ordering}
use shacl_engine.Common.{Bool, true, false, not, Option, none, some, List, [], ◌∷◌}
use shacl_engine.Common.Members.{has_id, any}
use shacl_engine.Model.Starts.{TermId}
use shacl_engine.Model.Vocab.{Severities}

-- The fields of a result other than its details.
pub record Finding : Type 0 where
  pub focus_node : TermId
  pub value : Option TermId
  pub path : Option TermId
  pub source_shape : Option TermId
  pub source_constraint : Option TermId
  pub source_constraint_component : TermId
  pub severity : TermId
  pub messages : List TermId

mutual
  pub data ValidationResult : Type 0 where
    result : Finding → Details → ValidationResult

  -- `Vec<ValidationResult>`
  pub data Details : Type 0 where
    no_details : Details
    detail : ValidationResult → Details → Details

abbrev pub finding : ValidationResult → Finding
finding (result f _) = f

abbrev pub details_of : List ValidationResult → Details
details_of [] = no_details
details_of (r ∷ rs) = detail r (details_of rs)

-- A result with only the mandatory fields set.
unfoldable pub new : TermId → TermId → TermId → ValidationResult
new focus_node component severity =
    result
      record {
        focus_node = focus_node;
        value = none;
        path = none;
        source_shape = none;
        source_constraint = none;
        source_constraint_component = component;
        severity = severity;
        messages = [];
      }
      no_details

unfoldable pub with_value : ValidationResult → TermId → ValidationResult
with_value (result f ds) v = result (record f { value = some v }) ds

unfoldable pub with_path : ValidationResult → Option TermId → ValidationResult
with_path (result f ds) p = result (record f { path = p }) ds

unfoldable pub with_source_shape : ValidationResult → TermId → ValidationResult
with_source_shape (result f ds) s = result (record f { source_shape = some s }) ds

-- The assignments to single fields of a result.
abbrev pub with_messages : ValidationResult → List TermId → ValidationResult
with_messages (result f ds) ms = result (record f { messages = ms }) ds

abbrev pub with_focus : ValidationResult → TermId → ValidationResult
with_focus (result f ds) n = result (record f { focus_node = n }) ds

abbrev pub with_optional_value : ValidationResult → Option TermId → ValidationResult
with_optional_value (result f ds) v = result (record f { value = v }) ds

abbrev pub with_source_constraint : ValidationResult → TermId → ValidationResult
with_source_constraint (result f ds) c = result (record f { source_constraint = some c }) ds

abbrev pub with_details : ValidationResult → List ValidationResult → ValidationResult
with_details (result f _) rs = result f (details_of rs)

-- Whether a severity breaks conformance: an empty list stands for the default set.
abbrev pub disallowed : Severities → List TermId → List TermId
disallowed v [] = v.violation ∷ v.warning ∷ v.info ∷ []
disallowed v (s ∷ ss) = s ∷ ss

abbrev pub blocks : List TermId → ValidationResult → Bool
blocks severities r = has_id severities (finding r).severity

pub record ValidationReport : Type 0 where
  pub results : List ValidationResult

unfoldable pub conforms : ValidationReport → List TermId → Severities → Bool
conforms report severities v = not (any (blocks (disallowed v severities)) report.results)

unfoldable pub is_empty : ValidationReport → Bool
is_empty report = elim report.results [ [] ↦ true | _ ∷ _ ↦ false ]

-- The derived order: field by field, nothing before something, a prefix first.
abbrev pub and_then : Ordering → Ordering → Ordering
and_then Ordering.eq next = next
and_then first next = first

abbrev pub cmp_option : Option ℕ → Option ℕ → Ordering
cmp_option none none = Ordering.eq
cmp_option none (some _) = Ordering.lt
cmp_option (some _) none = Ordering.gt
cmp_option (some a) (some b) = compare a b

abbrev pub cmp_list : List ℕ → List ℕ → Ordering
cmp_list [] [] = Ordering.eq
cmp_list [] (_ ∷ _) = Ordering.lt
cmp_list (_ ∷ _) [] = Ordering.gt
cmp_list (a ∷ as_) (b ∷ bs) = and_then (compare a b) (cmp_list as_ bs)

abbrev pub cmp_finding : Finding → Finding → Ordering
cmp_finding a b = and_then (compare a.focus_node b.focus_node) (
    and_then (cmp_option a.value b.value) (
      and_then (cmp_option a.path b.path) (
        and_then (cmp_option a.source_shape b.source_shape) (
          and_then (cmp_option a.source_constraint b.source_constraint) (
            and_then (compare a.source_constraint_component b.source_constraint_component)
              (and_then (compare a.severity b.severity) (cmp_list a.messages b.messages)))))))

mutual
  pub cmp_result : ValidationResult → ValidationResult → Ordering
  cmp_result (result f ds) (result k es) = and_then (cmp_finding f k) (cmp_details ds es)

  pub cmp_details : Details → Details → Ordering
  cmp_details no_details no_details = Ordering.eq
  cmp_details no_details (detail _ _) = Ordering.lt
  cmp_details (detail _ _) no_details = Ordering.gt
  cmp_details (detail r ds) (detail q es) = and_then (cmp_result r q) (cmp_details ds es)

-- `results.sort_unstable()`
abbrev pub insert_result : ValidationResult → List ValidationResult → List ValidationResult
insert_result r [] = r ∷ []
insert_result r (q ∷ qs) =
    let rest = insert_result r qs in
    elim (cmp_result r q) [ Ordering.gt ↦ q ∷ rest | _ ↦ r ∷ q ∷ qs ]

unfoldable pub sort_results : List ValidationResult → List ValidationResult
sort_results [] = []
sort_results (r ∷ rs) = insert_result r (sort_results rs)

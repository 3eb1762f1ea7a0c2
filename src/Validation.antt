-- ===== src/Validation.antt =====
-- crates/shacl/src/validate.rs: the validation engine, here its state and what it reads. The term
-- store, node expressions and the SPARQL engine are seen through what the engine calls of them.
pub mod Run
pub mod Classes
pub mod Messages
pub mod Bounded
pub mod Closed
pub mod Values
pub mod Steps
pub mod Sparql
pub mod Constraints
pub mod Frames
pub mod Resolve
pub mod Parallel
pub mod Entry
pub mod Safe
mod Tests
use shacl_engine.Common.{ℕ, Bool, true, false, Option, none, some, List, [], ◌∷◌}
use shacl_engine.Error.{Result}
use shacl_engine.Datatypes.{Xsd, Literals}
use shacl_engine.Datatypes.Integers.{Text}
use shacl_engine.Model.Starts.{TermId}
use shacl_engine.Model.Graph.{Graph}
use shacl_engine.Model.Vocab.{Vocab, Components, Severities, Targets}
use shacl_engine.Model.Terms.{Direction, TermKind}
use shacl_engine.Report.{ValidationResult}
use shacl_engine.Shapes.{Compiled, Shapes, ShapeId}
use shacl_engine.ValueSet.{ValueSets}

-- What the engine calls. A solution is what `HashMap<String, Term>` holds.
pub record Services : Type 1 where
  pub xsd : Xsd
  pub compiled : Compiled
  pub Store : Type 0
  pub Term : Type 0
  pub literals : Store → Literals
  pub iri : Store → TermId → Option Text
  pub kind : Store → TermId → TermKind
  pub direction : Store → TermId → Option Direction
  pub get_triple_term : Store → TermId → TermId → TermId → Option TermId
  pub literal_with_direction : Text → Text → Option Text → Option Direction → Store → TermId × Store
  pub available_parallelism : ℕ
  pub is_match : compiled.Regex → Text → Bool
  pub eval_expression : Graph → Graph → TermId → TermId → Store → Result (List TermId) × Store
  pub to_term : TermId → Store → Term
  pub from_term : Term → Store → Option TermId
  pub message_value : Term → Text
  pub shapes_graph_iri : Term
  pub run_query :
      compiled.Query
      → List (Text × Term)
      → Graph
      → Store
      → Option Graph
      → Result (List (List (Text × Term)))
  pub next_value : List (Text × Term) → Option Term

module _ (h : Services) where
  pub record Engine : Type 0 where
    pub data_graph : Graph
    pub shapes : Shapes h.compiled
    pub shapes_graph : Graph
    pub vocab : Vocab
    pub components : Components
    pub severities : Severities
    pub targets : Targets
    pub max_results : Option ℕ
    pub blocking : Option (List TermId)

abbrev pub Visit : Type 0
Visit = ShapeId × TermId

-- The (shape, node) pairs being validated, in order and as a set, and the nesting of calls.
pub record Stack : Type 0 where
  pub pairs : List Visit
  pub seen : Visit → Bool
  pub depth : ℕ

-- `Stack::default()`
abbrev pub no_stack : Stack
no_stack = record { pairs = []; seen = λ _. false; depth = 0 }

-- What a step may change: the results it adds to, the stack and the store.
module _ (h : Services) where
  pub record Context : Type 0 where
    pub out : List ValidationResult
    pub stack : Stack
    pub store : h.Store

pub record Options : Type 0 where
  pub max_results : Option ℕ
  pub blocking : Option (List TermId)
  pub threads : ℕ

pub record Frame : Type 0 where
  pub id : ShapeId
  pub sets : ValueSets
  pub next : ℕ
  pub mark : ℕ

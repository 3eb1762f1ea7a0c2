-- ===== src/Lib.antt =====
-- A verification library for the SHACL engine (crates/shacl): its RDF substrate, its property paths,
-- its RDFS inference and its validation of shapes, as definitions that run, with theorems about them.
--
-- The parts. A graph is a set of interned triples, kept as three sorted permutations, each under an
-- offset index; everything else reads data and shapes through its lookups. A property path is
-- evaluated over a graph for many focus nodes at once and gives a relation in compressed rows, on
-- which the constraints are counted. RDFS inference closes a graph under six rules before it is
-- validated. Validation resolves each shape's targets, evaluates its path over them, and gives the
-- relation to its constraints, which may validate other shapes in turn; what they report is the
-- report.
--
-- Common: the lists, orders, sorting and notation that the others share. `sort_unstable`, `dedup`,
--   `binary_search` and `partition_point` belong to Rust's standard library: each is modelled by
--   the list or position it is documented to leave.
-- Model/Starts (crates/shacl/src/model/graph.rs): the record `Starts`, its `build` (counting pass,
--   then prefix sum) and `run`, and `prefix2`. A panic of `build` is `none`.
-- Model/Graph (crates/shacl/src/model/graph.rs): `GraphBuilder` as the list of rows pushed, `build`,
--   and a function for each lookup.
-- Model/Vocab (crates/shacl/src/model/vocab.rs): the ids the modelled code reads.
-- Model/Collections (crates/shacl/src/model/mod.rs): `collect_list` and `list`.
-- Model/Interner (crates/shacl/src/model/interner.rs): the arena with its spans and table. `HashTable`
--   is what `hashbrown` documents, with laws; the hasher is any function.
-- ValueSet (crates/shacl/src/valueset.rs): `ValueSets`, its `Builder`, and rows.
-- PropertyPath (crates/shacl/src/path.rs): `Path` (a path and a list of paths are two data types),
--   `probe`, `walk`, `closure`, and the entry points. PropertyPath/Meaning is the independent
--   account: the relation that SPARQL gives a path.
-- Error (crates/shacl/src/error.rs): the kinds of error; a panic is an outcome of its own.
-- Inference (crates/shacl/src/inference.rs): the rounds and the fixpoint.
--   Inference/Table says independently what the six rules entail, and what follows where, as in the
--   code, rdfs5 and rdfs11 conclude nothing from a term to itself.
-- Datatypes (crates/shacl/src/datatypes.rs): the value of a literal, `compare`, `is_well_formed` and
--   `language_matches`. A text is its bytes. `Xsd` gathers what the engine calls of `oxsdatatypes`
--   and of floating point, `Literals` what it reads from the term store; both are parameters.
--   Datatypes/Integers/Lexical says independently which texts denote which integers.
-- Shapes (crates/shacl/src/shapes.rs): `Target`, `Constraint`, `Shape`, `Shapes`, the recursion check
--   and `is_focus_separable`. The rules of a shape are left out of its record.
-- Report (crates/shacl/src/report.rs): `ValidationResult` (a result and a list of results are two data
--   types), its derived order, and `conforms`.
-- Validation (crates/shacl/src/validate.rs): the engine's state. `Services` is what the engine calls of
--   the term store, of node expressions (crates/shacl/src/nodeexpr.rs), of the number of processors and of the SPARQL engine
--   (crates/shacl/src/sparql.rs). A step takes the results, the stack and the store and gives them
--   back; it returns, fails, panics, or meets a bound of the model.
--   Validation/Classes, Closed, Messages, Values and Sparql are the helpers, Validation/Constraints is
--   `eval`, Validation/Frames the descent (`push_frame`, `run_frames`, `validate_shape`, `unwind`),
--   Validation/Resolve the targets, Validation/Parallel the roots in pieces by workers, and
--   Validation/Entry the entry points. The `HashSet` of visits is its test for membership.
--
-- Numbers are natural numbers; a `u32` cast is written out as `% 2 ^ 32`, and the theorems that
-- need one to lose nothing say so. A loop that is not over a list takes fuel, and gives `none` when
-- it runs out: the closure of a path needs fewer rounds than there are pairs of a focus node and a
-- node, the RDFS fixpoint fewer than one more than the bound on triples, since each round adds one.
-- `validate_shape` takes levels, as many as the depth limit leaves, and steps for each loop over
-- frames; the closures of paths, the class hierarchy and the text of a message have bounds that are
-- written where they are used. The count of a qualified value shape does not wrap around.
-- The slices, buffers and swaps of the source are lists that are passed on.
--
-- Not modelled: parsing and serialising RDF, SPARQL, the front ends (third-party libraries and
-- input and output), and so far the term store, index files, rules, the compilation of shapes, node
-- expressions. The evaluation of a node expression may start a validation on a stack of its own; that is
-- inside the parameter, so the theorems on the engine's stack and depth say nothing about it.
-- Workers do not share state, so their interleaving is not modelled: each piece is run by itself.
pub mod Common
pub mod Model
pub mod Datatypes
pub mod Error
pub mod Inference
pub mod PropertyPath
pub mod Report
pub mod Shapes
pub mod Validation
pub mod ValueSet

-- ===== src/Model.antt =====
-- The RDF substrate (crates/shacl/src/model): indexed graphs of interned terms.
pub mod Starts
pub mod Graph
pub mod Vocab
pub mod Terms
pub mod Collections
pub mod Interner
pub mod Tests

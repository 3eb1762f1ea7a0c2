-- ===== src/Model/Collections.antt =====
-- `Graph::collect_list` and `Graph::list` of crates/shacl/src/model/mod.rs: RDF collections.
pub mod Bounded
use shacl_engine.Common.{
  ℕ, zero, suc, ◌+◌, Bool, true, false, Option, none, some, List, [], ◌∷◌, ◌++◌, ◌==◌,
  if◌then◌else◌,
}
use shacl_engine.Model.Starts.{TermId}
use shacl_engine.Model.Graph.{Graph, object, len}
use shacl_engine.Model.Vocab.{Vocab}

-- The loop with its bound: whether it met `rdf:nil`, and what it pushed.
unfoldable pub collect : Graph → Vocab → ℕ → TermId → List TermId → Bool × List TermId
unfolding object
collect g v zero node out = (false, out)
collect g v (suc limit) node out =
    if node == v.rdf_nil then (true, out) else (elim (object g node v.rdf_first) [
      | none ↦ (false, out)
      | some first ↦ elim (object g node v.rdf_rest) [
        | none ↦ (false, out)
        | some rest ↦ collect g v limit rest (out ++ first ∷ [])
      ]
    ])

-- Reads a collection; the caller's buffer is emptied first.
unfoldable pub collect_list : Graph → TermId → Vocab → List TermId → Bool × List TermId
unfolding collect len
collect_list g head v out = collect g v (len g + 1) head []

abbrev pub then_some {ℓ} : {A : Type ℓ} → Bool → A → Option A
then_some b a = if b then some a else none

unfoldable pub list : Graph → TermId → Vocab → Option (List TermId)
unfolding collect_list
list g head v = let (whole, out) = collect_list g head v [] in then_some whole out

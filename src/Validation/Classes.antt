-- ===== src/Validation/Classes.antt =====
-- crates/shacl/src/validate.rs: the class hierarchy of the data graph and the nodes of a graph.
pub mod Worklist
pub mod Instances
use shacl_engine.Common.{
  ℕ, zero, suc, ◌+◌, Option, none, some, List, [], ◌∷◌, ◌++◌, if◌then◌else◌, nat_ord,
}
use shacl_engine.Common.Maybe.{◌>>=◌}
use shacl_engine.Common.Members.{has_id}
use shacl_engine.Common.Strict.{sort_dedup}
use shacl_engine.Model.Starts.{TermId, Row}
use shacl_engine.Model.Graph.{Graph, subjects, iter, len}
use shacl_engine.Model.Vocab.{Vocab}

-- The classes among `subs` that have not been seen go to the end of `seen` and to the top of the
-- queue, which is a list with its top first.
abbrev pub visit : List TermId → List TermId × List TermId → List TermId × List TermId
visit [] (seen, queue) = (seen, queue)
visit (sub ∷ subs) (seen, queue) =
    if has_id seen sub then visit subs (seen, queue) else visit subs (seen ++ sub ∷ [], sub ∷ queue)

-- The `while` loop of `subclasses`, with the nodes below a class given by a function.
unfoldable pub descend :
    (TermId → List TermId) → ℕ → List TermId → List TermId → Option (List TermId)
descend below fuel seen [] = some seen
descend below zero seen (_ ∷ _) = none
descend below (suc fuel) seen (c ∷ queue) =
    let (seen', queue') = visit (below c) (seen, queue) in descend below fuel seen' queue'

-- A class together with everything below it.
unfoldable pub subclasses : Graph → Vocab → TermId → Option (List TermId)
unfolding descend subjects
subclasses g v class =
    descend (subjects g v.rdfs_sub_class_of) (2 + len g) (class ∷ []) (class ∷ [])

abbrev pub all_subjects : Graph → TermId → List TermId → List TermId
all_subjects g p [] = []
all_subjects g p (c ∷ cs) = subjects g p c ++ all_subjects g p cs

-- The nodes typed with the class or with a class below it.
unfoldable pub instances_of : Graph → Vocab → TermId → Option (List TermId)
unfolding subclasses
instances_of g v class = do classes ← subclasses g v class; some (all_subjects g v.rdf_type classes)

-- The instances of any of several classes, one after the other.
abbrev pub instances_of_any : Graph → Vocab → List TermId → Option (List TermId)
instances_of_any g v [] = some []
instances_of_any g v (c ∷ cs) = do
  first ← instances_of g v c
  rest ← instances_of_any g v cs
  some (first ++ rest)

abbrev pub ends_of : List Row → List TermId
ends_of [] = []
ends_of ((s, p, o) ∷ rows) = s ∷ o ∷ ends_of rows

unfoldable pub all_nodes : Graph → List TermId
unfolding sort_dedup iter
all_nodes g = sort_dedup (ends_of (iter g))

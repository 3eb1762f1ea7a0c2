-- ===== src/PropertyPath/Tests.antt =====
-- A path evaluated in both directions over a small graph.
use shacl_engine.Common.{◌≡◌, ◌↔◌, refl, false, some, List, [], ◌∷◌, ◌++◌, Memᴰ, arith, nat_ord}
use shacl_engine.Common.Sort.{IsStrict}
use shacl_engine.Model.Starts.{TermId}
use shacl_engine.Model.Tests.{small, small-IsIndexed}
use shacl_engine.Model.Graph.{len}
use shacl_engine.ValueSet.{ValueSets, rows}
use shacl_engine.PropertyPath.{
  PropertyPath, predicate, zero_or_more, sequence, step, done, eval_sets_dir, eval, eval_inverse,
}
use shacl_engine.PropertyPath.Meaning.{Connects}
use shacl_engine.PropertyPath.Sets.{RowsOf, eval_sets_dir_lem}
use shacl_engine.PropertyPath.Evaluate.{eval-eval_inverse}

-- `rdf:rest*/rdf:first`
abbrev items_of : PropertyPath
items_of = sequence (step (zero_or_more (predicate 12)) (step (predicate 11) done))

items_of_lists : eval small 20 items_of 5 [] ≡ some (1 ∷ 4 ∷ [])
unfolding eval shacl_engine.Model.Graph.objects
items_of_lists = refl

eval_sets_dir_lem_example :
    (v : ValueSets) × (eval_sets_dir small 40 items_of false (5 ∷ 6 ∷ []) ≡ some v)
    × RowsOf small items_of false (5 ∷ 6 ∷ []) (rows v)
unfolding len
eval_sets_dir_lem_example =
    eval_sets_dir_lem small 40 items_of false (5 ∷ 6 ∷ []) small-IsIndexed (omega arith)
      (omega arith) (omega arith)

eval-eval_inverse_example :
    (xs : List TermId) × (ys : List TermId) × (eval small 20 items_of 5 [] ≡ some ([] ++ xs))
    × (eval_inverse small 20 items_of 4 (7 ∷ []) ≡ some (7 ∷ [] ++ ys))
    × IsStrict xs
    × IsStrict ys
    × (Memᴰ 4 xs ↔ Connects small items_of 5 4)
    × (Memᴰ 5 ys ↔ Connects small items_of 5 4)
unfolding len
eval-eval_inverse_example =
    eval-eval_inverse small 20 items_of 5 4 [] (7 ∷ []) small-IsIndexed (omega arith) (omega arith)

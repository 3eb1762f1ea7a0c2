-- ===== src/PropertyPath/Evaluate.antt =====
-- `Path::eval` and `Path::eval_inverse`: the value nodes of one node, in either direction.
use shacl_engine.Common.{
  ℕ, ◌+◌, ◌*◌, ◌^◌, ◌<◌, ◌≡◌, refl, ◌↔◌, Bool, true, false, some, List, [], ◌∷◌, ◌++◌, Memᴰ, arith,
  map, length, nat_ord,
}
use shacl_engine.Common.Maybe.{◌>>=◌}
use shacl_engine.Common.Sort.{IsStrict}
use shacl_engine.Model.Starts.{TermId}
use shacl_engine.Model.Graph.{Graph, len}
use shacl_engine.Model.Graph.Access.{IsIndexed}
use shacl_engine.ValueSet.{ValueSets, rows, row, range_from}
use shacl_engine.PropertyPath.{PropertyPath, eval_sets_dir, eval, eval_inverse}
use shacl_engine.PropertyPath.Meaning.{Connects, Toward}
use shacl_engine.PropertyPath.Sets.{IsRowOf, RowsOf, eval_sets_dir_lem}

-- The values found for a node: ascending, once each, and exactly those the path connects to it.
abbrev pub IsValuesOf : Graph → PropertyPath → Bool → TermId → List TermId → Type 0
IsValuesOf g path back f vs =
    IsStrict vs × ((t : TermId) → Memᴰ t vs ↔ Toward back (Connects g path) f t)

first_row :
    (g : Graph) (path : PropertyPath) (back : Bool) (f : TermId) (v : ValueSets)
    (focus : List TermId)
    → RowsOf g path back (f ∷ []) (map (row v) (range_from 0 (length focus)))
    → IsRowOf g path back f (row v 0)
first_row g path back f v [] h = absurd h
first_row g path back f v (x ∷ rest) h = h.0

one_row :
    (g : Graph) (fuel : ℕ) (path : PropertyPath) (back : Bool) (f : TermId)
    → IsIndexed g
    → 1 + 2 * len g < 2 ^ 32
    → 1 + 2 * len g < fuel
    → (v : ValueSets) × (eval_sets_dir g fuel path back (f ∷ []) ≡ some v)
      × IsValuesOf g path back f (row v 0).values
unfolding rows
one_row g fuel path back f ix fits enough =
    let (v, e, rs) =
      eval_sets_dir_lem g fuel path back (f ∷ []) ix (omega arith) (omega (arith, fits))
        (omega (arith, enough)) in
    let it = first_row g path back f v v.focus rs in (v, e, (it.strict, it.exact))

-- The values of one node, for a caller that asks for all of them.
pub eval_lem :
    (g : Graph) (fuel : ℕ) (path : PropertyPath) (a : TermId)
    → IsIndexed g
    → 1 + 2 * len g < 2 ^ 32
    → 1 + 2 * len g < fuel
    → (xs : List TermId) × (eval g fuel path a [] ≡ some xs)
      × ((b : TermId) → Memᴰ b xs ↔ Connects g path a b)
unfolding eval
eval_lem g fuel path a ix fits enough =
    let (v, e, good) = one_row g fuel path false a ix fits enough in
    ((row v 0).values, rw (e, ◌>>=◌) refl, good.1)

-- Over an indexed graph of fewer than `2 ^ 32` nodes, and with fuel for every node, both directions of a path return, whatever the buffers hold, and append
-- the values of the node: forwards, those the path connects it to; backwards, those that the path
-- connects to it.
pub eval-eval_inverse :
    (g : Graph) (fuel : ℕ) (path : PropertyPath) (a b : TermId) (out back : List TermId)
    → IsIndexed g
    → 1 + 2 * len g < 2 ^ 32
    → 1 + 2 * len g < fuel
    → (xs : List TermId) × (ys : List TermId) × (eval g fuel path a out ≡ some (out ++ xs))
      × (eval_inverse g fuel path b back ≡ some (back ++ ys))
      × IsStrict xs
      × IsStrict ys
      × (Memᴰ b xs ↔ Connects g path a b)
      × (Memᴰ a ys ↔ Connects g path a b)
unfolding eval eval_inverse
eval-eval_inverse g fuel path a b out back ix fits enough =
    let (v, e, good) = one_row g fuel path false a ix fits enough in
    let (w, e', good') = one_row g fuel path true b ix fits enough in
    (
      (row v 0).values,
      (row w 0).values,
      rw (e, ◌>>=◌) refl,
      rw (e', ◌>>=◌) refl,
      good.0,
      good'.0,
      good.1 b,
      good'.1 a,
    )

-- ===== src/PropertyPath.antt =====
-- crates/shacl/src/path.rs: compiled property paths and their evaluation over a graph. The
-- `while` loop of `closure` takes fuel: `none` means that it ran out.
pub mod Meaning
pub mod Probe
pub mod Closure
pub mod Direction
pub mod Walk
pub mod Fuel
pub mod Rows
pub mod Sets
pub mod Evaluate
mod Tests
use mathlib.Core.List.{reverse, flat_map}
use shacl_engine.Common.{
  ℕ, zero, suc, Bool, true, false, not, Option, none, some, List, [], ◌∷◌, ◌++◌, map, length,
  filter, ◌==◌, ◌&&◌, if◌then◌else◌, pair_ord,
}
use shacl_engine.Common.Maybe.{◌>>=◌}
use shacl_engine.Common.Sort.{sort}
use shacl_engine.Common.Strict.{sort_dedup}
use shacl_engine.Model.Starts.{TermId}
use shacl_engine.Model.Graph.{Graph, objects, subjects}
use shacl_engine.ValueSet.{
  ValueSets, Builder, Row, as_u32, with_capacity, start_row, push_value, end_row, finish, row,
}

mutual
  pub data PropertyPath : Type 0 where
    predicate : TermId → PropertyPath
    inverse : PropertyPath → PropertyPath
    sequence : Steps → PropertyPath
    alternative : Steps → PropertyPath
    zero_or_more : PropertyPath → PropertyPath
    one_or_more : PropertyPath → PropertyPath
    zero_or_one : PropertyPath → PropertyPath

  -- `Vec<Path>`
  pub data Steps : Type 0 where
    done : Steps
    step : PropertyPath → Steps → Steps

-- (origin index, node reached)
abbrev pub Pair : Type 0
Pair = ℕ × TermId

abbrev pub Pairs : Type 0
Pairs = List Pair

unfoldable pub as_predicate : PropertyPath → Option TermId
as_predicate (predicate p) = some p
as_predicate _ = none

unfoldable pub normalise : Pairs → Pairs
unfolding sort_dedup
normalise pairs = sort_dedup pairs

-- `binary_search(p).is_ok()` on a sorted list
abbrev pub contains_pair : Pairs → Pair → Bool
contains_pair [] p = false
contains_pair (x ∷ xs) p =
    let rest = contains_pair xs p in if x.0 == p.0 && x.1 == p.1 then true else rest

-- Adjacent pairs with the same node, as the inner `while` collects them.
abbrev pub join_group : ℕ → ℕ → List (TermId × List ℕ) → List (TermId × List ℕ)
join_group node origin [] = (node, origin ∷ []) ∷ []
join_group node origin ((n, origins) ∷ groups) =
    if n == node
    then (node, origin ∷ origins) ∷ groups
    else (node, origin ∷ []) ∷ (n, origins) ∷ groups

abbrev pub groups : List (TermId × ℕ) → List (TermId × List ℕ)
groups [] = []
groups ((node, origin) ∷ rest) = join_group node origin (groups rest)

-- What one probe of the index yields for a group.
unfoldable pub neighbours : Graph → TermId → Bool → TermId → List TermId
neighbours g p reverse node = if reverse then subjects g p node else objects g node p

abbrev pub emit : List ℕ → List TermId → Pairs
emit origins [] = []
emit origins (t ∷ ts) = map (λ o. (o, t)) origins ++ emit origins ts

abbrev pub probe_groups : Graph → TermId → Bool → List (TermId × List ℕ) → Pairs
probe_groups g p reverse [] = []
probe_groups g p reverse ((node, origins) ∷ gs) =
    emit origins (neighbours g p reverse node) ++ probe_groups g p reverse gs

-- Advances every pair one predicate, in node order, one probe for each node.
unfoldable pub probe : Graph → TermId → Bool → Pairs → Pairs
unfolding sort neighbours
probe g p reverse input = probe_groups g p reverse (groups (sort (map (λ (o, n). (n, o)) input)))

abbrev pub Walk : Type 0
Walk = Pairs → Option Pairs

-- The loop over the steps of a sequence, in the order given; it returns early on an empty frontier.
unfoldable pub run_steps : List Walk → Walk
unfolding normalise
run_steps [] frontier = some frontier
run_steps (w ∷ ws) frontier = do
  next ← w frontier
  elim (normalise next) [ [] ↦ some [] | x ∷ rest ↦ run_steps ws (x ∷ rest) ]

-- Every alternative appends to the same output.
unfoldable pub run_alternatives : List Walk → Walk
run_alternatives [] input = some []
run_alternatives (w ∷ ws) input = do
  out ← w input
  rest ← run_alternatives ws input
  some (out ++ rest)

-- Transitive closure over the whole pair list: the pairs that the loop appends to the output.
unfoldable pub closure : Walk → ℕ → Pairs → Walk
unfolding normalise
closure w zero seen [] = some []
closure w zero seen (f ∷ frontier) = none
closure w (suc fuel) seen [] = some []
closure w (suc fuel) seen (f ∷ frontier) = do
  next ← w (f ∷ frontier)
  elim (filter (λ p. not (contains_pair seen p)) (normalise next)) [
    | [] ↦ some []
    | x ∷ fresh ↦ do
      rest ← closure w fuel (normalise (seen ++ x ∷ fresh)) (x ∷ fresh)
      some ((x ∷ fresh) ++ rest)
  ]

abbrev pub in_order {ℓ} : {A : Type ℓ} → Bool → List A → List A
in_order backwards xs = if backwards then reverse xs else xs

-- Advances every pair one whole path.
unfoldable mutual
  unfolding probe run_steps run_alternatives closure

  pub walk : Graph → ℕ → PropertyPath → Bool → Walk
  walk g fuel (predicate p) back input = some (probe g p back input)
  walk g fuel (inverse inner) back input = walk g fuel inner (not back) input
  walk g fuel (sequence steps) back input =
      run_steps (in_order back (walks g fuel steps back)) input
  walk g fuel (alternative alts) back input = run_alternatives (walks g fuel alts back) input
  walk g fuel (zero_or_more inner) back input =
      closure (walk g fuel inner back) fuel [] input >>= λ out. some (input ++ out)
  walk g fuel (one_or_more inner) back input = closure (walk g fuel inner back) fuel [] input
  walk g fuel (zero_or_one inner) back input =
      walk g fuel inner back input >>= λ out. some (input ++ out)

  pub walks : Graph → ℕ → Steps → Bool → List Walk
  walks g fuel done back = []
  walks g fuel (step p ps) back = walk g fuel p back ∷ walks g fuel ps back

-- `focus.iter().enumerate()`, each focus node paired with its index as a u32.
abbrev pub enumerate : ℕ → List TermId → Pairs
enumerate i [] = []
enumerate i (f ∷ focus) = (as_u32 i, f) ∷ enumerate (suc i) focus

-- The inner `while`: the values of one origin, and the pairs that are left.
abbrev pub push_values : ℕ → Builder → Pairs → Builder × Pairs
push_values origin b [] = (b, [])
push_values origin b ((o, v) ∷ rest) =
    let more = push_values origin (push_value b v) rest in
    if o == as_u32 origin then more else (b, (o, v) ∷ rest)

abbrev pub group_rows : ℕ → List TermId → Pairs → Builder → Builder
group_rows i [] reached b = b
group_rows i (f ∷ focus) reached b =
    let (b', rest) = push_values i (start_row b f) reached in
    group_rows (suc i) focus rest (end_row b')

-- The focus→values relation of a path, forwards or backwards.
unfoldable pub eval_sets_dir : Graph → ℕ → PropertyPath → Bool → List TermId → Option ValueSets
unfolding walk normalise as_u32 start_row push_value end_row finish
eval_sets_dir g fuel path back focus = do
  reached ← walk g fuel path back (enumerate 0 focus)
  some (finish (group_rows 0 focus (normalise reached) (with_capacity (length focus))))

unfoldable pub eval_sets : Graph → ℕ → PropertyPath → List TermId → Option ValueSets
unfolding eval_sets_dir
eval_sets g fuel path focus = eval_sets_dir g fuel path false focus

-- The value nodes of one focus node; the caller's buffer is what they are appended to.
unfoldable pub eval : Graph → ℕ → PropertyPath → TermId → List TermId → Option (List TermId)
unfolding eval_sets_dir row
eval g fuel path focus out = do
  sets ← eval_sets_dir g fuel path false (focus ∷ [])
  some (out ++ (row sets 0).values)

-- The nodes from which one node is reachable.
unfoldable pub eval_inverse : Graph → ℕ → PropertyPath → TermId → List TermId → Option (List TermId)
unfolding eval_sets_dir row
eval_inverse g fuel path node out = do
  sets ← eval_sets_dir g fuel path true (node ∷ [])
  some (out ++ (row sets 0).values)

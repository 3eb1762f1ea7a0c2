-- ===== src/Model/Starts.antt =====
-- `Starts` of crates/shacl/src/model/graph.rs: the first-level index over one sorted permutation,
-- and the search within one term's rows. A `TermId` is the number it wraps. `partition_point` is
-- the standard library's; `none` is a panic of `Starts::build`: its failed assertion, a
-- difference of ids that underflows, or an index out of range.
pub mod Counts
pub mod Runs
use shacl_engine.Common.{
  ℕ, zero, suc, ◌+◌, ◌-◌, ◌^◌, Bool, Option, none, some, List, [], ◌∷◌, length, get_or, take, drop,
  ltb, leb, ◌==◌, if◌then◌else◌,
}
use shacl_engine.Common.Maybe.{◌>>=◌}

abbrev pub TermId : Type 0
TermId = ℕ

-- A triple, in whatever component order its index implies.
abbrev pub Row : Type 0
Row = ℕ × ℕ × ℕ

abbrev pub u32_max : ℕ
u32_max = 2 ^ 32 - 1

pub record Starts : Type 0 where
  pub base : ℕ
  pub starts : List ℕ

-- `&rows[lo..hi]`
abbrev pub slice {ℓ} : {A : Type ℓ} → List A → ℕ → ℕ → List A
slice rows lo hi = take (hi - lo) (drop lo rows)

-- `starts[i] += 1`, which panics where there is no such cell.
abbrev pub bump : List ℕ → ℕ → Option (List ℕ)
bump [] i = none
bump (x ∷ xs) zero = some (suc x ∷ xs)
bump (x ∷ xs) (suc i) = do rest ← bump xs i; some (x ∷ rest)

-- The counting pass. An id below the base underflows.
abbrev pub tally : ℕ → List Row → List ℕ → Option (List ℕ)
tally base [] starts = some starts
tally base (r ∷ rows) starts =
    if ltb r.0 base then none else (bump starts (r.0 - base + 1) >>= λ next. tally base rows next)

-- The prefix sum: each cell takes in the one before it.
abbrev pub sums : ℕ → List ℕ → List ℕ
sums acc [] = []
sums acc (x ∷ xs) = (acc + x) ∷ sums (acc + x) xs

abbrev pub zeros : ℕ → List ℕ
zeros zero = []
zeros (suc n) = 0 ∷ zeros n

abbrev pub last_lead : Row → List Row → ℕ
last_lead r [] = r.0
last_lead r (s ∷ rows) = last_lead s rows

-- The prefix sums of the counts of the ids from `base` to `last`.
abbrev pub index : ℕ → ℕ → List Row → Option Starts
index base last rows = if ltb last base then none else (do
  counts ← tally base rows (zeros (last - base + 1 + 1))
  some (record { base = base; starts = sums 0 counts }))

unfoldable pub build : List Row → Option Starts
build [] = some (record { base = 0; starts = [] })
build (first ∷ rows) =
    if ltb (length (first ∷ rows)) u32_max
    then index first.0 (last_lead first rows) (first ∷ rows)
    else none

-- The rows led by `a`, or none.
unfoldable pub run : Starts → List Row → TermId → List Row
run s rows a =
    if ltb a s.base
    then []
    else (let i = a - s.base in
        if leb (length s.starts) (i + 1)
        then []
        else slice rows (get_or s.starts i 0) (get_or s.starts (i + 1) 0))

-- The length of the longest prefix on which the test holds: the partition point of a list that
-- the test partitions.
abbrev pub partition_point {ℓ} : {A : Type ℓ} → (A → Bool) → List A → ℕ
partition_point p [] = 0
partition_point p (x ∷ xs) = let rest = suc (partition_point p xs) in if p x then rest else 0

-- Within the rows led by one term, those whose second component is `b`.
unfoldable pub prefix2 : List Row → TermId → List Row
prefix2 run b =
    let lo = partition_point (λ (r : Row). ltb r.1 b) run in
    let hi = partition_point (λ (r : Row). r.1 == b) (drop lo run) + lo in slice run lo hi

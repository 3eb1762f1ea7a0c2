-- ===== src/Model/Starts/Counts.antt =====
-- What the counting pass and the prefix sum of `Starts::build` leave in each cell.
use native.Mathlib.Decide.{dec_lt}
use shacl_engine.Common.{
  ℕ, zero, suc, ◌+◌, ◌-◌, ◌≤◌, ◌<◌, ◌≡◌, refl, List, [], ◌∷◌, Memᴰ, arith, length, get_or, filter,
  ltb, ◌==◌, if◌then◌else◌, some, false,
}
use shacl_engine.Common.Maybe.{◌>>=◌}
use shacl_engine.Model.Starts.{Row, slice, bump, tally, sums, zeros}

-- Rows in the order of a component.
abbrev pub Ascends : (Row → ℕ) → List Row → Type 0
Ascends key [] = Unit
Ascends key (r ∷ rows) = ((y : Row) → Memᴰ y rows → key r ≤ key y) × Ascends key rows

abbrev pub AllFrom : ℕ → (Row → ℕ) → List Row → Type 0
AllFrom b key [] = Unit
AllFrom b key (r ∷ rows) = (b ≤ key r) × AllFrom b key rows

abbrev pub AllTo : ℕ → (Row → ℕ) → List Row → Type 0
AllTo b key [] = Unit
AllTo b key (r ∷ rows) = (key r ≤ b) × AllTo b key rows

-- How many rows have a component below `b`.
abbrev pub count_lt : (Row → ℕ) → ℕ → List Row → ℕ
count_lt key b [] = 0
count_lt key b (r ∷ rows) =
    let rest = count_lt key b rows in if ltb (key r) b then suc rest else rest

abbrev pub occurrences : ℕ → ℕ → List Row → ℕ
occurrences base j [] = 0
occurrences base j (r ∷ rows) = (if r.0 - base + 1 == j then 1 else 0) + occurrences base j rows

-- The counting pass where no index is out of range.
abbrev bumped : List ℕ → ℕ → List ℕ
bumped [] i = []
bumped (x ∷ xs) zero = suc x ∷ xs
bumped (x ∷ xs) (suc i) = x ∷ bumped xs i

abbrev pub tallied : ℕ → List Row → List ℕ → List ℕ
tallied base [] starts = starts
tallied base (r ∷ rows) starts = tallied base rows (bumped starts (r.0 - base + 1))

bump-bumped : (xs : List ℕ) (i : ℕ) → i < length xs → bump xs i ≡ some (bumped xs i)
bump-bumped [] i h = absurd (omega arith)
bump-bumped (x ∷ xs) zero h = refl
bump-bumped (x ∷ xs) (suc i) h = rw (bump-bumped xs i (omega arith), ◌>>=◌) refl

length-bumped : (xs : List ℕ) (i : ℕ) → length (bumped xs i) ≡ length xs
length-bumped [] i = refl
length-bumped (x ∷ xs) zero = refl
length-bumped (x ∷ xs) (suc i) = omega (arith, length-bumped xs i)

get_or-bumped :
    (xs : List ℕ) (i j : ℕ)
    → i < length xs
    → get_or (bumped xs i) j 0 ≡ (if i == j then 1 else 0) + get_or xs j 0
get_or-bumped [] i j h = absurd (omega arith)
get_or-bumped (x ∷ xs) zero zero h = omega arith
get_or-bumped (x ∷ xs) zero (suc j) h = ground arith
get_or-bumped (x ∷ xs) (suc i) zero h = ground arith
get_or-bumped (x ∷ xs) (suc i) (suc j) h = ground (arith, get_or-bumped xs i j)

pub length-tallied :
    (base : ℕ) (rows : List Row) (starts : List ℕ)
    → length (tallied base rows starts) ≡ length starts
length-tallied base [] starts = refl
length-tallied base (r ∷ rows) starts = omega (
  arith,
  length-tallied base rows (bumped starts (r.0 - base + 1)),
  length-bumped starts (r.0 - base + 1),
)

-- Every bumped of the counting pass is in range, and each cell counts its rows.
get_or-tallied :
    (base top : ℕ) (rows : List Row) (starts : List ℕ) (j : ℕ)
    → AllTo top (λ r. r.0) rows
    → top - base + 1 < length starts
    → get_or (tallied base rows starts) j 0 ≡ occurrences base j rows + get_or starts j 0
get_or-tallied base top [] starts j h room = omega arith
get_or-tallied base top (r ∷ rows) starts j h room = omega (
  arith,
  get_or-tallied base top rows (bumped starts (r.0 - base + 1)) j h.1
      (omega (arith, length-bumped starts (r.0 - base + 1))),
  get_or-bumped starts (r.0 - base + 1) j (omega (arith, h.0)),
)

-- Rows whose ids lie between the ends are counted with every index in range.
pub tally-tallied :
    (base top : ℕ) (rows : List Row) (starts : List ℕ)
    → AllFrom base (λ r. r.0) rows
    → AllTo top (λ r. r.0) rows
    → top - base + 1 < length starts
    → tally base rows starts ≡ some (tallied base rows starts)
tally-tallied base top [] starts low high room = refl
tally-tallied base top (r ∷ rows) starts low high room =
    let inside : ltb r.0 base ≡ false = ground (arith, low.0) in
    rw (inside, bump-bumped starts (r.0 - base + 1) (omega (arith, high.0)), ◌>>=◌)
      (tally-tallied base top rows (bumped starts (r.0 - base + 1)) low.1 high.1
        (omega (arith, length-bumped starts (r.0 - base + 1))))

pub length-sums : (acc : ℕ) (xs : List ℕ) → length (sums acc xs) ≡ length xs
length-sums acc [] = refl
length-sums acc (x ∷ xs) = omega (arith, length-sums (acc + x) xs)

-- The sum of the cells up to and with `j`.
abbrev total : List ℕ → ℕ → ℕ
total [] j = 0
total (x ∷ xs) zero = x
total (x ∷ xs) (suc j) = x + total xs j

get_or-sums :
    (acc : ℕ) (xs : List ℕ) (j : ℕ) → j < length xs → get_or (sums acc xs) j 0 ≡ acc + total xs j
get_or-sums acc [] j h = absurd (omega arith)
get_or-sums acc (x ∷ xs) zero h = refl
get_or-sums acc (x ∷ xs) (suc j) h = omega (arith, get_or-sums (acc + x) xs j (omega arith))

total-suc : (xs : List ℕ) (j : ℕ) → total xs (suc j) ≡ total xs j + get_or xs (suc j) 0
total-suc [] j = refl
total-suc (x ∷ []) zero = omega arith
total-suc (x ∷ y ∷ xs) zero = refl
total-suc (x ∷ xs) (suc j) = omega (arith, total-suc xs j)

total-zero : (xs : List ℕ) → total xs zero ≡ get_or xs 0 0
total-zero [] = refl
total-zero (x ∷ xs) = refl

pub length-zeros : (n : ℕ) → length (zeros n) ≡ n
length-zeros zero = refl
length-zeros (suc n) = omega (arith, length-zeros n)

get_or-zeros : (n j : ℕ) → get_or (zeros n) j 0 ≡ 0
get_or-zeros zero j = refl
get_or-zeros (suc n) zero = refl
get_or-zeros (suc n) (suc j) = get_or-zeros n j

occurrences-zero : (base : ℕ) (rows : List Row) → occurrences base 0 rows ≡ 0
occurrences-zero base [] = refl
occurrences-zero base (r ∷ rows) = ground (arith, occurrences-zero base rows)

count_lt-base :
    (base : ℕ) (rows : List Row) → AllFrom base (λ r. r.0) rows → count_lt (λ r. r.0) base rows ≡ 0
count_lt-base base [] h = refl
count_lt-base base (r ∷ rows) h = ground (arith, count_lt-base base rows h.1)

count_lt-suc :
    (base j : ℕ) (rows : List Row)
    → AllFrom base (λ r. r.0) rows
    → count_lt (λ r. r.0) (base + suc j) rows
      ≡ count_lt (λ r. r.0) (base + j) rows + occurrences base (suc j) rows
count_lt-suc base j [] h = refl
count_lt-suc base j (r ∷ rows) h = ground (arith, count_lt-suc base j rows h.1)

AllFrom-eq :
    (b c : ℕ) (rows : List Row) → b ≡ c → AllFrom b (λ r. r.0) rows → AllFrom c (λ r. r.0) rows
AllFrom-eq b c [] e h = tt
AllFrom-eq b c (r ∷ rows) e h = (omega (arith, h.0), AllFrom-eq b c rows e h.1)

module _ (base top : ℕ) (rows : List Row) where
  abbrev cells : List ℕ
  cells = tallied base rows (zeros (top - base + 1 + 1))

  module _ (low : AllFrom base (λ r. r.0) rows) (high : AllTo top (λ r. r.0) rows) where
    get_or-cells : (j : ℕ) → get_or cells j 0 ≡ occurrences base j rows
    get_or-cells j = omega (
      arith,
      get_or-tallied base top rows (zeros (top - base + 1 + 1)) j high
          (omega (arith, length-zeros (top - base + 1 + 1))),
      get_or-zeros (top - base + 1 + 1) j,
    )

    total-cells : (j : ℕ) → total cells j ≡ count_lt (λ r. r.0) (base + j) rows
    total-cells zero = omega (
      arith,
      total-zero cells,
      get_or-cells 0,
      occurrences-zero base rows,
      count_lt-base (base + 0) rows (AllFrom-eq base (base + 0) rows (omega arith) low),
    )
    total-cells (suc j) = omega (
      arith,
      total-suc cells j,
      get_or-cells (suc j),
      total-cells j,
      count_lt-suc base j rows low,
    )

    -- Cell `j` of the index holds the number of rows led by an id below `base + j`.
    pub get_or-starts :
        (j : ℕ)
        → j ≤ top - base + 1
        → get_or (sums 0 cells) j 0 ≡ count_lt (λ r. r.0) (base + j) rows
    get_or-starts j h = omega (
      arith,
      get_or-sums 0 cells j (
          omega (
            arith,
            length-tallied base rows (zeros (top - base + 1 + 1)),
            length-zeros (top - base + 1 + 1),
          )),
      total-cells j,
    )

module _ (key : Row → ℕ) (a : ℕ) where
  pub count_lt-none :
      (rows : List Row) → ((y : Row) → Memᴰ y rows → a ≤ key y) → count_lt key a rows ≡ 0
  count_lt-none [] h = refl
  count_lt-none (r ∷ rows) h =
      ground (arith, h r (Memᴰ.head refl), count_lt-none rows (λ y m. h y (Memᴰ.tail m)))

  filter-none :
      (rows : List Row) → ((y : Row) → Memᴰ y rows → a < key y) → filter (λ r. key r == a) rows ≡ []
  filter-none [] h = refl
  filter-none (r ∷ rows) h =
      ground (arith, h r (Memᴰ.head refl), filter-none rows (λ y m. h y (Memᴰ.tail m)))

module _ (key : Row → ℕ) (a : ℕ) where
  -- What lies between the two counts, of `a` and of what follows it, are the rows at `a`.
  pub slice-count_lt :
      (rows : List Row)
      → Ascends key rows
      → slice rows (count_lt key a rows) (count_lt key (suc a) rows) ≡ filter (λ r. key r == a) rows
  slice-count_lt [] h = refl
  slice-count_lt (r ∷ rows) h = elim (dec_lt (key r) a) [
    | yes low ↦ ground (arith, slice-count_lt rows h.1)
    | no high ↦ elim (dec_lt a (key r)) [
      | yes above ↦ ground (
        arith,
        count_lt-none key a rows (λ y m. omega (arith, h.0 y m)),
        count_lt-none key (suc a) rows (λ y m. omega (arith, h.0 y m)),
        filter-none key a rows (λ y m. omega (arith, h.0 y m)),
      )
      | no level ↦
          ground (
            arith,
            count_lt-none key a rows (λ y m. omega (arith, h.0 y m)),
            slice-count_lt rows h.1,
          )
    ]
  ]

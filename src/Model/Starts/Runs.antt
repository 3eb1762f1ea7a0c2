-- ===== src/Model/Starts/Runs.antt =====
-- A run of the first-level index, and a search within it, are the selections that they replace.
use native.Mathlib.Decide.{dec_lt}
use shacl_engine.Common.{
  ℕ, suc, ◌+◌, ◌-◌, ◌≤◌, ◌<◌, ◌≡◌, refl, sym, ap, ◌∙◌, subst, true, false, some, List, [], ◌∷◌,
  Memᴰ, inl, inr, arith, length, get_or, drop, filter, ltb, leb, ◌==◌, row_ord, Bool-cases,
  Memᴰ-filter,
}
use shacl_engine.Common.Maybe.{◌>>=◌, eq_of_some}
use shacl_engine.Common.Sort.{IsSorted}
use shacl_engine.Model.Starts.{
  TermId, Row, Starts, u32_max, sums, zeros, last_lead, index, build, run, partition_point, prefix2,
}
use shacl_engine.Model.Starts.Counts.{
  tallied, tally-tallied, Ascends, AllFrom, AllTo, count_lt, length-tallied, length-sums,
  length-zeros, get_or-starts, slice-count_lt, count_lt-none,
}

lead_le : (r y : Row) → row_ord.lt y r ≡ false → r.0 ≤ y.0
lead_le r y h = ground arith

second_le : (r y : Row) → r.0 ≡ y.0 → row_ord.lt y r ≡ false → r.1 ≤ y.1
second_le r y e h = ground arith

pub IsSorted→Ascends : (rows : List Row) → IsSorted rows → Ascends (λ r. r.0) rows
IsSorted→Ascends [] h = tt
IsSorted→Ascends (r ∷ rows) h = (λ y m. lead_le r y (h.0 y m), IsSorted→Ascends rows h.1)

-- Among the rows led by one id, the second components ascend.
pub filter-Ascends :
    (a : TermId) (rows : List Row)
    → IsSorted rows
    → Ascends (λ r. r.1) (filter (λ r. r.0 == a) rows)
filter-Ascends a [] h = tt
filter-Ascends a (r ∷ rows) h = elim (Bool-cases (r.0 == a)) [
  | inl e ↦ rw e (
    λ y m.
        let (inside, lead) = (Memᴰ-filter (λ r. r.0 == a) y rows).0 m in
        second_le r y (ground arith) (h.0 y inside),
    filter-Ascends a rows h.1,
  )
  | inr e ↦ rw e (filter-Ascends a rows h.1)
]

AllFrom-Ascends :
    (b : ℕ) (rows : List Row) → ((y : Row) → Memᴰ y rows → b ≤ y.0) → AllFrom b (λ r. r.0) rows
AllFrom-Ascends b [] h = tt
AllFrom-Ascends b (r ∷ rows) h =
    (h r (Memᴰ.head refl), AllFrom-Ascends b rows (λ y m. h y (Memᴰ.tail m)))

last_lead-le : (r : Row) (rows : List Row) → Ascends (λ r. r.0) (r ∷ rows) → r.0 ≤ last_lead r rows
last_lead-le r [] h = omega arith
last_lead-le r (s ∷ rows) h = omega (arith, h.0 s (Memᴰ.head refl), last_lead-le s rows h.1)

AllTo-last_lead :
    (r : Row) (rows : List Row)
    → Ascends (λ r. r.0) (r ∷ rows)
    → AllTo (last_lead r rows) (λ r. r.0) (r ∷ rows)
AllTo-last_lead r [] h = (omega arith, tt)
AllTo-last_lead r (s ∷ rows) h = (last_lead-le r (s ∷ rows) h, AllTo-last_lead s rows h.1)

filter_below :
    (a b : ℕ) (rows : List Row)
    → AllFrom b (λ r. r.0) rows
    → a < b
    → filter (λ r. r.0 == a) rows ≡ []
filter_below a b [] h lt = refl
filter_below a b (r ∷ rows) h lt = ground (arith, filter_below a b rows h.1 lt, h.0)

filter_above :
    (a b : ℕ) (rows : List Row) → AllTo b (λ r. r.0) rows → b < a → filter (λ r. r.0 == a) rows ≡ []
filter_above a b [] h lt = refl
filter_above a b (r ∷ rows) h lt = ground (arith, filter_above a b rows h.1 lt, h.0)

module _ (first : Row) (rows : List Row) (ascends : Ascends (λ r. r.0) (first ∷ rows)) where
  abbrev base : ℕ
  base = first.0

  abbrev top : ℕ
  top = last_lead first rows

  abbrev cuts : List ℕ
  cuts = sums 0 (tallied base (first ∷ rows) (zeros (top - base + 1 + 1)))

  low : AllFrom base (λ r. r.0) (first ∷ rows)
  low = (omega arith, AllFrom-Ascends base rows ascends.0)

  high : AllTo top (λ r. r.0) (first ∷ rows)
  high = AllTo-last_lead first rows ascends

  length-cuts : length cuts ≡ top - base + 1 + 1
  length-cuts = omega (
    arith,
    length-sums 0 (tallied base (first ∷ rows) (zeros (top - base + 1 + 1))),
    length-tallied base (first ∷ rows) (zeros (top - base + 1 + 1)),
    length-zeros (top - base + 1 + 1),
  )

  -- No index is out of range, and no difference underflows.
  index-sorted : index base top (first ∷ rows) ≡ some (record { base = base; starts = cuts })
  index-sorted =
      let ordered : ltb top base ≡ false = ground (arith, last_lead-le first rows ascends) in
      rw
        (
          ordered,
          tally-tallied base top (first ∷ rows) (zeros (top - base + 1 + 1)) low high
              (omega (arith, length-zeros (top - base + 1 + 1))),
          ◌>>=◌,
        )
        refl

  cut :
      (j : ℕ) → j ≤ top - base + 1 → get_or cuts j 0 ≡ count_lt (λ r. r.0) (base + j) (first ∷ rows)
  cut = get_or-starts base top (first ∷ rows) low high

  run-cuts :
      (a : TermId)
      → run (record { base = base; starts = cuts }) (first ∷ rows) a
        ≡ filter (λ r. r.0 == a) (first ∷ rows)
  unfolding run
  run-cuts a = elim (dec_lt a base) [
    | yes before ↦
        let t : ltb a base ≡ true = ground arith in
        rw t (sym (filter_below a base (first ∷ rows) low before))
    | no reached ↦ elim (dec_lt top a) [
      | yes behind ↦
          let t : ltb a base ≡ false = ground arith in
          let u : leb (length cuts) (a - base + 1) ≡ true =
            ground (arith, length-cuts, low, last_lead-le first rows ascends) in
          rw (t, u) (sym (filter_above a top (first ∷ rows) high behind))
      | no inside ↦
          let t : ltb a base ≡ false = ground arith in
          let u : leb (length cuts) (a - base + 1) ≡ false = ground (arith, length-cuts) in
          let here : base + (a - base) ≡ a = omega arith in
          let after : base + (a - base + 1) ≡ suc a = omega arith in
          let lo : get_or cuts (a - base) 0 ≡ count_lt (λ r. r.0) a (first ∷ rows) =
            cut (a - base) (omega arith) ∙ ap (λ b. count_lt (λ r. r.0) b (first ∷ rows)) here in
          let hi : get_or cuts (a - base + 1) 0 ≡ count_lt (λ r. r.0) (suc a) (first ∷ rows) =
            cut (a - base + 1) (omega arith)
            ∙ ap (λ b. count_lt (λ r. r.0) b (first ∷ rows)) after in
          rw (t, u, lo, hi) (slice-count_lt (λ r. r.0) a (first ∷ rows) ascends)
    ]
  ]

-- Over sorted rows, fewer than the largest `u32`, the index is built.
pub build-sorted :
    (rows : List Row) → IsSorted rows → length rows < u32_max → (s : Starts) × (build rows ≡ some s)
unfolding build
build-sorted [] sorted h = (_, refl)
build-sorted (first ∷ rows) sorted h =
    let fits : ltb (length (first ∷ rows)) u32_max ≡ true = ground (arith, h) in
    rw fits (_, index-sorted first rows (IsSorted→Ascends (first ∷ rows) sorted))

-- Over sorted rows and the index built from them, the rows that the index gives for an id are those
-- that the id leads, in order.
pub run_lem :
    (rows : List Row) (s : Starts) (a : TermId)
    → IsSorted rows
    → build rows ≡ some s
    → run s rows a ≡ filter (λ r. r.0 == a) rows
unfolding build
run_lem [] s a sorted built =
    subst (λ t. run t [] a ≡ []) (eq_of_some built) (unfold run in ground arith)
run_lem (first ∷ rows) s a sorted built = elim (Bool-cases (ltb (length (first ∷ rows)) u32_max)) [
  | inl fits ↦
      let ascends = IsSorted→Ascends (first ∷ rows) sorted in
      let made = eq_of_some (sym (index-sorted first rows ascends) ∙ (rw fits at built)) in
      subst (λ t. run t (first ∷ rows) a ≡ filter (λ r. r.0 == a) (first ∷ rows)) made
        (run-cuts first rows ascends a)
  | inr big ↦ cc (big, built)
]

partition_point-count_lt :
    (b : ℕ) (rows : List Row)
    → Ascends (λ r. r.1) rows
    → partition_point (λ (r : Row). ltb r.1 b) rows ≡ count_lt (λ r. r.1) b rows
partition_point-count_lt b [] h = refl
partition_point-count_lt b (r ∷ rows) h = elim (dec_lt r.1 b) [
  | yes low ↦ ground (arith, partition_point-count_lt b rows h.1)
  | no high ↦ ground (arith, count_lt-none (λ r. r.1) b rows (λ y m. omega (arith, h.0 y m)))
]

partition_point-level :
    (b : ℕ) (rows : List Row)
    → Ascends (λ r. r.1) rows
    → partition_point (λ (r : Row). r.1 == b) (drop (count_lt (λ r. r.1) b rows) rows)
        + count_lt (λ r. r.1) b rows
      ≡ count_lt (λ r. r.1) (suc b) rows
partition_point-level b [] h = omega arith
partition_point-level b (r ∷ rows) h = elim (dec_lt r.1 b) [
  | yes low ↦ ground (arith, partition_point-level b rows h.1)
  | no high ↦ elim (dec_lt b r.1) [
    | yes above ↦ ground (
      arith,
      count_lt-none (λ r. r.1) b rows (λ y m. omega (arith, h.0 y m)),
      count_lt-none (λ r. r.1) (suc b) rows (λ y m. omega (arith, h.0 y m)),
    )
    | no level ↦ ground (
      arith,
      count_lt-none (λ r. r.1) b rows (λ y m. omega (arith, h.0 y m)),
      partition_point-level b rows h.1,
    )
  ]
]

-- The binary searches within a run select the rows with the given second component.
pub prefix2_lem :
    (b : TermId) (rows : List Row)
    → Ascends (λ r. r.1) rows
    → prefix2 rows b ≡ filter (λ r. r.1 == b) rows
unfolding prefix2
prefix2_lem b rows h =
    rw (partition_point-count_lt b rows h, partition_point-level b rows h)
      (slice-count_lt (λ r. r.1) b rows h)

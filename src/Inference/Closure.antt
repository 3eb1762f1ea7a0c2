-- ===== src/Inference/Closure.antt =====
-- The fixpoint against what follows by the six rules, and against the table of rules.
use shacl_engine.Common.{
  ℕ, zero, suc, ◌≤◌, ◌<◌, ◌+◌, ◌≡◌, refl, sym, ap, subst, ◌↔◌, ◌⊎◌, inl, inr, ⊎_elim, some, List,
  ◌++◌, Memᴰ, arith, length, ltb, ◌==◌, row_ord, Memᴰ-append, Bool-cases,
}
use shacl_engine.Common.Sort.{IsStrict}
use shacl_engine.Common.Strict.{
  sort_dedup, sort_dedup-IsStrict, Memᴰ-sort_dedup, Subset, length-le_of_Subset, eq_of_length,
  eq_of_members,
}
use shacl_engine.Error.{Result, ok, err, panic, inference}
use shacl_engine.Model.Starts.{Row, u32_max}
use shacl_engine.Model.Graph.{Graph, iter}
use shacl_engine.Model.Graph.Access.{IsIndexed, build-IsIndexed, Memᴰ-build}
use shacl_engine.Model.Graph.Lookups.{build_returns}
use shacl_engine.Model.Vocab.{Vocab}
use shacl_engine.Inference.{derived, round, run, finish, finish_run, rdfs_closure_bounded}
use shacl_engine.Inference.Table.{
  Entails, Follows, given, rdfs2, rdfs3, rdfs5, rdfs7, rdfs9, rdfs11, HasAllLoops, Follows-Entails,
  Entails-iff,
}
use shacl_engine.Inference.Rules
use shacl_engine.Inference.Rules.{Derives, Memᴰ-derived}

-- What a run holds: ascending, the graph's triples and only entailed ones.
pub record Holds (v : Vocab) (base ts : List Row) : Type 0 where
  pub strict : IsStrict ts
  pub all : Subset base ts
  pub sound : (r : Row) → Memᴰ r ts → Follows v base r

-- What the loop may end with.
abbrev pub Ends : Vocab → List Row → ℕ → Result (List Row) → Type 0
Ends v base max_triples (ok ts) =
    IsStrict ts × (length ts ≤ max_triples) × ((r : Row) → Memᴰ r ts ↔ Follows v base r)
Ends v base max_triples (err e) =
    (e ≡ inference)
    × ((ts : List Row) × IsStrict ts
        × (max_triples < length ts)
        × ((r : Row) → Memᴰ r ts → Follows v base r))
Ends v base max_triples panic = ⊥

module _ (v : Vocab) (base : List Row) where
  Derives-Follows :
      (ts : List Row) (r : Row)
      → ((t : Row) → Memᴰ t ts → Follows v base t)
      → Derives v ts r
      → Follows v base r
  Derives-Follows ts _ h (Rules.rdfs2 a b) = rdfs2 (h _ a) (h _ b)
  Derives-Follows ts _ h (Rules.rdfs3 a b) = rdfs3 (h _ a) (h _ b)
  Derives-Follows ts _ h (Rules.rdfs5 a b n) = rdfs5 (h _ a) (h _ b) n
  Derives-Follows ts _ h (Rules.rdfs7 a b) = rdfs7 (h _ a) (h _ b)
  Derives-Follows ts _ h (Rules.rdfs9 a b) = rdfs9 (h _ a) (h _ b)
  Derives-Follows ts _ h (Rules.rdfs11 a b n) = rdfs11 (h _ a) (h _ b) n

  -- A list that holds the graph and is closed under one application holds every consequence.
  Memᴰ-closed :
      (ts : List Row) (r : Row)
      → Subset base ts
      → ((t : Row) → Derives v ts t → Memᴰ t ts)
      → Follows v base r
      → Memᴰ r ts
  Memᴰ-closed ts r h c (given m) = h r m
  Memᴰ-closed ts _ h c (rdfs2 a b) =
      c _ (Rules.rdfs2 (Memᴰ-closed ts _ h c a) (Memᴰ-closed ts _ h c b))
  Memᴰ-closed ts _ h c (rdfs3 a b) =
      c _ (Rules.rdfs3 (Memᴰ-closed ts _ h c a) (Memᴰ-closed ts _ h c b))
  Memᴰ-closed ts _ h c (rdfs5 a b n) =
      c _ (Rules.rdfs5 (Memᴰ-closed ts _ h c a) (Memᴰ-closed ts _ h c b) n)
  Memᴰ-closed ts _ h c (rdfs7 a b) =
      c _ (Rules.rdfs7 (Memᴰ-closed ts _ h c a) (Memᴰ-closed ts _ h c b))
  Memᴰ-closed ts _ h c (rdfs9 a b) =
      c _ (Rules.rdfs9 (Memᴰ-closed ts _ h c a) (Memᴰ-closed ts _ h c b))
  Memᴰ-closed ts _ h c (rdfs11 a b n) =
      c _ (Rules.rdfs11 (Memᴰ-closed ts _ h c a) (Memᴰ-closed ts _ h c b) n)

  Memᴰ-round : (ts : List Row) (r : Row) → Memᴰ r (round v ts) ↔ (Memᴰ r ts ⊎ Derives v ts r)
  unfolding round
  Memᴰ-round ts r =
      let sorted = Memᴰ-sort_dedup r (ts ++ derived v ts) in
      let joined = Memᴰ-append r ts (derived v ts) in
      let rules = Memᴰ-derived v ts r in ground (arith, sorted, joined, rules)

  round-IsStrict : (ts : List Row) → IsStrict (round v ts)
  unfolding round
  round-IsStrict ts = sort_dedup-IsStrict (ts ++ derived v ts)

  round-grows : (ts : List Row) → Subset ts (round v ts)
  round-grows ts r m = (Memᴰ-round ts r).1 (inl m)

  round-Holds : (ts : List Row) → Holds v base ts → Holds v base (round v ts)
  round-Holds ts h = record {
    strict = round-IsStrict ts;
    all = λ r m. round-grows ts r (h.all r m);
    sound = λ r m. ⊎_elim (h.sound r) (Derives-Follows ts r h.sound) ((Memᴰ-round ts r).0 m);
  }

  -- A round that adds nothing leaves the list as it was.
  round-eq : (ts : List Row) → IsStrict ts → length (round v ts) ≡ length ts → ts ≡ round v ts
  round-eq ts strict same =
      eq_of_length ts (round v ts) strict (round-IsStrict ts) (round-grows ts) (omega (arith, same))

  round-Ends :
      (ts : List Row) (max_triples : ℕ)
      → Holds v base ts
      → length (round v ts) ≡ length ts
      → length (round v ts) ≤ max_triples
      → Ends v base max_triples (ok (round v ts))
  round-Ends ts max_triples h same small =
      let next = round-Holds ts h in
      let fixed = round-eq ts h.strict same in
      (
        round-IsStrict ts,
        small,
        λ r. (
          next.sound r,
          Memᴰ-closed (round v ts) r next.all
              (λ t d. (Memᴰ-round ts t).1 (inr (subst (λ us. Derives v us t) (sym fixed) d))),
        ),
      )

  run_lem :
      (max_triples fuel : ℕ) (ts : List Row)
      → Holds v base ts
      → 0 < fuel
      → max_triples < fuel + length ts
      → (res : Result (List Row)) × (run v max_triples fuel ts ≡ some res)
        × Ends v base max_triples res
  unfolding run
  run_lem max_triples zero ts h positive enough = absurd (omega arith)
  run_lem max_triples (suc fuel) ts h positive enough =
      let next = round-Holds ts h in
      let longer =
        length-le_of_Subset ts (round v ts) h.strict (round-IsStrict ts) (round-grows ts) in
      elim (Bool-cases (ltb max_triples (length (round v ts)))) [
        | inl over ↦ (
          err inference,
          rw over refl,
          (refl, (round v ts, next.strict, ground (arith, over), next.sound)),
        )
        | inr fits ↦ elim (Bool-cases (length (round v ts) == length ts)) [
          | inl same ↦ (
            ok (round v ts),
            rw (fits, same) refl,
            round-Ends ts max_triples h (ground (arith, same)) (ground (arith, fits)),
          )
          | inr grew ↦
              let (res, e, ends) =
                run_lem max_triples fuel (round v ts) next
                  (ground (arith, fits, grew, longer, enough))
                  (ground (arith, fits, grew, longer, enough)) in
              (res, rw (fits, grew) e, ends)
        ]
      ]

-- What the closure may give back.
abbrev pub Closes : Vocab → List Row → ℕ → Result Graph → Type 0
Closes v base max_triples (ok closed) =
    IsIndexed closed
    × (length closed.spo ≤ max_triples)
    × ((r : Row) → Memᴰ r closed.spo ↔ Follows v base r)
    × ((r : Row) → Memᴰ r closed.spo → Entails v base r)
    × (((r : Row) → Entails v base r → Memᴰ r closed.spo) ↔ HasAllLoops v closed.spo)
Closes v base max_triples (err e) =
    (e ≡ inference)
    × ((ts : List Row) × IsStrict ts
        × (max_triples < length ts)
        × ((r : Row) → Memᴰ r ts → Follows v base r))
Closes v base max_triples panic = ⊥

finish-Closes :
    (v : Vocab) (base : List Row) (max_triples : ℕ) (res : Result (List Row))
    → max_triples < u32_max
    → Ends v base max_triples res
    → Closes v base max_triples (finish res)
finish-Closes v base max_triples (ok ts) small (strict, fits, exact) =
    let (g, e) = build_returns ts (omega (arith, small, fits)) in
    let ix = build-IsIndexed ts g e in
    let same =
      eq_of_members g.spo ts ix.strict strict (λ r. (Memᴰ-build ts g r e).0)
        (λ r. (Memᴰ-build ts g r e).1) in
    let follows : (r : Row) → Memᴰ r g.spo ↔ Follows v base r =
      λ r. ground (arith, Memᴰ-build ts g r e, exact r) in
    rw e (
      ix,
      rw same fits,
      follows,
      λ r m. Follows-Entails v base r ((follows r).0 m),
      Entails-iff v base g.spo follows,
    )
finish-Closes v base max_triples (err e) small h = h
finish-Closes v base max_triples panic small h = absurd h

-- With a bound below the largest `u32` and fuel above the bound, the closure returns and does not
-- panic. A graph it gives back is within the bound and holds exactly what follows from the graph's
-- triples by the six rules where rdfs5 and rdfs11 conclude nothing from a term to itself. All of that
-- is entailed by the table of rules as written, and it is all that the table entails exactly if any
-- two terms that are subproperties (subclasses) of each other are there also their own. An error is the inference error, and
-- then more triples than the bound follow.
pub rdfs_closure_bounded_lem :
    (fuel : ℕ) (graph : Graph) (v : Vocab) (max_triples : ℕ)
    → max_triples < u32_max
    → max_triples < fuel
    → (res : Result Graph) × (rdfs_closure_bounded fuel graph v max_triples ≡ some res)
      × Closes v (iter graph) max_triples res
unfolding rdfs_closure_bounded
rdfs_closure_bounded_lem fuel graph v max_triples small enough =
    let base = iter graph in
    let start : Holds v base (sort_dedup base) = record {
      strict = sort_dedup-IsStrict base;
      all = λ r. (Memᴰ-sort_dedup r base).1;
      sound = λ r m. given ((Memᴰ-sort_dedup r base).0 m);
    } in
    let (res, e, ends) =
      run_lem v base max_triples fuel (sort_dedup base) start (omega (arith, enough))
        (omega (arith, enough)) in
    (finish res, ap finish_run e, finish-Closes v base max_triples res small ends)

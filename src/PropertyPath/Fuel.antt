-- ===== src/PropertyPath/Fuel.antt =====
-- Enough fuel: the loops of a path end, since each round meets a pair that was not met before.
use mathlib.Core.List.Memᴰ
use mathlib.Core.List.{reverse, reverse-cons}
use shacl_engine.Common.{
  ℕ, zero, suc, ◌*◌, ◌<◌, ◌≡◌, refl, sym, subst, ◌↔◌, inl, inr, ⊎_elim, Bool, true, false, not,
  some, List, [], ◌∷◌, ◌++◌, map, Memᴰ, arith, filter, length, length-append, length-map,
  length-filter-le, length-filter_lt, Memᴰ-filter, List-cases,
}
use shacl_engine.Common.Maybe.{◌>>=◌}
use shacl_engine.Model.Starts.{TermId}
use shacl_engine.Model.Graph.{Graph}
use shacl_engine.Model.Graph.Access.{IsIndexed}
use shacl_engine.PropertyPath.{
  PropertyPath, Steps, predicate, inverse, sequence, alternative, zero_or_more, one_or_more,
  zero_or_one, done, step, Pair, Pairs, Walk, normalise, contains_pair, emit, run_steps,
  run_alternatives, closure, in_order, walk, walks, probe,
}
use shacl_engine.PropertyPath.Meaning.{Toward}
use shacl_engine.PropertyPath.Probe.{probe-Yields, Memᴰ-emit}
use shacl_engine.PropertyPath.Closure.{Memᴰ-normalise, contains_pair_lem}

-- Every pair of `xs` lies in the universe `u`.
abbrev pub Within : Pairs → Pairs → Type 0
Within u xs = (p : Pair) → Memᴰ p xs → Memᴰ p u

-- The walk returns on every input within the universe, and its output stays there.
abbrev pub Stays : Pairs → Walk → Type 0
Stays u w = (input : Pairs) → Within u input → (out : Pairs) × (w input ≡ some out) × Within u out

abbrev AllStay : Pairs → List Walk → Type 0
AllStay u [] = Unit
AllStay u (w ∷ ws) = Stays u w × AllStay u ws

-- What of the universe was not expanded yet.
abbrev unseen : Pairs → Pairs → ℕ
unseen u seen = length (filter (λ p. not (contains_pair seen p)) u)

unseen-lt :
    (u seen more : Pairs) (y : Pair)
    → Memᴰ y u
    → ((p : Pair) → Memᴰ p seen → Memᴰ p more)
    → ¬ Memᴰ y seen
    → Memᴰ y more
    → unseen u more < unseen u seen
unseen-lt u seen more y m grows fresh now =
    length-filter_lt (λ p. not (contains_pair seen p)) (λ p. not (contains_pair more p))
      (λ x h. ground (arith, contains_pair_lem seen x, contains_pair_lem more x, grows x)) y u m
      (ground (arith, contains_pair_lem seen y)) (ground (arith, contains_pair_lem more y))

module _ (u : Pairs) (w : Walk) (stays : Stays u w) where
  closure_returns :
      (fuel : ℕ) (seen frontier : Pairs)
      → Within u frontier
      → unseen u seen < fuel
      → (out : Pairs) × (closure w fuel seen frontier ≡ some out) × Within u out
  unfolding closure
  closure_returns zero seen frontier h lt = absurd (omega arith)
  closure_returns (suc fuel) seen [] h lt = ([], refl, h)
  closure_returns (suc fuel) seen (f ∷ frontier) h lt =
      let (next, e, inside) = stays (f ∷ frontier) h in
      let new = filter (λ p. not (contains_pair seen p)) (normalise next) in
      let kept : (p : Pair)
          → Memᴰ p new ↔ (Memᴰ p (normalise next) × (not (contains_pair seen p) ≡ true)) =
        λ p. Memᴰ-filter (λ p. not (contains_pair seen p)) p (normalise next) in
      elim (List-cases new) [
        | inl empty ↦ ([], rw e (rw (empty, ◌>>=◌) refl), λ p m. absurd (Memᴰ.not-nil m))
        | inr (x, fresh, more) ↦
            let within : Within u (x ∷ fresh) = λ p m.
              inside p ((Memᴰ-normalise p next).0 ((kept p).0 (subst (Memᴰ p) (sym more) m)).0) in
            let first = (kept x).0 (subst (Memᴰ x) (sym more) (Memᴰ.head refl)) in
            let less =
              unseen-lt u seen (normalise (seen ++ x ∷ fresh)) x (within x (Memᴰ.head refl))
                (λ p m. (Memᴰ-normalise p (seen ++ x ∷ fresh)).1 (Memᴰ.append_left (x ∷ fresh) m))
                (λ m. ground (arith, (contains_pair_lem seen x).1 m, first.1))
                ((Memᴰ-normalise x (seen ++ x ∷ fresh)).1
                  (Memᴰ.append_right seen (Memᴰ.head refl))) in
            let (rest, e', inside') =
              closure_returns fuel (normalise (seen ++ x ∷ fresh)) (x ∷ fresh) within
                (omega arith) in
            (
              (x ∷ fresh) ++ rest,
              rw e (rw (more, ◌>>=◌) (rw e' refl)),
              λ p m. ⊎_elim (within p) (inside' p) (Memᴰ.append_cases (x ∷ fresh) m),
            )
      ]

  closure-Stays : (fuel : ℕ) → length u < fuel → Stays u (closure w fuel [])
  closure-Stays fuel lt input h =
      closure_returns fuel [] input h
        (omega (arith, length-filter-le (λ p. not (contains_pair [] p)) u))

  or_self-Stays : Stays u (λ input. w input >>= λ more. some (input ++ more))
  or_self-Stays input h =
      let (more, e, inside) = stays input h in
      (input ++ more, rw e, λ p m. ⊎_elim (h p) (inside p) (Memᴰ.append_cases input m))

module _ (u : Pairs) where
  run_steps-Stays : (ws : List Walk) → AllStay u ws → Stays u (run_steps ws)
  unfolding run_steps
  run_steps-Stays [] s input h = (input, refl, h)
  run_steps-Stays (w ∷ ws) s input h =
      let (next, e, inside) = s.0 input h in
      elim (List-cases (normalise next)) [
        | inl empty ↦ ([], rw e (rw (empty, ◌>>=◌) refl), λ p m. absurd (Memᴰ.not-nil m))
        | inr (x, rest, more) ↦
            let (out, e', inside') =
              run_steps-Stays ws s.1 (x ∷ rest)
                (λ p m. inside p ((Memᴰ-normalise p next).0 (subst (Memᴰ p) (sym more) m))) in
            (out, rw e (rw (more, ◌>>=◌) e'), inside')
      ]

  run_alternatives-Stays : (ws : List Walk) → AllStay u ws → Stays u (run_alternatives ws)
  unfolding run_alternatives
  run_alternatives-Stays [] s input h = ([], refl, λ p m. absurd (Memᴰ.not-nil m))
  run_alternatives-Stays (w ∷ ws) s input h =
      let (one, e, inside) = s.0 input h in
      let (rest, e', inside') = run_alternatives-Stays ws s.1 input h in
      (one ++ rest, rw (e, e'), λ p m. ⊎_elim (inside p) (inside' p) (Memᴰ.append_cases one m))

  AllStay-snoc : (ws : List Walk) (w : Walk) → AllStay u ws → Stays u w → AllStay u (ws ++ w ∷ [])
  AllStay-snoc [] w a s = (s, tt)
  AllStay-snoc (v ∷ ws) w a s = (a.0, AllStay-snoc ws w a.1 s)

  AllStay-reverse : (ws : List Walk) → AllStay u ws → AllStay u (reverse ws)
  AllStay-reverse [] a = tt
  AllStay-reverse (w ∷ ws) a =
      rw (reverse-cons w ws) (AllStay-snoc (reverse ws) w (AllStay-reverse ws a.1) a.0)

  AllStay-in_order : (back : Bool) (ws : List Walk) → AllStay u ws → AllStay u (in_order back ws)
  AllStay-in_order true ws a = AllStay-reverse ws a
  AllStay-in_order false ws a = a

-- A list of nodes that holds both ends of every triple.
abbrev pub Covers : List TermId → Graph → Type 0
Covers nodes g = (s p o : TermId) → Memᴰ (s, p, o) g.spo → Memᴰ s nodes × Memᴰ o nodes

module _ (g : Graph) (ix : IsIndexed g) (origins : List ℕ) (nodes : List TermId)
    (covers : Covers nodes g) where
  abbrev universe : Pairs
  universe = emit origins nodes

  probe-Stays : (p : TermId) (back : Bool) → Stays universe (λ input. some (probe g p back input))
  probe-Stays p back input h = (
    probe g p back input,
    refl,
    λ (o, t) m.
        let (n, k, edge) = (probe-Yields g p back ix input o t).0 m in
        (Memᴰ-emit o t origins nodes).1
          (((Memᴰ-emit o n origins nodes).0 (h (o, n) k)).0, edge_end back p n t edge),
  )
    where
      edge_end :
          (back : Bool) (p n t : TermId)
          → Toward back (λ a b. Memᴰ (a, p, b) g.spo) n t
          → Memᴰ t nodes
      edge_end true p n t e = (covers t p n e).0
      edge_end false p n t e = (covers n p t e).1

  mutual
    unfolding walk

    pub walk-Stays :
        (fuel : ℕ) (path : PropertyPath) (back : Bool)
        → length universe < fuel
        → Stays universe (walk g fuel path back)
    walk-Stays fuel (predicate p) back lt input h = probe-Stays p back input h
    walk-Stays fuel (inverse inner) back lt input h = walk-Stays fuel inner (not back) lt input h
    walk-Stays fuel (sequence steps) back lt input h =
        run_steps-Stays universe (in_order back (walks g fuel steps back))
          (AllStay-in_order universe back (walks g fuel steps back) (walks-Stay fuel steps back lt))
          input h
    walk-Stays fuel (alternative alts) back lt input h =
        run_alternatives-Stays universe (walks g fuel alts back) (walks-Stay fuel alts back lt)
          input h
    walk-Stays fuel (zero_or_more inner) back lt input h =
        or_self-Stays universe (closure (walk g fuel inner back) fuel [])
          (closure-Stays universe (walk g fuel inner back) (walk-Stays fuel inner back lt) fuel lt)
          input h
    walk-Stays fuel (one_or_more inner) back lt input h =
        closure-Stays universe (walk g fuel inner back) (walk-Stays fuel inner back lt) fuel lt
          input h
    walk-Stays fuel (zero_or_one inner) back lt input h =
        or_self-Stays universe (walk g fuel inner back) (walk-Stays fuel inner back lt) input h

    walks-Stay :
        (fuel : ℕ) (ps : Steps) (back : Bool)
        → length universe < fuel
        → AllStay universe (walks g fuel ps back)
    walks-Stay fuel done back lt = tt
    walks-Stay fuel (step p ps) back lt = (walk-Stays fuel p back lt, walks-Stay fuel ps back lt)

pub length-emit :
    (origins : List ℕ) (nodes : List TermId)
    → length (emit origins nodes) ≡ length nodes * length origins
length-emit origins [] = grind arith
length-emit origins (t ∷ ts) = grind (
  arith,
  length-append (map (λ (o : ℕ). (o, t)) origins) (emit origins ts),
  length-map {B = Pair} (λ (o : ℕ). (o, t)) origins,
  length-emit origins ts,
)

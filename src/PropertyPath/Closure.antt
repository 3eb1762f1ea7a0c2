-- ===== src/PropertyPath/Closure.antt =====
-- The `while` loop of `closure` yields the image of one or more steps, and ends.
use mathlib.Core.List.Memᴰ
use shacl_engine.Common.{
  ℕ, zero, suc, ◌≡◌, subst, ◌↔◌, ◌⊎◌, inl, inr, ⊎_elim, true, not, some, [], ◌∷◌, ◌++◌, Memᴰ, arith,
  filter, pair_ord, Memᴰ-cons, Memᴰ-append, Memᴰ-filter, Bool-cases, List-cases,
}
use shacl_engine.Common.Maybe.{>>=-eq-some, eq_of_some}
use shacl_engine.Common.Strict.{Memᴰ-sort_dedup}
use shacl_engine.Model.Starts.{TermId}
use shacl_engine.PropertyPath.{Pair, Pairs, Walk, normalise, contains_pair, closure}
use shacl_engine.PropertyPath.Meaning.{Relation, Plus, once, again, Image, Yields}

pub Memᴰ-normalise : (p : Pair) (xs : Pairs) → Memᴰ p (normalise xs) ↔ Memᴰ p xs
unfolding normalise
Memᴰ-normalise p xs = Memᴰ-sort_dedup p xs

pub contains_pair_lem : (xs : Pairs) (p : Pair) → (contains_pair xs p ≡ true) ↔ Memᴰ p xs
contains_pair_lem [] p = (λ h. cc, λ m. absurd (Memᴰ.not-nil m))
contains_pair_lem (x ∷ xs) p = ground (arith, contains_pair_lem xs p, Memᴰ-cons p x xs)

-- A walk that, where it returns, yields the image of a relation.
abbrev pub Follows : Walk → Relation → Type 0
Follows w R = (input out : Pairs) → w input ≡ some out → Yields out input R

-- The pairs of a round that were not expanded before.
abbrev fresh_of : Pairs → Pairs → Pairs
fresh_of seen next = filter (λ p. not (contains_pair seen p)) (normalise next)

Memᴰ-fresh_of :
    (seen next : Pairs) (p : Pair) → Memᴰ p (fresh_of seen next) ↔ (Memᴰ p next × ¬ Memᴰ p seen)
Memᴰ-fresh_of seen next p = ground (
  arith,
  Memᴰ-filter (λ p. not (contains_pair seen p)) p (normalise next),
  Memᴰ-normalise p next,
  contains_pair_lem seen p,
)

-- What was in `next` is in `seen` or is fresh.
seen_or_fresh :
    (seen next : Pairs) (p : Pair) → Memᴰ p next → Memᴰ p seen ⊎ Memᴰ p (fresh_of seen next)
seen_or_fresh seen next p m = elim (Bool-cases (contains_pair seen p)) [
  | inl e ↦ inl ((contains_pair_lem seen p).0 e)
  | inr e ↦ inr ((Memᴰ-fresh_of seen next p).1 (m, λ k. cc ((contains_pair_lem seen p).1 k, e)))
]

module _ (R : Relation) (input : Pairs) where
  -- `seen` is reached; whatever was met is in the frontier or has its successors in `seen`.
  pub record IsExpanding (seen frontier : Pairs) : Type 0 where
    pub reached : (o : ℕ) (t : TermId) → Memᴰ (o, t) seen → Image (Plus R) input o t
    pub met : (p : Pair) → Memᴰ p frontier → Memᴰ p input ⊎ Memᴰ p seen
    pub closed :
        (o : ℕ) (n t : TermId)
        → Memᴰ {A = Pair} (o, n) input ⊎ Memᴰ {A = Pair} (o, n) seen
        → R n t
        → Memᴰ {A = Pair} (o, n) frontier ⊎ Memᴰ {A = Pair} (o, t) seen

  reached_step :
      (seen frontier : Pairs) (o : ℕ) (n t : TermId)
      → IsExpanding seen frontier
      → Memᴰ (o, n) frontier
      → R n t
      → Image (Plus R) input o t
  reached_step seen frontier o n t inv m r =
      ⊎_elim (λ k. (n, k, once r)) (λ k. let (a, b, c) = inv.reached o n k in (a, b, again c r))
        (inv.met (o, n) m)

  -- With nothing fresh, `seen` is the image.
  closed_complete :
      (seen : Pairs)
      → ((o : ℕ) (n t : TermId)
          → Memᴰ {A = Pair} (o, n) input ⊎ Memᴰ {A = Pair} (o, n) seen
          → R n t
          → Memᴰ {A = Pair} (o, t) seen)
      → (o : ℕ) (n : TermId) {t : TermId} → Memᴰ (o, n) input
      → Plus R n t
      → Memᴰ (o, t) seen
  closed_complete seen c o n m (once r) = c o n _ (inl m) r
  closed_complete seen c o n m (again p r) = c o _ _ (inr (closed_complete seen c o n m p)) r

  module _ (w : Walk) (follows : Follows w R) where
    step_IsExpanding :
        (seen frontier next : Pairs)
        → w frontier ≡ some next
        → IsExpanding seen frontier
        → IsExpanding (normalise (seen ++ fresh_of seen next)) (fresh_of seen next)
    step_IsExpanding seen frontier next e inv =
        let fresh = fresh_of seen next in
        let in_seen : (p : Pair) → Memᴰ p seen → Memᴰ p (normalise (seen ++ fresh)) =
          λ p m. (Memᴰ-normalise p (seen ++ fresh)).1 (Memᴰ.append_left fresh m) in
        let in_fresh : (p : Pair) → Memᴰ p fresh → Memᴰ p (normalise (seen ++ fresh)) =
          λ p m. (Memᴰ-normalise p (seen ++ fresh)).1 (Memᴰ.append_right seen m) in
        let back : (p : Pair) → Memᴰ p (normalise (seen ++ fresh)) → Memᴰ p seen ⊎ Memᴰ p fresh =
          λ p m. Memᴰ.append_cases seen ((Memᴰ-normalise p (seen ++ fresh)).0 m) in
        let after : (o : ℕ) (n t : TermId)
            → Memᴰ {A = Pair} (o, n) input ⊎ Memᴰ {A = Pair} (o, n) seen
            → R n t
            → Memᴰ {A = Pair} (o, t) (normalise (seen ++ fresh)) =
          λ o n t k r.
            ⊎_elim
              (λ here.
                ⊎_elim (in_seen (o, t)) (in_fresh (o, t))
                  (seen_or_fresh seen next (o, t) ((follows frontier next e o t).1 (n, here, r))))
              (in_seen (o, t)) (inv.closed o n t k r) in
        record {
          reached = λ o t m.
              ⊎_elim (inv.reached o t)
                (λ k.
                  let (n, here, r) =
                    (follows frontier next e o t).0 ((Memᴰ-fresh_of seen next (o, t)).0 k).0 in
                  reached_step seen frontier o n t inv here r)
                (back (o, t) m);
          met = λ p m. inr (in_fresh p m);
          closed = λ o n t k r.
              ⊎_elim (λ i. inr (after o n t (inl i) r))
                (λ s. ⊎_elim (λ old. inr (after o n t (inr old) r)) inl (back (o, n) s)) k;
        }

    -- Where the loop returns, what it was given as seen and what it appends are the image.
    abbrev Ends : Pairs → Pairs → Type 0
    Ends seen out =
        (o : ℕ) (t : TermId)
        → ((Memᴰ {A = Pair} (o, t) seen ⊎ Memᴰ {A = Pair} (o, t) out) → Image (Plus R) input o t)
          × (Image (Plus R) input o t → (Memᴰ {A = Pair} (o, t) seen ⊎ Memᴰ {A = Pair} (o, t) out))

    stop_Ends :
        (seen frontier : Pairs)
        → IsExpanding seen frontier
        → ((o : ℕ) (n t : TermId)
            → Memᴰ {A = Pair} (o, n) frontier
            → R n t
            → Memᴰ {A = Pair} (o, t) seen)
        → Ends seen []
    stop_Ends seen frontier inv all o t = (
      ⊎_elim (inv.reached o t) (λ m. absurd (Memᴰ.not-nil m)),
      λ (n, m, p). inl (
          closed_complete seen
            (λ o n t k r. ⊎_elim (λ f. all o n t f r) (λ s. s) (inv.closed o n t k r)) o n m p),
    )

    Ends-append :
        (seen fresh rest : Pairs)
        → Ends (normalise (seen ++ fresh)) rest
        → Ends seen (fresh ++ rest)
    Ends-append seen fresh rest ends o t = ground (
      arith,
      ends o t,
      Memᴰ-normalise (o, t) (seen ++ fresh),
      Memᴰ-append (o, t) seen fresh,
      Memᴰ-append (o, t) fresh rest,
    )

    closure-Ends :
        (fuel : ℕ) (seen frontier out : Pairs)
        → IsExpanding seen frontier
        → closure w fuel seen frontier ≡ some out
        → Ends seen out
    unfolding closure
    closure-Ends zero seen [] out inv h =
        subst (Ends seen) (eq_of_some h)
          (stop_Ends seen [] inv (λ o n t m r. absurd (Memᴰ.not-nil m)))
    closure-Ends zero seen (f ∷ frontier) out inv h = cc
    closure-Ends (suc fuel) seen [] out inv h =
        subst (Ends seen) (eq_of_some h)
          (stop_Ends seen [] inv (λ o n t m r. absurd (Memᴰ.not-nil m)))
    closure-Ends (suc fuel) seen (f ∷ frontier) out inv h =
        let (next, e, k) = >>=-eq-some (w (f ∷ frontier)) _ h in
        elim (List-cases (fresh_of seen next)) [
          | inl empty ↦ subst (Ends seen) (eq_of_some (rw empty at k)) (
              stop_Ends seen (f ∷ frontier) inv (λ o n t m r.
                ⊎_elim (λ s. s) (λ new. absurd (Memᴰ.not-nil (subst (Memᴰ (o, t)) empty new)))
                  (seen_or_fresh seen next (o, t)
                    ((follows (f ∷ frontier) next e o t).1 (n, m, r)))))
          | inr (x, fresh, more) ↦
              let (rest, e', k') =
                >>=-eq-some (closure w fuel (normalise (seen ++ x ∷ fresh)) (x ∷ fresh)) _
                  (rw more at k) in
              let inv' =
                subst (λ (fs : Pairs). IsExpanding (normalise (seen ++ fs)) fs) more
                  (step_IsExpanding seen (f ∷ frontier) next e inv) in
              subst (Ends seen) (eq_of_some k') (
                Ends-append seen (x ∷ fresh) rest
                  (closure-Ends fuel (normalise (seen ++ x ∷ fresh)) (x ∷ fresh) rest inv' e'))
        ]

    start_IsExpanding : IsExpanding [] input
    start_IsExpanding = record {
      reached = λ o t m. absurd (Memᴰ.not-nil m);
      met = λ p m. inl m;
      closed = λ o n t k r. inl (⊎_elim (λ i. i) (λ m. absurd (Memᴰ.not-nil m)) k);
    }

    -- From nothing seen, the loop yields the image of one or more steps.
    pub closure-Yields :
        (fuel : ℕ) (out : Pairs) → closure w fuel [] input ≡ some out → Yields out input (Plus R)
    closure-Yields fuel out h o t =
        let ends = closure-Ends fuel [] input out start_IsExpanding h o t in
        (λ m. ends.0 (inr m), λ i. ⊎_elim (λ m. absurd (Memᴰ.not-nil m)) (λ m. m) (ends.1 i))

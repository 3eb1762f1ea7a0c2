-- ===== src/Validation/Classes/Worklist.antt =====
-- The worklist of `subclasses`: what a visit does, and that the loop ends with everything below.
use shacl_engine.Common.{
  ℕ, zero, suc, ◌+◌, ◌≤◌, ◌<◌, ◌≡◌, ◌↔◌, ◌⊎◌, refl, sym, subst, false, not, ◌||◌, some, List, [],
  ◌∷◌, ◌++◌, ◌==◌, ==_iff, length, filter, Memᴰ, Memᴰ-cons, Memᴰ-append, Memᴰ-nil, arith,
  Bool-cases, inl, inr, ⊎_elim, if◌then◌else◌, length-filter_lt,
}
use shacl_engine.Common.Members.{has_id, has_id_iff}
use shacl_engine.Model.Starts.{TermId}
use shacl_engine.PropertyPath.Meaning.{Plus, once, again}
use shacl_engine.Validation.Classes.{visit, descend}

-- How many of some nodes have not been seen.
abbrev pub unseen : List TermId → List TermId → ℕ
unseen universe seen = length (filter (λ x. not (has_id seen x)) universe)

-- What visiting `subs` makes of what was seen and queued.
record IsVisit (universe subs seen queue seen' queue' : List TermId) : Type 0 where
  sound : (x : TermId) → Memᴰ x seen' → Memᴰ x seen ⊎ Memᴰ x subs
  old : (x : TermId) → Memᴰ x seen → Memᴰ x seen'
  new : (x : TermId) → Memᴰ x subs → Memᴰ x seen'
  still : (x : TermId) → Memᴰ x queue → Memᴰ x queue'
  queued : (x : TermId) → Memᴰ x seen' → Memᴰ x seen ⊎ Memᴰ x queue'
  known : ((x : TermId) → Memᴰ x queue → Memᴰ x seen) → (x : TermId) → Memᴰ x queue' → Memᴰ x seen'
  spent : length queue' + unseen universe seen' ≤ length queue + unseen universe seen

has_id-snoc :
    (seen : List TermId) (s x : TermId) → has_id (seen ++ s ∷ []) x ≡ has_id seen x || (s == x)
has_id-snoc [] s x = ground arith
has_id-snoc (y ∷ ys) s x = ground (arith, has_id-snoc ys s x)

seen_less :
    (universe seen : List TermId) (s : TermId)
    → Memᴰ s universe
    → has_id seen s ≡ false
    → unseen universe (seen ++ s ∷ []) < unseen universe seen
seen_less universe seen s m fresh =
    length-filter_lt (λ x. not (has_id seen x)) (λ x. not (has_id (seen ++ s ∷ []) x))
      (λ x e. ground (arith, has_id-snoc seen s x)) s universe m (rw fresh refl)
      (ground (arith, has_id-snoc seen s s, ==_iff s s))

Memᴰ-snoc : (x s : TermId) (xs : List TermId) → Memᴰ x (xs ++ s ∷ []) ↔ (Memᴰ x xs ⊎ (x ≡ s))
Memᴰ-snoc x s xs = ground (arith, Memᴰ-append x xs (s ∷ []), Memᴰ-cons x s [], Memᴰ-nil x)

passed :
    (universe : List TermId) (s : TermId) (subs seen queue seen' queue' : List TermId)
    → Memᴰ s seen
    → IsVisit universe subs seen queue seen' queue'
    → IsVisit universe (s ∷ subs) seen queue seen' queue'
passed universe s subs seen queue seen' queue' met v = record {
  sound = λ x m. ⊎_elim inl (λ k. inr (Memᴰ.tail k)) (v.sound x m);
  old = v.old;
  new = λ x m.
      ⊎_elim (λ here. v.old x (subst (λ y. Memᴰ y seen) (sym here) met)) (v.new x)
        ((Memᴰ-cons x s subs).0 m);
  still = v.still;
  queued = v.queued;
  known = v.known;
  spent = v.spent;
}

added :
    (universe : List TermId) (s : TermId) (subs seen queue seen' queue' : List TermId)
    → unseen universe (seen ++ s ∷ []) < unseen universe seen
    → IsVisit universe subs (seen ++ s ∷ []) (s ∷ queue) seen' queue'
    → IsVisit universe (s ∷ subs) seen queue seen' queue'
added universe s subs seen queue seen' queue' less v = record {
  sound = λ x m.
      ⊎_elim (λ k. ⊎_elim inl (λ here. inr (Memᴰ.head here)) ((Memᴰ-snoc x s seen).0 k))
        (λ k. inr (Memᴰ.tail k)) (v.sound x m);
  old = λ x m. v.old x ((Memᴰ-snoc x s seen).1 (inl m));
  new = λ x m.
      ⊎_elim (λ here. v.old x ((Memᴰ-snoc x s seen).1 (inr here))) (v.new x)
        ((Memᴰ-cons x s subs).0 m);
  still = λ x m. v.still x (Memᴰ.tail m);
  queued = λ x m.
      ⊎_elim (λ k. ⊎_elim inl (λ here. inr (v.still x (Memᴰ.head here))) ((Memᴰ-snoc x s seen).0 k))
        inr (v.queued x m);
  known = λ k x m.
      v.known
        (λ y n. (Memᴰ-snoc y s seen).1 (⊎_elim inr (λ q. inl (k y q)) ((Memᴰ-cons y s queue).0 n)))
        x m;
  spent = omega (arith, v.spent, less);
}

visit-IsVisit :
    (universe subs seen queue : List TermId)
    → ((x : TermId) → Memᴰ x subs → Memᴰ x universe)
    → let (seen', queue') = visit subs (seen, queue) in
      IsVisit universe subs seen queue seen' queue'
visit-IsVisit universe [] seen queue inside = record {
  sound = λ x m. inl m;
  old = λ x m. m;
  new = λ x m. absurd (Memᴰ-nil x m);
  still = λ x m. m;
  queued = λ x m. inl m;
  known = λ k x m. k x m;
  spent = omega arith;
}
visit-IsVisit universe (s ∷ subs) seen queue inside = elim (Bool-cases (has_id seen s)) [
  | inl met ↦
      rw (met, if◌then◌else◌)
        (passed universe s subs seen queue _ _ ((has_id_iff seen s).0 met)
          (visit-IsVisit universe subs seen queue (λ x m. inside x (Memᴰ.tail m))))
  | inr fresh ↦
      rw (fresh, if◌then◌else◌)
        (added universe s subs seen queue _ _
          (seen_less universe seen s (inside s (Memᴰ.head refl)) fresh)
          (visit-IsVisit universe subs (seen ++ s ∷ []) (s ∷ queue)
            (λ x m. inside x (Memᴰ.tail m))))
]

module _ (below : TermId → List TermId) (universe : List TermId) (class : TermId)
    (inside : (c x : TermId) → Memᴰ x (below c) → Memᴰ x universe) where
  abbrev pub Step : TermId → TermId → Type 0
  Step c x = Memᴰ x (below c)

  abbrev pub IsBelow : TermId → Type 0
  IsBelow x = (x ≡ class) ⊎ Plus Step class x

  IsBelow-step : (c x : TermId) → IsBelow c → Step c x → IsBelow x
  IsBelow-step c x (inl e) m = inr (once (subst (λ d. Step d x) e m))
  IsBelow-step c x (inr p) m = inr (again p m)

  -- What the loop keeps: everything seen is below, what is queued is seen, and what is seen is queued
  -- or has its own below it seen.
  pub record IsWorking (seen queue : List TermId) : Type 0 where
    pub start : Memᴰ class seen
    pub sound : (x : TermId) → Memᴰ x seen → IsBelow x
    pub known : (x : TermId) → Memᴰ x queue → Memᴰ x seen
    pub closed : (c : TermId) → Memᴰ c seen → Memᴰ c queue ⊎ ((x : TermId) → Step c x → Memᴰ x seen)

  work :
      (c : TermId) (seen queue seen' queue' : List TermId)
      → IsWorking seen (c ∷ queue)
      → IsVisit universe (below c) seen queue seen' queue'
      → IsWorking seen' queue'
  work c seen queue seen' queue' w v = record {
    start = v.old class w.start;
    sound = λ x m.
        ⊎_elim (w.sound x) (λ k. IsBelow-step c x (w.sound c (w.known c (Memᴰ.head refl))) k)
          (v.sound x m);
    known = v.known (λ x m. w.known x (Memᴰ.tail m));
    closed = λ d m.
        ⊎_elim
          (λ k.
            ⊎_elim
              (λ q.
                ⊎_elim (λ here. inr (λ x s. v.new x (subst (λ e. Step e x) here s)))
                  (λ r. inl (v.still d r)) ((Memᴰ-cons d c queue).0 q))
              (λ all. inr (λ x s. v.old x (all x s))) (w.closed d k))
          inl (v.queued d m);
  }

  onward :
      (seen : List TermId)
      → IsWorking seen []
      → (c x : TermId) → Memᴰ c seen
      → Step c x
      → Memᴰ x seen
  onward seen w c x m s = ⊎_elim (λ q. absurd (Memᴰ-nil c q)) (λ all. all x s) (w.closed c m)

  reached :
      (seen : List TermId) → IsWorking seen [] → {x : TermId} → Plus Step class x → Memᴰ x seen
  reached seen w (once m) = onward seen w class _ w.start m
  reached seen w (again p m) = onward seen w _ _ (reached seen w p) m

  -- With fuel for what is queued and what is not seen yet, the loop returns all that is below.
  pub descend_lem :
      (fuel : ℕ) (seen queue : List TermId)
      → IsWorking seen queue
      → length queue + unseen universe seen ≤ fuel
      → (out : List TermId) × (descend below fuel seen queue ≡ some out)
        × ((x : TermId) → Memᴰ x out ↔ IsBelow x)
  unfolding descend
  descend_lem fuel seen [] w enough = (
    seen,
    refl,
    λ x. (w.sound x, ⊎_elim (λ e. subst (λ y. Memᴰ y seen) (sym e) w.start) (reached seen w)),
  )
  descend_lem zero seen (c ∷ queue) w enough = absurd (ground arith)
  descend_lem (suc fuel) seen (c ∷ queue) w enough =
      let v = visit-IsVisit universe (below c) seen queue (inside c) in
      descend_lem fuel _ _ (work c seen queue _ _ w v) (omega (arith, v.spent, enough))

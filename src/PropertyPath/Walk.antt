-- ===== src/PropertyPath/Walk.antt =====
-- The evaluator follows the meaning of a path, forwards and backwards.
use mathlib.Core.List.Memᴰ
use mathlib.Core.List.{reverse, reverse-cons}
use shacl_engine.Common.{
  ℕ, ◌≡◌, refl, sym, ap, subst, ◌⊎◌, inl, inr, ⊎_elim, Bool, true, false, not, some, List, [], ◌∷◌,
  ◌++◌, map, Memᴰ, List-cases,
}
use shacl_engine.Common.Maybe.{◌>>=◌, >>=-eq-some, eq_of_some}
use shacl_engine.Model.Starts.{TermId}
use shacl_engine.Model.Graph.{Graph}
use shacl_engine.Model.Graph.Access.{IsIndexed}
use shacl_engine.PropertyPath.{
  PropertyPath, Steps, predicate, inverse, sequence, alternative, zero_or_more, one_or_more,
  zero_or_one, done, step, Pair, Pairs, Walk, normalise, run_steps, run_alternatives, closure,
  in_order, walk, walks,
}
use shacl_engine.PropertyPath.Meaning.{
  Relation, Plus, Compose, AnyOf, Connects, relations, Toward, Yields,
}
use shacl_engine.PropertyPath.Probe.{probe-Yields}
use shacl_engine.PropertyPath.Direction.{Same, Same-Plus, Same-or_self, Same-AnyOf, Same-Compose}
use shacl_engine.PropertyPath.Closure.{Follows, Memᴰ-normalise, closure-Yields}

-- Walks and relations, one by one.
abbrev FollowAll : List Walk → List Relation → Type 0
FollowAll [] [] = Unit
FollowAll [] (R ∷ Rs) = ⊥
FollowAll (w ∷ ws) [] = ⊥
FollowAll (w ∷ ws) (R ∷ Rs) = Follows w R × FollowAll ws Rs

Yields-iff :
    (R S : Relation) (input out : Pairs) → Same R S → Yields out input R → Yields out input S
Yields-iff R S input out e y o t = (
  λ m. let (n, k, r) = (y o t).0 m in (n, k, (e n t).0 r),
  λ (n, k, s). (y o t).1 (n, k, (e n t).1 s),
)

Yields-Compose :
    (R : Relation) (Rs : List Relation) (input next frontier out : Pairs)
    → ((p : Pair) → (Memᴰ p frontier → Memᴰ p next) × (Memᴰ p next → Memᴰ p frontier))
    → Yields next input R
    → Yields out frontier (Compose Rs)
    → Yields out input (Compose (R ∷ Rs))
Yields-Compose R Rs input next frontier out same y z o t = (
  λ m.
      let (b, k, c) = (z o t).0 m in
      let (n, l, r) = (y o b).0 ((same (o, b)).0 k) in (n, l, (b, r, c)),
  λ (n, l, (b, r, c)). (z o t).1 (b, (same (o, b)).1 ((y o b).1 (n, l, r)), c),
)

-- An empty frontier has an empty image.
Yields-empty :
    (R : Relation) (Rs : List Relation) (input next : Pairs)
    → Yields next input R
    → ((p : Pair) → Memᴰ p next → ⊥)
    → Yields [] input (Compose (R ∷ Rs))
Yields-empty R Rs input next y none_left o t = (
  λ m. absurd (Memᴰ.not-nil m),
  λ (n, l, (b, r, c)). absurd (none_left (o, b) ((y o b).1 (n, l, r))),
)

run_steps-Follows :
    (ws : List Walk) (Rs : List Relation) → FollowAll ws Rs → Follows (run_steps ws) (Compose Rs)
unfolding run_steps
run_steps-Follows [] [] f input out h =
    subst (λ (out : Pairs). Yields out input ◌≡◌) (eq_of_some h)
      (λ o t. (λ m. (t, m, refl), λ (n, m, e). Memᴰ.cast (ap (λ (x : TermId). (o, x)) (sym e)) m))
run_steps-Follows [] (R ∷ Rs) f input out h = absurd f
run_steps-Follows (w ∷ ws) [] f input out h = absurd f
run_steps-Follows (w ∷ ws) (R ∷ Rs) f input out h =
    let (next, e, k) = >>=-eq-some (w input) _ h in
    let y = f.0 input next e in
    elim (List-cases (normalise next)) [
      | inl empty ↦
          subst (λ (out : Pairs). Yields out input (Compose (R ∷ Rs))) (eq_of_some (rw empty at k))
            (Yields-empty R Rs input next y
              (λ p m. Memᴰ.not-nil (subst (Memᴰ p) empty ((Memᴰ-normalise p next).1 m))))
      | inr (x, rest, more) ↦
          Yields-Compose R Rs input next (x ∷ rest) out
            (λ p.
              subst (λ (xs : Pairs). (Memᴰ p xs → Memᴰ p next) × (Memᴰ p next → Memᴰ p xs)) more
                (Memᴰ-normalise p next))
            y (run_steps-Follows ws Rs f.1 (x ∷ rest) out (rw more at k))
    ]

run_alternatives-Follows :
    (ws : List Walk) (Rs : List Relation)
    → FollowAll ws Rs
    → Follows (run_alternatives ws) (AnyOf Rs)
unfolding run_alternatives
run_alternatives-Follows [] [] f input out h =
    subst (λ (out : Pairs). Yields out input (AnyOf [])) (eq_of_some h)
      (λ o t. (λ m. absurd (Memᴰ.not-nil m), λ (n, m, e). absurd e))
run_alternatives-Follows [] (R ∷ Rs) f input out h = absurd f
run_alternatives-Follows (w ∷ ws) [] f input out h = absurd f
run_alternatives-Follows (w ∷ ws) (R ∷ Rs) f input out h =
    let (one, e, k) = >>=-eq-some (w input) _ h in
    let (rest, e', k') = >>=-eq-some (run_alternatives ws input) _ k in
    let y = f.0 input one e in
    let z = run_alternatives-Follows ws Rs f.1 input rest e' in
    subst (λ (out : Pairs). Yields out input (AnyOf (R ∷ Rs))) (eq_of_some k')
      (λ o t. (
        λ m.
            ⊎_elim (λ a. let (n, l, r) = (y o t).0 a in (n, l, inl r))
              (λ b. let (n, l, r) = (z o t).0 b in (n, l, inr r)) (Memᴰ.append_cases one m),
        λ (n, l, r).
            ⊎_elim (λ a. Memᴰ.append_left rest ((y o t).1 (n, l, a)))
              (λ b. Memᴰ.append_right one ((z o t).1 (n, l, b))) r,
      ))

-- The input itself joined to what a walk yields.
Yields-or_self :
    (R : Relation) (input out : Pairs)
    → Yields out input R
    → Yields (input ++ out) input (λ a b. (a ≡ b) ⊎ R a b)
Yields-or_self R input out y o t = (
  λ m.
      ⊎_elim (λ a. (t, a, inl refl)) (λ b. let (n, l, r) = (y o t).0 b in (n, l, inr r))
        (Memᴰ.append_cases input m),
  λ (n, l, r).
      ⊎_elim (λ e. Memᴰ.append_left out (Memᴰ.cast (ap (λ (x : TermId). (o, x)) (sym e)) l))
        (λ b. Memᴰ.append_right input ((y o t).1 (n, l, b))) r,
)

-- Composition backwards.
Compose-snoc :
    (Rs : List Relation) (R : Relation) (a c : TermId)
    → (Compose (Rs ++ R ∷ []) a c → (b : TermId) × Compose Rs a b × R b c)
      × ((b : TermId) × Compose Rs a b × R b c → Compose (Rs ++ R ∷ []) a c)
Compose-snoc [] R a c =
    (λ (m, r, e). (a, refl, subst (R a) e r), λ (b, e, r). (c, subst (λ x. R x c) (sym e) r, refl))
Compose-snoc (S ∷ Rs) R a c = (
  λ (m, s, k). let (b, l, r) = (Compose-snoc Rs R m c).0 k in (b, (m, s, l), r),
  λ (b, (m, s, l), r). (m, s, (Compose-snoc Rs R m c).1 (b, l, r)),
)

Compose-reverse :
    (Rs : List Relation) (a b : TermId)
    → (Compose (reverse (map (Toward true) Rs)) a b → Compose Rs b a)
      × (Compose Rs b a → Compose (reverse (map (Toward true) Rs)) a b)
Compose-reverse [] a b = (sym, sym)
Compose-reverse (R ∷ Rs) a b = rw (reverse-cons (Toward true R) (map (Toward true) Rs)) (
  λ k.
      let (m, l, r) = (Compose-snoc (reverse (map (Toward true) Rs)) (Toward true R) a b).0 k in
      (m, r, (Compose-reverse Rs a m).0 l),
  λ (m, r, l).
      (Compose-snoc (reverse (map (Toward true) Rs)) (Toward true R) a b).1
        (m, (Compose-reverse Rs a m).1 l, r),
)

FollowAll-snoc :
    (ws : List Walk) (Rs : List Relation) (w : Walk) (R : Relation)
    → FollowAll ws Rs
    → Follows w R
    → FollowAll (ws ++ w ∷ []) (Rs ++ R ∷ [])
FollowAll-snoc [] [] w R f g = (g, tt)
FollowAll-snoc [] (S ∷ Rs) w R f g = absurd f
FollowAll-snoc (v ∷ ws) [] w R f g = absurd f
FollowAll-snoc (v ∷ ws) (S ∷ Rs) w R f g = (f.0, FollowAll-snoc ws Rs w R f.1 g)

FollowAll-reverse :
    (ws : List Walk) (Rs : List Relation) → FollowAll ws Rs → FollowAll (reverse ws) (reverse Rs)
FollowAll-reverse [] [] f = tt
FollowAll-reverse [] (R ∷ Rs) f = absurd f
FollowAll-reverse (w ∷ ws) [] f = absurd f
FollowAll-reverse (w ∷ ws) (R ∷ Rs) f =
    rw (reverse-cons w ws, reverse-cons R Rs)
      (FollowAll-snoc (reverse ws) (reverse Rs) w R (FollowAll-reverse ws Rs f.1) f.0)

sequence-Follows :
    (back : Bool) (ws : List Walk) (Rs : List Relation)
    → FollowAll ws (map (Toward back) Rs)
    → Follows (run_steps (in_order back ws)) (Toward back (Compose Rs))
sequence-Follows true ws Rs f input out h =
    Yields-iff (Compose (reverse (map (Toward true) Rs))) (Toward true (Compose Rs)) input out
      (Compose-reverse Rs)
      (run_steps-Follows (reverse ws) (reverse (map (Toward true) Rs))
        (FollowAll-reverse ws (map (Toward true) Rs) f) input out h)
sequence-Follows false ws Rs f input out h =
    Yields-iff (Compose (map (Toward false) Rs)) (Compose Rs) input out (Same-Compose Rs)
      (run_steps-Follows ws (map (Toward false) Rs) f input out h)

Follows-not :
    (back : Bool) (w : Walk) (R : Relation)
    → Follows w (Toward (not back) R)
    → Follows w (Toward back (λ a b. R b a))
Follows-not true w R f = f
Follows-not false w R f = f

or_self-Follows :
    (back : Bool) (w : Walk) (R S : Relation)
    → Follows w R
    → Same R (Toward back S)
    → (input out : Pairs) → (w input >>= λ more. some (input ++ more)) ≡ some out
    → Yields out input (Toward back (λ a b. (a ≡ b) ⊎ S a b))
or_self-Follows back w R S f same input out h =
    let (more, e, k) = >>=-eq-some (w input) _ h in
    subst (λ (out : Pairs). Yields out input (Toward back (λ a b. (a ≡ b) ⊎ S a b))) (eq_of_some k)
      (Yields-iff (λ a b. (a ≡ b) ⊎ R a b) (Toward back (λ a b. (a ≡ b) ⊎ S a b)) input
        (input ++ more) (Same-or_self back R S same) (Yields-or_self R input more (f input more e)))

closure-Follows :
    (w : Walk) (R : Relation) (fuel : ℕ) → Follows w R → Follows (closure w fuel []) (Plus R)
closure-Follows w R fuel f input out h = closure-Yields R input w f fuel out h

mutual
  unfolding walk Connects

  walk-Yields :
      (g : Graph) (ix : IsIndexed g) (fuel : ℕ) (p : PropertyPath) (back : Bool)
      → Follows (walk g fuel p back) (Toward back (Connects g p))
  walk-Yields g ix fuel (predicate p) back input out h =
      subst (λ (out : Pairs). Yields out input (Toward back (Connects g (predicate p))))
        (eq_of_some h) (probe-Yields g p back ix input)
  walk-Yields g ix fuel (inverse inner) back input out h =
      Follows-not back (walk g fuel inner (not back)) (Connects g inner)
        (walk-Yields g ix fuel inner (not back)) input out h
  walk-Yields g ix fuel (sequence steps) back input out h =
      sequence-Follows back (walks g fuel steps back) (relations g steps)
        (walks-Yields g ix fuel steps back) input out h
  walk-Yields g ix fuel (alternative alts) back input out h =
      Yields-iff (AnyOf (map (Toward back) (relations g alts)))
        (Toward back (AnyOf (relations g alts))) input out (Same-AnyOf back (relations g alts))
        (run_alternatives-Follows (walks g fuel alts back) (map (Toward back) (relations g alts))
          (walks-Yields g ix fuel alts back) input out h)
  walk-Yields g ix fuel (zero_or_more inner) back input out h =
      or_self-Follows back (closure (walk g fuel inner back) fuel [])
        (Plus (Toward back (Connects g inner))) (Plus (Connects g inner))
        (closure-Follows (walk g fuel inner back) (Toward back (Connects g inner)) fuel
          (walk-Yields g ix fuel inner back))
        (Same-Plus back (Connects g inner)) input out h
  walk-Yields g ix fuel (one_or_more inner) back input out h =
      Yields-iff (Plus (Toward back (Connects g inner))) (Toward back (Plus (Connects g inner)))
        input out (Same-Plus back (Connects g inner))
        (closure-Follows (walk g fuel inner back) (Toward back (Connects g inner)) fuel
          (walk-Yields g ix fuel inner back) input out h)
  walk-Yields g ix fuel (zero_or_one inner) back input out h =
      or_self-Follows back (walk g fuel inner back) (Toward back (Connects g inner))
        (Connects g inner) (walk-Yields g ix fuel inner back) (λ a b. (λ r. r, λ r. r)) input out h

  walks-Yields :
      (g : Graph) (ix : IsIndexed g) (fuel : ℕ) (ps : Steps) (back : Bool)
      → FollowAll (walks g fuel ps back) (map (Toward back) (relations g ps))
  walks-Yields g ix fuel done back = tt
  walks-Yields g ix fuel (step p ps) back =
      (walk-Yields g ix fuel p back, walks-Yields g ix fuel ps back)

-- Where the evaluator returns, it has paired each origin with exactly the nodes that the path
-- connects to its nodes, in the direction asked for.
pub walk_lem :
    (g : Graph) (fuel : ℕ) (path : PropertyPath) (back : Bool) (input out : Pairs)
    → IsIndexed g
    → walk g fuel path back input ≡ some out
    → Yields out input (Toward back (Connects g path))
walk_lem g fuel path back input out ix h = walk-Yields g ix fuel path back input out h

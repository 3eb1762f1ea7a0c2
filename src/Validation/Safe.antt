-- ===== src/Validation/Safe.antt =====
-- Steps of the validation engine that leave its stack as it was, on success and on an error.
pub mod Eval
use shacl_engine.Common.{
  ◌≡◌, refl, sym, ◌∙◌, ℕ, suc, Bool, true, false, not, ◌&&◌, if◌then◌else◌, Option, none, some,
  List, [], ◌∷◌, ◌++◌,
}
use shacl_engine.Error.{Error, Result, err, panic, ok, Bounded}
use shacl_engine.Model.Starts.{TermId}
use shacl_engine.Report.{ValidationResult}
use shacl_engine.Shapes.{ShapeId}
use shacl_engine.ValueSet.{Row}
use shacl_engine.Validation.{Services, Engine, Context, Stack}
use shacl_engine.Validation.Run.{
  Run, out_of_steps, out_of_levels, panics, fails, returns, Action, continue, ◌>>=◌, ◌>>◌, return,
  each, Keeps,
}
use shacl_engine.Validation.Values.{is_nil}
use shacl_engine.Validation.Steps.{
  Step, Validator, push, store, lift, answered, stored, scratch_of, into_scratch, conforms,
  each_value, all_conform, any_conforms, count_conforming, some_value_conforms, qualifies,
  count_qualified,
}

pub continue-Keeps {ℓ κ} :
    {C : Type 0} {A : Type ℓ} {B : Type κ} (P : C → Type 0) (r : Run C A) (f : A → Action C B)
    → Keeps P r
    → ((a : A) (c : C) → P c → Keeps P (f a c))
    → Keeps P (continue r f)
unfolding Keeps
continue-Keeps P out_of_steps f k next = tt
continue-Keeps P out_of_levels f k next = elim k [ ]
continue-Keeps P panics f k next = tt
continue-Keeps P (fails e c) f k next = k
continue-Keeps P (returns a c) f k next = next a c k

module _ (h : Services) (s : Stack) where
  abbrev pub Unchanged : Context h → Type 0
  Unchanged c = c.stack ≡ s

  pub record IsSafe {ℓ} {A : Type ℓ} (m : Step h A) : Type 0 where
    pub keeps : (c : Context h) → Unchanged c → Keeps Unchanged (m c)

  pub return-IsSafe {ℓ} : {A : Type ℓ} (a : A) → IsSafe (return a)
  unfolding Keeps
  return-IsSafe a = record { keeps = λ c u. u }

  pub then_IsSafe {ℓ κ} :
      {A : Type ℓ} {B : Type κ} {m : Step h A} {f : A → Step h B}
      → IsSafe m
      → ((a : A) → IsSafe (f a))
      → IsSafe (m >>= f)
  then_IsSafe {m = m} {f = f} good next = record {
    keeps = λ c u. continue-Keeps Unchanged (m c) f (good.keeps c u) (λ a. (next a).keeps);
  }

  pub if_IsSafe {ℓ} :
      {A : Type ℓ} {m n : Step h A} (b : Bool) → IsSafe m → IsSafe n → IsSafe (if b then m else n)
  if_IsSafe true good other = good
  if_IsSafe false good other = other

  pub push-IsSafe : (rs : List ValidationResult) → IsSafe (push h rs)
  unfolding Keeps
  push-IsSafe rs = record { keeps = λ c u. u }

  pub store-IsSafe : IsSafe (store h)
  unfolding Keeps
  store-IsSafe = record { keeps = λ c u. u }

  pub lift-IsSafe {ℓ} : {A : Type ℓ} (b : Bounded A) → IsSafe (lift h b)
  unfolding Keeps
  lift-IsSafe none = record { keeps = λ c u. tt }
  lift-IsSafe (some (err e)) = record { keeps = λ c u. u }
  lift-IsSafe (some panic) = record { keeps = λ c u. tt }
  lift-IsSafe (some (ok a)) = record { keeps = λ c u. u }

  pub answered-IsSafe {ℓ} : {A : Type ℓ} (a : Result A × h.Store) → IsSafe (answered h a)
  unfolding Keeps
  answered-IsSafe (err e, s') = record { keeps = λ c u. u }
  answered-IsSafe (panic, s') = record { keeps = λ c u. tt }
  answered-IsSafe (ok a, s') = record { keeps = λ c u. u }

  pub stored-IsSafe {ℓ} :
      {A : Type ℓ} (call : h.Store → Result A × h.Store) → IsSafe (stored h call)
  stored-IsSafe call = record { keeps = λ c. (answered-IsSafe (call c.store)).keeps c }

  pub each-IsSafe {ℓ} :
      {A : Type ℓ} (body : A → Step h (Unit {0})) (xs : List A)
      → ((a : A) → IsSafe (body a))
      → IsSafe (each body xs)
  unfolding each
  each-IsSafe body [] good = return-IsSafe tt
  each-IsSafe body (x ∷ xs) good = then_IsSafe (good x) (λ _. each-IsSafe body xs good)

  pub scratch_of-Keeps :
      (out : List ValidationResult) (r : Run (Context h) (Unit {0}))
      → Keeps Unchanged r
      → Keeps Unchanged (scratch_of h out r)
  unfolding Keeps
  scratch_of-Keeps out out_of_steps k = tt
  scratch_of-Keeps out out_of_levels k = elim k [ ]
  scratch_of-Keeps out panics k = tt
  scratch_of-Keeps out (fails e c) k = k
  scratch_of-Keeps out (returns _ c) k = k

  pub into_scratch-IsSafe : (m : Step h (Unit {0})) → IsSafe m → IsSafe (into_scratch h m)
  into_scratch-IsSafe m good = record {
    keeps = λ c u.
        scratch_of-Keeps c.out (m (record c { out = [] })) (good.keeps (record c { out = [] }) u);
  }

  -- A validator that leaves the stack as it was, from this stack on.
  abbrev pub IsSafeValidator : Validator h → Type 0
  IsSafeValidator validate = (id : ShapeId) (focus : List TermId) → IsSafe (validate id focus)

  module _ (validate : Validator h) (safe : IsSafeValidator validate) where
    pub conforms-IsSafe : (id : ShapeId) (n : TermId) → IsSafe (conforms h validate id n)
    unfolding conforms
    conforms-IsSafe id n =
        then_IsSafe (into_scratch-IsSafe (validate id (n ∷ [])) (safe id (n ∷ [])))
          (λ results. return-IsSafe (is_nil results))

    pub all_conform-IsSafe : (ms : List ShapeId) (v : TermId) → IsSafe (all_conform h validate ms v)
    unfolding all_conform
    all_conform-IsSafe [] v = return-IsSafe true
    all_conform-IsSafe (m ∷ ms) v =
        then_IsSafe (conforms-IsSafe m v)
          (λ met. if_IsSafe met (all_conform-IsSafe ms v) (return-IsSafe false))

    pub any_conforms-IsSafe :
        (ms : List ShapeId) (v : TermId) → IsSafe (any_conforms h validate ms v)
    unfolding any_conforms
    any_conforms-IsSafe [] v = return-IsSafe false
    any_conforms-IsSafe (m ∷ ms) v =
        then_IsSafe (conforms-IsSafe m v)
          (λ met. if_IsSafe met (return-IsSafe true) (any_conforms-IsSafe ms v))

    pub count_conforming-IsSafe :
        (ms : List ShapeId) (v : TermId) → IsSafe (count_conforming h validate ms v)
    unfolding count_conforming
    count_conforming-IsSafe [] v = return-IsSafe 0
    count_conforming-IsSafe (m ∷ ms) v = then_IsSafe (conforms-IsSafe m v) (λ met.
        then_IsSafe (count_conforming-IsSafe ms v) (λ n. return-IsSafe (if met then suc n else n)))

    pub some_value_conforms-IsSafe :
        (id : ShapeId) (vs : List TermId) → IsSafe (some_value_conforms h validate id vs)
    unfolding some_value_conforms
    some_value_conforms-IsSafe id [] = return-IsSafe false
    some_value_conforms-IsSafe id (v ∷ vs) =
        then_IsSafe (conforms-IsSafe id v)
          (λ met. if_IsSafe met (return-IsSafe true) (some_value_conforms-IsSafe id vs))

    pub qualifies-IsSafe :
        (id : ShapeId) (apart : Bool) (siblings : List ShapeId) (v : TermId)
        → IsSafe (qualifies h validate id apart siblings v)
    unfolding qualifies
    qualifies-IsSafe id apart siblings v = then_IsSafe (conforms-IsSafe id v) (λ met.
        then_IsSafe
          (if_IsSafe (met && apart) (any_conforms-IsSafe siblings v) (return-IsSafe false))
          (λ clashes. return-IsSafe (met && not clashes)))

    pub count_qualified-IsSafe :
        (id : ShapeId) (apart : Bool) (siblings : List ShapeId) (vs : List TermId)
        → IsSafe (count_qualified h validate id apart siblings vs)
    unfolding count_qualified
    count_qualified-IsSafe id apart siblings [] = return-IsSafe 0
    count_qualified-IsSafe id apart siblings (v ∷ vs) =
        then_IsSafe (qualifies-IsSafe id apart siblings v) (λ counts.
          then_IsSafe (count_qualified-IsSafe id apart siblings vs)
            (λ n. return-IsSafe (if counts then suc n else n)))

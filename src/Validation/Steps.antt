-- ===== src/Validation/Steps.antt =====
-- The steps of the validation engine on its context: pushing results, reading the store, and asking
-- whether a node conforms to a shape.
use shacl_engine.Common.{
  ℕ, suc, Bool, true, false, not, ◌&&◌, none, some, List, [], ◌∷◌, ◌++◌, if◌then◌else◌,
}
use shacl_engine.Error.{Result, err, panic, ok, Bounded}
use shacl_engine.Model.Starts.{TermId}
use shacl_engine.Report.{ValidationResult}
use shacl_engine.Shapes.{ShapeId}
use shacl_engine.ValueSet.{Row}
use shacl_engine.Validation.{Services, Context}
use shacl_engine.Validation.Run.{
  Run, out_of_steps, out_of_levels, panics, fails, returns, Action, ◌>>=◌, return, each,
}
use shacl_engine.Validation.Values.{is_nil}

module _ (h : Services) where
  abbrev pub Step {ℓ} : Type ℓ → Type ℓ
  Step A = Action (Context h) A

  -- `validate_shape`, as the constraints call it.
  abbrev pub Validator : Type 0
  Validator = ShapeId → List TermId → Step (Unit {0})

  abbrev pub push : List ValidationResult → Step (Unit {0})
  push rs c = returns tt (record c { out = c.out ++ rs })

  abbrev pub store : Step h.Store
  store c = returns c.store c

  abbrev pub lift {ℓ} : {A : Type ℓ} → Bounded A → Step A
  lift none c = out_of_steps
  lift (some (err e)) c = fails e c
  lift (some panic) c = panics
  lift (some (ok a)) c = returns a c

  abbrev pub answered {ℓ} : {A : Type ℓ} → Result A × h.Store → Step A
  answered (err e, s) c = fails e (record c { store = s })
  answered (panic, s) c = panics
  answered (ok a, s) c = returns a (record c { store = s })

  -- What a call answers that may change the store.
  abbrev pub stored {ℓ} : {A : Type ℓ} → (h.Store → Result A × h.Store) → Step A
  stored call c = answered (call c.store) c

  abbrev pub scratch_of :
      List ValidationResult → Run (Context h) (Unit {0}) → Run (Context h) (List ValidationResult)
  scratch_of out out_of_steps = out_of_steps
  scratch_of out out_of_levels = out_of_levels
  scratch_of out panics = panics
  scratch_of out (fails e c) = fails e (record c { out = out })
  scratch_of out (returns _ c) = returns c.out (record c { out = out })

  -- A call that fills a buffer of its own in place of the results.
  abbrev pub into_scratch : Step (Unit {0}) → Step (List ValidationResult)
  into_scratch call c = scratch_of c.out (call (record c { out = [] }))

  -- Whether a node conforms to the shape, producing no results.
  unfoldable pub conforms : Validator → ShapeId → TermId → Step Bool
  conforms validate id node = do
    results ← into_scratch (validate id (node ∷ []))
    return (is_nil results)

  abbrev pub each_value : (TermId → TermId → Step (Unit {0})) → List Row → Step (Unit {0})
  each_value body rows = each (λ (row : Row). each (body row.focus) row.values) rows

  -- The loops over the members of a logical constraint, which stop where the answer is known.
  unfoldable pub all_conform : Validator → List ShapeId → TermId → Step Bool
  unfolding conforms
  all_conform validate [] value = return true
  all_conform validate (m ∷ ms) value = do
    met ← conforms validate m value
    if met then all_conform validate ms value else return false

  unfoldable pub any_conforms : Validator → List ShapeId → TermId → Step Bool
  unfolding conforms
  any_conforms validate [] value = return false
  any_conforms validate (m ∷ ms) value = do
    met ← conforms validate m value
    if met then return true else any_conforms validate ms value

  unfoldable pub count_conforming : Validator → List ShapeId → TermId → Step ℕ
  unfolding conforms
  count_conforming validate [] value = return 0
  count_conforming validate (m ∷ ms) value = do
    met ← conforms validate m value
    n ← count_conforming validate ms value
    return (if met then suc n else n)

  -- Whether some value conforms to the shape.
  unfoldable pub some_value_conforms : Validator → ShapeId → List TermId → Step Bool
  unfolding conforms
  some_value_conforms validate id [] = return false
  some_value_conforms validate id (v ∷ vs) = do
    met ← conforms validate id v
    if met then return true else some_value_conforms validate id vs

  -- Whether a value counts: it conforms to the shape, and under `disjoint` to none of its siblings.
  unfoldable pub qualifies : Validator → ShapeId → Bool → List ShapeId → TermId → Step Bool
  unfolding conforms any_conforms
  qualifies validate id apart siblings v = do
    met ← conforms validate id v
    clashes ← if met && apart then any_conforms validate siblings v else return false
    return (met && not clashes)

  unfoldable pub count_qualified : Validator → ShapeId → Bool → List ShapeId → List TermId → Step ℕ
  unfolding qualifies
  count_qualified validate id apart siblings [] = return 0
  count_qualified validate id apart siblings (v ∷ vs) = do
    counts ← qualifies validate id apart siblings v
    n ← count_qualified validate id apart siblings vs
    return (if counts then suc n else n)

-- ===== src/Validation/Run.antt =====
-- What a validation step does to its context: it returns, fails with an error, panics, or meets the
-- bound of a loop (the frames) or of the nesting (the levels) of the model.
use shacl_engine.Common.{List, [], ◌∷◌, Option, none, some}
use shacl_engine.Error.{Error}

pub data Run {ℓ} (C : Type 0) (A : Type ℓ) : Type ℓ where
  out_of_steps : Run C A
  out_of_levels : Run C A
  panics : Run C A
  fails : Error → C → Run C A
  returns : A → C → Run C A

abbrev pub Action {ℓ} : Type 0 → Type ℓ → Type ℓ
Action C A = C → Run C A

abbrev pub continue {ℓ κ} :
    {C : Type 0} {A : Type ℓ} {B : Type κ} → Run C A → (A → Action C B) → Run C B
continue out_of_steps f = out_of_steps
continue out_of_levels f = out_of_levels
continue panics f = panics
continue (fails e c) f = fails e c
continue (returns a c) f = f a c

infixl 5 ◌>>=◌ ◌>>◌
abbrev pub ◌>>=◌ {ℓ κ} :
    {C : Type 0} {A : Type ℓ} {B : Type κ} → Action C A → (A → Action C B) → Action C B
◌>>=◌ m f c = continue (m c) f

abbrev pub ◌>>◌ {ℓ κ} :
    {C : Type 0} {A : Type ℓ} {B : Type κ} → Action C A → Action C B → Action C B
m >> next = m >>= λ _. next

abbrev pub return {ℓ} : {C : Type 0} {A : Type ℓ} → A → Action C A
return a c = returns a c

abbrev pub or_panics {ℓ} : {C : Type 0} {A : Type ℓ} → Option A → Action C A
or_panics none c = panics
or_panics (some a) c = returns a c

abbrev pub or_out_of_steps {ℓ} : {C : Type 0} {A : Type ℓ} → Option A → Action C A
or_out_of_steps none c = out_of_steps
or_out_of_steps (some a) c = returns a c

-- `for`
unfoldable pub each {ℓ} :
    {C : Type 0} {A : Type ℓ} → (A → Action C (Unit {0})) → List A → Action C (Unit {0})
each body [] = return tt
each body (a ∷ rest) = body a >> each body rest

-- What a condition on the final context means for a run that meets the bound of the levels never.
unfoldable pub Keeps {ℓ} : {C : Type 0} {A : Type ℓ} → (C → Type 0) → Run C A → Type 0
Keeps P out_of_steps = Unit
Keeps P out_of_levels = ⊥
Keeps P panics = Unit
Keeps P (fails _ c) = P c
Keeps P (returns _ c) = P c

-- ===== src/Validation/Bounded.antt =====
-- Chains of computations that may fail, panic or meet the bound of a loop, and loops over lists.
use shacl_engine.Common.{Option, none, some, List, [], ◌∷◌, ◌++◌}
use shacl_engine.Error.{err, panic, ok, Bounded}

infixl 5 ◌>>=◌
abbrev pub ◌>>=◌ {ℓ κ} : {A : Type ℓ} {B : Type κ} → Bounded A → (A → Bounded B) → Bounded B
m >>= f = elim m [
  | none ↦ none
  | some (err e) ↦ some (err e)
  | some panic ↦ some panic
  | some (ok a) ↦ f a
]

abbrev pub done {ℓ} : {A : Type ℓ} → A → Bounded A
done a = some (ok a)

-- `&v[i]`
abbrev pub indexed {ℓ} : {A : Type ℓ} → Option A → Bounded A
indexed none = some panic
indexed (some a) = done a

abbrev pub bounded {ℓ} : {A : Type ℓ} → Option A → Bounded A
bounded none = none
bounded (some a) = done a

-- What a loop pushes, in order.
unfoldable pub collect {ℓ κ} :
    {A : Type ℓ} {B : Type κ} → (A → Bounded (List B)) → List A → Bounded (List B)
collect f [] = done []
collect f (a ∷ rest) = do bs ← f a; more ← collect f rest; done (bs ++ more)

unfoldable pub map_all {ℓ κ} :
    {A : Type ℓ} {B : Type κ} → (A → Bounded B) → List A → Bounded (List B)
map_all f [] = done []
map_all f (a ∷ rest) = do b ← f a; bs ← map_all f rest; done (b ∷ bs)

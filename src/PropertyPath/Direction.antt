-- ===== src/PropertyPath/Direction.antt =====
-- The relations of a path read backwards.
use shacl_engine.Common.{◌≡◌, sym, ◌⊎◌, inl, inr, ⊎_elim, Bool, true, false, List, [], ◌∷◌, map}
use shacl_engine.Model.Starts.{TermId}
use shacl_engine.PropertyPath.Meaning.{Relation, Plus, once, again, Compose, AnyOf, Toward}

-- Two relations that hold of the same nodes.
abbrev pub Same : Relation → Relation → Type 0
Same R S = (a b : TermId) → (R a b → S a b) × (S a b → R a b)

Plus-prepend : (R : Relation) (a b : TermId) {c : TermId} → R a b → Plus R b c → Plus R a c
Plus-prepend R a b r (once s) = again (once r) s
Plus-prepend R a b r (again p s) = again (Plus-prepend R a b r p) s

pub Plus-flip : (R : Relation) (a : TermId) {b : TermId} → Plus (Toward true R) a b → Plus R b a
Plus-flip R a (once r) = once r
Plus-flip R a (again p r) = Plus-prepend R _ _ r (Plus-flip R a p)

pub Plus-flip_back :
    (R : Relation) (a : TermId) {b : TermId} → Plus R a b → Plus (Toward true R) b a
Plus-flip_back R a (once r) = once r
Plus-flip_back R a (again p r) = Plus-prepend (Toward true R) _ _ r (Plus-flip_back R a p)

Plus-forward : (R : Relation) (a : TermId) {b : TermId} → Plus (Toward false R) a b → Plus R a b
Plus-forward R a (once r) = once r
Plus-forward R a (again p r) = again (Plus-forward R a p) r

Plus-forward_back :
    (R : Relation) (a : TermId) {b : TermId} → Plus R a b → Plus (Toward false R) a b
Plus-forward_back R a (once r) = once r
Plus-forward_back R a (again p r) = again (Plus-forward_back R a p) r

pub Same-Plus : (back : Bool) (R : Relation) → Same (Plus (Toward back R)) (Toward back (Plus R))
Same-Plus true R a b = (Plus-flip R a, Plus-flip_back R b)
Same-Plus false R a b = (Plus-forward R a, Plus-forward_back R a)

pub Same-or_self :
    (back : Bool) (R S : Relation)
    → Same R (Toward back S)
    → Same (λ a b. (a ≡ b) ⊎ R a b) (Toward back (λ a b. (a ≡ b) ⊎ S a b))
Same-or_self true R S e a b = (
  ⊎_elim (λ p. inl (sym p)) (λ r. inr ((e a b).0 r)),
  ⊎_elim (λ p. inl (sym p)) (λ s. inr ((e a b).1 s)),
)
Same-or_self false R S e a b =
    (⊎_elim inl (λ r. inr ((e a b).0 r)), ⊎_elim inl (λ s. inr ((e a b).1 s)))

pub Same-AnyOf :
    (back : Bool) (Rs : List Relation)
    → Same (AnyOf (map (Toward back) Rs)) (Toward back (AnyOf Rs))
Same-AnyOf true [] a b = (λ e. e, λ e. e)
Same-AnyOf false [] a b = (λ e. e, λ e. e)
Same-AnyOf true (R ∷ Rs) a b = (
  ⊎_elim inl (λ k. inr ((Same-AnyOf true Rs a b).0 k)),
  ⊎_elim inl (λ k. inr ((Same-AnyOf true Rs a b).1 k)),
)
Same-AnyOf false (R ∷ Rs) a b = (
  ⊎_elim inl (λ k. inr ((Same-AnyOf false Rs a b).0 k)),
  ⊎_elim inl (λ k. inr ((Same-AnyOf false Rs a b).1 k)),
)

pub Same-Compose : (Rs : List Relation) → Same (Compose (map (Toward false) Rs)) (Compose Rs)
Same-Compose [] a b = (λ e. e, λ e. e)
Same-Compose (R ∷ Rs) a b =
    (λ (m, r, k). (m, r, (Same-Compose Rs m b).0 k), λ (m, r, k). (m, r, (Same-Compose Rs m b).1 k))

pub Toward-twice :
    (back : Bool) (R : Relation) → Same (Toward true (Toward back R)) (Toward back (Toward true R))
Toward-twice true R a b = (λ r. r, λ r. r)
Toward-twice false R a b = (λ r. r, λ r. r)

-- ===== src/PropertyPath/Meaning.antt =====
-- What a property path means, as SPARQL defines it: a relation between nodes, with no direction
-- of evaluation, no frontier and no index.
use shacl_engine.Common.{ℕ, ◌≡◌, ◌⊎◌, Bool, true, false, List, [], ◌∷◌, Memᴰ}
use shacl_engine.Model.Starts.{TermId}
use shacl_engine.Model.Graph.{Graph}
use shacl_engine.PropertyPath.{
  PropertyPath, Steps, predicate, inverse, sequence, alternative, zero_or_more, one_or_more,
  zero_or_one, done, step,
}

abbrev pub Relation : Type 1
Relation = TermId → TermId → Type 0

-- One or more steps of a relation.
pub data Plus (R : TermId → TermId → Type 0) (a : TermId) : TermId → Type 0 where
  once : {b : TermId} → R a b → Plus R a b
  again : {b c : TermId} → Plus R a b → R b c → Plus R a c

abbrev pub Compose : List Relation → Relation
Compose [] a b = a ≡ b
Compose (R ∷ Rs) a b = (m : TermId) × R a m × Compose Rs m b

abbrev pub AnyOf : List Relation → Relation
AnyOf [] a b = ⊥
AnyOf (R ∷ Rs) a b = R a b ⊎ AnyOf Rs a b

unfoldable mutual
  pub Connects : Graph → PropertyPath → Relation
  Connects g (predicate p) a b = Memᴰ (a, p, b) g.spo
  Connects g (inverse inner) a b = Connects g inner b a
  Connects g (sequence steps) a b = Compose (relations g steps) a b
  Connects g (alternative alts) a b = AnyOf (relations g alts) a b
  Connects g (zero_or_more inner) a b = (a ≡ b) ⊎ Plus (Connects g inner) a b
  Connects g (one_or_more inner) a b = Plus (Connects g inner) a b
  Connects g (zero_or_one inner) a b = (a ≡ b) ⊎ Connects g inner a b

  pub relations : Graph → Steps → List Relation
  relations g done = []
  relations g (step p ps) = Connects g p ∷ relations g ps

-- A relation, or its converse.
abbrev pub Toward : Bool → Relation → Relation
Toward false R a b = R a b
Toward true R a b = R b a

-- `t` is reached by `R` from a node that the input pairs with the origin `o`.
abbrev pub Image : Relation → List (ℕ × TermId) → ℕ → TermId → Type 0
Image R input o t = (n : TermId) × Memᴰ (o, n) input × R n t

-- A step of the evaluator that yields exactly the image of a relation.
abbrev pub Yields : List (ℕ × TermId) → List (ℕ × TermId) → Relation → Type 0
Yields out input R =
    (o : ℕ) (t : TermId)
    → (Memᴰ (o, t) out → Image R input o t) × (Image R input o t → Memᴰ (o, t) out)

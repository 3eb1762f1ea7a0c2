-- ===== src/Model/Graph/Least.antt =====
-- `Graph::object` against the triples: the least object of a subject and a predicate.
use shacl_engine.Common.{
  ◌≤◌, ◌≡◌, refl, sym, ap, ◌∙◌, ◌↔◌, inl, inr, Bool, true, false, none, some, List, [], ◌∷◌, Memᴰ,
  arith, filter, ◌==◌, row_ord, Memᴰ-filter, Bool-cases, List-cases, Option-cases,
}
use shacl_engine.Common.Maybe.{eq_of_some}
use shacl_engine.Common.Sort.{IsSorted}
use shacl_engine.Model.Starts.{TermId, Row}
use shacl_engine.Model.Graph.{Graph, first, object}
use shacl_engine.Model.Graph.Access.{IsIndexed, spo-IsSorted, thirds, lookup_lem, Memᴰ-second}
use shacl_engine.Model.Graph.Lookups.{Memᴰ-object, object-none}

filter-IsSorted : (q : Row → Bool) (rows : List Row) → IsSorted rows → IsSorted (filter q rows)
filter-IsSorted q [] h = tt
filter-IsSorted q (r ∷ rows) h = elim (Bool-cases (q r)) [
  | inl e ↦ rw e (λ y m. h.0 y ((Memᴰ-filter q y rows).0 m).0, filter-IsSorted q rows h.1)
  | inr e ↦ rw e (filter-IsSorted q rows h.1)
]

third_le :
    (a b : TermId) (r y : Row)
    → (r.0 == a) ≡ true
    → (r.1 == b) ≡ true
    → (y.0 == a) ≡ true
    → (y.1 == b) ≡ true
    → row_ord.lt y r ≡ false
    → r.2 ≤ y.2
third_le a b r y p q p' q' h = ground arith

module _ (a b : TermId) (rows : List Row) (sorted : IsSorted rows) where
  abbrev chosen : List Row
  chosen = filter (λ r. r.1 == b) (filter (λ r. r.0 == a) rows)

  chosen-IsSorted : IsSorted chosen
  chosen-IsSorted =
      filter-IsSorted (λ r. r.1 == b) (filter (λ r. r.0 == a) rows)
        (filter-IsSorted (λ r. r.0 == a) rows sorted)

  -- The first of the rows with the two components has the least third.
  chosen-least :
      (r : Row) (rest : List Row) → chosen ≡ r ∷ rest → (y : TermId) → Memᴰ (a, b, y) rows → r.2 ≤ y
  chosen-least r rest e y m =
      let inside : Memᴰ {A = Row} (a, b, y) (r ∷ rest) =
        rw e at ((Memᴰ-second a b rows (a, b, y)).1 (m, ground arith, ground arith)) in
      let (_, p, q) = (Memᴰ-second a b rows r).0 (rw e (Memᴰ.head refl)) in
      let ordered : IsSorted (r ∷ rest) = rw e at chosen-IsSorted in from inside p q ordered
    where
      from :
          {r : Row} {rest : List Row}
          → Memᴰ {A = Row} (a, b, y) (r ∷ rest)
          → (r.0 == a) ≡ true
          → (r.1 == b) ≡ true
          → IsSorted (r ∷ rest)
          → r.2 ≤ y
      from (Memᴰ.head e) p q ordered = ground (arith, ap (λ (k : Row). k.2) e)
      from {r} (Memᴰ.tail k) p q ordered =
          third_le a b r (a, b, y) p q (ground arith) (ground arith) (ordered.0 (a, b, y) k)

-- The least object that the triples give a subject and a predicate.
abbrev pub IsLeast : List Row → TermId → TermId → TermId → Type 0
IsLeast rows s p o = Memᴰ (s, p, o) rows × ((y : TermId) → Memᴰ (s, p, y) rows → o ≤ y)

module _ (g : Graph) (ix : IsIndexed g) where
  object-least :
      (s p o : TermId) → object g s p ≡ some o → (y : TermId) → Memᴰ (s, p, y) g.spo → o ≤ y
  unfolding object
  object-least s p o h y m =
      let found : first (thirds s p g.spo) ≡ some o =
        ap first (sym (lookup_lem s p g.spo g.spo_starts (spo-IsSorted g ix) ix.spo_index)) ∙ h in
      elim (List-cases (chosen s p g.spo (spo-IsSorted g ix))) [
        | inl e ↦ let nothing : none ≡ some o = rw e at found in cc
        | inr (r, rest, e) ↦
            let same : r.2 ≡ o = eq_of_some (rw e at found) in
            let le = chosen-least s p g.spo (spo-IsSorted g ix) r rest e y m in
            omega (arith, same, le)
      ]

  pub object_iff : (s p o : TermId) → (object g s p ≡ some o) ↔ IsLeast g.spo s p o
  object_iff s p o = (
    λ h. (Memᴰ-object g ix s p o h, object-least s p o h),
    λ (m, le). elim (Option-cases (object g s p)) [
      | inl e ↦ absurd (object-none g ix s p o e m)
      | inr (x, e) ↦
          let same : x ≡ o =
            omega (arith, object-least s p x e o m, le x (Memᴰ-object g ix s p x e)) in
          e ∙ ap some same
    ],
  )

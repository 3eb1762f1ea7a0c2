-- ===== src/Inference/Rules.antt =====
-- One round derives exactly what the six rules give from the triples at hand.
use mathlib.Core.List.Memᴰ
use shacl_engine.Common.{
  ◌≡◌, ◌≢◌, refl, sym, ap, subst, ◌↔◌, inl, inr, ⊎_elim, not, List, [], ◌∷◌, Memᴰ, arith, filter,
  ◌==◌, ◌&&◌, if◌then◌else◌, Memᴰ-filter, Bool-cases, ==_iff,
}
use shacl_engine.Model.Starts.{TermId, Row}
use shacl_engine.Model.Vocab.{Vocab}
use shacl_engine.Inference.{
  pairs, matching, derive_one, derive_each, extend_pair, transitive, derived,
}

-- One application of a rule to triples of a list.
pub data Derives (v : Vocab) (ts : List Row) : Row → Type 0 where
  rdfs2 :
      {x p y c : TermId}
      → Memᴰ (p, v.rdfs_domain, c) ts
      → Memᴰ (x, p, y) ts
      → Derives v ts (x, v.rdf_type, c)
  rdfs3 :
      {x p y c : TermId}
      → Memᴰ (p, v.rdfs_range, c) ts
      → Memᴰ (x, p, y) ts
      → Derives v ts (y, v.rdf_type, c)
  rdfs5 :
      {p q r : TermId}
      → Memᴰ (p, v.rdfs_sub_property_of, q) ts
      → Memᴰ (q, v.rdfs_sub_property_of, r) ts
      → p ≢ r
      → Derives v ts (p, v.rdfs_sub_property_of, r)
  rdfs7 :
      {x p y q : TermId}
      → Memᴰ (p, v.rdfs_sub_property_of, q) ts
      → Memᴰ (x, p, y) ts
      → Derives v ts (x, q, y)
  rdfs9 :
      {x c d : TermId}
      → Memᴰ (c, v.rdfs_sub_class_of, d) ts
      → Memᴰ (x, v.rdf_type, c) ts
      → Derives v ts (x, v.rdf_type, d)
  rdfs11 :
      {c d e : TermId}
      → Memᴰ (c, v.rdfs_sub_class_of, d) ts
      → Memᴰ (d, v.rdfs_sub_class_of, e) ts
      → c ≢ e
      → Derives v ts (c, v.rdfs_sub_class_of, e)

Memᴰ-pairs : (ts : List Row) (p a b : TermId) → Memᴰ (a, b) (pairs ts p) ↔ Memᴰ (a, p, b) ts
unfolding pairs
Memᴰ-pairs ts p a b = (
  λ m.
      let (t, k, e) = Memᴰ.of_map (λ (t : Row). (t.0, t.2)) (filter (λ (t : Row). t.1 == p) ts) m in
      let (inside, same) = (Memᴰ-filter (λ (t : Row). t.1 == p) t ts).0 k in
      Memᴰ.cast (ground arith) inside,
  λ m.
      Memᴰ.map (λ (t : Row). (t.0, t.2))
        ((Memᴰ-filter (λ (t : Row). t.1 == p) (a, p, b) ts).1 (m, ground arith)),
)

Memᴰ-matching :
    (r : Row) (key : TermId) (make : TermId → Row) (ps : List (TermId × TermId))
    → Memᴰ r (matching key make ps) ↔ ((b : TermId) × Memᴰ (key, b) ps × (r ≡ make b))
Memᴰ-matching r key make [] = (λ m. absurd (Memᴰ.not-nil m), λ h. absurd (Memᴰ.not-nil h.1))
Memᴰ-matching r key make ((a, b) ∷ rest) =
    let ih = Memᴰ-matching r key make rest in
    elim (Bool-cases (key == a)) [
      | inl e ↦
          let same : key ≡ a = (==_iff key a).0 e in
          rw e (
            λ m.
                ⊎_elim (λ q. (b, Memᴰ.head (ground (arith, same)), q))
                  (λ k. let (c, l, q) = ih.0 k in (c, Memᴰ.tail l, q)) (Memᴰ.cases_cons m),
            λ (c, l, q).
                ⊎_elim
                  (λ f.
                    let there : c ≡ b = ap (λ (p : TermId × TermId). p.1) f in
                    Memᴰ.head (subst (λ z. r ≡ make z) there q))
                  (λ k. Memᴰ.tail (ih.1 (c, k, q))) (Memᴰ.cases_cons l),
          )
      | inr e ↦ rw e (
        λ m. let (c, l, q) = ih.0 m in (c, Memᴰ.tail l, q),
        λ (c, l, q).
            ⊎_elim
              (λ f.
                let same : key ≡ a = ap (λ (p : TermId × TermId). p.0) f in
                absurd (ground (arith, same, e)))
              (λ k. ih.1 (c, k, q)) (Memᴰ.cases_cons l),
      )
    ]

Memᴰ-extend_pair :
    (r : Row) (p a b : TermId) (ps : List (TermId × TermId))
    → Memᴰ r (extend_pair p a b ps) ↔ ((d : TermId) × Memᴰ (b, d) ps × (a ≢ d) × (r ≡ (a, p, d)))
Memᴰ-extend_pair r p a b [] = (λ m. absurd (Memᴰ.not-nil m), λ h. absurd (Memᴰ.not-nil h.1))
Memᴰ-extend_pair r p a b ((c, d) ∷ rest) =
    let ih = Memᴰ-extend_pair r p a b rest in
    elim (Bool-cases ((b == c) && not (a == d))) [
      | inl e ↦
          let same : b ≡ c = ground (arith, e) in
          let differ : a ≢ d = λ q. ground (arith, e, q) in
          rw e (
            λ m.
                ⊎_elim (λ q. (d, Memᴰ.head (ground (arith, same)), differ, q))
                  (λ k. let (x, l, n, q) = ih.0 k in (x, Memᴰ.tail l, n, q)) (Memᴰ.cases_cons m),
            λ (x, l, n, q).
                ⊎_elim
                  (λ f.
                    let there : x ≡ d = ap (λ (p : TermId × TermId). p.1) f in
                    Memᴰ.head (subst (λ z. r ≡ (a, p, z)) there q))
                  (λ k. Memᴰ.tail (ih.1 (x, k, n, q))) (Memᴰ.cases_cons l),
          )
      | inr e ↦ rw e (
        λ m. let (x, l, n, q) = ih.0 m in (x, Memᴰ.tail l, n, q),
        λ (x, l, n, q).
            ⊎_elim
              (λ f.
                let same : b ≡ c = ap (λ (p : TermId × TermId). p.0) f in
                let there : x ≡ d = ap (λ (p : TermId × TermId). p.1) f in
                absurd (ground (arith, same, there, e, n)))
              (λ k. ih.1 (x, k, n, q)) (Memᴰ.cases_cons l),
      )
    ]

Memᴰ-transitive :
    (r : Row) (p : TermId) (all ps : List (TermId × TermId))
    → Memᴰ r (transitive p all ps) ↔ (
        (a : TermId) × (b : TermId) × (d : TermId) × Memᴰ (a, b) ps
        × Memᴰ (b, d) all
        × (a ≢ d)
        × (r ≡ (a, p, d)))
Memᴰ-transitive r p all [] = (λ m. absurd (Memᴰ.not-nil m), λ h. absurd (Memᴰ.not-nil h.3))
Memᴰ-transitive r p all ((a, b) ∷ rest) =
    let ih = Memᴰ-transitive r p all rest in
    let here = Memᴰ-extend_pair r p a b all in
    (
      λ m.
          ⊎_elim (λ k. let (d, l, n, q) = here.0 k in (a, b, d, Memᴰ.head refl, l, n, q))
            (λ k. let (x, y, d, j, l, n, q) = ih.0 k in (x, y, d, Memᴰ.tail j, l, n, q))
            (Memᴰ.append_cases (extend_pair p a b all) m),
      λ (x, y, d, j, l, n, q).
          ⊎_elim
            (λ f.
              let left : x ≡ a = ap (λ (p : TermId × TermId). p.0) f in
              let right : y ≡ b = ap (λ (p : TermId × TermId). p.1) f in
              Memᴰ.append_left _ (
                here.1 (
                  d,
                  subst (λ z. Memᴰ {A = TermId × TermId} (z, d) all) right l,
                  subst (λ z. z ≢ d) left n,
                  subst (λ z. r ≡ (z, p, d)) left q,
                )))
            (λ k. Memᴰ.append_right _ (ih.1 (x, y, d, k, l, n, q))) (Memᴰ.cases_cons j),
    )

module _ (v : Vocab) (ts : List Row) where
  abbrev from_one : Row → List Row
  from_one t =
      derive_one v (pairs ts v.rdfs_domain) (pairs ts v.rdfs_range)
        (pairs ts v.rdfs_sub_property_of) (pairs ts v.rdfs_sub_class_of) t

  abbrev from_each : List Row → List Row
  from_each some_ts =
      derive_each v (pairs ts v.rdfs_domain) (pairs ts v.rdfs_range)
        (pairs ts v.rdfs_sub_property_of) (pairs ts v.rdfs_sub_class_of) some_ts

  from_type_sound :
      (s p o : TermId) (r : Row)
      → Memᴰ (s, p, o) ts
      → Memᴰ r (
          if p == v.rdf_type
          then matching o (λ sup. (s, v.rdf_type, sup)) (pairs ts v.rdfs_sub_class_of)
          else [])
      → Derives v ts r
  from_type_sound s p o r here m = elim (Bool-cases (p == v.rdf_type)) [
    | inl e ↦
        let (d, k, q) = (Memᴰ-matching r o _ _).0 (rw e at m) in
        subst (Derives v ts) (sym q) (
          rdfs9 ((Memᴰ-pairs ts v.rdfs_sub_class_of o d).0 k)
            (subst (λ z. Memᴰ {A = Row} (s, z, o) ts) ((==_iff p v.rdf_type).0 e) here))
    | inr e ↦ absurd (Memᴰ.not-nil (rw e at m))
  ]

  from_one_sound :
      (s p o : TermId) (r : Row) → Memᴰ (s, p, o) ts → Memᴰ r (from_one (s, p, o)) → Derives v ts r
  from_one_sound s p o r here m =
      ⊎_elim
        (λ k.
          let (c, l, q) = (Memᴰ-matching r p (λ class. (s, v.rdf_type, class)) _).0 k in
          subst (Derives v ts) (sym q) (rdfs2 ((Memᴰ-pairs ts v.rdfs_domain p c).0 l) here))
        (λ k1.
          ⊎_elim
            (λ k.
              let (c, l, q) = (Memᴰ-matching r p (λ class. (o, v.rdf_type, class)) _).0 k in
              subst (Derives v ts) (sym q) (rdfs3 ((Memᴰ-pairs ts v.rdfs_range p c).0 l) here))
            (λ k2.
              ⊎_elim
                (λ k.
                  let (c, l, q) = (Memᴰ-matching r p (λ sup. (s, sup, o)) _).0 k in
                  subst (Derives v ts) (sym q)
                    (rdfs7 ((Memᴰ-pairs ts v.rdfs_sub_property_of p c).0 l) here))
                (from_type_sound s p o r here)
                (Memᴰ.append_cases
                  (matching p (λ sup. (s, sup, o)) (pairs ts v.rdfs_sub_property_of)) k2))
            (Memᴰ.append_cases
              (matching p (λ class. (o, v.rdf_type, class)) (pairs ts v.rdfs_range)) k1))
        (Memᴰ.append_cases (matching p (λ class. (s, v.rdf_type, class)) (pairs ts v.rdfs_domain))
          m)

  from_each_sound :
      (us : List Row) (r : Row)
      → ((t : Row) → Memᴰ t us → Memᴰ t ts)
      → Memᴰ r (from_each us)
      → Derives v ts r
  from_each_sound [] r sub m = absurd (Memᴰ.not-nil m)
  from_each_sound (t ∷ us) r sub m =
      ⊎_elim (from_one_sound t.0 t.1 t.2 r (sub t (Memᴰ.head refl)))
        (from_each_sound us r (λ x k. sub x (Memᴰ.tail k))) (Memᴰ.append_cases (from_one t) m)

  from_each_complete :
      (us : List Row) (t r : Row) → Memᴰ t us → Memᴰ r (from_one t) → Memᴰ r (from_each us)
  from_each_complete [] t r m k = absurd (Memᴰ.not-nil m)
  from_each_complete (u ∷ us) t r m k =
      ⊎_elim (λ e. Memᴰ.append_left _ (subst (λ z. Memᴰ r (from_one z)) e k))
        (λ l. Memᴰ.append_right (from_one u) (from_each_complete us t r l k)) (Memᴰ.cases_cons m)

  from_transitive_sound :
      (p : TermId) (r : Row)
      → Memᴰ r (transitive p (pairs ts p) (pairs ts p))
      → (a : TermId) × (b : TermId) × (d : TermId) × Memᴰ (a, p, b) ts
        × Memᴰ (b, p, d) ts
        × (a ≢ d)
        × (r ≡ (a, p, d))
  from_transitive_sound p r m =
      let (a, b, d, k, l, n, q) = (Memᴰ-transitive r p (pairs ts p) (pairs ts p)).0 m in
      (a, b, d, (Memᴰ-pairs ts p a b).0 k, (Memᴰ-pairs ts p b d).0 l, n, q)

  derived_sound : (r : Row) → Memᴰ r (derived v ts) → Derives v ts r
  unfolding derived
  derived_sound r m =
      ⊎_elim (from_each_sound ts r (λ t k. k))
        (λ rest.
          ⊎_elim
            (λ k.
              let (a, b, d, x, y, n, q) = from_transitive_sound v.rdfs_sub_property_of r k in
              subst (Derives v ts) (sym q) (rdfs5 x y n))
            (λ k.
              let (a, b, d, x, y, n, q) = from_transitive_sound v.rdfs_sub_class_of r k in
              subst (Derives v ts) (sym q) (rdfs11 x y n))
            (Memᴰ.append_cases
              (transitive v.rdfs_sub_property_of (pairs ts v.rdfs_sub_property_of)
                (pairs ts v.rdfs_sub_property_of))
              rest))
        (Memᴰ.append_cases (from_each ts) m)

  abbrev from_properties : List Row
  from_properties =
      transitive v.rdfs_sub_property_of (pairs ts v.rdfs_sub_property_of)
        (pairs ts v.rdfs_sub_property_of)

  from_transitive_complete :
      (p a b d : TermId)
      → Memᴰ (a, p, b) ts
      → Memᴰ (b, p, d) ts
      → a ≢ d
      → Memᴰ (a, p, d) (transitive p (pairs ts p) (pairs ts p))
  from_transitive_complete p a b d k l n =
      (Memᴰ-transitive (a, p, d) p (pairs ts p) (pairs ts p)).1
        (a, b, d, (Memᴰ-pairs ts p a b).1 k, (Memᴰ-pairs ts p b d).1 l, n, refl)

  from_type_complete :
      (x c d : TermId)
      → Memᴰ (c, v.rdfs_sub_class_of, d) ts
      → Memᴰ
          (x, v.rdf_type, d)
          (if v.rdf_type == v.rdf_type
            then matching c (λ sup. (x, v.rdf_type, sup)) (pairs ts v.rdfs_sub_class_of)
            else [])
  from_type_complete x c d k = rw ((==_iff v.rdf_type v.rdf_type).1 refl) (
      (Memᴰ-matching _ c (λ sup. (x, v.rdf_type, sup)) (pairs ts v.rdfs_sub_class_of)).1
        (d, (Memᴰ-pairs ts v.rdfs_sub_class_of c d).1 k, refl))

  derived_complete : (r : Row) → Derives v ts r → Memᴰ r (derived v ts)
  unfolding derived
  derived_complete _ (rdfs2 {x} {p} {y} {c} d here) = Memᴰ.append_left _ (
      from_each_complete ts (x, p, y) _ here
        (Memᴰ.append_left _ (
          (Memᴰ-matching _ p (λ class. (x, v.rdf_type, class)) _).1
            (c, (Memᴰ-pairs ts v.rdfs_domain p c).1 d, refl))))
  derived_complete _ (rdfs3 {x} {p} {y} {c} d here) = Memᴰ.append_left _ (
      from_each_complete ts (x, p, y) _ here
        (Memᴰ.append_right _ (
          Memᴰ.append_left _ (
            (Memᴰ-matching _ p (λ class. (y, v.rdf_type, class)) _).1
              (c, (Memᴰ-pairs ts v.rdfs_range p c).1 d, refl)))))
  derived_complete _ (rdfs7 {x} {p} {y} {q} d here) = Memᴰ.append_left _ (
      from_each_complete ts (x, p, y) _ here
        (Memᴰ.append_right _ (
          Memᴰ.append_right _ (
            Memᴰ.append_left _ (
              (Memᴰ-matching _ p (λ sup. (x, sup, y)) _).1
                (q, (Memᴰ-pairs ts v.rdfs_sub_property_of p q).1 d, refl))))))
  derived_complete _ (rdfs9 {x} {c} {d = e} d here) = Memᴰ.append_left _ (
      from_each_complete ts (x, v.rdf_type, c) _ here
        (Memᴰ.append_right
          (matching v.rdf_type (λ class. (x, v.rdf_type, class)) (pairs ts v.rdfs_domain))
          (Memᴰ.append_right
            (matching v.rdf_type (λ class. (c, v.rdf_type, class)) (pairs ts v.rdfs_range))
            (Memᴰ.append_right
              (matching v.rdf_type (λ sup. (x, sup, c)) (pairs ts v.rdfs_sub_property_of))
              (from_type_complete x c e d)))))
  derived_complete _ (rdfs5 k l n) =
      Memᴰ.append_right (from_each ts)
        (Memᴰ.append_left _ (from_transitive_complete v.rdfs_sub_property_of _ _ _ k l n))
  derived_complete _ (rdfs11 k l n) =
      Memᴰ.append_right (from_each ts) (
        Memᴰ.append_right from_properties
          (from_transitive_complete v.rdfs_sub_class_of _ _ _ k l n))

  -- One round derives exactly what one application of the six rules gives.
  pub Memᴰ-derived : (r : Row) → Memᴰ r (derived v ts) ↔ Derives v ts r
  Memᴰ-derived r = (derived_sound r, derived_complete r)

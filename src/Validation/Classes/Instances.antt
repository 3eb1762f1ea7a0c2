-- ===== src/Validation/Classes/Instances.antt =====
-- SHACL instances: the class hierarchy and the instances of a class, against the meaning of the
-- property path `rdf:type/rdfs:subClassOf*`.
use shacl_engine.Common.{
  suc, ◌+◌, ◌≡◌, ◌↔◌, ◌⊎◌, refl, ap, subst, not, some, List, [], ◌∷◌, ◌++◌, length, Memᴰ, Memᴰ-cons,
  Memᴰ-append, Memᴰ-nil, arith, inl, inr, ⊎_elim, length-filter-le,
}
use shacl_engine.Common.Maybe.{◌>>=◌}
use shacl_engine.Common.Members.{has_id}
use shacl_engine.Model.Starts.{TermId, Row}
use shacl_engine.Model.Graph.{Graph, subjects, len}
use shacl_engine.Model.Graph.Access.{IsIndexed, Memᴰ-subjects}
use shacl_engine.Model.Vocab.{Vocab}
use shacl_engine.PropertyPath.{PropertyPath, predicate, zero_or_more, sequence, step, done}
use shacl_engine.PropertyPath.Meaning.{Connects, Relation, Plus, once, again}
use shacl_engine.PropertyPath.Direction.{Plus-flip, Plus-flip_back}
use shacl_engine.Validation.Classes.{subclasses, all_subjects, instances_of, instances_of_any}
use shacl_engine.Validation.Classes.Worklist.{descend_lem}

-- `rdf:type/rdfs:subClassOf*`
abbrev pub instance_path : Vocab → PropertyPath
instance_path v =
    sequence
      (step (predicate v.rdf_type) (step (zero_or_more (predicate v.rdfs_sub_class_of)) done))

abbrev leads : List Row → List TermId
leads [] = []
leads ((s, p, o) ∷ rows) = s ∷ leads rows

Memᴰ-leads :
    (s p o : TermId) (rows : List Row) → Memᴰ {A = Row} (s, p, o) rows → Memᴰ s (leads rows)
Memᴰ-leads s p o [] m = absurd (Memᴰ-nil {A = Row} (s, p, o) m)
Memᴰ-leads s p o ((s', p', o') ∷ rows) m =
    ⊎_elim (λ e. Memᴰ.head (ap (λ (r : Row). r.0) e)) (λ k. Memᴰ.tail (Memᴰ-leads s p o rows k))
      ((Memᴰ-cons {A = Row} (s, p, o) (s', p', o') rows).0 m)

length-leads : (rows : List Row) → length (leads rows) ≡ length rows
length-leads [] = refl
length-leads ((s, p, o) ∷ rows) = ap suc (length-leads rows)

Plus-map :
    (R S : Relation) (a : TermId) {b : TermId}
    → ((x y : TermId) → R x y → S x y)
    → Plus R a b
    → Plus S a b
Plus-map R S a f (once r) = once (f _ _ r)
Plus-map R S a f (again p r) = again (Plus-map R S a f p) (f _ _ r)

module _ (g : Graph) (v : Vocab) (ix : IsIndexed g) where
  abbrev pub Sub : Relation
  Sub a b = Memᴰ {A = Row} (a, v.rdfs_sub_class_of, b) g.spo

  abbrev Down : Relation
  Down c x = Memᴰ x (subjects g v.rdfs_sub_class_of c)

  down_Sub : (c x : TermId) → Down c x ↔ Sub x c
  down_Sub c x = Memᴰ-subjects g ix x v.rdfs_sub_class_of c

  -- The classes found are the class and what the subclass relation leads to it.
  pub subclasses_lem :
      (class : TermId)
      → (cs : List TermId) × (subclasses g v class ≡ some cs)
        × ((c : TermId) → Memᴰ c cs ↔ ((c ≡ class) ⊎ Plus Sub c class))
  unfolding subclasses len
  subclasses_lem class =
      let (cs, e, exact) =
        descend_lem (subjects g v.rdfs_sub_class_of) (leads g.spo) class
          (λ c x m. Memᴰ-leads x v.rdfs_sub_class_of c g.spo ((down_Sub c x).0 m)) (2 + len g)
          (class ∷ []) (class ∷ [])
          record {
            start = Memᴰ.head refl;
            sound = λ x m. ⊎_elim inl (λ k. absurd (Memᴰ-nil x k)) ((Memᴰ-cons x class []).0 m);
            known = λ x m. m;
            closed = λ c m. inl m;
          }
          (omega (
            arith,
            length-filter-le (λ x. not (has_id (class ∷ []) x)) (leads g.spo),
            length-leads g.spo,
          )) in
      (
        cs,
        e,
        λ c. (
          λ m.
              ⊎_elim inl
                (λ p. inr (
                  Plus-flip Sub class
                    (Plus-map Down (λ x y. Sub y x) class (λ x y. (down_Sub x y).0) p)))
                ((exact c).0 m),
          λ b. (exact c).1 (
              ⊎_elim inl
                (λ p. inr (
                  Plus-map (λ x y. Sub y x) Down class (λ x y. (down_Sub x y).1)
                    (Plus-flip_back Sub c p)))
                b),
        ),
      )

  all_subjects_lem :
      (x : TermId) (cs : List TermId)
      → Memᴰ x (all_subjects g v.rdf_type cs)
        ↔ ((c : TermId) × Memᴰ c cs × Memᴰ {A = Row} (x, v.rdf_type, c) g.spo)
  all_subjects_lem x [] = (λ m. absurd (Memᴰ-nil x m), λ t. absurd (Memᴰ-nil t.0 t.1))
  all_subjects_lem x (c ∷ cs) = (
    λ m.
        ⊎_elim (λ k. (c, Memᴰ.head refl, (Memᴰ-subjects g ix x v.rdf_type c).0 k))
          (λ k. let (d, n, t) = (all_subjects_lem x cs).0 k in (d, Memᴰ.tail n, t))
          ((Memᴰ-append x (subjects g v.rdf_type c) (all_subjects g v.rdf_type cs)).0 m),
    λ t. (Memᴰ-append x (subjects g v.rdf_type c) (all_subjects g v.rdf_type cs)).1 (
        ⊎_elim
          (λ e. inl (
            (Memᴰ-subjects g ix x v.rdf_type c).1
              (subst (λ d. Memᴰ {A = Row} (x, v.rdf_type, d) g.spo) e t.2)))
          (λ n. inr ((all_subjects_lem x cs).1 (t.0, n, t.2))) ((Memᴰ-cons t.0 c cs).0 t.1)),
  )

  -- Over an indexed graph the instances of a class are found, and are exactly the nodes that
  -- `rdf:type/rdfs:subClassOf*` connects to it.
  pub instances_of_lem :
      (class : TermId)
      → (xs : List TermId) × (instances_of g v class ≡ some xs)
        × ((x : TermId) → Memᴰ x xs ↔ Connects g (instance_path v) x class)
  unfolding instances_of Connects
  instances_of_lem class =
      let (cs, e, exact) = subclasses_lem class in
      (
        all_subjects g v.rdf_type cs,
        rw (e, ◌>>=◌) refl,
        λ x. (
          λ m. let (c, n, t) = (all_subjects_lem x cs).0 m in (c, t, (class, (exact c).0 n, refl)),
          λ k.
              let (c, t, (d, r, same)) = k in
              (all_subjects_lem x cs).1
                (c, (exact c).1 (subst (λ y. (c ≡ y) ⊎ Plus Sub c y) same r), t),
        ),
      )

  -- What makes a node an instance of one of several classes.
  abbrev pub IsInstance : List TermId → TermId → Type 0
  IsInstance classes x = (c : TermId) × Memᴰ c classes × Connects g (instance_path v) x c

  pub instances_of_any_lem :
      (classes : List TermId)
      → (xs : List TermId) × (instances_of_any g v classes ≡ some xs)
        × ((x : TermId) → Memᴰ x xs ↔ IsInstance classes x)
  instances_of_any_lem [] =
      ([], refl, λ x. (λ m. absurd (Memᴰ-nil x m), λ t. absurd (Memᴰ-nil t.0 t.1)))
  instances_of_any_lem (c ∷ cs) =
      let (xs, e, exact) = instances_of_lem c in
      let (ys, e', exact') = instances_of_any_lem cs in
      (
        xs ++ ys,
        rw (e, ◌>>=◌) (rw (e', ◌>>=◌) refl),
        λ x. (
          λ m.
              ⊎_elim (λ k. (c, Memᴰ.head refl, (exact x).0 k))
                (λ k. let (d, n, t) = (exact' x).0 k in (d, Memᴰ.tail n, t))
                ((Memᴰ-append x xs ys).0 m),
          λ t. (Memᴰ-append x xs ys).1 (
              ⊎_elim
                (λ here. inl ((exact x).1 (subst (λ d. Connects g (instance_path v) x d) here t.2)))
                (λ n. inr ((exact' x).1 (t.0, n, t.2))) ((Memᴰ-cons t.0 c cs).0 t.1)),
        ),
      )

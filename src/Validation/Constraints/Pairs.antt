-- ===== src/Validation/Constraints/Pairs.antt =====
-- The constraints that compare a row's values with those of another path.
use shacl_engine.Common.{
  ◌+◌, ◌*◌, ◌^◌, ◌<◌, ◌≡◌, ◌↔◌, refl, sym, ap, ◌∙◌, subst, Bool, true, false, not, List, [], ◌∷◌,
  ◌++◌, map, filter, Memᴰ, Memᴰ-cons, Memᴰ-nil, arith, Bool-cases, inl, inr, ⊎_elim, if◌then◌else◌,
  nat_ord,
}
use shacl_engine.Common.Members.{has_id, has_id_iff}
use shacl_engine.Common.Strict.{sort_dedup, Memᴰ-sort_dedup}
use shacl_engine.Error.{Bounded}
use shacl_engine.Model.Starts.{TermId}
use shacl_engine.Model.Graph.{Graph, len}
use shacl_engine.Model.Graph.Access.{IsIndexed}
use shacl_engine.PropertyPath.{PropertyPath}
use shacl_engine.PropertyPath.Meaning.{Connects}
use shacl_engine.PropertyPath.Evaluate.{eval_lem}
use shacl_engine.Report.{ValidationResult}
use shacl_engine.Validation.Run.{returns, continue}
use shacl_engine.Validation.Steps.{Validator, lift}
use shacl_engine.Validation.Constraints.{eval_rows}
use shacl_engine.Shapes.{Shape, Constraint, equals, disjoint, subset_of}
use shacl_engine.ValueSet.{Row}
use shacl_engine.Validation.{Services, Engine, Context}
use shacl_engine.Validation.Bounded.{◌>>=◌, done, bounded, collect}
use shacl_engine.Validation.Values.{path_values, faults, equals_row, disjoint_row, subset_row}

-- A path's values are found, and are what the path connects to the focus node.
path_values_lem :
    (g : Graph) (focus : TermId) (p : PropertyPath)
    → IsIndexed g
    → 1 + 2 * len g < 2 ^ 32
    → (xs : List TermId) × (path_values g focus p ≡ done xs)
      × ((v : TermId) → Memᴰ v xs ↔ Connects g p focus v)
unfolding path_values
path_values_lem g focus p ix fits =
    let (xs, e, exact) = eval_lem g (2 + 2 * len g) p focus ix fits (omega arith) in
    (
      sort_dedup xs,
      rw (e, bounded, ◌>>=◌) refl,
      λ v. let m = Memᴰ-sort_dedup v xs in let x = exact v in (λ k. x.0 (m.0 k), λ k. m.1 (x.1 k)),
    )

pub append_left_nil {ℓ} : {A : Type ℓ} (xs ys : List A) → xs ++ ys ≡ [] → xs ≡ []
append_left_nil [] ys e = refl
append_left_nil (x ∷ xs) ys e = cc

pub append_right_nil {ℓ} : {A : Type ℓ} (xs ys : List A) → xs ++ ys ≡ [] → ys ≡ []
append_right_nil [] ys e = e
append_right_nil (x ∷ xs) ys e = cc

not_both : (b : Bool) → b ≡ true → not b ≡ true → ⊥
not_both true e k = cc
not_both false e k = cc

refuted : (b : Bool) → (b ≡ true → ⊥) → not b ≡ true
refuted true k = absurd (k refl)
refuted false k = refl

clash : true ≡ false → ⊥
clash e = cc

-- What a loop collects over rows whose results are known, and when it is nothing.
collect_none :
    (f : Row → Bounded (List ValidationResult)) (IsMet : Row → Type 0) (rows : List Row)
    → ((row : Row) → (rs : List ValidationResult) × (f row ≡ done rs) × ((rs ≡ []) ↔ IsMet row))
    → (rs : List ValidationResult) × (collect f rows ≡ done rs)
      × ((rs ≡ []) ↔ ((row : Row) → Memᴰ row rows → IsMet row))
unfolding collect
collect_none f IsMet [] each_row = ([], refl, (λ _ row m. absurd (Memᴰ-nil row m), λ _. refl))
collect_none f IsMet (row ∷ rows) each_row =
    let (rs, e, met) = each_row row in
    let (more, e', met') = collect_none f IsMet rows each_row in
    (
      rs ++ more,
      rw (e, ◌>>=◌) (rw (e', ◌>>=◌) refl),
      (
        λ none_at r m.
            ⊎_elim (λ here. subst IsMet (sym here) (met.0 (append_left_nil rs more none_at)))
              (λ there. met'.0 (append_right_nil rs more none_at) r there)
              ((Memᴰ-cons r row rows).0 m),
        λ all. rw (met.1 (all row (Memᴰ.head refl))) (met'.1 (λ r m. all r (Memᴰ.tail m))),
      ),
    )

module _ (h : Services) (e : Engine h) (shape : Shape h.compiled) (component focus : TermId) where
  -- No value is at fault exactly if each passes.
  pub faults_none :
      (passes : TermId → Bool) (vs : List TermId)
      → (faults h e shape component focus passes vs ≡ [])
        ↔ ((v : TermId) → Memᴰ v vs → passes v ≡ true)
  unfolding faults
  faults_none passes [] = (λ _ v m. absurd (Memᴰ-nil v m), λ _. refl)
  faults_none passes (v ∷ vs) = elim (Bool-cases (passes v)) [
    | inl good ↦
        rw (good, filter, not, if◌then◌else◌, map)
          (
            λ none_at w m.
                ⊎_elim (λ here. ap passes here ∙ good)
                  (λ there. (faults_none passes vs).0 none_at w there) ((Memᴰ-cons w v vs).0 m),
            λ all. (faults_none passes vs).1 (λ w m. all w (Memᴰ.tail m)),
          )
    | inr bad ↦
        rw (bad, filter, not, if◌then◌else◌, map)
          (λ none_at. absurd cc, λ all. absurd (clash (sym (all v (Memᴰ.head refl)) ∙ bad)))
  ]

module _ (h : Services) (e : Engine h) (shape : Shape h.compiled) (component : TermId)
    (p : PropertyPath) (ix : IsIndexed e.data_graph)
    (fits : 1 + 2 * len e.data_graph < 2 ^ 32) where
  -- What the path connects a row's focus node to.
  abbrev pub Other : Row → TermId → Type 0
  Other row v = Connects e.data_graph p row.focus v

  abbrev pub Returns : (Row → Bounded (List ValidationResult)) → (Row → Type 0) → Type 0
  Returns f IsMet =
      (row : Row) → (rs : List ValidationResult) × (f row ≡ done rs) × ((rs ≡ []) ↔ IsMet row)

  -- A constraint returns, adds results to the context and nothing else, and adds none exactly if
  -- every row meets a condition.
  abbrev pub Pushes :
      Constraint h.compiled
      → (Row → Type 0)
      → Validator h
      → List Row
      → List TermId
      → Context h
      → Type 0
  Pushes c IsMet validate rows all context =
      (rs : List ValidationResult) × (eval_rows h e validate shape component rows all c context
        ≡ returns tt (record context { out = context.out ++ rs }))
      × ((rs ≡ []) ↔ ((row : Row) → Memᴰ row rows → IsMet row))

  pub equals_row_lem :
      Returns
        (equals_row h e shape component p)
        (λ row. (v : TermId) → Memᴰ v row.values ↔ Other row v)
  unfolding equals_row
  equals_row_lem row =
      let (xs, at, exact) = path_values_lem e.data_graph row.focus p ix fits in
      let mine = faults_none h e shape component row.focus (has_id xs) row.values in
      let theirs = faults_none h e shape component row.focus (has_id row.values) xs in
      (
        faults h e shape component row.focus (has_id xs) row.values
            ++ faults h e shape component row.focus (has_id row.values) xs,
        rw (at, ◌>>=◌) refl,
        (
          λ none_at v. (
            λ m. (exact v).0 ((has_id_iff xs v).0 (mine.0 (append_left_nil _ _ none_at) v m)),
            λ r.
                (has_id_iff row.values v).0
                  (theirs.0 (append_right_nil _ _ none_at) v ((exact v).1 r)),
          ),
          λ all.
              rw (mine.1 (λ v m. (has_id_iff xs v).1 ((exact v).1 ((all v).0 m))))
                (theirs.1 (λ v m. (has_id_iff row.values v).1 ((all v).1 ((exact v).0 m)))),
        ),
      )

  pub subset_row_lem :
      Returns
        (subset_row h e shape component p)
        (λ row. (v : TermId) → Memᴰ v row.values → Other row v)
  unfolding subset_row
  subset_row_lem row =
      let (xs, at, exact) = path_values_lem e.data_graph row.focus p ix fits in
      let mine = faults_none h e shape component row.focus (has_id xs) row.values in
      (
        faults h e shape component row.focus (has_id xs) row.values,
        rw (at, ◌>>=◌) refl,
        (
          λ none_at v m. (exact v).0 ((has_id_iff xs v).0 (mine.0 none_at v m)),
          λ all. mine.1 (λ v m. (has_id_iff xs v).1 ((exact v).1 (all v m))),
        ),
      )

  pub disjoint_row_lem :
      Returns
        (disjoint_row h e shape component p)
        (λ row. (v : TermId) → Memᴰ v row.values → ¬ Other row v)
  unfolding disjoint_row
  disjoint_row_lem row =
      let (xs, at, exact) = path_values_lem e.data_graph row.focus p ix fits in
      let mine = faults_none h e shape component row.focus (λ v. not (has_id xs v)) row.values in
      (
        faults h e shape component row.focus (λ v. not (has_id xs v)) row.values,
        rw (at, ◌>>=◌) refl,
        (
          λ none_at v m r.
              not_both (has_id xs v) ((has_id_iff xs v).1 ((exact v).1 r)) (mine.0 none_at v m),
          λ all.
              mine.1
                (λ v m. refuted (has_id xs v) (λ k. all v m ((exact v).0 ((has_id_iff xs v).0 k)))),
        ),
      )

  -- Over an indexed graph of fewer than `2 ^ 32` nodes, `sh:equals`, `sh:disjoint` and `sh:subsetOf`
  -- return, push some results and change nothing else. `sh:equals` pushes none exactly if in every
  -- row the values are those that the path connects the focus node to, `sh:disjoint` exactly if none
  -- of the values is one of those, and `sh:subsetOf` exactly if all of the values are.
  pub eval_rows_pairs :
      (validate : Validator h) (rows : List Row) (all : List TermId) (c : Context h)
      → Pushes
          (equals p)
          (λ row. (v : TermId) → Memᴰ v row.values ↔ Other row v)
          validate
          rows
          all
          c
        × Pushes
            (disjoint p)
            (λ row. (v : TermId) → Memᴰ v row.values → ¬ Other row v)
            validate
            rows
            all
            c
        × Pushes
            (subset_of p)
            (λ row. (v : TermId) → Memᴰ v row.values → Other row v)
            validate
            rows
            all
            c
  unfolding eval_rows
  eval_rows_pairs validate rows all c =
      let (rs1, e1, met1) = collect_none (equals_row h e shape component p) _ rows equals_row_lem in
      let (rs2, e2, met2) =
        collect_none (disjoint_row h e shape component p) _ rows disjoint_row_lem in
      let (rs3, e3, met3) = collect_none (subset_row h e shape component p) _ rows subset_row_lem in
      (
        (rs1, rw (e1, lift, continue, ◌>>=◌) refl, met1),
        (rs2, rw (e2, lift, continue, ◌>>=◌) refl, met2),
        (rs3, rw (e3, lift, continue, ◌>>=◌) refl, met3),
      )

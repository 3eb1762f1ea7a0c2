-- ===== src/Validation/Constraints/Classes.antt =====
-- `sh:class` against the meaning of an instance.
use shacl_engine.Common.{
  ◌≡◌, ◌↔◌, refl, subst, sym, true, List, [], ◌∷◌, ◌++◌, Bool, Memᴰ, Memᴰ-cons, Memᴰ-nil, ⊎_elim,
  nat_ord,
}
use shacl_engine.Common.Members.{has_id, has_id_iff}
use shacl_engine.Common.Strict.{sort_dedup, Memᴰ-sort_dedup}
use shacl_engine.Model.Starts.{TermId}
use shacl_engine.Model.Graph.Access.{IsIndexed}
use shacl_engine.Report.{ValidationResult}
use shacl_engine.Shapes.{Shape, Constraint}
use shacl_engine.ValueSet.{Row}
use shacl_engine.Validation.{Services, Engine, Context}
use shacl_engine.Validation.Run.{returns, continue, ◌>>=◌}
use shacl_engine.Validation.Bounded.{bounded}
use shacl_engine.Validation.Steps.{Validator, lift}
use shacl_engine.Validation.Values.{per_value, faults}
use shacl_engine.Validation.Constraints.{eval_rows}
use shacl_engine.Validation.Constraints.Pairs.{append_left_nil, append_right_nil, faults_none}
use shacl_engine.Validation.Classes.Instances.{IsInstance, instances_of_any_lem}

module _ (h : Services) (e : Engine h) (shape : Shape h.compiled) (component : TermId) where
  -- No row has a value at fault exactly if each value passes.
  pub per_value_none :
      (passes : TermId → Bool) (rows : List Row)
      → (per_value h e shape component passes rows ≡ [])
        ↔ ((row : Row) → Memᴰ row rows → (v : TermId) → Memᴰ v row.values → passes v ≡ true)
  unfolding per_value
  per_value_none passes [] = (λ _ row m. absurd (Memᴰ-nil row m), λ _. refl)
  per_value_none passes (row ∷ rows) =
      let here = faults_none h e shape component row.focus passes row.values in
      let there = per_value_none passes rows in
      let vs = faults h e shape component row.focus passes row.values in
      let more = per_value h e shape component passes rows in
      (
        λ none_at r m.
            ⊎_elim
              (λ same.
                subst (λ (q : Row). (v : TermId) → Memᴰ v q.values → passes v ≡ true) (sym same)
                  (here.0 (append_left_nil vs more none_at)))
              (λ k. there.0 (append_right_nil vs more none_at) r k) ((Memᴰ-cons r row rows).0 m),
        λ all. rw (here.1 (all row (Memᴰ.head refl))) (there.1 (λ r m. all r (Memᴰ.tail m))),
      )

  -- Over an indexed graph `sh:class` returns, pushes some results and changes nothing else, and pushes
  -- none exactly if every value of every row is connected to one of the classes by the path
  -- `rdf:type/rdfs:subClassOf*`.
  pub eval_rows_class :
      (ix : IsIndexed e.data_graph) (validate : Validator h) (rows : List Row) (all : List TermId)
      (classes : List TermId) (c : Context h)
      → (rs : List ValidationResult) × (eval_rows h e validate shape component rows all
            (Constraint.class classes)
            c
          ≡ returns tt (record c { out = c.out ++ rs }))
        × ((rs ≡ []) ↔ (
            (row : Row)
            → Memᴰ row rows
            → (v : TermId) → Memᴰ v row.values
            → IsInstance e.data_graph e.vocab ix classes v))
  unfolding eval_rows
  eval_rows_class ix validate rows all classes c =
      let (xs, at, exact) = instances_of_any_lem e.data_graph e.vocab ix classes in
      let met = per_value_none (has_id (sort_dedup xs)) rows in
      (
        per_value h e shape component (has_id (sort_dedup xs)) rows,
        rw (at, bounded, lift, continue, ◌>>=◌) refl,
        (
          λ none_at row m v k. (exact v).0 (
              (Memᴰ-sort_dedup v xs).0
                ((has_id_iff (sort_dedup xs) v).0 (met.0 none_at row m v k))),
          λ good. met.1 (λ row m v k.
              (has_id_iff (sort_dedup xs) v).1
                ((Memᴰ-sort_dedup v xs).1 ((exact v).1 (good row m v k)))),
        ),
      )

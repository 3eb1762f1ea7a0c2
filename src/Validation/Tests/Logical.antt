-- ===== src/Validation/Tests/Logical.antt =====
-- The logical constraints over the validator itself, inside a frame.
use shacl_engine.Validation.Frames.Restore.{IsConsistent}
use mathlib.Core.List.{append-nil}
use mathlib.Core.List.Memᴰ
use shacl_engine.Common.{
  ap, sym, ◌∙◌, subst, ◌≡◌, refl, ◌==◌, Bool, not, List, [], ◌∷◌, ◌++◌, Memᴰ, arith, length, filter,
}
use shacl_engine.Report.{ValidationResult}
use shacl_engine.Shapes.{Shape, max_count, ShapeId, not_shape, and_shapes, or_shapes, xone}
use shacl_engine.ValueSet.{Row}
use shacl_engine.Validation.{Engine, Context, Stack, no_stack}
use shacl_engine.Model.Starts.{TermId}
use shacl_engine.Validation.Steps.{Validator}
use shacl_engine.Validation.Run.{Run, returns, Keeps}
use shacl_engine.Validation.Frames.{validate_shape, enter}
use shacl_engine.Validation.Frames.Nesting.{validate_shape_restores}
use shacl_engine.Common.Members.{any}
use shacl_engine.Validation.Constraints.Logical.{
  all, at, conforms_to_shape, Requires, eval_rows_logical,
}
use shacl_engine.Validation.Tests.{compiled, services, recursive, engine, row}

-- Of three shapes the first allows `4` no value of `20`, and faults it; the second asks nothing.
abbrev asks_nothing : Shape compiled
asks_nothing = record recursive { constraints = [] }

abbrev members : Engine services
members = record engine {
  shapes = record {
    shapes = record recursive { constraints = max_count 0 ∷ [] } ∷ asks_nothing ∷ recursive ∷ [];
    by_node = [];
    roots = 2 ∷ [];
  };
}

-- Inside a frame of the third shape, which has `1` as its focus node.
abbrev inside : Stack
unfolding enter
inside = record (enter no_stack ((2, 1) ∷ [])) { depth = 1 }

data Asked : ShapeId → TermId → Type 0 where
  first_asked : Asked 0 4
  second_asked : Asked 1 4

abbrev results_of : Run (Context services) (Unit {0}) → List ValidationResult
results_of (returns _ c) = c.out
results_of _ = []

abbrev found_by : ShapeId → TermId → List ValidationResult
unfolding validate_shape
found_by id n = results_of (
    validate_shape services members 47 20 id (n ∷ [])
      (at services members (validate_shape services members 47 20) inside tt []))

faulted : (length (found_by 0 4) ≡ 1) × (found_by 1 4 ≡ [])
unfolding found_by validate_shape shacl_engine.Model.Graph.objects
faulted = (refl, refl)

inside_good : IsConsistent inside
unfolding inside enter
inside_good q = refl

abbrev by_program : Validator services
by_program = validate_shape services members 47 20

answers :
    (id : ShapeId) (n : TermId)
    → Asked id n
    → (out : List ValidationResult)
    → by_program id (n ∷ []) (at services members by_program inside tt out)
      ≡ returns tt (at services members by_program inside tt (out ++ found_by id n))
unfolding found_by validate_shape shacl_engine.Model.Graph.objects Keeps
answers _ _ first_asked out =
    ap (λ s. returns tt record { out = out ++ found_by 0 4; stack = s; store = tt })
      (validate_shape_restores services members 47 20 0 (4 ∷ [])
        (at services members by_program inside tt out) inside_good (omega arith))
answers _ _ second_asked out =
    ap (λ s. returns tt record { out = out; stack = s; store = tt })
      (validate_shape_restores services members 47 20 1 (4 ∷ [])
        (at services members by_program inside tt out) inside_good (omega arith))
    ∙ ap (λ o. returns tt record { out = o; stack = inside; store = tt }) (sym (append-nil out))

only {ℓ} : {A : Type ℓ} {a x : A} → Memᴰ a (x ∷ []) → a ≡ x
only (Memᴰ.head e) = e
only (Memᴰ.tail m) = absurd (Memᴰ.not-nil m)

each-Asked : (m : ShapeId) → Memᴰ m (0 ∷ 0 ∷ 1 ∷ []) → Asked m 4
each-Asked m (Memᴰ.head e) = subst (λ i. Asked i 4) (sym e) first_asked
each-Asked m (Memᴰ.tail (Memᴰ.head e)) = subst (λ i. Asked i 4) (sym e) first_asked
each-Asked m (Memᴰ.tail (Memᴰ.tail k)) = subst (λ i. Asked i 4) (sym (only k)) second_asked

Asked-at_4 :
    (r : Row)
    → Memᴰ r (row ∷ [])
    → (v : TermId) → Memᴰ v r.values
    → (m : ShapeId) → Memᴰ m (0 ∷ 0 ∷ 1 ∷ [])
    → Asked m v
Asked-at_4 r i v j m k =
    let here : r ≡ row = only i in
    let value : v ≡ 4 = only (subst (λ t. Memᴰ v t.values) here j) in
    subst (Asked m) (sym value) (each-Asked m k)

abbrev conforms_by : ShapeId → TermId → Bool
conforms_by = conforms_to_shape services members by_program inside tt Asked found_by answers

eval_rows_logical_example :
    Requires services members by_program inside tt Asked found_by answers recursive 210
      (not_shape 0)
      (λ v. not (conforms_by 0 v))
      (row ∷ [])
      (4 ∷ [])
      []
    × Requires services members by_program inside tt Asked found_by answers recursive 210
        (and_shapes (0 ∷ 1 ∷ []))
        (λ v. all (λ m. conforms_by m v) (0 ∷ 1 ∷ []))
        (row ∷ [])
        (4 ∷ [])
        []
    × Requires services members by_program inside tt Asked found_by answers recursive 210
        (or_shapes (0 ∷ 1 ∷ []))
        (λ v. any (λ m. conforms_by m v) (0 ∷ 1 ∷ []))
        (row ∷ [])
        (4 ∷ [])
        []
    × Requires services members by_program inside tt Asked found_by answers recursive 210
        (xone (0 ∷ 1 ∷ []))
        (λ v. length (filter (λ m. conforms_by m v) (0 ∷ 1 ∷ [])) == 1)
        (row ∷ [])
        (4 ∷ [])
        []
eval_rows_logical_example =
    eval_rows_logical services members by_program inside tt Asked found_by answers recursive 210
      (row ∷ []) (4 ∷ []) 0 (0 ∷ 1 ∷ []) [] Asked-at_4

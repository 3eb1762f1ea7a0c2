-- ===== src/Validation/Constraints/Logical.antt =====
-- The logical constraints, over a validator whose answers are known.
use shacl_engine.Common.{
  suc, ◌≡◌, ◌↔◌, refl, sym, ap, ◌∙◌, Bool, true, false, not, ◌&&◌, ◌||◌, List, [], ◌∷◌, ◌++◌, ◌==◌,
  Memᴰ, filter, length, if◌then◌else◌, Bool-cases, inl, inr,
}
use shacl_engine.Common.Members.{any}
use shacl_engine.Model.Starts.{TermId}
use shacl_engine.Report.{ValidationResult}
use shacl_engine.Shapes.{ShapeId, Shape, Constraint, not_shape, and_shapes, or_shapes, xone}
use shacl_engine.ValueSet.{Row}
use shacl_engine.Validation.{Services, Engine, Context, Stack}
use shacl_engine.Validation.Run.{returns, continue, ◌>>=◌, return, each}
use shacl_engine.Validation.Steps.{
  Step, Validator, conforms, scratch_of, all_conform, any_conforms, count_conforming,
}
use shacl_engine.Validation.Values.{is_nil, value_result, per_value, faults}
use shacl_engine.Validation.Constraints.{eval_rows, require, push_unless}
use shacl_engine.Validation.Constraints.Classes.{per_value_none}

-- Whether every member of a list passes, and how many do.
abbrev pub all {ℓ} : {A : Type ℓ} → (A → Bool) → List A → Bool
all p [] = true
all p (a ∷ rest) = p a && all p rest

append_nil {ℓ} : {A : Type ℓ} (xs : List A) → xs ++ [] ≡ xs
append_nil [] = refl
append_nil (x ∷ xs) = ap (λ ys. x ∷ ys) (append_nil xs)

append_two {ℓ} : {A : Type ℓ} (xs ys zs : List A) → (xs ++ ys) ++ zs ≡ xs ++ (ys ++ zs)
append_two [] ys zs = refl
append_two (x ∷ xs) ys zs = ap (λ l. x ∷ l) (append_two xs ys zs)

append_one {ℓ} :
    {A : Type ℓ} (xs : List A) (y : A) (zs : List A) → (xs ++ y ∷ []) ++ zs ≡ xs ++ y ∷ zs
append_one xs y zs = append_two xs (y ∷ []) zs

module _ (h : Services) (e : Engine h) (validate : Validator h) (stack : Stack) (st : h.Store) where
  -- The contexts of one constraint's turn: the results grow, over one stack and one store.
  abbrev pub at : List ValidationResult → Context h
  at out = record { out = out; stack = stack; store = st }

  module _ (Asked : ShapeId → TermId → Type 0) (found : ShapeId → TermId → List ValidationResult)
      (answers : (id : ShapeId) (n : TermId)
        → Asked id n
        → (out : List ValidationResult)
        → validate id (n ∷ []) (at out) ≡ returns tt (at (out ++ found id n))) where
    -- The node is reported for nothing.
    abbrev pub conforms_to_shape : ShapeId → TermId → Bool
    conforms_to_shape id n = is_nil (found id n)

    abbrev AskedEach : List ShapeId → TermId → Type 0
    AskedEach ms n = (m : ShapeId) → Memᴰ m ms → Asked m n

    conforms_lem :
        (id : ShapeId) (n : TermId)
        → Asked id n
        → (out : List ValidationResult)
        → conforms h validate id n (at out) ≡ returns (conforms_to_shape id n) (at out)
    unfolding conforms
    conforms_lem id n a out = rw (answers id n a [], scratch_of, continue, ◌>>=◌) refl

    all_conform_lem :
        (ms : List ShapeId) (n : TermId)
        → AskedEach ms n
        → (out : List ValidationResult)
        → all_conform h validate ms n (at out)
          ≡ returns (all (λ m. conforms_to_shape m n) ms) (at out)
    unfolding all_conform
    all_conform_lem [] n a out = refl
    all_conform_lem (m ∷ ms) n a out =
        rw (conforms_lem m n (a m (Memᴰ.head refl)) out, continue, ◌>>=◌)
          (branch (conforms_to_shape m n) (all_conform h validate ms n)
            (all_conform_lem ms n (λ k i. a k (Memᴰ.tail i)) out))
      where
        branch :
            (b : Bool) (more : Step h Bool) {r : Bool}
            → more (at out) ≡ returns r (at out)
            → (if b then more else return false) (at out) ≡ returns (b && r) (at out)
        branch true more e' = e'
        branch false more e' = refl

    any_conforms_lem :
        (ms : List ShapeId) (n : TermId)
        → AskedEach ms n
        → (out : List ValidationResult)
        → any_conforms h validate ms n (at out)
          ≡ returns (any (λ m. conforms_to_shape m n) ms) (at out)
    unfolding any_conforms
    any_conforms_lem [] n a out = refl
    any_conforms_lem (m ∷ ms) n a out =
        rw (conforms_lem m n (a m (Memᴰ.head refl)) out, continue, ◌>>=◌)
          (branch (conforms_to_shape m n) (any_conforms h validate ms n)
            (any_conforms_lem ms n (λ k i. a k (Memᴰ.tail i)) out))
      where
        branch :
            (b : Bool) (more : Step h Bool) {r : Bool}
            → more (at out) ≡ returns r (at out)
            → (if b then return true else more) (at out) ≡ returns (b || r) (at out)
        branch true more e' = refl
        branch false more e' = e'

    count_conforming_lem :
        (ms : List ShapeId) (n : TermId)
        → AskedEach ms n
        → (out : List ValidationResult)
        → count_conforming h validate ms n (at out)
          ≡ returns (length (filter (λ m. conforms_to_shape m n) ms)) (at out)
    unfolding count_conforming
    count_conforming_lem [] n a out = refl
    count_conforming_lem (m ∷ ms) n a out =
        rw
          (
            conforms_lem m n (a m (Memᴰ.head refl)) out,
            count_conforming_lem ms n (λ k i. a k (Memᴰ.tail i)) out,
            continue,
            ◌>>=◌,
          )
          (ap (λ k. returns k (at out)) (counted (conforms_to_shape m n)))
      where
        counted :
            (b : Bool)
            → (if b
                then suc (length (filter (λ k. conforms_to_shape k n) ms))
                else length (filter (λ k. conforms_to_shape k n) ms))
              ≡ length (
                  if b
                  then m ∷ filter (λ k. conforms_to_shape k n) ms
                  else filter (λ k. conforms_to_shape k n) ms)
        counted true = refl
        counted false = refl

    module _ (shape : Shape h.compiled) (component : TermId) where
      -- A test that answers for each of the values.
      abbrev Answers : (TermId → Step h Bool) → (TermId → Bool) → List TermId → Type 0
      Answers test passes vs =
          (v : TermId)
          → Memᴰ v vs
          → (out : List ValidationResult) → test v (at out) ≡ returns (passes v) (at out)

      -- A test whose answers are known makes the loop over values push what fails it.
      row_lem :
          (test : TermId → Step h Bool) (passes : TermId → Bool) (focus : TermId) (vs : List TermId)
          (known : Answers test passes vs) (out : List ValidationResult)
          → each
              (λ v.
                test v >>= λ good. push_unless h e good (value_result h e shape component focus v))
              vs
              (at out)
            ≡ returns tt (at (out ++ faults h e shape component focus passes vs))
      unfolding each faults
      row_lem test passes focus [] known out = ap (λ o. returns tt (at o)) (sym (append_nil out))
      row_lem test passes focus (v ∷ vs) known out = elim (Bool-cases (passes v)) [
        | inl good ↦
            rw
              (
                known v (Memᴰ.head refl) out,
                good,
                continue,
                ◌>>=◌,
                push_unless,
                filter,
                not,
                if◌then◌else◌,
              )
              (row_lem test passes focus vs (λ w i. known w (Memᴰ.tail i)) out)
        | inr bad ↦
            rw
              (
                known v (Memᴰ.head refl) out,
                bad,
                continue,
                ◌>>=◌,
                push_unless,
                filter,
                not,
                if◌then◌else◌,
              )
              (row_lem test passes focus vs (λ w i. known w (Memᴰ.tail i))
                  (out ++ value_result h e shape component focus v ∷ [])
                ∙ ap (λ o. returns tt (at o))
                    (append_one out (value_result h e shape component focus v)
                      (faults h e shape component focus passes vs)))
      ]

      require_lem :
          (test : TermId → Step h Bool) (passes : TermId → Bool) (rows : List Row)
          (known : (row : Row) → Memᴰ row rows → Answers test passes row.values)
          (out : List ValidationResult)
          → require h e shape component test rows (at out)
            ≡ returns tt (at (out ++ per_value h e shape component passes rows))
      unfolding each per_value
      require_lem test passes [] known out = ap (λ o. returns tt (at o)) (sym (append_nil out))
      require_lem test passes (row ∷ rows) known out =
          rw
            (
              row_lem test passes row.focus row.values (known row (Memᴰ.head refl)) out,
              continue,
              ◌>>=◌,
            )
            (require_lem test passes rows (λ r i. known r (Memᴰ.tail i))
                (out ++ faults h e shape component row.focus passes row.values)
              ∙ ap (λ o. returns tt (at o))
                  (append_two out (faults h e shape component row.focus passes row.values)
                    (per_value h e shape component passes rows)))

      -- What a constraint pushes, and that it is nothing exactly if every value passes.
      abbrev pub Requires :
          Constraint h.compiled
          → (TermId → Bool)
          → List Row
          → List TermId
          → List ValidationResult
          → Type 0
      Requires k passes rows values out =
          (rs : List ValidationResult) × (eval_rows h e validate shape component rows values k
              (at out)
            ≡ returns tt (at (out ++ rs)))
          × ((rs ≡ [])
              ↔ ((row : Row) → Memᴰ row rows → (v : TermId) → Memᴰ v row.values → passes v ≡ true))

      -- Where the validator, over one stack and one store, answers each member for each value by pushing a known list of
      -- results and changing nothing else, the logical constraints over that stack and store return, push some
      -- results and change nothing else; they push none exactly if every value of every row conforms
      -- to none of the shape, to all, to some, or to exactly one of the members, where to conform is
      -- to be reported for nothing.
      pub eval_rows_logical :
          (rows : List Row) (values : List TermId) (id : ShapeId) (ms : List ShapeId)
          (out : List ValidationResult)
          → ((row : Row)
              → Memᴰ row rows
              → (v : TermId) → Memᴰ v row.values
              → (m : ShapeId) → Memᴰ m (id ∷ ms)
              → Asked m v)
          → Requires (not_shape id) (λ v. not (conforms_to_shape id v)) rows values out
            × Requires (and_shapes ms) (λ v. all (λ m. conforms_to_shape m v) ms) rows values out
            × Requires (or_shapes ms) (λ v. any (λ m. conforms_to_shape m v) ms) rows values out
            × Requires
                (xone ms)
                (λ v. length (filter (λ m. conforms_to_shape m v) ms) == 1)
                rows
                values
                out
      unfolding eval_rows
      eval_rows_logical rows values id ms out asked = (
        (
          _,
          require_lem _ (λ v. not (conforms_to_shape id v)) rows
              (λ r i v j d.
                rw (conforms_lem id v (asked r i v j id (Memᴰ.head refl)) d, continue, ◌>>=◌) refl)
              out,
          per_value_none h e shape component (λ v. not (conforms_to_shape id v)) rows,
        ),
        (
          _,
          require_lem _ (λ v. all (λ m. conforms_to_shape m v) ms) rows
              (λ r i v j. all_conform_lem ms v (λ m k. asked r i v j m (Memᴰ.tail k))) out,
          per_value_none h e shape component (λ v. all (λ m. conforms_to_shape m v) ms) rows,
        ),
        (
          _,
          require_lem _ (λ v. any (λ m. conforms_to_shape m v) ms) rows
              (λ r i v j. any_conforms_lem ms v (λ m k. asked r i v j m (Memᴰ.tail k))) out,
          per_value_none h e shape component (λ v. any (λ m. conforms_to_shape m v) ms) rows,
        ),
        (
          _,
          require_lem _ (λ v. length (filter (λ m. conforms_to_shape m v) ms) == 1) rows
              (λ r i v j d.
                rw
                  (
                    count_conforming_lem ms v (λ m k. asked r i v j m (Memᴰ.tail k)) d,
                    continue,
                    ◌>>=◌,
                  )
                  refl)
              out,
          per_value_none h e shape component
              (λ v. length (filter (λ m. conforms_to_shape m v) ms) == 1) rows,
        ),
      )

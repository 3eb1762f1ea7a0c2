-- ===== src/Validation/Frames/Loop.antt =====
-- The loop over frames keeps the frames' visits stacked on the visits it began with.
use shacl_engine.Common.{
  ℕ, zero, suc, ◌+◌, ◌≡◌, refl, sym, subst, Bool, true, false, ◌||◌, Option, none, some, List, [],
  ◌∷◌, if◌then◌else◌, get_elem?,
}
use shacl_engine.Model.Starts.{TermId}
use shacl_engine.PropertyPath.{PropertyPath}
use shacl_engine.Shapes.{ShapeId, Shape, Constraint, property, get}
use shacl_engine.ValueSet.{ValueSets, Builder, builder, finish, push_row}
use shacl_engine.Validation.{Services, Engine, Context, Stack, Frame}
use shacl_engine.Validation.Run.{
  Run, out_of_steps, out_of_levels, panics, fails, returns, Action, continue, ◌>>=◌, ◌>>◌,
  or_panics, Keeps,
}
use shacl_engine.Validation.Values.{is_nil}
use shacl_engine.Validation.Steps.{Step, Validator}
use shacl_engine.Validation.Constraints.{eval}
use shacl_engine.Validation.Safe.{
  Unchanged, IsSafe, IsSafeValidator, return-IsSafe, then_IsSafe, lift-IsSafe,
}
use shacl_engine.Validation.Safe.Eval.{eval_expr-IsSafe, eval-IsSafe}
use shacl_engine.Validation.Frames.{
  visits_of, fresh_focus, Descent, with_context, on_context, expression_rows, focus_sets, add_frame,
  push_fresh, enter_shape, turn, push_frame, pop_frame, advance, step_constraint, next_constraint,
  step_frame, run_frames, leaving, enough,
}
use shacl_engine.Validation.Frames.Stacked.{
  Stacked, Stacked-IsConsistent, depth-Stacked, unwind-Stacked, left,
}
use shacl_engine.Validation.Frames.Restore.{IsConsistent, AreNew, fresh_focus-AreNew}

module _ (h : Services) (e : Engine h) where
  expression_rows-IsSafe :
      (s : Stack) (expr : TermId) (focus : List TermId) (b : Builder)
      → IsSafe h s (expression_rows h e expr focus b)
  unfolding expression_rows
  expression_rows-IsSafe s expr [] b = return-IsSafe h s b
  expression_rows-IsSafe s expr (f ∷ focus) b =
      then_IsSafe h s (eval_expr-IsSafe h e s expr f)
        (λ values. expression_rows-IsSafe s expr focus (push_row b f values))

  focus_sets-IsSafe :
      (s : Stack) (values : Option TermId) (path : Option PropertyPath) (focus : List TermId)
      → IsSafe h s (focus_sets h e values path focus)
  unfolding focus_sets
  focus_sets-IsSafe s (some expr) path focus =
      then_IsSafe h s (expression_rows-IsSafe s expr focus builder)
        (λ b. return-IsSafe h s (finish b))
  focus_sets-IsSafe s none (some p) focus = lift-IsSafe h s _
  focus_sets-IsSafe s none none focus = return-IsSafe h s _

  -- A step that leaves the stack as it is leaves the frames as they are, too.
  abbrev Same : Descent h e → Descent h e → Type 0
  Same d d' = (d'.frames ≡ d.frames) × (d'.context.stack ≡ d.context.stack)

  with_context-Same {ℓ} :
      {A : Type ℓ} (d : Descent h e) (r : Run (Context h) A)
      → Keeps (Unchanged h d.context.stack) r
      → Keeps (Same d) (with_context h e d r)
  unfolding Keeps
  with_context-Same d out_of_steps k = tt
  with_context-Same d out_of_levels k = elim k [ ]
  with_context-Same d panics k = tt
  with_context-Same d (fails reason c) k = (refl, k)
  with_context-Same d (returns a c) k = (refl, k)

  module _ (base : Stack) (good : IsConsistent base) where
    weaken {ℓ} :
        {A : Type ℓ} {P Q : Descent h e → Type 0} (r : Run (Descent h e) A)
        → Keeps P r
        → ((d : Descent h e) → P d → Q d)
        → Keeps Q r
    unfolding Keeps
    weaken out_of_steps k f = tt
    weaken out_of_levels k f = elim k [ ]
    weaken panics k f = tt
    weaken (fails reason d) k f = f d k
    weaken (returns a d) k f = f d k

    abbrev pub IsStacked : Descent h e → Type 0
    IsStacked d = Stacked base d.frames d.context.stack

    same_IsStacked : (d d' : Descent h e) → Same d d' → IsStacked d → IsStacked d'
    same_IsStacked d d' (fs, s) k =
        subst (λ gs. Stacked base gs d'.context.stack) (sym fs)
          (subst (Stacked base d.frames) (sym s) k)

    -- A step that keeps one condition, and steps after it that turn it into another.
    chain-Keeps {ℓ κ} :
        {A : Type ℓ} {B : Type κ} (P : Descent h e → Type 0) (r : Run (Descent h e) A)
        (f : A → Action (Descent h e) B)
        → Keeps P r
        → ((d : Descent h e) → P d → IsStacked d)
        → ((a : A) (d : Descent h e) → P d → Keeps IsStacked (f a d))
        → Keeps IsStacked (continue r f)
    unfolding Keeps
    chain-Keeps P out_of_steps f k weaker next = tt
    chain-Keeps P out_of_levels f k weaker next = elim k [ ]
    chain-Keeps P panics f k weaker next = tt
    chain-Keeps P (fails reason d) f k weaker next = weaker d k
    chain-Keeps P (returns a d) f k weaker next = next a d k

    if-Keeps {ℓ} :
        {A : Type ℓ} (b : Bool) (r q : Run (Descent h e) A)
        → Keeps IsStacked r
        → Keeps IsStacked q
        → Keeps IsStacked (if b then r else q)
    if-Keeps true r q good' other = good'
    if-Keeps false r q good' other = other

    -- A step on the context that is safe where the descent stands.
    on_context-IsStacked {ℓ} :
        {A : Type ℓ} (step : Step h A) (d : Descent h e)
        → IsSafe h d.context.stack step
        → IsStacked d
        → Keeps IsStacked (on_context h e step d)
    on_context-IsStacked step d safe k =
        weaken (with_context h e d (step d.context))
          (with_context-Same d (step d.context) (safe.keeps d.context refl))
          (λ d' same. same_IsStacked d d' same k)

    add_frame-IsStacked :
        (id : ShapeId) (focus : List TermId) (sets : ValueSets) (d : Descent h e)
        → AreNew d.context.stack (visits_of id focus)
        → IsStacked d
        → Keeps IsStacked (add_frame h e id focus sets d)
    unfolding Keeps add_frame
    add_frame-IsStacked id focus sets d fresh k =
        (d.context.stack, visits_of id focus, k, refl, fresh, refl)

    pushed-IsStacked :
        (shape : Shape h.compiled) (id : ShapeId) (focus : List TermId) (d : Descent h e)
        → AreNew d.context.stack (visits_of id focus)
        → IsStacked d
        → Keeps IsStacked (
            (on_context h e (focus_sets h e shape.values shape.path focus) >>= λ sets.
            add_frame h e id focus sets)
              d)
    pushed-IsStacked shape id focus d fresh k =
        chain-Keeps (Same d) (on_context h e (focus_sets h e shape.values shape.path focus) d)
          (add_frame h e id focus)
          (with_context-Same d _ (
            (focus_sets-IsSafe d.context.stack shape.values shape.path focus).keeps d.context refl))
          (λ d' same. same_IsStacked d d' same k)
          (λ sets d' same.
            add_frame-IsStacked id focus sets d'
              (subst (λ t. AreNew t (visits_of id focus)) (sym same.1) fresh)
              (same_IsStacked d d' same k))

    push_fresh-IsStacked :
        (shape : Shape h.compiled) (id : ShapeId) (focus : List TermId) (d : Descent h e)
        → AreNew d.context.stack (visits_of id focus)
        → IsStacked d
        → Keeps IsStacked (push_fresh h e shape id focus d)
    unfolding push_fresh Keeps
    push_fresh-IsStacked shape id [] d fresh k = k
    push_fresh-IsStacked shape id (f ∷ focus) d fresh k =
        pushed-IsStacked shape id (f ∷ focus) d fresh k

    or_panics-IsStacked {ℓ κ} :
        {A : Type ℓ} {B : Type κ} (o : Option A) (f : A → Action (Descent h e) B) (d : Descent h e)
        → ((a : A) → Keeps IsStacked (f a d))
        → Keeps IsStacked ((or_panics o >>= f) d)
    unfolding Keeps
    or_panics-IsStacked none f d next = tt
    or_panics-IsStacked (some a) f d next = next a

    push_frame-IsStacked :
        (id : ShapeId) (focus : List TermId) (d : Descent h e)
        → IsStacked d
        → Keeps IsStacked (push_frame h e id focus d)
    unfolding push_frame enter_shape Keeps
    push_frame-IsStacked id focus d k =
        or_panics-IsStacked (get h.compiled e.shapes id) (enter_shape h e id focus) d (λ shape.
          if-Keeps (shape.deactivated || is_nil focus) (returns tt d)
            (push_fresh h e shape id (fresh_focus d.context.stack id focus) d) k
            (push_fresh-IsStacked shape id (fresh_focus d.context.stack id focus) d
              (fresh_focus-AreNew d.context.stack id focus
                (Stacked-IsConsistent base d.frames d.context.stack good k))
              k))

    -- From here on the descent has a topmost frame.
    pop_frame-IsStacked :
        (f : Frame) (fs : List Frame) (d : Descent h e)
        → d.frames ≡ f ∷ fs
        → IsStacked d
        → Keeps IsStacked (pop_frame h e d)
    unfolding Keeps pop_frame
    pop_frame-IsStacked f fs d at k = rw at (
        unwind-Stacked base f fs d.context.stack
          (subst (λ gs. Stacked base gs d.context.stack) at k))

    advance-IsStacked :
        (f : Frame) (fs : List Frame) (d : Descent h e)
        → d.frames ≡ f ∷ fs
        → IsStacked d
        → Keeps IsStacked (advance h e f fs d)
    unfolding Keeps
    advance-IsStacked f fs d at k = subst (λ gs. Stacked base gs d.context.stack) at k

    -- The validators that the constraints call are safe at this nesting.
    module _ (validate : Validator h)
        (safe : (s : Stack)
          → IsConsistent s
          → s.depth ≡ base.depth
          → IsSafeValidator h s validate) where
      safe_at : (d : Descent h e) → IsStacked d → IsSafeValidator h d.context.stack validate
      safe_at d k =
          safe d.context.stack (Stacked-IsConsistent base d.frames d.context.stack good k)
            (depth-Stacked base d.frames d.context.stack k)

      step_constraint-IsStacked :
          (shape : Shape h.compiled) (f : Frame) (c : Constraint h.compiled) (d : Descent h e)
          → IsStacked d
          → Keeps IsStacked (step_constraint h e validate shape f c d)
      unfolding step_constraint
      step_constraint-IsStacked shape f (property inner) d k =
          push_frame-IsStacked inner f.sets.values d k
      step_constraint-IsStacked shape f c d k =
          on_context-IsStacked (eval h e validate shape c f.sets) d
            (eval-IsSafe h e d.context.stack validate (safe_at d k) shape c f.sets) k

      -- The rest of the loop once a first step is known to keep the frames stacked.
      then_IsStacked :
          (r : Run (Descent h e) (Unit {0})) (f : Unit {0} → Action (Descent h e) (Unit {0}))
          → Keeps IsStacked r
          → ((u : Unit {0}) (d : Descent h e) → IsStacked d → Keeps IsStacked (f u d))
          → Keeps IsStacked (continue r f)
      then_IsStacked r f k next = chain-Keeps IsStacked r f k (λ d at. at) next

      next_constraint-IsStacked :
          (shape : Shape h.compiled) (f : Frame) (fs : List Frame)
          (c : Option (Constraint h.compiled)) (d : Descent h e)
          → d.frames ≡ f ∷ fs
          → IsStacked d
          → Keeps IsStacked (next_constraint h e validate shape f fs c d)
      unfolding next_constraint
      next_constraint-IsStacked shape f fs none d at k = pop_frame-IsStacked f fs d at k
      next_constraint-IsStacked shape f fs (some c) d at k =
          then_IsStacked (advance h e f fs d) (λ _. step_constraint h e validate shape f c)
            (advance-IsStacked f fs d at k) (λ _ d' k'. step_constraint-IsStacked shape f c d' k')

      step_frame-IsStacked :
          (f : Frame) (fs : List Frame) (d : Descent h e)
          → d.frames ≡ f ∷ fs
          → IsStacked d
          → Keeps IsStacked (step_frame h e validate f fs d)
      unfolding step_frame turn
      step_frame-IsStacked f fs d at k =
          or_panics-IsStacked (get h.compiled e.shapes f.id) (turn h e validate f fs) d (λ shape.
            if-Keeps (enough h e d.context.out) (pop_frame h e d)
              (next_constraint h e validate shape f fs (get_elem? shape.constraints f.next) d)
              (pop_frame-IsStacked f fs d at k)
              (next_constraint-IsStacked shape f fs (get_elem? shape.constraints f.next) d at k))

      run_frames-IsStacked :
          (steps : ℕ) (fs : List Frame) (c : Context h)
          → Stacked base fs c.stack
          → Keeps IsStacked (run_frames h e validate steps record { frames = fs; context = c })
      unfolding run_frames Keeps
      run_frames-IsStacked zero [] c k = k
      run_frames-IsStacked zero (f ∷ fs) c k = tt
      run_frames-IsStacked (suc n) [] c k = k
      run_frames-IsStacked (suc n) (f ∷ fs) c k =
          then_IsStacked (step_frame h e validate f fs record { frames = f ∷ fs; context = c })
            (λ _. run_frames h e validate n)
            (step_frame-IsStacked f fs record { frames = f ∷ fs; context = c } refl k)
            (λ _ d' k'. run_frames-IsStacked n d'.frames d'.context k')

      pub descend-IsStacked :
          (id : ShapeId) (focus : List TermId) (steps : ℕ) (d : Descent h e)
          → IsStacked d
          → Keeps IsStacked ((push_frame h e id focus >> run_frames h e validate steps) d)
      descend-IsStacked id focus steps d k =
          then_IsStacked (push_frame h e id focus d) (λ _. run_frames h e validate steps)
            (push_frame-IsStacked id focus d k)
            (λ _ d' k'. run_frames-IsStacked steps d'.frames d'.context k')

  pub leaving-Unchanged :
      (s : Stack) (good : IsConsistent s) (r : Run (Descent h e) (Unit {0}))
      → Keeps (IsStacked (record s { depth = s.depth + 1 }) good) r
      → Keeps (Unchanged h s) (leaving h e r)
  unfolding Keeps
  leaving-Unchanged s good out_of_steps k = tt
  leaving-Unchanged s good out_of_levels k = elim k [ ]
  leaving-Unchanged s good panics k = tt
  leaving-Unchanged s good (fails reason d) k = left s d.frames d.context.stack k
  leaving-Unchanged s good (returns a d) k = left s d.frames d.context.stack k

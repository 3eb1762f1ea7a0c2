-- ===== src/Validation/Frames.antt =====
-- crates/shacl/src/validate.rs: the descent through shapes, on a stack of frames, with the set of
-- (shape, node) pairs being validated.
pub mod Restore
pub mod Stacked
pub mod Loop
pub mod Nesting
use shacl_engine.Common.{
  ℕ, zero, suc, ◌+◌, ◌-◌, ◌*◌, Bool, true, false, not, ◌&&◌, ◌||◌, Option, none, some, List, [],
  ◌∷◌, ◌++◌, ◌==◌, map, filter, length, take, drop, get_elem?, ltb, leb, if◌then◌else◌,
}
use shacl_engine.Common.Members.{same_pair}
use shacl_engine.Error.{recursion}
use shacl_engine.Model.Starts.{TermId}
use shacl_engine.Model.Graph.{len}
use shacl_engine.PropertyPath.{PropertyPath, eval_sets}
use shacl_engine.Report.{ValidationResult, disallowed, blocks}
use shacl_engine.Shapes.{ShapeId, Shape, Constraint, property, get}
use shacl_engine.ValueSet.{ValueSets, Builder, builder, identity, push_row, finish}
use shacl_engine.Validation.{Services, Engine, Context, Stack, Visit, Frame}
use shacl_engine.Validation.Run.{
  Run, out_of_steps, out_of_levels, panics, fails, returns, Action, ◌>>=◌, ◌>>◌, return, or_panics,
}
use shacl_engine.Validation.Bounded.{bounded}
use shacl_engine.Validation.Values.{is_nil}
use shacl_engine.Validation.Steps.{Step, Validator, lift}
use shacl_engine.Validation.Constraints.{eval, eval_expr}

abbrev pub max_depth : ℕ
max_depth = 48

-- `HashSet::extend` and the removals of a loop.
abbrev pub insert_all : List Visit → (Visit → Bool) → Visit → Bool
insert_all [] seen q = seen q
insert_all (p ∷ ps) seen q = insert_all ps (λ r. same_pair p r || seen r) q

abbrev pub remove_all : List Visit → (Visit → Bool) → Visit → Bool
remove_all [] seen q = seen q
remove_all (p ∷ ps) seen q = remove_all ps (λ r. not (same_pair p r) && seen r) q

-- Drops everything a frame added to the visited set.
unfoldable pub unwind : Stack → ℕ → Stack
unwind s mark = record s { pairs = take mark s.pairs; seen = remove_all (drop mark s.pairs) s.seen }

unfoldable pub unwind_all : List Frame → Stack → Stack
unfolding unwind
unwind_all [] s = s
unwind_all (f ∷ fs) s = unwind_all fs (unwind s f.mark)

-- The pairs of a shape and its focus nodes are added.
unfoldable pub enter : Stack → List Visit → Stack
enter s visits = record s { pairs = s.pairs ++ visits; seen = insert_all visits s.seen }

abbrev pub visits_of : ShapeId → List TermId → List Visit
visits_of id focus = map (λ n. (id, n)) focus

-- The focus nodes that are not being validated against the shape already; the filter is skipped
-- while the stack is empty.
unfoldable pub fresh_focus : Stack → ShapeId → List TermId → List TermId
fresh_focus s id focus = if is_nil s.pairs then focus else filter (λ n. not (s.seen (id, n))) focus

module _ (h : Services) (e : Engine h) where
  -- Whether enough results are in hand to stop.
  unfoldable pub enough : List ValidationResult → Bool
  enough results = elim e.max_results [
    | none ↦ false
    | some n ↦ elim e.blocking [
      | none ↦ leb n (length results)
      | some severities ↦
          leb n (length (filter (blocks (disallowed e.severities severities)) results))
    ]
  ]

  -- The frames, last first, and the context.
  pub record Descent : Type 0 where
    pub frames : List Frame
    pub context : Context h

  abbrev pub with_context {ℓ} : {A : Type ℓ} → Descent → Run (Context h) A → Run Descent A
  with_context d out_of_steps = out_of_steps
  with_context d out_of_levels = out_of_levels
  with_context d panics = panics
  with_context d (fails reason c) = fails reason (record d { context = c })
  with_context d (returns a c) = returns a (record d { context = c })

  abbrev pub on_context {ℓ} : {A : Type ℓ} → Step h A → Action Descent A
  on_context step d = with_context d (step d.context)

  -- The value nodes that a node expression gives for each focus node.
  unfoldable pub expression_rows : TermId → List TermId → Builder → Step h Builder
  unfolding eval_expr push_row
  expression_rows expr [] b = return b
  expression_rows expr (f ∷ focus) b = do
    values ← eval_expr h e expr f
    expression_rows expr focus (push_row b f values)

  -- The bound lets every pair of a focus node and a node be reached by a path.
  abbrev pub path_bound : List TermId → ℕ
  path_bound focus = (length focus + 2 * len e.data_graph) * length focus + 1

  -- `sh:values` comes before a path; a node shape's values are its focus nodes.
  unfoldable pub focus_sets : Option TermId → Option PropertyPath → List TermId → Step h ValueSets
  unfolding expression_rows eval_sets identity finish
  focus_sets (some expr) path focus = do b ← expression_rows expr focus builder; return (finish b)
  focus_sets none (some p) focus =
      lift h (bounded (eval_sets e.data_graph (path_bound focus) p focus))
  focus_sets none none focus = return (identity focus)

  unfoldable pub add_frame : ShapeId → List TermId → ValueSets → Action Descent (Unit {0})
  unfolding enter
  add_frame id focus sets d =
      let s = d.context.stack in
      returns tt record {
        frames = record { id = id; sets = sets; next = 0; mark = length s.pairs } ∷ d.frames;
        context = record d.context { stack = enter s (visits_of id focus) };
      }

  -- Pushes a frame over the focus nodes that are left, if any are.
  unfoldable pub push_fresh : Shape h.compiled → ShapeId → List TermId → Action Descent (Unit {0})
  unfolding focus_sets add_frame
  push_fresh shape id focus =
      if is_nil focus
      then return tt
      else on_context (focus_sets shape.values shape.path focus) >>= λ sets. add_frame id focus sets

  -- A deactivated shape has nothing to do, nor has one without focus nodes.
  unfoldable pub enter_shape : ShapeId → List TermId → Shape h.compiled → Action Descent (Unit {0})
  unfolding push_fresh fresh_focus
  enter_shape id focus shape d =
      if shape.deactivated || is_nil focus
      then returns tt d
      else push_fresh shape id (fresh_focus d.context.stack id focus) d

  unfoldable pub push_frame : ShapeId → List TermId → Action Descent (Unit {0})
  unfolding enter_shape
  push_frame id focus = or_panics (get h.compiled e.shapes id) >>= enter_shape id focus

  -- The topmost frame is done.
  unfoldable pub pop_frame : Action Descent (Unit {0})
  unfolding unwind
  pop_frame d = elim d.frames [
    | [] ↦ returns tt d
    | f ∷ fs ↦
        returns tt record {
          frames = fs;
          context = record d.context { stack = unwind d.context.stack f.mark };
        }
  ]

  abbrev pub advance : Frame → List Frame → Action Descent (Unit {0})
  advance f fs d = returns tt (record d { frames = record f { next = f.next + 1 } ∷ fs })

  -- A constraint of the topmost frame: a property shape gets a frame of its own.
  unfoldable pub step_constraint :
      Validator h → Shape h.compiled → Frame → Constraint h.compiled → Action Descent (Unit {0})
  unfolding push_frame eval
  step_constraint validate shape f (property inner) = push_frame inner f.sets.values
  step_constraint validate shape f c = on_context (eval h e validate shape c f.sets)

  unfoldable pub next_constraint :
      Validator h
      → Shape h.compiled
      → Frame
      → List Frame
      → Option (Constraint h.compiled)
      → Action Descent (Unit {0})
  unfolding step_constraint
  next_constraint validate shape f fs none d = pop_frame d
  next_constraint validate shape f fs (some c) d =
      (advance f fs >> step_constraint validate shape f c) d

  -- The topmost frame, whose shape is given, has its turn.
  unfoldable pub turn :
      Validator h → Frame → List Frame → Shape h.compiled → Action Descent (Unit {0})
  unfolding enough next_constraint pop_frame
  turn validate f fs shape d =
      if enough d.context.out
      then pop_frame d
      else next_constraint validate shape f fs (get_elem? shape.constraints f.next) d

  unfoldable pub step_frame : Validator h → Frame → List Frame → Action Descent (Unit {0})
  unfolding turn
  step_frame validate f fs = or_panics (get h.compiled e.shapes f.id) >>= turn validate f fs

  -- Drives the frame stack until it empties.
  unfoldable pub run_frames : Validator h → ℕ → Action Descent (Unit {0})
  unfolding step_frame
  run_frames validate zero d = elim d.frames [ [] ↦ returns tt d | _ ∷ _ ↦ out_of_steps ]
  run_frames validate (suc n) d = elim d.frames [
    | [] ↦ returns tt d
    | f ∷ fs ↦ (step_frame validate f fs >> run_frames validate n) d
  ]

  -- What is still standing is unwound, and the level is left.
  abbrev pub leave : Descent → Context h
  leave d =
      let s = unwind_all d.frames d.context.stack in
      record d.context { stack = record s { depth = s.depth - 1 } }

  abbrev pub leaving : Run Descent (Unit {0}) → Run (Context h) (Unit {0})
  leaving out_of_steps = out_of_steps
  leaving out_of_levels = out_of_levels
  leaving panics = panics
  leaving (fails reason d) = fails reason (leave d)
  leaving (returns a d) = returns a (leave d)

  abbrev pub deeper : Context h → Descent
  deeper c = record {
    frames = [];
    context = record c { stack = record c.stack { depth = c.stack.depth + 1 } };
  }

  -- `validate_shape`, with a bound for the nesting and for the steps of each loop.
  unfoldable pub validate_shape : ℕ → ℕ → Validator h
  unfolding push_frame run_frames
  validate_shape zero steps id focus c =
      if leb max_depth c.stack.depth then fails recursion c else out_of_levels
  validate_shape (suc l) steps id focus c =
      if leb max_depth c.stack.depth
      then fails recursion c
      else leaving ((push_frame id focus >> run_frames (validate_shape l steps) steps) (deeper c))

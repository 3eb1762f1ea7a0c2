-- ===== src/Validation/Frames/Nesting.antt =====
-- Nested calls of `validate_shape`: the depth limit, and the stack that each call leaves behind.
use shacl_engine.Common.{
  ℕ, zero, suc, ◌+◌, ◌≤◌, ◌≡◌, refl, ap, false, List, arith, Bool-cases, inl, inr, leb,
  if◌then◌else◌,
}
use shacl_engine.Error.{recursion}
use shacl_engine.Model.Starts.{TermId}
use shacl_engine.Shapes.{ShapeId}
use shacl_engine.Validation.{Services, Engine, Context, Stack}
use shacl_engine.Validation.Run.{Run, fails, out_of_levels, Keeps, ◌>>◌}
use shacl_engine.Validation.Safe.{Unchanged, IsSafeValidator}
use shacl_engine.Validation.Frames.{
  max_depth, push_frame, run_frames, leaving, deeper, validate_shape,
}
use shacl_engine.Validation.Frames.Restore.{IsConsistent}
use shacl_engine.Validation.Frames.Loop.{descend-IsStacked, leaving-Unchanged}

module _ (h : Services) (e : Engine h) where
  -- The guard either refuses, or a level is left to go down.
  guarded :
      (s : Stack) (c : Context h) (r : Run (Context h) (Unit {0}))
      → Unchanged h s c
      → (leb max_depth c.stack.depth ≡ false → Keeps (Unchanged h s) r)
      → Keeps (Unchanged h s) (if leb max_depth c.stack.depth then fails recursion c else r)
  unfolding Keeps
  guarded s c r u next = elim (Bool-cases (leb max_depth c.stack.depth)) [
    | inl deep ↦ rw deep u
    | inr fits ↦ rw fits (next fits)
  ]

  no_level :
      (s : Stack) (c : Context h)
      → Unchanged h s c
      → max_depth ≤ 0 + s.depth
      → leb max_depth c.stack.depth ≡ false
      → ⊥
  no_level s c u enough fits =
      let same : c.stack.depth ≡ s.depth = ap (λ (t : Stack). t.depth) u in ground arith

  pub validate_shape-IsSafe :
      (levels steps : ℕ) (s : Stack)
      → IsConsistent s
      → max_depth ≤ levels + s.depth
      → IsSafeValidator h s (validate_shape h e levels steps)
  unfolding validate_shape Keeps
  validate_shape-IsSafe zero steps s good enough id focus = record {
    keeps = λ c u. guarded s c out_of_levels u (no_level s c u enough);
  }
  validate_shape-IsSafe (suc l) steps s good enough id focus = record {
    keeps = λ c u.
        guarded s c
          (leaving h e (
            (push_frame h e id focus >> run_frames h e (validate_shape h e l steps) steps)
              (deeper h e c)))
          u
          (λ fits. leaving-Unchanged h e s good _ (
            descend-IsStacked h e (record s { depth = s.depth + 1 }) good
              (validate_shape h e l steps)
              (λ s' good' deep.
                validate_shape-IsSafe l steps s' good' (omega (arith, deep, enough)))
              id focus steps (deeper h e c)
              (ap (λ (t : Stack). record t { depth = t.depth + 1 }) u)));
  }

  -- From a stack whose set holds the listed pairs, and with a level of calls for each that the depth
  -- limit leaves, validating a shape does not run out of levels, and whether it returns or fails
  -- with an error it leaves the pairs, their set and the depth as it found them.
  pub validate_shape_restores :
      (levels steps : ℕ) (id : ShapeId) (focus : List TermId) (c : Context h)
      → IsConsistent c.stack
      → max_depth ≤ levels + c.stack.depth
      → Keeps (λ c'. c'.stack ≡ c.stack) (validate_shape h e levels steps id focus c)
  validate_shape_restores levels steps id focus c good enough =
      (validate_shape-IsSafe levels steps c.stack good enough id focus).keeps c refl

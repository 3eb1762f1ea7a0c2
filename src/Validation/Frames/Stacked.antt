-- ===== src/Validation/Frames/Stacked.antt =====
-- Frames stacked on one another: each has entered visits that were new.
use shacl_engine.Common.{ℕ, ◌+◌, ◌-◌, ◌≡◌, sym, ap, ◌∙◌, subst, List, [], ◌∷◌, length, arith}
use shacl_engine.Validation.{Stack, Visit, Frame}
use shacl_engine.Validation.Frames.{unwind, unwind_all, enter}
use shacl_engine.Validation.Frames.Restore.{IsConsistent, AreNew, enter-IsConsistent, unwind-enter}

-- A stack is another one with what each of the frames has entered, the first frame last.
abbrev pub Stacked : Stack → List Frame → Stack → Type 0
Stacked base [] s = s ≡ base
Stacked base (f ∷ fs) s =
    (s0 : Stack) × (visits : List Visit) × Stacked base fs s0
    × (f.mark ≡ length s0.pairs)
    × AreNew s0 visits
    × (s ≡ enter s0 visits)

pub Stacked-IsConsistent :
    (base : Stack) (fs : List Frame) (s : Stack)
    → IsConsistent base
    → Stacked base fs s
    → IsConsistent s
Stacked-IsConsistent base [] s good e = subst IsConsistent (sym e) good
Stacked-IsConsistent base (f ∷ fs) s good (s0, visits, below, mark, fresh, e) =
    subst IsConsistent (sym e)
      (enter-IsConsistent s0 visits (Stacked-IsConsistent base fs s0 good below))

pub depth-Stacked :
    (base : Stack) (fs : List Frame) (s : Stack) → Stacked base fs s → s.depth ≡ base.depth
unfolding enter
depth-Stacked base [] s e = ap (λ (t : Stack). t.depth) e
depth-Stacked base (f ∷ fs) s (s0, visits, below, mark, fresh, e) =
    ap (λ (t : Stack). t.depth) e ∙ depth-Stacked base fs s0 below

pub unwind-Stacked :
    (base : Stack) (f : Frame) (fs : List Frame) (s : Stack)
    → Stacked base (f ∷ fs) s
    → Stacked base fs (unwind s f.mark)
unwind-Stacked base f fs s (s0, visits, below, mark, fresh, e) =
    subst (Stacked base fs)
      (sym (
        ap (λ (t : Stack). unwind t f.mark) e
        ∙ ap (unwind (enter s0 visits)) mark
        ∙ unwind-enter s0 visits fresh))
      below

unwind_all-Stacked :
    (base : Stack) (fs : List Frame) (s : Stack) → Stacked base fs s → unwind_all fs s ≡ base
unfolding unwind_all
unwind_all-Stacked base [] s e = e
unwind_all-Stacked base (f ∷ fs) s good =
    unwind_all-Stacked base fs (unwind s f.mark) (unwind-Stacked base f fs s good)

one_less : (n : ℕ) → (n + 1) - 1 ≡ n
one_less n = omega arith

-- Unwinding what is still standing and leaving the level gives the stack that the level began with.
pub left :
    (s : Stack) (fs : List Frame) (t : Stack)
    → Stacked (record s { depth = s.depth + 1 }) fs t
    → ◌≡◌ {A = Stack} (record (unwind_all fs t) { depth = (unwind_all fs t).depth - 1 }) s
left s fs t k =
    ap (λ (u : Stack). record u { depth = u.depth - 1 })
      (unwind_all-Stacked (record s { depth = s.depth + 1 }) fs t k)
    ∙ ap (λ n. record s { depth = n }) (one_less s.depth)

-- ===== src/Validation/Parallel/Pieces.antt =====
-- The pieces of the roots' focus sets that the workers get.
use mathlib.Core.List.Memᴰ
use shacl_engine.Common.{ℕ, ◌≤◌, List, [], ◌∷◌, ◌++◌, length, Memᴰ}
use shacl_engine.Model.Starts.{TermId}
use shacl_engine.Shapes.{ShapeId}
use shacl_engine.Validation.{Visit}
use shacl_engine.Validation.Frames.{visits_of}

-- The shapes and focus nodes of some work, in order.
abbrev pub visits : List (ShapeId × List TermId) → List Visit
visits [] = []
visits ((root, focus) ∷ rest) = visits_of root focus ++ visits rest

-- A piece is not empty, and not longer than asked.
abbrev pub Fits : ℕ → List TermId → Type 0
Fits n chunk = (1 ≤ length chunk) × (length chunk ≤ n)

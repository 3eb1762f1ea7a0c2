-- ===== src/Model/Interner/Arena.antt =====
-- The arena: what its spans spell, and that appending to it changes none of them.
use shacl_engine.Common.{
  ℕ, zero, suc, ◌+◌, ◌^◌, ◌≤◌, ◌<◌, ◌≡◌, refl, ap, ◌∙◌, some, List, [], ◌∷◌, ◌++◌, length,
  get_elem?, arith, length-append,
}
use shacl_engine.Model.Starts.{slice}
use shacl_engine.ValueSet.Rows.{as_u32-eq_of_lt, slice-append, slice_last}
use shacl_engine.Datatypes.Integers.{Text}
use shacl_engine.Model.Interner.{span_text}

-- The spans lie within the arena and spell the strings.
abbrev pub Spells : Text → List (ℕ × ℕ) → List Text → Type 0
Spells buf [] [] = Unit
Spells buf [] (x ∷ xs) = ⊥
Spells buf (s ∷ spans) [] = ⊥
Spells buf ((off, len) ∷ spans) (x ∷ xs) =
    (off + len ≤ length buf) × (slice buf off (off + len) ≡ x) × Spells buf spans xs

pub length-Spells :
    (buf : Text) (spans : List (ℕ × ℕ)) (xs : List Text)
    → Spells buf spans xs
    → length spans ≡ length xs
length-Spells buf [] [] h = refl
length-Spells buf [] (x ∷ xs) h = absurd h
length-Spells buf (s ∷ spans) [] h = absurd h
length-Spells buf ((off, len) ∷ spans) (x ∷ xs) h = ap suc (length-Spells buf spans xs h.2)

pub span_text-Spells :
    (buf : Text) (spans : List (ℕ × ℕ)) (xs : List Text) (id : ℕ)
    → length buf < 2 ^ 32
    → Spells buf spans xs
    → span_text buf spans id ≡ get_elem? xs id
unfolding span_text
span_text-Spells buf [] [] id fits h = refl
span_text-Spells buf [] (x ∷ xs) id fits h = absurd h
span_text-Spells buf (s ∷ spans) [] id fits h = absurd h
span_text-Spells buf ((off, len) ∷ spans) (x ∷ xs) zero fits h =
    rw (as_u32-eq_of_lt (off + len) (omega (arith, h.0, fits))) (ap some h.1)
span_text-Spells buf ((off, len) ∷ spans) (x ∷ xs) (suc id) fits h =
    span_text-Spells buf spans xs id fits h.2

pub Spells-append :
    (buf more : Text) (spans : List (ℕ × ℕ)) (xs : List Text)
    → Spells buf spans xs
    → Spells (buf ++ more) spans xs
Spells-append buf more [] [] h = tt
Spells-append buf more [] (x ∷ xs) h = absurd h
Spells-append buf more (s ∷ spans) [] h = absurd h
Spells-append buf more ((off, len) ∷ spans) (x ∷ xs) h = (
  omega (arith, length-append buf more, h.0),
  slice-append buf more off (off + len) h.0 ∙ h.1,
  Spells-append buf more spans xs h.2,
)

add_span :
    (buf : Text) (spans : List (ℕ × ℕ)) (xs : List Text) (off len : ℕ) (x : Text)
    → Spells buf spans xs
    → off + len ≤ length buf
    → slice buf off (off + len) ≡ x
    → Spells buf (spans ++ (off, len) ∷ []) (xs ++ x ∷ [])
add_span buf [] [] off len x h p q = (p, q, tt)
add_span buf [] (y ∷ xs) off len x h p q = absurd h
add_span buf (s ∷ spans) [] off len x h p q = absurd h
add_span buf ((o, l) ∷ spans) (y ∷ xs) off len x h p q =
    (h.0, h.1, add_span buf spans xs off len x h.2 p q)

-- A new string at the end of the arena, with its span.
pub Spells-push :
    (buf s : Text) (spans : List (ℕ × ℕ)) (xs : List Text)
    → Spells buf spans xs
    → Spells (buf ++ s) (spans ++ (length buf, length s) ∷ []) (xs ++ s ∷ [])
Spells-push buf s spans xs h =
    add_span (buf ++ s) spans xs (length buf) (length s) s (Spells-append buf s spans xs h)
      (omega (arith, length-append buf s)) (slice_last buf s)

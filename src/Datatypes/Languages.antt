-- ===== src/Datatypes/Languages.antt =====
-- `language_matches` against basic filtering of RFC 4647.
use mathlib.Core.Path.{ap₂}
use shacl_engine.Common.{
  ℕ, suc, ◌≡◌, ◌≢◌, refl, ap, ◌↔◌, inl, inr, Bool, true, false, not, ◌&&◌, [], ◌∷◌, ◌++◌, map,
  length, take, get_or, ltb, ◌==◌, arith, Bool-cases,
}
use shacl_engine.Datatypes.Integers.{Text}
use shacl_engine.Datatypes.{text_eq, lower, eq_ignore_ascii_case, is_empty, language_matches}

-- A tag lies in a range: any tag in `*`, else the same tag or one that extends it by a subtag,
-- whatever the case of the letters.
pub data InRange (tag range : Text) : Type 0 where
  wildcard : range ≡ 42 ∷ [] → tag ≢ [] → InRange tag range
  same : map lower tag ≡ map lower range → InRange tag range
  extended : (rest : Text) → map lower tag ≡ map lower range ++ 45 ∷ rest → InRange tag range

pub text_eq_iff : (a b : Text) → (text_eq a b ≡ true) ↔ (a ≡ b)
text_eq_iff [] [] = (λ h. refl, λ h. refl)
text_eq_iff [] (y ∷ ys) = (λ h. cc, λ h. cc)
text_eq_iff (x ∷ xs) [] = (λ h. cc, λ h. cc)
text_eq_iff (x ∷ xs) (y ∷ ys) = ground (arith, text_eq_iff xs ys)

cons_parts : (x y : ℕ) (xs ys : Text) → x ∷ xs ≡ y ∷ ys → (x ≡ y) × (xs ≡ ys)
cons_parts x y xs ys h = (cc, cc)

heads_iff :
    (m n : ℕ) (b : Bool) (us vs : Text)
    → ((b ≡ true) ↔ (us ≡ vs))
    → ((m == n && b) ≡ true) ↔ (m ∷ us ≡ n ∷ vs)
heads_iff m n b us vs ih = (
  λ h. let head : m ≡ n = ground (arith, h) in let rest : us ≡ vs = ih.0 (ground (arith, h)) in cc,
  λ h. let (head, rest) = cons_parts m n us vs h in ground (arith, head, ih.1 rest),
)

eq_ignore_ascii_case_iff :
    (a b : Text) → (eq_ignore_ascii_case a b ≡ true) ↔ (map lower a ≡ map lower b)
eq_ignore_ascii_case_iff [] [] = (λ h. refl, λ h. refl)
eq_ignore_ascii_case_iff [] (y ∷ ys) = (λ h. cc, λ h. cc)
eq_ignore_ascii_case_iff (x ∷ xs) [] = (λ h. cc, λ h. cc)
eq_ignore_ascii_case_iff (x ∷ xs) (y ∷ ys) =
    heads_iff (lower x) (lower y) (eq_ignore_ascii_case xs ys) (map lower xs) (map lower ys)
      (eq_ignore_ascii_case_iff xs ys)

lower_dash : (c : ℕ) → lower c ≡ 45 → c ≡ 45
lower_dash c h = ground (arith, h)

dash_lower : (c : ℕ) → (c == 45) ≡ true → lower c ≡ 45
dash_lower c h = ground (arith, h)

abbrev extends : Text → Text → Bool
extends tag range =
    ltb (length range) (length tag)
    && get_or tag (length range) 0 == 45
    && eq_ignore_ascii_case (take (length range) tag) range

peel :
    (l n c : ℕ) (x y : ℕ) (b : Bool)
    → ((ltb (suc l) (suc n) && c == 45 && (x == y && b)) ≡ true)
      ↔ ((x ≡ y) × ((ltb l n && c == 45 && b) ≡ true))
peel l n c x y b = (λ h. (ground (arith, h), ground (arith, h)), λ h. ground (arith, h))

extends_iff :
    (tag range : Text)
    → (extends tag range ≡ true) ↔ ((rest : Text) × (map lower tag ≡ map lower range ++ 45 ∷ rest))
extends_iff [] [] = (λ h. absurd (ground (arith, h)), λ (rest, h). cc)
extends_iff [] (d ∷ ds) = (λ h. absurd (ground (arith, h)), λ (rest, h). cc)
extends_iff (c ∷ cs) [] = (
  λ h.
      let dash : lower c ≡ 45 = dash_lower c (ground (arith, h)) in
      (map lower cs, ap (λ x. x ∷ map lower cs) dash),
  λ (rest, h).
      let dash : c ≡ 45 = lower_dash c (cons_parts (lower c) 45 (map lower cs) rest h).0 in
      ground (arith, dash),
)
extends_iff (c ∷ cs) (d ∷ ds) =
    let ih = extends_iff cs ds in
    let both =
      peel (length ds) (length cs) (get_or cs (length ds) 0) (lower c) (lower d)
        (eq_ignore_ascii_case (take (length ds) cs) ds) in
    (
      λ h. let (head, more) = both.0 h in let (rest, e) = ih.0 more in (rest, ap₂ ◌∷◌ head e),
      λ (rest, h).
          let (head, more) =
            cons_parts (lower c) (lower d) (map lower cs) (map lower ds ++ 45 ∷ rest) h in
          both.1 (head, ih.1 (rest, more)),
    )

nonempty : (tag : Text) → (not (is_empty tag) ≡ true) ↔ (tag ≢ [])
nonempty [] = (λ h. cc, λ h. absurd (h refl))
nonempty (c ∷ cs) = (λ h e. cc, λ h. refl)

-- A tag in `*` by either of the other ways is no empty tag.
InRange-nonempty : (tag range : Text) → range ≡ 42 ∷ [] → InRange tag range → tag ≢ []
InRange-nonempty tag range e (wildcard f n) q = n q
InRange-nonempty [] range e (same h) q = let star = ap (map lower) e in cc
InRange-nonempty (c ∷ cs) range e (same h) q = cc
InRange-nonempty [] range e (extended rest h) q =
    let star = ap (λ (r : Text). map lower r ++ 45 ∷ rest) e in cc
InRange-nonempty (c ∷ cs) range e (extended rest h) q = cc

-- The test holds exactly of the tags that lie in the range: any tag but the empty one in `*`, else the
-- range itself or its extension by a subtag, whatever the case of the letters.
pub language_matches_iff :
    (tag range : Text) → (language_matches tag range ≡ true) ↔ InRange tag range
unfolding language_matches
language_matches_iff tag range = elim (Bool-cases (text_eq range (42 ∷ []))) [
  | inl star ↦
      let e = (text_eq_iff range (42 ∷ [])).0 star in
      rw star (
        λ h. wildcard e ((nonempty tag).0 h),
        λ r. (nonempty tag).1 (InRange-nonempty tag range e r),
      )
  | inr plain ↦ elim (Bool-cases (eq_ignore_ascii_case tag range)) [
    | inl e ↦ rw (plain, e) (λ h. same ((eq_ignore_ascii_case_iff tag range).0 e), λ r. refl)
    | inr e ↦
        rw (plain, e)
          (
            λ h. let (rest, q) = (extends_iff tag range).0 h in extended rest q,
            λ r. InRange-extends tag range plain e r,
          )
  ]
]
  where
    InRange-extends :
        (tag range : Text)
        → text_eq range (42 ∷ []) ≡ false
        → eq_ignore_ascii_case tag range ≡ false
        → InRange tag range
        → extends tag range ≡ true
    InRange-extends tag range p q (wildcard e n) =
        let star = (text_eq_iff range (42 ∷ [])).1 e in cc
    InRange-extends tag range p q (same h) =
        let level = (eq_ignore_ascii_case_iff tag range).1 h in cc
    InRange-extends tag range p q (extended rest h) = (extends_iff tag range).1 (rest, h)

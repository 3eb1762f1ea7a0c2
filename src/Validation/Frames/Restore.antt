-- ===== src/Validation/Frames/Restore.antt =====
-- The set of (shape, node) pairs being validated: what a frame adds and what unwinding removes.
use shacl_engine.Common.{
  ◌≡◌, refl, ap, ◌∙◌, subst, Bool, true, false, not, ◌&&◌, ◌||◌, List, [], ◌∷◌, ◌++◌, length, take,
  drop, filter, arith, Bool-cases, List-cases, inl, inr, ==_iff, if◌then◌else◌,
}
use shacl_engine.Common.Members.{has_pair, same_pair, has_pair-append}
use shacl_engine.Model.Starts.{TermId}
use shacl_engine.Shapes.{ShapeId}
use shacl_engine.Validation.{Stack, Visit}
use shacl_engine.Validation.Values.{is_nil}
use shacl_engine.Validation.Frames.{insert_all, remove_all, unwind, enter, visits_of, fresh_focus}

-- The set holds the listed pairs.
abbrev pub IsConsistent : Stack → Type 0
IsConsistent s = (q : Visit) → s.seen q ≡ has_pair s.pairs q

-- None of the visits is in the set.
abbrev pub AreNew : Stack → List Visit → Type 0
AreNew s visits = (q : Visit) → has_pair visits q ≡ true → s.seen q ≡ false

take-append {ℓ} : {A : Type ℓ} (xs ys : List A) → take (length xs) (xs ++ ys) ≡ xs
take-append [] ys = refl
take-append (x ∷ xs) ys = ap (λ zs. x ∷ zs) (take-append xs ys)

drop-append {ℓ} : {A : Type ℓ} (xs ys : List A) → drop (length xs) (xs ++ ys) ≡ ys
drop-append [] ys = refl
drop-append (x ∷ xs) ys = drop-append xs ys

insert_all_lem :
    (ps : List Visit) (seen : Visit → Bool) (q : Visit)
    → insert_all ps seen q ≡ has_pair ps q || seen q
insert_all_lem [] seen q = refl
insert_all_lem (p ∷ ps) seen q = ground (arith, insert_all_lem ps (λ r. same_pair p r || seen r) q)

remove_all_lem :
    (ps : List Visit) (seen : Visit → Bool) (q : Visit)
    → remove_all ps seen q ≡ not (has_pair ps q) && seen q
remove_all_lem [] seen q = refl
remove_all_lem (p ∷ ps) seen q =
    ground (arith, remove_all_lem ps (λ r. not (same_pair p r) && seen r) q)

removed_inserted :
    (s : Stack) (visits : List Visit) (q : Visit)
    → AreNew s visits
    → remove_all visits (insert_all visits s.seen) q ≡ s.seen q
removed_inserted s visits q fresh = ground (
  arith,
  remove_all_lem visits (insert_all visits s.seen) q,
  insert_all_lem visits s.seen q,
  fresh q,
)

pub enter-IsConsistent :
    (s : Stack) (visits : List Visit) → IsConsistent s → IsConsistent (enter s visits)
unfolding enter
enter-IsConsistent s visits good q =
    ground (arith, insert_all_lem visits s.seen q, has_pair-append s.pairs visits q, good q)

-- Unwinding to where a frame began takes back what the frame added.
pub unwind-enter :
    (s : Stack) (visits : List Visit)
    → AreNew s visits
    → unwind (enter s visits) (length s.pairs) ≡ s
unfolding unwind enter
unwind-enter s visits fresh =
    ap
      (λ ps. record {
        pairs = ps;
        seen = remove_all (drop (length s.pairs) (s.pairs ++ visits)) (insert_all visits s.seen);
        depth = s.depth;
      })
      (take-append s.pairs visits)
    ∙ ap
        (λ ps. record {
          pairs = s.pairs;
          seen = remove_all ps (insert_all visits s.seen);
          depth = s.depth;
        })
        (drop-append s.pairs visits)
    ∙ ap (λ f. record { pairs = s.pairs; seen = f; depth = s.depth })
        (λ i q. removed_inserted s visits q fresh i)

same_pair_eq : (p q : Visit) → same_pair p q ≡ true → p ≡ q
same_pair_eq (a, b) (c, d) e =
    let both : (a ≡ c) × (b ≡ d) = ground (arith, ==_iff a c, ==_iff b d) in
    λ i. (both.0 i, both.1 i)

filtered_new :
    (seen : Visit → Bool) (id : ShapeId) (focus : List TermId) (q : Visit)
    → has_pair (visits_of id (filter (λ n. not (seen (id, n))) focus)) q ≡ true
    → seen q ≡ false
filtered_new seen id [] q e = cc
filtered_new seen id (n ∷ ns) q e = elim (Bool-cases (seen (id, n))) [
  | inl old ↦ filtered_new seen id ns q (rw (old, filter, not, if◌then◌else◌) at e)
  | inr new ↦ elim (Bool-cases (same_pair (id, n) q)) [
    | inl here ↦ subst (λ p. seen p ≡ false) (same_pair_eq (id, n) q here) new
    | inr away ↦ filtered_new seen id ns q (rw (new, filter, not, if◌then◌else◌, away) at e)
  ]
]

-- The focus nodes that are left are not in the set.
pub fresh_focus-AreNew :
    (s : Stack) (id : ShapeId) (focus : List TermId)
    → IsConsistent s
    → AreNew s (visits_of id (fresh_focus s id focus))
unfolding fresh_focus
fresh_focus-AreNew s id focus good q e = elim (List-cases s.pairs) [
  | inl none_yet ↦ good q ∙ ap (λ ps. has_pair ps q) none_yet
  | inr (p, ps, some_yet) ↦ filtered_new s.seen id focus q (rw (some_yet, is_nil) at e)
]

-- ===== src/Validation/Entry/Trim.antt =====
-- The trimming and the sorting of a report change nothing about its verdict.
use shacl_engine.Common.{
  ℕ, suc, ◌+◌, ◌≤◌, ◌<◌, ◌≡◌, refl, ap, ◌∙◌, Bool, false, not, ◌||◌, some, List, [], ◌∷◌, ◌==◌,
  length, filter, arith, Bool-cases, inl, inr, if◌then◌else◌, ==_iff,
}
use Prim.Native.Nat.{Ordering}
use shacl_engine.Common.Members.{any}
use shacl_engine.Model.Starts.{TermId}
use shacl_engine.Model.Vocab.{Severities}
use shacl_engine.Report.{
  ValidationResult, disallowed, blocks, conforms, insert_result, sort_results, cmp_result,
}
use shacl_engine.Validation.{Options}
use shacl_engine.Validation.Entry.{cut_at, trim}

any-placed :
    (p : ValidationResult → Bool) (r q : ValidationResult) (qs rest : List ValidationResult)
    (o : Ordering)
    → any p rest ≡ p r || any p qs
    → any p (elim o [ Ordering.gt ↦ q ∷ rest | _ ↦ r ∷ q ∷ qs ]) ≡ p r || (p q || any p qs)
any-placed p r q qs rest Ordering.gt e = ground (arith, e)
any-placed p r q qs rest Ordering.lt e = refl
any-placed p r q qs rest Ordering.eq e = refl

any-insert_result :
    (p : ValidationResult → Bool) (r : ValidationResult) (rs : List ValidationResult)
    → any p (insert_result r rs) ≡ p r || any p rs
any-insert_result p r [] = refl
any-insert_result p r (q ∷ qs) =
    any-placed p r q qs (insert_result r qs) (cmp_result r q) (any-insert_result p r qs)

any-sort_results :
    (p : ValidationResult → Bool) (rs : List ValidationResult) → any p (sort_results rs) ≡ any p rs
unfolding sort_results
any-sort_results p [] = refl
any-sort_results p (r ∷ rs) =
    any-insert_result p r (sort_results rs) ∙ ap (λ b. p r || b) (any-sort_results p rs)

any-cut_at :
    (ss : List TermId) (n met : ℕ) (rs : List ValidationResult)
    → any (blocks ss) (cut_at ss n met rs) ≡ any (blocks ss) rs
any-cut_at ss n met [] = refl
any-cut_at ss n met (r ∷ rs) = elim (Bool-cases (blocks ss r)) [
  | inl hit ↦ elim (Bool-cases (suc met == n)) [
    | inl last ↦ rw (hit, last, if◌then◌else◌) (rw hit refl)
    | inr more ↦ rw (hit, more, if◌then◌else◌) (rw hit refl)
  ]
  | inr miss ↦ rw (miss, if◌then◌else◌) (rw miss (any-cut_at ss n met rs))
]

before_last : (met n : ℕ) → met < n → (suc met == n) ≡ false → suc met < n
before_last met n room more = ground (arith, ==_iff (suc met) n)

-- At most `n` blocking results are kept, those met before included.
count-cut_at :
    (ss : List TermId) (n met : ℕ) (rs : List ValidationResult)
    → met < n
    → met + length (filter (blocks ss) (cut_at ss n met rs)) ≤ n
count-cut_at ss n met [] room = omega arith
count-cut_at ss n met (r ∷ rs) room = elim (Bool-cases (blocks ss r)) [
  | inl hit ↦ elim (Bool-cases (suc met == n)) [
    | inl last ↦ rw (hit, last, if◌then◌else◌) (rw (hit, if◌then◌else◌) (omega (arith, room)))
    | inr more ↦
        rw (hit, more, if◌then◌else◌)
          (rw (hit, if◌then◌else◌)
            (omega (arith, count-cut_at ss n (suc met) rs (before_last met n room more))))
  ]
  | inr miss ↦ rw (miss, if◌then◌else◌) (rw (miss, if◌then◌else◌) (count-cut_at ss n met rs room))
]

-- A run capped at one blocking result or more, once trimmed and put in order, gives the same verdict
-- as everything it found, and holds no more blocking results than the cap allows.
pub trim_keeps_verdict :
    (v : Severities) (n threads : ℕ) (severities : List TermId) (rs : List ValidationResult)
    → let options : Options = record {
      max_results = some (suc n);
      blocking = some severities;
      threads = threads;
    } in
      (conforms (record { results = sort_results (trim v options rs) }) severities v
        ≡ conforms (record { results = rs }) severities v)
      × (length (filter (blocks (disallowed v severities)) (trim v options rs)) ≤ suc n)
unfolding conforms trim
trim_keeps_verdict v n threads severities rs = (
  ap not (any-sort_results _ _ ∙ any-cut_at (disallowed v severities) (suc n) 0 rs),
  omega (arith, count-cut_at (disallowed v severities) (suc n) 0 rs (omega arith)),
)

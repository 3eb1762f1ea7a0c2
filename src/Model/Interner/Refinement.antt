-- ===== src/Model/Interner/Refinement.antt =====
-- The interner against a list of distinct strings, in which an id is a position.
use mathlib.Core.List.Memᴰ
use shacl_engine.Common.{
  ℕ, zero, suc, ◌+◌, ◌^◌, ◌<◌, ◌≡◌, refl, sym, ap, ◌∙◌, subst, ◌↔◌, ◌⊎◌, inl, inr, ⊎_elim, true,
  false, Option, none, some, List, [], ◌∷◌, ◌++◌, length, get_elem?, Memᴰ, arith, if◌then◌else◌,
  Bool-cases, Option-cases, length-append,
}
use shacl_engine.Common.Maybe.{eq_of_some}
use shacl_engine.ValueSet.{as_u32}
use shacl_engine.ValueSet.Rows.{as_u32-eq_of_lt}
use shacl_engine.Datatypes.Integers.{Text}
use shacl_engine.Datatypes.{text_eq}
use shacl_engine.Datatypes.Languages.{text_eq_iff}
use shacl_engine.Model.Interner.{
  HashTable, StrId, span_text, is_text, hash_or, Interner, new, resolve, find, get, push_string,
  intern,
}
use shacl_engine.Model.Interner.Arena.{Spells, length-Spells, span_text-Spells, Spells-push}

abbrev shifted : Option ℕ → Option ℕ
shifted none = none
shifted (some i) = some (suc i)

-- Where a string stands.
abbrev pub position : List Text → Text → Option ℕ
position [] s = none
position (x ∷ xs) s = let rest = shifted (position xs s) in if text_eq x s then some 0 else rest

-- The position of a string that is there, or of one put at the end.
abbrev pub add_string : List Text → Text → StrId × List Text
add_string xs s = elim (position xs s) [ some i ↦ (i, xs) | none ↦ (length xs, xs ++ s ∷ []) ]

get_elem?-position :
    (xs : List Text) (s : Text) (i : ℕ) → position xs s ≡ some i → get_elem? xs i ≡ some s
get_elem?-position [] s i h = cc
get_elem?-position (x ∷ xs) s i h = elim (Bool-cases (text_eq x s)) [
  | inl e ↦
      let first : 0 ≡ i = eq_of_some (rw e at h) in
      subst (λ k. get_elem? (x ∷ xs) k ≡ some s) first (ap some ((text_eq_iff x s).0 e))
  | inr e ↦ elim (Option-cases (position xs s)) [
    | inl q ↦ let wrong = rw (e, q) at h in cc
    | inr (j, q) ↦
        let next : suc j ≡ i = eq_of_some (rw (e, q) at h) in
        subst (λ k. get_elem? (x ∷ xs) k ≡ some s) next (get_elem?-position xs s j q)
  ]
]

-- A string that is there has a position.
position-some :
    (xs : List Text) (s : Text) (i : ℕ)
    → get_elem? xs i ≡ some s
    → (j : ℕ) × (position xs s ≡ some j)
position-some [] s i h = cc
position-some (x ∷ xs) s i h = elim (Bool-cases (text_eq x s)) [
  | inl e ↦ rw e (0, refl)
  | inr e ↦ later x xs s i e h (λ k q. position-some xs s k q)
]
  where
    later :
        (x : Text) (xs : List Text) (s : Text) (i : ℕ)
        → text_eq x s ≡ false
        → get_elem? (x ∷ xs) i ≡ some s
        → ((k : ℕ) → get_elem? xs k ≡ some s → (j : ℕ) × (position xs s ≡ some j))
        → (j : ℕ) × (position (x ∷ xs) s ≡ some j)
    later x xs s zero e h ih = let same = (text_eq_iff x s).1 (eq_of_some h) in cc
    later x xs s (suc i) e h ih = let (j, q) = ih i h in (suc j, rw (e, q) refl)

get_elem?-end : (xs : List Text) (s : Text) → get_elem? (xs ++ s ∷ []) (length xs) ≡ some s
get_elem?-end [] s = refl
get_elem?-end (x ∷ xs) s = get_elem?-end xs s

get_elem?-append :
    (xs : List Text) (s x : Text) (i : ℕ)
    → (get_elem? (xs ++ s ∷ []) i ≡ some x)
      ↔ (((i ≡ length xs) × (x ≡ s)) ⊎ (get_elem? xs i ≡ some x))
get_elem?-append [] s x zero =
    (λ h. inl (refl, sym (eq_of_some h)), λ h. ⊎_elim (λ p. ap some (sym p.1)) (λ q. cc) h)
get_elem?-append [] s x (suc i) =
    (λ h. inr h, λ h. ⊎_elim (λ p. absurd (omega (arith, p.0))) (λ q. q) h)
get_elem?-append (y ∷ xs) s x zero =
    (λ h. inr h, λ h. ⊎_elim (λ p. absurd (omega (arith, p.0))) (λ q. q) h)
get_elem?-append (y ∷ xs) s x (suc i) =
    let ih = get_elem?-append xs s x i in
    (
      λ h. ⊎_elim (λ p. inl (ap suc p.0, p.1)) (λ q. inr q) (ih.0 h),
      λ h. ih.1 (⊎_elim (λ p. inl (omega (arith, p.0), p.1)) (λ q. inr q) h),
    )

module _ (tables : HashTable) where
  -- The interner holds the strings, each once, and its table has each under its hash.
  pub record Represents (it : Interner tables) (xs : List Text) : Type 0 where
    pub arena : Spells it.buf it.spans xs
    pub fits : length it.buf < 2 ^ 32
    pub keyed :
        (h id : ℕ)
        → Memᴰ {A = ℕ × ℕ} (h, id) (tables.entries it.table)
          ↔ ((x : Text) × (get_elem? xs id ≡ some x) × (h ≡ it.hasher x))
    pub unique : (i j : ℕ) (x : Text) → get_elem? xs i ≡ some x → get_elem? xs j ≡ some x → i ≡ j

  module _ (it : Interner tables) (xs : List Text) (r : Represents it xs) where
    pub resolve_lem : (id : ℕ) → resolve tables it id ≡ get_elem? xs id
    unfolding resolve
    resolve_lem id = span_text-Spells it.buf it.spans xs id r.fits r.arena

    pub find_lem : (s : Text) → find tables it s ≡ position xs s
    unfolding find
    find_lem s =
        elim (Option-cases
          (tables.find it.table (it.hasher s) (λ id. is_text (span_text it.buf it.spans id) s))) [
            | inl e ↦ elim (Option-cases (position xs s)) [
              | inl q ↦ e ∙ sym q
              | inr (j, q) ↦
                  let there = get_elem?-position xs s j q in
                  let entry = (r.keyed (it.hasher s) j).1 (s, there, refl) in
                  let unlike = tables.find_none it.table (it.hasher s) j _ e entry in
                  let like : is_text (span_text it.buf it.spans j) s ≡ true =
                    rw (span_text-Spells it.buf it.spans xs j r.fits r.arena, there)
                      ((text_eq_iff s s).1 refl) in
                  cc
            ]
            | inr (id, e) ↦
                let (entry, like) = tables.find_some it.table (it.hasher s) id _ e in
                let (x, there, key) = (r.keyed (it.hasher s) id).0 entry in
                let same : x ≡ s =
                  (text_eq_iff x s).0
                    (rw (span_text-Spells it.buf it.spans xs id r.fits r.arena, there) at like) in
                let found : get_elem? xs id ≡ some s = there ∙ ap some same in
                let (j, q) = position-some xs s id found in
                e ∙ ap some (r.unique id j s found (get_elem?-position xs s j q)) ∙ sym q
          ]

    module _ (s : Text) (absent : position xs s ≡ none) (room : length it.buf + length s < 2 ^ 32)
        (ids : length xs < 2 ^ 32) where
      abbrev pushed : Interner tables
      pushed = (push_string tables it s).1

      absent-get_elem? : (i : ℕ) → ¬ (get_elem? xs i ≡ some s)
      absent-get_elem? i h = let (j, q) = position-some xs s i h in cc

      new_id : as_u32 (length it.spans) ≡ length xs
      new_id =
          let same = length-Spells it.buf it.spans xs r.arena in
          as_u32-eq_of_lt (length it.spans) (omega (arith, same, ids)) ∙ same

      push-arena :
          Spells
            (it.buf ++ s)
            (it.spans ++ (as_u32 (length it.buf), as_u32 (length s)) ∷ [])
            (xs ++ s ∷ [])
      push-arena =
          rw
            (
              as_u32-eq_of_lt (length it.buf) r.fits,
              as_u32-eq_of_lt (length s) (omega (arith, room)),
            )
            (Spells-push it.buf s it.spans xs r.arena)

      push-fits : length (it.buf ++ s) < 2 ^ 32
      push-fits = omega (arith, length-append it.buf s, room)

      -- The old entries still have the hash of what their ids spell.
      rehash-keeps :
          (k i : ℕ)
          → Memᴰ {A = ℕ × ℕ} (k, i) (tables.entries it.table)
          → hash_or it.hasher (
              span_text
                (it.buf ++ s)
                (it.spans ++ (as_u32 (length it.buf), as_u32 (length s)) ∷ [])
                i)
            ≡ k
      rehash-keeps k i m =
          let (x, there, key) = (r.keyed k i).0 m in
          rw
            (
              span_text-Spells _ _ (xs ++ s ∷ []) i push-fits push-arena,
              (get_elem?-append xs s x i).1 (inr there),
            )
            (sym key)

      push-keyed :
          (h id : ℕ)
          → Memᴰ {A = ℕ × ℕ} (h, id) (tables.entries pushed.table)
            ↔ ((x : Text) × (get_elem? (xs ++ s ∷ []) id ≡ some x) × (h ≡ it.hasher x))
      unfolding push_string
      push-keyed h id =
          let law =
            tables.insert_holds it.table (it.hasher s) (as_u32 (length it.spans)) _ h id
              rehash-keeps in
          (
            λ m.
                ⊎_elim (λ p. (s, (get_elem?-append xs s s id).1 (inl (p.1 ∙ new_id, refl)), p.0))
                  (λ k.
                    let (x, there, key) = (r.keyed h id).0 k in
                    (x, (get_elem?-append xs s x id).1 (inr there), key))
                  (law.0 m),
            λ (x, there, key). law.1 (
                ⊎_elim (λ p. inl (key ∙ ap it.hasher p.1, p.0 ∙ sym new_id))
                  (λ q. inr ((r.keyed h id).1 (x, q, key))) ((get_elem?-append xs s x id).0 there)),
          )

      push_unique :
          (i j : ℕ) (x : Text)
          → get_elem? (xs ++ s ∷ []) i ≡ some x
          → get_elem? (xs ++ s ∷ []) j ≡ some x
          → i ≡ j
      push_unique i j x h k =
          ⊎_elim
            (λ p.
              ⊎_elim (λ q. p.0 ∙ sym q.0) (λ q. absurd (absent-get_elem? j (q ∙ ap some p.1)))
                ((get_elem?-append xs s x j).0 k))
            (λ p.
              ⊎_elim (λ q. absurd (absent-get_elem? i (p ∙ ap some q.1))) (λ q. r.unique i j x p q)
                ((get_elem?-append xs s x j).0 k))
            ((get_elem?-append xs s x i).0 h)

      push-Represents : Represents pushed (xs ++ s ∷ [])
      unfolding push_string
      push-Represents = record {
        arena = push-arena;
        fits = push-fits;
        keyed = push-keyed;
        unique = push_unique;
      }

      push-id : (push_string tables it s).0 ≡ length xs
      unfolding push_string
      push-id = new_id

  -- With room in the arena and fewer than `2 ^ 32` strings, interning a string refines adding it to a list of distinct strings: the
  -- id is its position, the old one where it was there, and it resolves to the string and is found
  -- again.
  pub intern_lem :
      (it : Interner tables) (xs : List Text) (s : Text)
      → Represents it xs
      → length it.buf + length s < 2 ^ 32
      → length xs < 2 ^ 32
      → Represents (intern tables it s).1 (add_string xs s).1
        × ((intern tables it s).0 ≡ (add_string xs s).0)
        × (resolve tables (intern tables it s).1 (intern tables it s).0 ≡ some s)
        × (get tables (intern tables it s).1 s ≡ some (intern tables it s).0)
  unfolding intern get
  intern_lem it xs s r room ids = elim (Option-cases (position xs s)) [
    | inr (i, q) ↦
        let found = find_lem it xs r s ∙ q in
        rw (intern, add_string, found, q)
          (r, refl, resolve_lem it xs r i ∙ get_elem?-position xs s i q, found)
    | inl q ↦
        let after = push-Represents it xs r s q room ids in
        let id = push-id it xs r s q room ids in
        let end = get_elem?-end xs s in
        let (j, there) = position-some (xs ++ s ∷ []) s (length xs) end in
        let last : j ≡ length xs =
          after.unique j (length xs) s (get_elem?-position (xs ++ s ∷ []) s j there) end in
        rw (intern, add_string, find_lem it xs r s ∙ q, q)
          (
            after,
            id,
            resolve_lem _ _ after _ ∙ ap (get_elem? (xs ++ s ∷ [])) id ∙ end,
            find_lem _ _ after s ∙ there ∙ ap some (last ∙ sym id),
          )
  ]

  -- A new interner holds nothing.
  pub new-Represents : (hasher : Text → ℕ) → Represents (new tables hasher) []
  unfolding new
  new-Represents hasher = record {
    arena = tt;
    fits = omega arith;
    keyed = λ h id. (
      λ m. absurd (Memᴰ.not-nil (subst (λ es. Memᴰ {A = ℕ × ℕ} (h, id) es) tables.empty_holds m)),
      λ (x, e, k). cc,
    );
    unique = λ i j x h k. cc;
  }

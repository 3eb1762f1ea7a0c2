-- ===== src/Model/Interner/Rebuild.antt =====
-- `Interner::parts` and `Interner::from_parts`: the table is left out of what is written, and built
-- again from the spans.
use mathlib.Core.List.Memᴰ
use native.Mathlib.Decide.{dec_lt}
use shacl_engine.Common.{
  ℕ, zero, suc, ◌+◌, ◌^◌, ◌<◌, ◌≡◌, refl, sym, ap, ◌∙◌, subst, ◌↔◌, inl, inr, ⊎_elim, some, List,
  [], ◌∷◌, length, get_elem?, Memᴰ, arith,
}
use shacl_engine.Common.Maybe.{eq_of_some}
use shacl_engine.ValueSet.{as_u32}
use shacl_engine.ValueSet.Rows.{as_u32-eq_of_lt}
use shacl_engine.Datatypes.Integers.{Text}
use shacl_engine.Model.Interner.{HashTable, span_text, hash_or, Interner}
use shacl_engine.Model.Interner.Arena.{Spells, length-Spells, span_text-Spells}
use shacl_engine.Model.Interner.Refinement.{Represents}

module _ (tables : HashTable) where
  -- What an index file keeps of an interner.
  unfoldable pub parts : Interner tables → Text × List (ℕ × ℕ)
  parts it = (it.buf, it.spans)

  -- The loop over the spans, from the `i`th.
  unfoldable pub insert_all :
      (Text → ℕ) → Text → List (ℕ × ℕ) → ℕ → List (ℕ × ℕ) → tables.Table → tables.Table
  unfolding as_u32 span_text
  insert_all hasher buf spans i [] table = table
  insert_all hasher buf spans i (s ∷ rest) table = insert_all hasher buf spans (suc i) rest (
      tables.insert_unique table (hash_or hasher (span_text buf spans i)) (as_u32 i)
        (λ id. hash_or hasher (span_text buf spans id)))

  unfoldable pub from_parts : (Text → ℕ) → Text → List (ℕ × ℕ) → Interner tables
  unfolding insert_all
  from_parts hasher buf spans = record {
    buf = buf;
    spans = spans;
    table = insert_all hasher buf spans 0 spans tables.empty;
    hasher = hasher;
  }

  module _ (hasher : Text → ℕ) (buf : Text) (spans : List (ℕ × ℕ)) (xs : List Text)
      (arena : Spells buf spans xs) (fits : length buf < 2 ^ 32) (ids : length xs < 2 ^ 32) where
    -- The table has the ids below `n`, each under the hash of its string.
    abbrev Keyed : tables.Table → ℕ → Type 0
    Keyed table n =
        (h id : ℕ)
        → Memᴰ {A = ℕ × ℕ} (h, id) (tables.entries table)
          ↔ ((x : Text) × (get_elem? xs id ≡ some x) × (h ≡ hasher x) × (id < n))

    insert-Keyed :
        (table : tables.Table) (i : ℕ) (y : Text)
        → Keyed table i
        → get_elem? xs i ≡ some y
        → i < length xs
        → Keyed
            (tables.insert_unique table
              (hash_or hasher (span_text buf spans i))
              (as_u32 i)
              (λ id. hash_or hasher (span_text buf spans id)))
            (suc i)
    insert-Keyed table i y keyed at below h id =
        let here : hash_or hasher (span_text buf spans i) ≡ hasher y =
          rw (span_text-Spells buf spans xs i fits arena, at) refl in
        let same = as_u32-eq_of_lt i (omega (arith, below, ids)) in
        let law =
          tables.insert_holds table (hash_or hasher (span_text buf spans i)) (as_u32 i)
            (λ id. hash_or hasher (span_text buf spans id)) h id
            (λ k j m.
              let (x, there, key, _) = (keyed k j).0 m in
              rw (span_text-Spells buf spans xs j fits arena, there) (sym key)) in
        (
          λ m.
              ⊎_elim
                (λ p.
                  let here_id : id ≡ i = p.1 ∙ same in
                  (
                    y,
                    subst (λ t. get_elem? xs t ≡ some y) (sym here_id) at,
                    p.0 ∙ here,
                    omega (arith, here_id),
                  ))
                (λ k.
                  let (x, there, key, low) = (keyed h id).0 k in
                  (x, there, key, omega (arith, low)))
                (law.0 m),
          λ (x, there, key, low). law.1 (elim (dec_lt id i) [
            | yes old ↦ inr ((keyed h id).1 (x, there, key, old))
            | no last ↦
                let here_id : id ≡ i = omega (arith, low, last) in
                let y_x : y ≡ x = eq_of_some (sym at ∙ ap (get_elem? xs) (sym here_id) ∙ there) in
                inl (key ∙ sym (here ∙ ap hasher y_x), here_id ∙ sym same)
          ]),
        )

    elem_below : (zs : List Text) (i : ℕ) → i < length zs → (y : Text) × (get_elem? zs i ≡ some y)
    elem_below [] i h = absurd (omega arith)
    elem_below (z ∷ zs) zero h = (z, refl)
    elem_below (z ∷ zs) (suc i) h = elem_below zs i (omega arith)

    insert_all-Keyed :
        (rest : List (ℕ × ℕ)) (i : ℕ) (table : tables.Table)
        → i + length rest ≡ length xs
        → Keyed table i
        → Keyed (insert_all hasher buf spans i rest table) (length xs)
    unfolding insert_all
    insert_all-Keyed [] i table e keyed =
        let all : i ≡ length xs = omega (arith, e) in subst (Keyed table) all keyed
    insert_all-Keyed (s ∷ rest) i table e keyed =
        let (y, at) = elem_below xs i (omega (arith, e)) in
        insert_all-Keyed rest (suc i) _ (omega (arith, e))
          (insert-Keyed table i y keyed at (omega (arith, e)))

    below_length : (zs : List Text) (i : ℕ) (x : Text) → get_elem? zs i ≡ some x → i < length zs
    below_length [] i x h = cc
    below_length (z ∷ zs) zero x h = omega arith
    below_length (z ∷ zs) (suc i) x h = let ih = below_length zs i x h in omega (arith, ih)

  -- With fewer than `2 ^ 32` strings, an interner rebuilt from the parts of another, under any hasher,
  -- represents the same strings
  -- under the same ids.
  pub from_parts-parts :
      (it : Interner tables) (xs : List Text) (hasher : Text → ℕ)
      → Represents tables it xs
      → length xs < 2 ^ 32
      → Represents tables (from_parts hasher (parts it).0 (parts it).1) xs
  unfolding parts from_parts
  from_parts-parts it xs hasher r ids = record {
    arena = r.arena;
    fits = r.fits;
    unique = r.unique;
    keyed = λ h id.
        let nothing : Keyed hasher it.buf it.spans xs r.arena r.fits ids tables.empty 0 = λ k j. (
          λ m.
              absurd (Memᴰ.not-nil (subst (λ es. Memᴰ {A = ℕ × ℕ} (k, j) es) tables.empty_holds m)),
          λ (x, there, key, low). absurd (omega (arith, low)),
        ) in
        let all =
          insert_all-Keyed hasher it.buf it.spans xs r.arena r.fits ids it.spans 0 tables.empty
            (omega (arith, length-Spells it.buf it.spans xs r.arena)) nothing h id in
        (
          λ m. let (x, there, key, _) = all.0 m in (x, there, key),
          λ (x, there, key). all.1 (
            x,
            there,
            key,
            below_length hasher it.buf it.spans xs r.arena r.fits ids xs id x there,
          ),
        );
  }

-- ===== src/Model/Interner/Tests.antt =====
-- The interner over a table that is a list searched from the front, with a hash that collides.
use mathlib.Core.List.Memᴰ
use shacl_engine.Common.{
  ℕ, ◌≡◌, refl, sym, ◌∙◌, ap, inl, inr, ⊎_elim, Bool, true, false, ◌&&◌, Option, none, some, List,
  [], ◌∷◌, Memᴰ, arith, ◌==◌, if◌then◌else◌, Bool-cases,
}
use shacl_engine.Common.Maybe.{eq_of_some}
use shacl_engine.Datatypes.Integers.{Text}
use shacl_engine.Model.Interner.{HashTable, Interner, new, intern, resolve, get}
use shacl_engine.Model.Interner.Rebuild.{parts, from_parts, from_parts-parts}
use shacl_engine.Model.Interner.Refinement.{Represents, add_string, intern_lem, new-Represents}

abbrev Entry : Type 0
Entry = ℕ × ℕ

abbrev search : List Entry → ℕ → (ℕ → Bool) → Option ℕ
search [] hash eq = none
search ((h, v) ∷ es) hash eq =
    let rest = search es hash eq in if h == hash && eq v then some v else rest

search-some :
    (es : List Entry) (hash v : ℕ) (eq : ℕ → Bool)
    → search es hash eq ≡ some v
    → Memᴰ {A = Entry} (hash, v) es × (eq v ≡ true)
search-some [] hash v eq h = cc
search-some ((k, w) ∷ es) hash v eq h = elim (Bool-cases (k == hash && eq w)) [
  | inl e ↦
      let same : w ≡ v = eq_of_some (rw e at h) in
      let key : hash ≡ k = ground (arith, e) in
      let good : eq w ≡ true = ground (arith, e) in
      (Memᴰ.head (ground (arith, same, key)), ap eq (sym same) ∙ good)
  | inr e ↦ let (m, good) = search-some es hash v eq (rw e at h) in (Memᴰ.tail m, good)
]

search-none :
    (es : List Entry) (hash v : ℕ) (eq : ℕ → Bool)
    → search es hash eq ≡ none
    → Memᴰ {A = Entry} (hash, v) es
    → eq v ≡ false
search-none [] hash v eq h m = absurd (Memᴰ.not-nil m)
search-none ((k, w) ∷ es) hash v eq h m = elim (Bool-cases (k == hash && eq w)) [
  | inl e ↦ let wrong = rw e at h in cc
  | inr e ↦
      ⊎_elim
        (λ p.
          let key : hash ≡ k = ap (λ (e : Entry). e.0) p in
          let same : v ≡ w = ap (λ (e : Entry). e.1) p in
          let level = ap eq same in ground (arith, e, key, level))
        (search-none es hash v eq (rw e at h)) (Memᴰ.cases_cons m)
]

abbrev listed : HashTable
listed = record {
  Table = List Entry;
  empty = [];
  find = search;
  insert_unique = λ es hash v rehash. (hash, v) ∷ es;
  entries = λ es. es;
  empty_holds = refl;
  find_some = search-some;
  find_none = λ es hash v eq. search-none es hash v eq;
  insert_holds = λ es hash v rehash h w ok. (
    λ m.
        ⊎_elim (λ p. inl (ap (λ (e : Entry). e.0) p, ap (λ (e : Entry). e.1) p)) (λ k. inr k)
          (Memᴰ.cases_cons m),
    λ c. ⊎_elim (λ p. Memᴰ.head (ground (arith, p))) (λ k. Memᴰ.tail k) c,
  );
}

abbrev constant_hash : Text → ℕ
constant_hash s = 7

abbrev one_string : Interner listed
one_string = (intern listed (new listed constant_hash) (97 ∷ 98 ∷ [])).1

one_string-Represents : Represents listed one_string ((97 ∷ 98 ∷ []) ∷ [])
unfolding new
one_string-Represents =
    (intern_lem listed (new listed constant_hash) [] (97 ∷ 98 ∷ [])
      (new-Represents listed constant_hash) (omega arith) (omega arith)).0

intern_lem_example :
    Represents listed
      (intern listed one_string (99 ∷ [])).1
      (add_string ((97 ∷ 98 ∷ []) ∷ []) (99 ∷ [])).1
    × ((intern listed one_string (99 ∷ [])).0 ≡ (add_string ((97 ∷ 98 ∷ []) ∷ []) (99 ∷ [])).0)
    × (resolve listed (intern listed one_string (99 ∷ [])).1 (intern listed one_string (99 ∷ [])).0
        ≡ some (99 ∷ []))
    × (get listed (intern listed one_string (99 ∷ [])).1 (99 ∷ [])
        ≡ some (intern listed one_string (99 ∷ [])).0)
unfolding intern new
intern_lem_example =
    intern_lem listed one_string ((97 ∷ 98 ∷ []) ∷ []) (99 ∷ []) one_string-Represents (omega arith)
      (omega arith)

abbrev no_hash : Text → ℕ
no_hash s = 0

from_parts-parts_example :
    Represents listed
      (from_parts listed no_hash (parts listed one_string).0 (parts listed one_string).1)
      ((97 ∷ 98 ∷ []) ∷ [])
from_parts-parts_example =
    from_parts-parts listed one_string ((97 ∷ 98 ∷ []) ∷ []) no_hash one_string-Represents
      (omega arith)

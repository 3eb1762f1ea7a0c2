-- ===== src/Model/Interner.antt =====
-- crates/shacl/src/model/interner.rs: strings kept once, in one arena. The hash table is
-- `hashbrown`'s and the hasher `foldhash`'s: both are parameters. A text is its bytes. An index out
-- of range, which Rust makes a panic, resolves to nothing.
pub mod Arena
pub mod Refinement
pub mod Rebuild
mod Tests
use shacl_engine.Common.{
  ℕ, zero, suc, ◌+◌, Bool, true, false, Option, none, some, List, [], ◌∷◌, ◌++◌, length, get_elem?,
  Memᴰ, ◌≡◌, ◌↔◌, ◌⊎◌,
}
use shacl_engine.Model.Starts.{slice}
use shacl_engine.ValueSet.{as_u32}
use shacl_engine.Datatypes.Integers.{Text}
use shacl_engine.Datatypes.{text_eq}

-- `hashbrown::HashTable<u32>`, with what it holds as a list of hashes and values.
pub record HashTable : Type 1 where
  pub Table : Type 0
  pub empty : Table
  pub find : Table → ℕ → (ℕ → Bool) → Option ℕ
  pub insert_unique : Table → ℕ → ℕ → (ℕ → ℕ) → Table
  pub entries : Table → List (ℕ × ℕ)
  pub empty_holds : entries empty ≡ []
  pub find_some :
      (t : Table) (hash value : ℕ) (eq : ℕ → Bool)
      → find t hash eq ≡ some value
      → Memᴰ {A = ℕ × ℕ} (hash, value) (entries t) × (eq value ≡ true)
  pub find_none :
      (t : Table) (hash value : ℕ) (eq : ℕ → Bool)
      → find t hash eq ≡ none
      → Memᴰ {A = ℕ × ℕ} (hash, value) (entries t)
      → eq value ≡ false
  pub insert_holds :
      (t : Table) (hash value : ℕ) (rehash : ℕ → ℕ) (h v : ℕ)
      → ((k i : ℕ) → Memᴰ {A = ℕ × ℕ} (k, i) (entries t) → rehash i ≡ k)
      → Memᴰ {A = ℕ × ℕ} (h, v) (entries (insert_unique t hash value rehash))
        ↔ (((h ≡ hash) × (v ≡ value)) ⊎ Memᴰ {A = ℕ × ℕ} (h, v) (entries t))

abbrev pub StrId : Type 0
StrId = ℕ

-- `&buf[off as usize..(off + len) as usize]`
unfoldable pub span_text : Text → List (ℕ × ℕ) → ℕ → Option Text
unfolding as_u32
span_text buf spans id = elim (get_elem? spans id) [
  | none ↦ none
  | some (off, len) ↦ some (slice buf off (as_u32 (off + len)))
]

abbrev pub is_text : Option Text → Text → Bool
is_text none s = false
is_text (some t) s = text_eq t s

abbrev pub hash_or : (Text → ℕ) → Option Text → ℕ
hash_or hash none = 0
hash_or hash (some t) = hash t

module _ (tables : HashTable) where
  pub record Interner : Type 0 where
    pub buf : Text
    pub spans : List (ℕ × ℕ)
    pub table : tables.Table
    pub hasher : Text → ℕ

  unfoldable pub new : (Text → ℕ) → Interner
  new hasher = record { buf = []; spans = []; table = tables.empty; hasher = hasher }

  unfoldable pub resolve : Interner → StrId → Option Text
  unfolding span_text
  resolve it id = span_text it.buf it.spans id

  unfoldable pub find : Interner → Text → Option ℕ
  unfolding span_text
  find it s = tables.find it.table (it.hasher s) (λ id. is_text (span_text it.buf it.spans id) s)

  -- `get`: the id of a string that has one.
  unfoldable pub get : Interner → Text → Option StrId
  unfolding find
  get it s = find it s

  -- What `intern` appends for a string that is new.
  unfoldable pub push_string : Interner → Text → StrId × Interner
  unfolding as_u32 span_text
  push_string it s =
      let id = as_u32 (length it.spans) in
      let off = as_u32 (length it.buf) in
      let buf = it.buf ++ s in
      let spans = it.spans ++ (off, as_u32 (length s)) ∷ [] in
      let rehash : ℕ → ℕ = λ other. hash_or it.hasher (span_text buf spans other) in
      (
        id,
        record it {
          buf = buf;
          spans = spans;
          table = tables.insert_unique it.table (it.hasher s) id rehash;
        },
      )

  unfoldable pub intern : Interner → Text → StrId × Interner
  unfolding find push_string
  intern it s = elim (find it s) [ some id ↦ (id, it) | none ↦ push_string it s ]

-- ===== src/Validation/Values/Keys.antt =====
-- crates/shacl/src/validate.rs: tests on kinds, orders, language keys and keys of several paths.
use shacl_engine.Common.{
  ℕ, zero, suc, ◌+◌, ◌*◌, Bool, true, false, not, ◌&&◌, ◌||◌, Option, none, some, List, [], ◌∷◌,
  ◌++◌, ◌==◌, ltb, leb, if◌then◌else◌, nat_ord,
}
use shacl_engine.Common.Members.{has_id, any}
use shacl_engine.Common.Strict.{sort_dedup}
use shacl_engine.Error.{Bounded}
use shacl_engine.Datatypes.{text_eq}
use shacl_engine.Datatypes.Integers.{Text, Ordering, less, equal, greater}
use shacl_engine.Model.Starts.{TermId}
use shacl_engine.Model.Graph.{Graph, len}
use shacl_engine.Model.Terms.{Direction, TermKind, same_kind, same_direction}
use shacl_engine.PropertyPath.{PropertyPath, eval}
use shacl_engine.Shapes.{
  NodeKind, blank_node, blank_node_or_iri, blank_node_or_literal, iri_or_literal,
}
use shacl_engine.Validation.Bounded.{◌>>=◌, done, bounded}

abbrev pub node_kind_matches : TermKind → NodeKind → Bool
node_kind_matches kind NodeKind.iri = same_kind kind TermKind.iri
node_kind_matches kind blank_node = same_kind kind TermKind.blank
node_kind_matches kind NodeKind.literal = same_kind kind TermKind.literal
node_kind_matches kind blank_node_or_iri =
    same_kind kind TermKind.blank || same_kind kind TermKind.iri
node_kind_matches kind blank_node_or_literal =
    same_kind kind TermKind.blank || same_kind kind TermKind.literal
node_kind_matches kind iri_or_literal =
    same_kind kind TermKind.iri || same_kind kind TermKind.literal

abbrev pub same_ordering : Ordering → Ordering → Bool
same_ordering less less = true
same_ordering equal equal = true
same_ordering greater greater = true
same_ordering _ _ = false

abbrev pub is_line_break : ℕ → Bool
is_line_break c = (c == 10) || (c == 13) || (c == 12) || (c == 11)

-- `chars().count()` of a text in UTF-8: its bytes other than continuation bytes.
abbrev pub char_count : Text → ℕ
char_count [] = 0
char_count (b ∷ bs) = let more = char_count bs in if leb 128 b && ltb b 192 then more else suc more

-- `is_some_and`
abbrev pub some_and {ℓ} : {A : Type ℓ} → Option A → (A → Bool) → Bool
some_and none p = false
some_and (some a) p = p a

abbrev pub unwrap_or {ℓ} : {A : Type ℓ} → Option A → A → A
unwrap_or none d = d
unwrap_or (some a) d = a

abbrev pub list_or_empty {ℓ} : {A : Type ℓ} → Option (List A) → List A
list_or_empty none = []
list_or_empty (some xs) = xs

-- The value nodes of a focus node under a path, as a set. The bound of the path's closures lets
-- every node of the graph be reached.
unfoldable pub path_values : Graph → TermId → PropertyPath → Bounded (List TermId)
unfolding eval sort_dedup
path_values g focus p = do xs ← bounded (eval g (2 + 2 * len g) p focus []); done (sort_dedup xs)

-- `unique_members`: the members that occur more than once, in the order of their second occurrence.
abbrev pub duplicates : List TermId → List TermId → List TermId → List TermId
duplicates seen dupes [] = dupes
duplicates seen dupes (m ∷ ms) =
    if has_id seen m
    then (if has_id dupes m then duplicates seen dupes ms else duplicates seen (dupes ++ m ∷ []) ms)
    else duplicates (seen ++ m ∷ []) dupes ms

abbrev pub same_paths : List (List TermId) → List (List TermId) → Bool
same_paths [] [] = true
same_paths (k ∷ ks) (o ∷ os) = text_eq k o && same_paths ks os
same_paths _ _ = false

abbrev pub is_nil {ℓ} : {A : Type ℓ} → List A → Bool
is_nil [] = true
is_nil (_ ∷ _) = false

-- Whether another entry than the `i`th has the key.
abbrev pub clashes_at : ℕ → List (List TermId) → ℕ → List (TermId × List (List TermId)) → Bool
clashes_at i key j [] = false
clashes_at i key j ((_, other) ∷ rest) =
    (not (j == i) && same_paths other key) || clashes_at i key (suc j) rest

-- The focus nodes whose keys are whole and clash, in order.
abbrev pub clashing :
    List (TermId × List (List TermId)) → ℕ → List (TermId × List (List TermId)) → List TermId
clashing keys i [] = []
clashing keys i ((focus, key) ∷ rest) =
    let more = clashing keys (suc i) rest in
    if any is_nil key then more else if clashes_at i key 0 keys then focus ∷ more else more

abbrev pub LangKey : Type 0
LangKey = Text × Option Direction

abbrev pub has_key : List LangKey → LangKey → Bool
has_key [] k = false
has_key ((t, d) ∷ ks) (tag, dir) = (text_eq t tag && same_direction d dir) || has_key ks (tag, dir)

-- How many keys of a row are met a second time.
abbrev pub repeated : List LangKey → List LangKey → List LangKey → ℕ
repeated seen reported [] = 0
repeated seen reported (k ∷ ks) =
    if has_key seen k
    then (if has_key reported k
        then repeated seen reported ks
        else suc (repeated seen (reported ++ k ∷ []) ks))
    else repeated (seen ++ k ∷ []) reported ks

abbrev pub copies {ℓ} : {A : Type ℓ} → ℕ → A → List A
copies zero a = []
copies (suc n) a = a ∷ copies n a

-- ===== src/Validation/Messages.antt =====
-- crates/shacl/src/validate.rs: messages as templates over the solution that produced a result.
use shacl_engine.Common.{
  ℕ, zero, suc, Bool, true, false, Option, none, some, List, [], ◌∷◌, ◌++◌, ◌==◌, length,
  if◌then◌else◌,
}
use shacl_engine.Datatypes.{text_eq}
use shacl_engine.Datatypes.Integers.{Text}
use shacl_engine.Model.Starts.{TermId}
use shacl_engine.Validation.{Services}

-- `{`, `}`, `?`, `$`
abbrev pub open_brace : ℕ
open_brace = 123

abbrev pub close_brace : ℕ
close_brace = 125

-- `HashMap::get` and a search by name.
abbrev pub lookup {ℓ} : {A : Type ℓ} → List (Text × A) → Text → Option A
lookup [] name = none
lookup ((n, a) ∷ rest) name = let more = lookup rest name in if text_eq n name then some a else more

abbrev pub or_else {ℓ} : {A : Type ℓ} → Option A → Option A → Option A
or_else (some a) _ = some a
or_else none o = o

-- What stands before and after the first occurrence of a character.
abbrev pub split_at : ℕ → Text → Option (Text × Text)
split_at c [] = none
split_at c (x ∷ rest) =
    let more = split_at c rest in
    if x == c then some ([], rest) else elim more [ none ↦ none | some (a, b) ↦ some (x ∷ a, b) ]

-- The name and the sigil of a placeholder whose opening brace has been read, and what follows it.
abbrev pub placeholder : Text → Option (Text × ℕ × Text)
placeholder [] = none
placeholder (s ∷ body) =
    if s == 63
    then elim (split_at close_brace body) [
      | none ↦ none
      | some ([], _) ↦ none
      | some (c ∷ name, rest) ↦ some (c ∷ name, s, rest)
    ]
    else if s == 36
    then elim (split_at close_brace body) [
      | none ↦ none
      | some ([], _) ↦ none
      | some (c ∷ name, rest) ↦ some (c ∷ name, s, rest)
    ]
    else none

-- The loop over the template: the text written so far, whether anything was substituted, and what
-- is left to read.
unfoldable pub fill : (Text → Option Text) → ℕ → Text → Bool → Text → Text × Bool
fill find zero out changed rest = (out ++ rest, changed)
fill find (suc fuel) out changed rest = elim (split_at open_brace rest) [
  | none ↦ (out ++ rest, changed)
  | some (before, after) ↦ elim (placeholder after) [
    | none ↦ fill find fuel (out ++ before ++ open_brace ∷ []) changed after
    | some (name, sigil, after') ↦ elim (find name) [
      | some value ↦ fill find fuel (out ++ before ++ value) true after'
      | none ↦
          fill find fuel (out ++ before ++ open_brace ∷ sigil ∷ (name ++ close_brace ∷ [])) changed
            after'
    ]
  ]
]

-- `http://www.w3.org/2001/XMLSchema#string`
abbrev pub xsd_string_iri : Text
xsd_string_iri =
    104 ∷ 116 ∷ 116 ∷ 112 ∷ 58 ∷ 47 ∷ 47 ∷ 119 ∷ 119 ∷ 119 ∷ 46 ∷ 119 ∷ 51 ∷ 46 ∷ 111 ∷ 114 ∷ 103
    ∷ 47 ∷ 50 ∷ 48 ∷ 48 ∷ 49 ∷ 47 ∷ 88 ∷ 77 ∷ 76 ∷ 83 ∷ 99 ∷ 104 ∷ 101 ∷ 109 ∷ 97 ∷ 35 ∷ 115 ∷ 116
    ∷ 114 ∷ 105 ∷ 110 ∷ 103 ∷ []

abbrev pub datatype_iri : Option TermId → (TermId → Option Text) → Text
datatype_iri none iri = xsd_string_iri
datatype_iri (some d) iri = elim (iri d) [ none ↦ xsd_string_iri | some text ↦ text ]

module _ (h : Services) where
  unfoldable pub substitute_message : TermId → (Text → Option Text) → h.Store → TermId × h.Store
  unfolding fill
  substitute_message template find store = elim ((h.literals store).lexical_form template) [
    | none ↦ (template, store)
    | some text ↦
        let (out, changed) = fill find (length text) [] false text in
        if changed
        then h.literal_with_direction out
            (datatype_iri ((h.literals store).datatype template) (h.iri store))
            ((h.literals store).language template) (h.direction store template) store
        else (template, store)
  ]

  -- The messages of a result, in order.
  abbrev pub substitute_messages :
      List TermId → (Text → Option Text) → h.Store → List TermId × h.Store
  substitute_messages [] find store = ([], store)
  substitute_messages (m ∷ ms) find store =
      let (m', store') = substitute_message m find store in
      let (ms', store'') = substitute_messages ms find store' in (m' ∷ ms', store'')

-- ===== src/Model/Terms.antt =====
-- crates/shacl/src/model/term.rs: base directions and the kinds of terms.
use shacl_engine.Common.{Bool, true, false, Option, none, some}

pub data Direction : Type 0 where
  ltr rtl : Direction

pub data TermKind : Type 0 where
  iri blank literal triple : TermKind

-- The derived tests for equality.
abbrev pub same_kind : TermKind → TermKind → Bool
same_kind iri iri = true
same_kind blank blank = true
same_kind literal literal = true
same_kind triple triple = true
same_kind _ _ = false

abbrev pub same_direction : Option Direction → Option Direction → Bool
same_direction none none = true
same_direction (some ltr) (some ltr) = true
same_direction (some rtl) (some rtl) = true
same_direction _ _ = false

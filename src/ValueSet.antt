-- ===== src/ValueSet.antt =====
-- crates/shacl/src/valueset.rs: the focus→values relation in compressed sparse rows, and its
-- incremental builder. `debug_assert!`s are not modelled; an index out of range, which Rust makes
-- a panic, reads 0 here.
pub mod Rows
mod Tests
use shacl_engine.Common.{
  ℕ, zero, suc, ◌+◌, ◌-◌, ◌%◌, ◌^◌, Bool, true, false, Option, none, some, List, [], ◌∷◌, ◌++◌, map,
  length, get_or, take, drop, ◌==◌, if◌then◌else◌, nat_ord,
}
use shacl_engine.Common.Sort.{sort}
use shacl_engine.Model.Starts.{TermId, slice}

-- `x as u32`
unfoldable pub as_u32 : ℕ → ℕ
as_u32 x = x % 2 ^ 32

-- One focus node and the value nodes it reaches.
pub record Row : Type 0 where
  pub focus : TermId
  pub values : List TermId

pub record ValueSets : Type 0 where
  pub focus : List TermId
  pub offsets : List ℕ
  pub values : List TermId

abbrev pub range_from : ℕ → ℕ → List ℕ
range_from i zero = []
range_from i (suc n) = i ∷ range_from (i + 1) n

-- The relation mapping each focus node to itself.
unfoldable pub identity : List TermId → ValueSets
unfolding as_u32
identity focus = record {
  focus = focus;
  offsets = range_from 0 (as_u32 (length focus) + 1);
  values = focus;
}

unfoldable pub row : ValueSets → ℕ → Row
row v i = record {
  focus = get_or v.focus i 0;
  values = slice v.values (get_or v.offsets i 0) (get_or v.offsets (i + 1) 0);
}

unfoldable pub rows : ValueSets → List Row
unfolding row
rows v = map (row v) (range_from 0 (length v.focus))

pub record Builder : Type 0 where
  pub focus : List TermId
  pub offsets : List ℕ
  pub values : List TermId
  pub row_start : ℕ
  pub is_open : Bool

-- `Builder::default()`
abbrev pub builder : Builder
builder = record { focus = []; offsets = []; values = []; row_start = 0; is_open = false }

-- A capacity changes nothing that can be seen; the first offset is there from the start.
abbrev pub with_capacity : ℕ → Builder
with_capacity n = record {
  focus = [];
  offsets = 0 ∷ [];
  values = [];
  row_start = 0;
  is_open = false;
}

unfoldable pub ensure_started : Builder → Builder
ensure_started b = elim b.offsets [ [] ↦ record b { offsets = 0 ∷ [] } | _ ∷ _ ↦ b ]

unfoldable pub start_row : Builder → TermId → Builder
unfolding ensure_started
start_row b f =
    let b' = ensure_started b in
    record b' { focus = b'.focus ++ f ∷ []; row_start = length b'.values; is_open = true }

unfoldable pub push_value : Builder → TermId → Builder
push_value b v = record b { values = b.values ++ v ∷ [] }

unfoldable pub extend : Builder → List TermId → Builder
extend b vs = record b { values = b.values ++ vs }

-- The in-place loop of `end_row`: a cell is kept if it is the first or differs from the one
-- before it.
abbrev pub keep_new : TermId → List TermId → List TermId
keep_new previous [] = []
keep_new previous (x ∷ xs) = let rest = keep_new x xs in if x == previous then rest else x ∷ rest

abbrev pub kept : List TermId → List TermId
kept [] = []
kept (x ∷ xs) = x ∷ keep_new x xs

unfoldable pub end_row : Builder → Builder
unfolding sort as_u32
end_row b =
    let values = take b.row_start b.values ++ kept (sort (drop b.row_start b.values)) in
    record b {
      values = values;
      offsets = b.offsets ++ as_u32 (length values) ∷ [];
      is_open = false;
    }

-- Adds a complete row.
unfoldable pub push_row : Builder → TermId → List TermId → Builder
unfolding start_row extend end_row
push_row b f vs = end_row (extend (start_row b f) vs)

unfoldable pub finish : Builder → ValueSets
unfolding ensure_started
finish b =
    let b' = ensure_started b in
    record { focus = b'.focus; offsets = b'.offsets; values = b'.values }

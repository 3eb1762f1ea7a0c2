-- ===== src/ValueSet/Rows.antt =====
-- The builder appends one row at a time, and a finished relation reads its rows back.
use mathlib.Core.List.Memᴰ
use mathlib.Core.Path.{ap₂, ◌≡⟨◌⟩◌, ◌∎}
use mathlib.Core.List.{map-append}
use native.Mathlib.Decide.{dec_le}
use native.Mathlib.Nat.{mod-eq_of_lt}
use shacl_engine.Common.{
  ℕ, zero, suc, ◌+◌, ◌-◌, ◌^◌, ◌≤◌, ◌<◌, ◌≡◌, refl, sym, ap, ◌∙◌, subst, ◌↔◌, inl, inr, ⊎_elim,
  false, List, [], ◌∷◌, ◌++◌, map, Memᴰ, arith, length, get_or, take, drop, ◌==◌, nat_ord,
  length-append, Memᴰ-cons, Bool-cases, ==_iff, List-cases,
}
use shacl_engine.Common.Sort.{sort, IsSorted, IsStrict, StrictlyAbove, sort-IsSorted, Memᴰ-sort}
use shacl_engine.Common.Strict.{sort_dedup, sort_dedup-IsStrict, Memᴰ-sort_dedup, eq_of_members}
use shacl_engine.Model.Starts.{TermId, slice}
use shacl_engine.ValueSet.{
  ValueSets, Row, Builder, as_u32, range_from, row, rows, ensure_started, keep_new, kept, push_row,
  finish,
}

pub as_u32-eq_of_lt : (n : ℕ) → n < 2 ^ 32 → as_u32 n ≡ n
unfolding as_u32
as_u32-eq_of_lt n h = mod-eq_of_lt h

Memᴰ-keep_new : (a p : TermId) (xs : List TermId) → Memᴰ a (p ∷ keep_new p xs) ↔ Memᴰ a (p ∷ xs)
Memᴰ-keep_new a p [] = (λ m. m, λ m. m)
Memᴰ-keep_new a p (x ∷ xs) = ground (
  arith,
  Memᴰ-keep_new a x xs,
  Memᴰ-cons a p (keep_new p (x ∷ xs)),
  Memᴰ-cons a p (x ∷ xs),
  Memᴰ-cons a x xs,
  Memᴰ-cons a x (keep_new x xs),
  Memᴰ-cons a p (keep_new x xs),
)

keep_new-IsStrict :
    (p : TermId) (xs : List TermId) → IsSorted (p ∷ xs) → IsStrict (p ∷ keep_new p xs)
keep_new-IsStrict p [] h = (λ y m. absurd (Memᴰ.not-nil m), tt)
keep_new-IsStrict p (x ∷ xs) h = elim (Bool-cases (x == p)) [
  | inl e ↦
      let same = (==_iff x p).0 e in
      rw e (
        subst (λ q. StrictlyAbove q (keep_new x xs)) same (keep_new-IsStrict x xs h.1).0,
        (keep_new-IsStrict x xs h.1).1,
      )
  | inr e ↦ rw e (
    λ y m.
        let low = h.0 x (Memᴰ.head refl) in
        let high : nat_ord.lt y x ≡ false =
          ⊎_elim (λ (q : y ≡ x). rw q (nat_ord.irrefl x)) (h.1.0 y)
            (Memᴰ.cases_cons ((Memᴰ-keep_new y x xs).0 m)) in
        ground arith,
    keep_new-IsStrict x xs h.1,
  )
]

Memᴰ-kept : (a : TermId) (xs : List TermId) → Memᴰ a (kept xs) ↔ Memᴰ a xs
Memᴰ-kept a [] = (λ m. m, λ m. m)
Memᴰ-kept a (x ∷ xs) = Memᴰ-keep_new a x xs

kept-IsStrict : (xs : List TermId) → IsSorted xs → IsStrict (kept xs)
kept-IsStrict [] h = tt
kept-IsStrict (x ∷ xs) h = keep_new-IsStrict x xs h

-- The in-place loop of `end_row` leaves what sorting and removing repeats would.
pub kept-sort : (xs : List TermId) → kept (sort xs) ≡ sort_dedup xs
kept-sort xs =
    eq_of_members (kept (sort xs)) (sort_dedup xs) (kept-IsStrict (sort xs) (sort-IsSorted xs))
      (sort_dedup-IsStrict xs)
      (λ a m. (Memᴰ-sort_dedup a xs).1 ((Memᴰ-sort a xs).0 ((Memᴰ-kept a (sort xs)).0 m)))
      (λ a m. (Memᴰ-kept a (sort xs)).1 ((Memᴰ-sort a xs).1 ((Memᴰ-sort_dedup a xs).0 m)))

module _ {ℓ} {A : Type ℓ} where
  get_or-append_left :
      (xs ys : List A) (i : ℕ) (d : A) → i < length xs → get_or (xs ++ ys) i d ≡ get_or xs i d
  get_or-append_left [] ys i d h = absurd (omega arith)
  get_or-append_left (x ∷ xs) ys zero d h = refl
  get_or-append_left (x ∷ xs) ys (suc i) d h = get_or-append_left xs ys i d (omega arith)

  get_or-append_last : (xs : List A) (y d : A) → get_or (xs ++ y ∷ []) (length xs) d ≡ y
  get_or-append_last [] y d = refl
  get_or-append_last (x ∷ xs) y d = get_or-append_last xs y d

  take-drop-append :
      (n m : ℕ) (xs ys : List A)
      → n + m ≤ length xs
      → take n (drop m (xs ++ ys)) ≡ take n (drop m xs)
  take-drop-append zero m xs ys h = refl
  take-drop-append (suc n) m [] ys h = absurd (omega arith)
  take-drop-append (suc n) zero (x ∷ xs) ys h =
      ap (◌∷◌ x) (take-drop-append n zero xs ys (omega arith))
  take-drop-append (suc n) (suc m) (x ∷ xs) ys h = take-drop-append (suc n) m xs ys (omega arith)

  pub slice-append :
      (xs ys : List A) (lo hi : ℕ) → hi ≤ length xs → slice (xs ++ ys) lo hi ≡ slice xs lo hi
  slice-append xs ys lo hi h = elim (dec_le lo hi) [
    | yes p ↦ take-drop-append (hi - lo) lo xs ys (omega arith)
    | no p ↦ let e : hi - lo ≡ 0 = omega arith in rw e refl
  ]

  pub drop-length : (xs ys : List A) → drop (length xs) (xs ++ ys) ≡ ys
  drop-length [] ys = refl
  drop-length (x ∷ xs) ys = drop-length xs ys

  pub take-length : (xs ys : List A) → take (length xs) (xs ++ ys) ≡ xs
  take-length [] ys = refl
  take-length (x ∷ xs) ys = ap (◌∷◌ x) (take-length xs ys)

  take_all : (xs : List A) → take (length xs) xs ≡ xs
  take_all [] = refl
  take_all (x ∷ xs) = ap (◌∷◌ x) (take_all xs)

  pub slice_last : (xs ys : List A) → slice (xs ++ ys) (length xs) (length xs + length ys) ≡ ys
  slice_last xs ys =
      let e : length xs + length ys - length xs ≡ length ys = omega arith in
      rw (e, drop-length xs ys) (take_all ys)

-- A builder with no open row: one offset more than rows, none past the values, the last at their
-- end.
pub record IsBuilt (b : Builder) : Type 0 where
  pub size : length b.offsets ≡ suc (length b.focus)
  pub inside : (i : ℕ) → get_or b.offsets i 0 ≤ length b.values
  pub last : get_or b.offsets (length b.focus) 0 ≡ length b.values

-- One row more.
abbrev pub add : Builder → TermId → List TermId → Builder
add b f ws = record {
  focus = b.focus ++ f ∷ [];
  offsets = b.offsets ++ (length b.values + length ws) ∷ [];
  values = b.values ++ ws;
  row_start = length b.values;
  is_open = false;
}

get_or-le :
    (xs : List ℕ) (y n : ℕ) (i : ℕ)
    → ((j : ℕ) → get_or xs j 0 ≤ n)
    → y ≤ n
    → get_or (xs ++ y ∷ []) i 0 ≤ n
get_or-le [] y n zero h k = k
get_or-le [] y n (suc i) h k = omega arith
get_or-le (x ∷ xs) y n zero h k = h 0
get_or-le (x ∷ xs) y n (suc i) h k = get_or-le xs y n i (λ j. h (suc j)) k

map-range :
    (f h : ℕ → Row) (a n : ℕ)
    → ((i : ℕ) → a ≤ i → i < a + n → f i ≡ h i)
    → map f (range_from a n) ≡ map h (range_from a n)
map-range f h a zero e = refl
map-range f h a (suc n) e =
    let here : f a ≡ h a = e a (omega arith) (omega arith) in
    let rest = map-range f h (a + 1) n (λ i p q. e i (omega arith) (omega arith)) in cc

range_from-suc : (a n : ℕ) → range_from a (suc n) ≡ range_from a n ++ (a + n) ∷ []
range_from-suc a zero = ground arith
range_from-suc a (suc n) =
    let e : a + 1 + n ≡ a + suc n = omega arith in
    ap (◌∷◌ a) (range_from-suc (a + 1) n ∙ ap (λ k. range_from (a + 1) n ++ k ∷ []) e)

abbrev plain : Builder → ValueSets
plain b = record { focus = b.focus; offsets = b.offsets; values = b.values }

pub ensure_started-built : (b : Builder) → IsBuilt b → ensure_started b ≡ b
unfolding ensure_started
ensure_started-built b built = elim (List-cases b.offsets) [
  | inl e ↦ absurd (omega (arith, built.size, ap length e))
  | inr (x, xs, e) ↦ ground (arith, e)
]

finish-built : (b : Builder) → IsBuilt b → finish b ≡ plain b
unfolding finish
finish-built b built = rw (ensure_started-built b built) refl

module _ (b : Builder) (built : IsBuilt b) (f : TermId) (ws : List TermId) where
  pub add-IsBuilt : IsBuilt (add b f ws)
  add-IsBuilt = record {
    size = omega (
      arith,
      built.size,
      length-append b.focus (f ∷ []),
      length-append b.offsets ((length b.values + length ws) ∷ []),
    );
    inside = λ i.
        let total = length-append b.values ws in
        get_or-le b.offsets (length b.values + length ws) (length (b.values ++ ws)) i
          (λ j. omega (arith, built.inside j)) (omega arith);
    last = rest;
  }
    where
      at_end : length (b.focus ++ f ∷ []) ≡ length b.offsets
      at_end = omega (arith, built.size, length-append b.focus (f ∷ []))

      rest :
          get_or (b.offsets ++ (length b.values + length ws) ∷ []) (length (b.focus ++ f ∷ [])) 0
          ≡ length (b.values ++ ws)
      rest = rw at_end (
          get_or-append_last b.offsets (length b.values + length ws) 0
          ∙ sym (length-append b.values ws))

  row-add-old : (i : ℕ) → i < length b.focus → row (finish (add b f ws)) i ≡ row (finish b) i
  unfolding row
  row-add-old i h =
      let old = finish-built b built in
      let new = finish-built (add b f ws) add-IsBuilt in
      let k = length b.values + length ws in
      let node = get_or-append_left b.focus (f ∷ []) i 0 h in
      let lo = get_or-append_left b.offsets (k ∷ []) i 0 (omega (arith, built.size)) in
      let hi = get_or-append_left b.offsets (k ∷ []) (i + 1) 0 (omega (arith, built.size)) in
      rw (old, new, node, lo, hi)
        (rw
          (slice-append b.values ws (get_or b.offsets i 0) (get_or b.offsets (i + 1) 0)
            (built.inside (i + 1)))
          refl)

  row-add-new : row (finish (add b f ws)) (length b.focus) ≡ record { focus = f; values = ws }
  unfolding row
  row-add-new =
      let new = finish-built (add b f ws) add-IsBuilt in
      let k = length b.values + length ws in
      let node = get_or-append_last b.focus f 0 in
      let lo =
        get_or-append_left b.offsets (k ∷ []) (length b.focus) 0 (omega (arith, built.size))
        ∙ built.last in
      let at_end : length b.focus + 1 ≡ length b.offsets = omega (arith, built.size) in
      let hi = get_or-append_last b.offsets k 0 in
      rw (new, node, lo, at_end, hi) (rw (slice_last b.values ws) refl)

  -- A finished relation has the rows it had, and the new one behind them.
  pub rows-add :
      rows (finish (add b f ws)) ≡ rows (finish b) ++ record { focus = f; values = ws } ∷ []
  unfolding rows
  rows-add =
      let old = finish-built b built in
      let new = finish-built (add b f ws) add-IsBuilt in
      let n = length b.focus in
      let more : length (b.focus ++ f ∷ []) ≡ suc n =
        omega (arith, length-append b.focus (f ∷ [])) in
      let read = row (finish (add b f ws)) in
      let at_n : 0 + n ≡ n = omega arith in
      map read (range_from 0 (length (finish (add b f ws)).focus))
      ≡⟨ ap (λ k. map read (range_from 0 k)) (ap (λ (v : ValueSets). length v.focus) new ∙ more) ⟩
        map read (range_from 0 (suc n))
      ≡⟨ ap (map read) (range_from-suc 0 n) ⟩ map read (range_from 0 n ++ (0 + n) ∷ [])
      ≡⟨ map-append read (range_from 0 n) ((0 + n) ∷ []) ⟩
        map read (range_from 0 n) ++ read (0 + n) ∷ []
      ≡⟨ ap₂ (λ xs r. xs ++ r ∷ [])
          (map-range read (row (finish b)) 0 n (λ i p q. row-add-old i (omega arith)))
          (ap read at_n ∙ row-add-new) ⟩
        map (row (finish b)) (range_from 0 n) ++ record { focus = f; values = ws } ∷ []
      ≡⟨ ap (λ k. map (row (finish b)) (range_from 0 k) ++ record { focus = f; values = ws } ∷ [])
          (sym (ap (λ (v : ValueSets). length v.focus) old)) ⟩
        rows (finish b) ++ record { focus = f; values = ws } ∷ [] ∎

-- A whole row is added with its values as a set, in ascending order.
pub push_row_lem :
    (b : Builder) (f : TermId) (vs : List TermId)
    → IsBuilt b
    → length b.values + length (sort_dedup vs) < 2 ^ 32
    → push_row b f vs ≡ add b f (sort_dedup vs)
unfolding push_row
push_row_lem b f vs built fits =
    let total = length-append b.values (sort_dedup vs) in
    let cast = as_u32-eq_of_lt (length (b.values ++ sort_dedup vs)) (omega arith) in
    rw
      (
        ensure_started-built b built,
        drop-length b.values vs,
        take-length b.values vs,
        kept-sort vs,
        cast,
        total,
      )
      refl

pub rows-push_row :
    (b : Builder) (f : TermId) (vs : List TermId)
    → IsBuilt b
    → length b.values + length (sort_dedup vs) < 2 ^ 32
    → IsBuilt (push_row b f vs)
      × (rows (finish (push_row b f vs))
          ≡ rows (finish b) ++ record { focus = f; values = sort_dedup vs } ∷ [])
rows-push_row b f vs built fits =
    rw (push_row_lem b f vs built fits)
      (add-IsBuilt b built f (sort_dedup vs), rows-add b built f (sort_dedup vs))

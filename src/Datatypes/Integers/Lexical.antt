-- ===== src/Datatypes/Integers/Lexical.antt =====
-- The lexical forms of integers, as XML Schema has them: `[+-]?[0-9]+`. This says when a text is one
-- and which integer it denotes, and shares nothing with the code's reading of it.
use shacl_engine.Common.{
  ℕ, zero, suc, ◌+◌, ◌-◌, ◌*◌, ◌^◌, ◌≤◌, ◌≡◌, refl, sym, subst, ap, ◌∙◌, inl, inr, true, false,
  some, none, [], ◌∷◌, length, ◌==◌, arith, Bool-cases, ◌↔◌,
}
use shacl_engine.Common.Maybe.{eq_of_some}
use shacl_engine.Datatypes.Integers.{
  Text, ℤ, pos, negsuc, signed, is_digit, all_digits, sign_of, unsigned_part, is_digits, value,
  integer_of,
}

-- One or more of the bytes `0` to `9`, and the number they write in decimal.
pub data IsNumeral : Text → ℕ → Type 0 where
  last : {d : ℕ} → d ≤ 9 → IsNumeral ((48 + d) ∷ []) d
  lead :
      {d n : ℕ} {ds : Text}
      → d ≤ 9
      → IsNumeral ds n
      → IsNumeral ((48 + d) ∷ ds) (d * 10 ^ length ds + n)

-- A numeral, alone or behind a `+` or a `-`.
pub data IsIntegerForm : Text → ℤ → Type 0 where
  unsigned : {ds : Text} {n : ℕ} → IsNumeral ds n → IsIntegerForm ds (pos n)
  plus : {ds : Text} {n : ℕ} → IsNumeral ds n → IsIntegerForm (43 ∷ ds) (pos n)
  minus_zero : {ds : Text} → IsNumeral ds 0 → IsIntegerForm (45 ∷ ds) (pos 0)
  minus : {ds : Text} {n : ℕ} → IsNumeral ds (suc n) → IsIntegerForm (45 ∷ ds) (negsuc n)

is_digits-all : (ds : Text) → is_digits ds ≡ true → all_digits ds ≡ true
is_digits-all [] h = cc
is_digits-all (c ∷ cs) h = h

IsNumeral-value : (ds : Text) (n : ℕ) → IsNumeral ds n → (is_digits ds ≡ true) × (value ds ≡ n)
IsNumeral-value _ d (last le) = (ground (arith, le), omega arith)
IsNumeral-value _ _ (lead {d} {n} {ds} le rest) =
    let (digits, same) = IsNumeral-value ds n rest in
    (
      ground (arith, le, is_digits-all ds digits),
      rw same (let e : (48 + d) - 48 ≡ d = omega arith in rw e refl),
    )

digit-split : (c : ℕ) → is_digit c ≡ true → (d : ℕ) × (c ≡ 48 + d) × (d ≤ 9)
digit-split c h = (c - 48, ground (arith, h), ground (arith, h))

value-IsNumeral :
    (c : ℕ) (cs : Text) → all_digits (c ∷ cs) ≡ true → IsNumeral (c ∷ cs) (value (c ∷ cs))
value-IsNumeral c [] h =
    let (d, e, le) = digit-split c (ground (arith, h)) in
    let same : d ≡ value (c ∷ []) = omega (arith, e) in
    subst (λ b. IsNumeral (b ∷ []) (value (c ∷ []))) (sym e)
      (subst (IsNumeral ((48 + d) ∷ [])) same (last le))
value-IsNumeral c (b ∷ bs) h =
    let (d, e, le) = digit-split c (ground (arith, h)) in
    let rest = value-IsNumeral b bs (ground (arith, h)) in
    let same : d ≡ c - 48 = omega (arith, e) in
    subst (λ a. IsNumeral (a ∷ b ∷ bs) (value (c ∷ b ∷ bs))) (sym e) (rw (sym same) (lead le rest))

is_digits-IsNumeral : (ds : Text) → is_digits ds ≡ true → IsNumeral ds (value ds)
is_digits-IsNumeral [] h = cc
is_digits-IsNumeral (c ∷ cs) h = value-IsNumeral c cs h

-- A digit is no sign.
digit_no_sign : (c : ℕ) → is_digit c ≡ true → ((c == 45) ≡ false) × ((c == 43) ≡ false)
digit_no_sign c h = (ground (arith, h), ground (arith, h))

integer_of-unsigned : (ds : Text) → is_digits ds ≡ true → integer_of ds ≡ some (pos (value ds))
unfolding integer_of
integer_of-unsigned [] h = cc
integer_of-unsigned (c ∷ cs) h =
    let (no_minus, no_plus) = digit_no_sign c (ground (arith, h)) in rw (no_minus, no_plus, h) refl

IsIntegerForm-integer_of : (lex : Text) (z : ℤ) → IsIntegerForm lex z → integer_of lex ≡ some z
unfolding integer_of
IsIntegerForm-integer_of lex _ (unsigned {n} form) =
    let (digits, same) = IsNumeral-value lex n form in
    integer_of-unsigned lex digits ∙ ap (λ m. some (pos m)) same
IsIntegerForm-integer_of _ _ (plus {ds} {n} form) =
    let (digits, same) = IsNumeral-value ds n form in rw (digits, same) refl
IsIntegerForm-integer_of _ _ (minus_zero {ds} form) =
    let (digits, same) = IsNumeral-value ds 0 form in rw (digits, same) refl
IsIntegerForm-integer_of _ _ (minus {ds} {n} form) =
    let (digits, same) = IsNumeral-value ds (suc n) form in rw (digits, same) refl

minus_form : (ds : Text) (n : ℕ) → IsNumeral ds n → IsIntegerForm (45 ∷ ds) (signed true n)
minus_form ds zero form = minus_zero form
minus_form ds (suc n) form = minus form

integer_form :
    (c : ℕ) (cs : Text)
    → is_digits (unsigned_part c cs) ≡ true
    → IsIntegerForm (c ∷ cs) (signed (sign_of c) (value (unsigned_part c cs)))
integer_form c cs h = elim (Bool-cases (c == 45)) [
  | inl e ↦
      let at_minus : c ≡ 45 = ground (arith, e) in
      let digits : is_digits cs ≡ true = rw e at h in
      rw (e, at_minus) (minus_form cs (value cs) (is_digits-IsNumeral cs digits))
  | inr e ↦ elim (Bool-cases (c == 43)) [
    | inl f ↦
        let at_plus : c ≡ 43 = ground (arith, f) in
        let digits : is_digits cs ≡ true = rw (e, f) at h in
        rw (e, f, at_plus) (plus (is_digits-IsNumeral cs digits))
    | inr f ↦
        let digits : is_digits (c ∷ cs) ≡ true = rw (e, f) at h in
        rw (e, f) (unsigned (is_digits-IsNumeral (c ∷ cs) digits))
  ]
]

integer_of-IsIntegerForm : (lex : Text) (z : ℤ) → integer_of lex ≡ some z → IsIntegerForm lex z
unfolding integer_of
integer_of-IsIntegerForm [] z h = cc
integer_of-IsIntegerForm (c ∷ cs) z h = elim (Bool-cases (is_digits (unsigned_part c cs))) [
  | inl e ↦
      let same : some (signed (sign_of c) (value (unsigned_part c cs))) ≡ some z = rw e at h in
      subst (IsIntegerForm (c ∷ cs)) (eq_of_some same) (integer_form c cs e)
  | inr e ↦ let refused : none ≡ some z = rw e at h in cc
]

-- The reading of the code's model finds exactly the integer that a form denotes.
pub integer_of_iff : (lex : Text) (z : ℤ) → (integer_of lex ≡ some z) ↔ IsIntegerForm lex z
integer_of_iff lex z = (integer_of-IsIntegerForm lex z, IsIntegerForm-integer_of lex z)

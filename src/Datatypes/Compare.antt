-- ===== src/Datatypes/Compare.antt =====
-- `compare` on integer literals, of any length, against the order of the integers.
use shacl_engine.Common.{
  ◌≡◌, refl, sym, ap, subst, ◌↔◌, ◌∙◌, inl, inr, Bool, true, false, ◌||◌, none, some, ◌==◌,
  if◌then◌else◌, Bool-cases,
}
use shacl_engine.Common.Maybe.{◌>>=◌, eq_of_some, >>=-eq-some}
use shacl_engine.Model.Starts.{TermId}
use shacl_engine.Model.Vocab.{Vocab}
use shacl_engine.Datatypes.Integers.{
  Text, Ordering, less, greater, reverse_order, ℤ, cmp_int, signed, value, integer_of, fits_i128,
  parse_i128,
}
use shacl_engine.Datatypes.Integers.Order.{
  IsNormalised, malformed, number, normalises, reverse-cmp_int, cmp_bigint_lem, cmp_int-beyond,
}
use shacl_engine.Datatypes.Integers.Lexical.{IsIntegerForm, integer_of_iff}
use shacl_engine.Datatypes.Integers.Ordered.{Ordered, cmp_int-Ordered, Ordered-cmp_int}
use shacl_engine.Datatypes.{
  Xsd, Literals, Value, int, big_int, is_integer_type, integer_literal, typed_value, value_of,
  compare_values, compare,
}

-- A literal of an integer datatype, which is none of the types that are tried before those.
pub record IsIntegerLiteral (store : Literals) (v : Vocab) (t : TermId) (lex : Text) : Type 0 where
  pub datatype : TermId
  pub has_lex : store.lexical_form t ≡ some lex
  pub has_datatype : store.datatype t ≡ some datatype
  pub untagged : store.language t ≡ none
  pub not_string : (datatype == v.xsd_string || datatype == v.xsd_any_uri) ≡ false
  pub not_boolean : (datatype == v.xsd_boolean) ≡ false
  pub integer_type : is_integer_type datatype v ≡ true

module _ (xsd : Xsd) where
  data Denotes : Value xsd → ℤ → Type 0 where
    exact : {z : ℤ} → fits_i128 z ≡ true → Denotes (int z) z
    beyond :
        {neg : Bool} {ds : Text}
        → IsNormalised neg ds
        → fits_i128 (signed neg (value ds)) ≡ false
        → Denotes (big_int neg ds) (signed neg (value ds))

  reverse-side :
      (neg : Bool) → reverse_order (if neg then less else greater) ≡ (if neg then greater else less)
  reverse-side false = refl
  reverse-side true = refl

  compare_values-Denotes :
      (x y : Value xsd) (m n : ℤ)
      → Denotes x m
      → Denotes y n
      → compare_values xsd x y ≡ some (cmp_int m n)
  unfolding compare_values
  compare_values-Denotes _ _ m n (exact a) (exact b) = refl
  compare_values-Denotes _ _ m _ (exact a) (beyond {neg} {ds} b fits) = ap some (
      sym (
        sym (reverse-cmp_int (signed neg (value ds)) m)
        ∙ ap reverse_order (cmp_int-beyond neg (value ds) m fits a)
        ∙ reverse-side neg))
  compare_values-Denotes _ _ _ n (beyond {neg} {ds} a fits) (exact b) =
      ap some (sym (cmp_int-beyond neg (value ds) n fits b))
  compare_values-Denotes _ _ _ _ (beyond {neg} {ds} a fits)
        (beyond {neg = neg'} {ds = ds'} b fits') =
      ap some (cmp_bigint_lem neg ds neg' ds' a b)

  data Reads (lex : Text) : Type 0 where
    unread : integer_literal xsd lex ≡ none → integer_of lex ≡ none → Reads lex
    read :
        (x : Value xsd) (z : ℤ)
        → integer_literal xsd lex ≡ some x
        → integer_of lex ≡ some z
        → Denotes x z
        → Reads lex

  reads : (lex : Text) → Reads lex
  unfolding integer_literal parse_i128
  reads lex = elim (normalises lex) [
    | malformed a b ↦ unread (rw (a, ◌>>=◌) refl) b
    | number neg ds a good b ↦ elim (Bool-cases (fits_i128 (signed neg (value ds)))) [
      | inl fits ↦
          read (int (signed neg (value ds))) (signed neg (value ds)) (rw (a, b, fits, ◌>>=◌) refl) b
            (exact fits)
      | inr out ↦
          read (big_int neg ds) (signed neg (value ds)) (rw (a, b, out, ◌>>=◌) refl) b
            (beyond good out)
    ]
  ]

  value_of-integer :
      (store : Literals) (v : Vocab) (t : TermId) (lex : Text)
      → IsIntegerLiteral store v t lex
      → value_of xsd t store v ≡ integer_literal xsd lex
  unfolding value_of typed_value
  value_of-integer store v t lex h =
      rw (h.has_lex, h.has_datatype, h.untagged, h.not_string, h.not_boolean, h.integer_type, ◌>>=◌)
        refl

  compare-integer_of :
      (store : Literals) (v : Vocab) (a b : TermId) (la lb : Text)
      → IsIntegerLiteral store v a la
      → IsIntegerLiteral store v b lb
      → compare xsd a b store v ≡ (integer_of la >>= λ x. integer_of lb >>= λ y. some (cmp_int x y))
  unfolding compare
  compare-integer_of store v a b la lb ha hb =
      rw (value_of-integer store v a la ha, value_of-integer store v b lb hb)
        (elim (reads la) [
          | unread p q ↦ rw (p, q, ◌>>=◌) refl
          | read x m p q d ↦ elim (reads lb) [
            | unread r s ↦ rw (p, q, r, s, ◌>>=◌) refl
            | read y n r s e ↦ rw (p, q, r, s, ◌>>=◌) (compare_values-Denotes x y m n d e)
          ]
        ])

  -- Two untagged literals of integer datatypes compare exactly if both lexical forms denote an integer (an
  -- optional sign and one or more digits, of any length), and then as those integers are ordered. Whether
  -- an integer lies within its datatype's range plays no part.
  pub compare-integers :
      (store : Literals) (v : Vocab) (a b : TermId) (la lb : Text) (o : Ordering)
      → IsIntegerLiteral store v a la
      → IsIntegerLiteral store v b lb
      → (compare xsd a b store v ≡ some o)
        ↔ ((x y : ℤ) × IsIntegerForm la x × IsIntegerForm lb y × Ordered x y o)
  compare-integers store v a b la lb o ha hb =
      let read = compare-integer_of store v a b la lb ha hb in
      (
        λ h.
            let (x, p, h1) = >>=-eq-some (integer_of la) _ (sym read ∙ h) in
            let (y, q, h2) = >>=-eq-some (integer_of lb) _ h1 in
            (
              x,
              y,
              (integer_of_iff la x).0 p,
              (integer_of_iff lb y).0 q,
              subst (Ordered x y) (eq_of_some h2) (cmp_int-Ordered x y),
            ),
        λ (x, y, p, q, r).
            read
            ∙ rw ((integer_of_iff la x).1 p, (integer_of_iff lb y).1 q, ◌>>=◌)
                (ap some (Ordered-cmp_int x y o r)),
      )

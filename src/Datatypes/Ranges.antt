-- ===== src/Datatypes/Ranges.antt =====
-- `is_well_formed_integer` against the value ranges of the integer datatypes.
use shacl_engine.Common.{
  ℕ, suc, ◌+◌, ◌-◌, ◌*◌, ◌^◌, ◌≡◌, ◌≢◌, refl, sym, ap, ◌∙◌, subst, ◌↔◌, inl, inr, ⊎_elim, Bool,
  true, false, not, ◌&&◌, ◌||◌, Option, none, some, [], ◌∷◌, ◌==◌, if◌then◌else◌, arith, Bool-cases,
}
use shacl_engine.Common.Maybe.{◌>>=◌, eq_of_some}
use shacl_engine.Model.Starts.{TermId}
use shacl_engine.Model.Vocab.{Vocab}
use shacl_engine.Datatypes.Integers.{
  Text, Ordering, less, equal, greater, ℤ, pos, negsuc, cmp_int, signed, value, integer_of,
  fits_i128, parse_i128,
}
use shacl_engine.Datatypes.Integers.Order.{
  IsNormalised, malformed, number, normalises, value_pos, negative,
}
use shacl_engine.Datatypes.Integers.Lexical.{IsIntegerForm, integer_of_iff}
use shacl_engine.Datatypes.Integers.Ordered.{Below, Ordered, cmp_int-Below, cmp_int-Ordered}
use shacl_engine.Datatypes.Languages.{text_eq_iff}
use shacl_engine.Datatypes.{
  text_eq, not_less, at_least, in_range, fits_type, fits_parsed, well_formed_digits,
  is_well_formed_integer,
}

pub data IntegerType : Type 0 where
  integer non_negative positive non_positive negative_integer : IntegerType
  long int32 short byte unsigned_long unsigned_int unsigned_short unsigned_byte : IntegerType

abbrev pub fixed_type_of : Vocab → TermId → Option IntegerType
fixed_type_of v dt =
    if dt == v.xsd_long
    then some long
    else if dt == v.xsd_int
    then some int32
    else if dt == v.xsd_short
    then some short
    else if dt == v.xsd_byte
    then some byte
    else if dt == v.xsd_unsigned_long
    then some unsigned_long
    else if dt == v.xsd_unsigned_int
    then some unsigned_int
    else if dt == v.xsd_unsigned_short
    then some unsigned_short
    else if dt == v.xsd_unsigned_byte
    then some unsigned_byte
    else none

-- The type that an id names; where two names share an id, the first in this order.
abbrev pub type_of : Vocab → TermId → Option IntegerType
type_of v dt =
    if dt == v.xsd_integer
    then some integer
    else if dt == v.xsd_non_negative_integer
    then some non_negative
    else if dt == v.xsd_positive_integer
    then some positive
    else if dt == v.xsd_non_positive_integer
    then some non_positive
    else if dt == v.xsd_negative_integer
    then some negative_integer
    else fixed_type_of v dt

abbrev pub AtLeast : ℤ → ℤ → Type 0
AtLeast lo z = ¬ Below z lo

-- The values of a type, as XML Schema bounds them.
abbrev pub InType : IntegerType → ℤ → Type 0
InType integer z = Unit
InType non_negative z = AtLeast (pos 0) z
InType positive z = AtLeast (pos 1) z
InType non_positive z = AtLeast z (pos 0)
InType negative_integer z = AtLeast z (negsuc 0)
InType long z = AtLeast (negsuc (2 ^ 63 - 1)) z × AtLeast z (pos (2 ^ 63 - 1))
InType int32 z = AtLeast (negsuc (2 ^ 31 - 1)) z × AtLeast z (pos (2 ^ 31 - 1))
InType short z = AtLeast (negsuc (2 ^ 15 - 1)) z × AtLeast z (pos (2 ^ 15 - 1))
InType byte z = AtLeast (negsuc (2 ^ 7 - 1)) z × AtLeast z (pos (2 ^ 7 - 1))
InType unsigned_long z = AtLeast (pos 0) z × AtLeast z (pos (2 ^ 64 - 1))
InType unsigned_int z = AtLeast (pos 0) z × AtLeast z (pos (2 ^ 32 - 1))
InType unsigned_short z = AtLeast (pos 0) z × AtLeast z (pos (2 ^ 16 - 1))
InType unsigned_byte z = AtLeast (pos 0) z × AtLeast z (pos (2 ^ 8 - 1))

not_less_iff : (o : Ordering) → (not_less o ≡ true) ↔ (o ≢ less)
not_less_iff less = (λ h. cc, λ h. absurd (h refl))
not_less_iff equal = (λ h e. cc, λ h. refl)
not_less_iff greater = (λ h e. cc, λ h. refl)

-- Not to compare as less is not to be below.
not-Below_iff : (z lo : ℤ) → (not_less (cmp_int z lo) ≡ true) ↔ ¬ Below z lo
not-Below_iff z lo = (
  λ h b. (not_less_iff (cmp_int z lo)).0 h (cmp_int-Below z lo b),
  λ h. (not_less_iff (cmp_int z lo)).1 (λ e. h (subst (Ordered z lo) e (cmp_int-Ordered z lo))),
)

and_iff :
    {P Q : Type 0} (a b : Bool) → ((a ≡ true) ↔ P) → ((b ≡ true) ↔ Q) → ((a && b) ≡ true) ↔ (P × Q)
and_iff true true p q = (λ h. (p.0 refl, q.0 refl), λ h. refl)
and_iff true false p q = (λ h. cc, λ h. q.1 h.1)
and_iff false b p q = (λ h. cc, λ h. p.1 h.0)

in_range_iff : (lo hi z : ℤ) → (in_range lo hi z ≡ true) ↔ (AtLeast lo z × AtLeast z hi)
in_range_iff lo hi z =
    and_iff (at_least lo z) (at_least z hi) (not-Below_iff z lo) (not-Below_iff hi z)

-- No value beyond `i128` lies between two that fit it.
outside :
    (lo hi z : ℤ)
    → fits_i128 lo ≡ true
    → fits_i128 hi ≡ true
    → fits_i128 z ≡ false
    → in_range lo hi z ≡ false
outside (pos a) (pos b) (pos n) p q r = ground (arith, p, q, r)
outside (pos a) (negsuc b) (pos n) p q r = ground (arith, p, q, r)
outside (negsuc a) (pos b) (pos n) p q r = ground (arith, p, q, r)
outside (negsuc a) (negsuc b) (pos n) p q r = ground (arith, p, q, r)
outside (pos a) (pos b) (negsuc n) p q r = ground (arith, p, q, r)
outside (pos a) (negsuc b) (negsuc n) p q r = ground (arith, p, q, r)
outside (negsuc a) (pos b) (negsuc n) p q r = ground (arith, p, q, r)
outside (negsuc a) (negsuc b) (negsuc n) p q r = ground (arith, p, q, r)

zero_iff :
    (ds : Text) (neg : Bool) → IsNormalised neg ds → (text_eq ds (48 ∷ []) ≡ true) ↔ (value ds ≡ 0)
zero_iff [] neg h = absurd h.normal
zero_iff (c ∷ cs) neg h = (
  λ e. ap value ((text_eq_iff (c ∷ cs) (48 ∷ [])).0 e),
  λ z.
      ⊎_elim
        (λ (n : c ≢ 48). absurd (omega (arith, z, value_pos c cs (ground (arith, n, h.digits)))))
        (λ (e : cs ≡ []).
          let single : (c - 48) * 10 ^ 0 + 0 ≡ 0 = rw e at z in
          let low : c ≡ 48 = ground (arith, h.digits, single) in
          (text_eq_iff (c ∷ cs) (48 ∷ [])).1 (cc))
        h.normal.1,
)

-- The signs that the unbounded types test, against their bounds.
module _ (zero_text : Bool) (n : ℕ) (is_zero : (zero_text ≡ true) ↔ (n ≡ 0)) where
  positive_side :
      (true ≡ at_least (pos 0) (pos n))
      × (not zero_text ≡ at_least (pos 1) (pos n))
      × (zero_text ≡ at_least (pos n) (pos 0))
      × (false ≡ at_least (pos n) (negsuc 0))
  positive_side = (ground arith, ground (arith, is_zero), ground (arith, is_zero), ground arith)

  negative_side :
      (m : ℕ)
      → n ≡ suc m
      → (false ≡ at_least (pos 0) (negsuc m))
        × (false ≡ at_least (pos 1) (negsuc m))
        × (true ≡ at_least (negsuc m) (pos 0))
        × (not zero_text ≡ at_least (negsuc m) (negsuc 0))
  negative_side m e = (ground arith, ground arith, ground arith, ground (arith, is_zero, e))

signs :
    (neg : Bool) (ds : Text)
    → IsNormalised neg ds
    → (not neg ≡ at_least (pos 0) (signed neg (value ds)))
      × ((not neg && not (text_eq ds (48 ∷ []))) ≡ at_least (pos 1) (signed neg (value ds)))
      × ((neg || text_eq ds (48 ∷ [])) ≡ at_least (signed neg (value ds)) (pos 0))
      × ((neg && not (text_eq ds (48 ∷ []))) ≡ at_least (signed neg (value ds)) (negsuc 0))
signs false ds h = positive_side (text_eq ds (48 ∷ [])) (value ds) (zero_iff ds false h)
signs true ds h =
    let (m, e) = negative ds h in
    rw e (negative_side (text_eq ds (48 ∷ [])) (value ds) (zero_iff ds true h) m e)

-- One test of a chain that picks a type.
choose :
    (b : Bool) (k : IntegerType) (t : Option IntegerType) (P : IntegerType → Type 0)
    → P k
    → ((j : IntegerType) → t ≡ some j → P j)
    → (j : IntegerType) → (if b then some k else t) ≡ some j
    → P j
choose true k t P here rest j h = subst P (eq_of_some h) here
choose false k t P here rest j h = rest j h

-- The same beside a chain of answers.
branch :
    (b x y : Bool) (k : IntegerType) (t : Option IntegerType) (P : IntegerType → Type 0)
    → ((x ≡ true) ↔ P k)
    → ((j : IntegerType) → t ≡ some j → (y ≡ true) ↔ P j)
    → (j : IntegerType) → (if b then some k else t) ≡ some j
    → ((if b then x else y) ≡ true) ↔ P j
branch true x y k t P here rest j h = subst (λ i. (x ≡ true) ↔ P i) (eq_of_some h) here
branch false x y k t P here rest j h = rest j h

module _ (v : Vocab) (dt : TermId) (z : ℤ) where
  abbrev Holds : IntegerType → Type 0
  Holds k = InType k z

  fits_type_iff :
      (j : IntegerType) → fixed_type_of v dt ≡ some j → (fits_type dt v z ≡ true) ↔ InType j z
  fits_type_iff =
      branch (dt == v.xsd_long) _ _ long _ Holds
        (in_range_iff (negsuc (2 ^ 63 - 1)) (pos (2 ^ 63 - 1)) z)
        (branch (dt == v.xsd_int) _ _ int32 _ Holds
          (in_range_iff (negsuc (2 ^ 31 - 1)) (pos (2 ^ 31 - 1)) z)
          (branch (dt == v.xsd_short) _ _ short _ Holds
            (in_range_iff (negsuc (2 ^ 15 - 1)) (pos (2 ^ 15 - 1)) z)
            (branch (dt == v.xsd_byte) _ _ byte _ Holds
              (in_range_iff (negsuc (2 ^ 7 - 1)) (pos (2 ^ 7 - 1)) z)
              (branch (dt == v.xsd_unsigned_long) _ _ unsigned_long _ Holds
                (in_range_iff (pos 0) (pos (2 ^ 64 - 1)) z)
                (branch (dt == v.xsd_unsigned_int) _ _ unsigned_int _ Holds
                  (in_range_iff (pos 0) (pos (2 ^ 32 - 1)) z)
                  (branch (dt == v.xsd_unsigned_short) _ _ unsigned_short _ Holds
                    (in_range_iff (pos 0) (pos (2 ^ 16 - 1)) z)
                    (branch (dt == v.xsd_unsigned_byte) _ true unsigned_byte none Holds
                      (in_range_iff (pos 0) (pos (2 ^ 8 - 1)) z) (λ j h. cc))))))))

  module _ (out : fits_i128 z ≡ false) where
    not_in :
        (lo hi : ℤ) → fits_i128 lo ≡ true → fits_i128 hi ≡ true → ¬ (AtLeast lo z × AtLeast z hi)
    not_in lo hi p q r =
        let inside = (in_range_iff lo hi z).1 r in let outer = outside lo hi z p q out in cc

    abbrev Fails : IntegerType → Type 0
    Fails k = ¬ InType k z

    fixed_type_of-outside : (j : IntegerType) → fixed_type_of v dt ≡ some j → ¬ InType j z
    fixed_type_of-outside =
        choose (dt == v.xsd_long) long _ Fails
          (not_in (negsuc (2 ^ 63 - 1)) (pos (2 ^ 63 - 1)) refl refl)
          (choose (dt == v.xsd_int) int32 _ Fails
            (not_in (negsuc (2 ^ 31 - 1)) (pos (2 ^ 31 - 1)) refl refl)
            (choose (dt == v.xsd_short) short _ Fails
              (not_in (negsuc (2 ^ 15 - 1)) (pos (2 ^ 15 - 1)) refl refl)
              (choose (dt == v.xsd_byte) byte _ Fails
                (not_in (negsuc (2 ^ 7 - 1)) (pos (2 ^ 7 - 1)) refl refl)
                (choose (dt == v.xsd_unsigned_long) unsigned_long _ Fails
                  (not_in (pos 0) (pos (2 ^ 64 - 1)) refl refl)
                  (choose (dt == v.xsd_unsigned_int) unsigned_int _ Fails
                    (not_in (pos 0) (pos (2 ^ 32 - 1)) refl refl)
                    (choose (dt == v.xsd_unsigned_short) unsigned_short _ Fails
                      (not_in (pos 0) (pos (2 ^ 16 - 1)) refl refl)
                      (choose (dt == v.xsd_unsigned_byte) unsigned_byte none Fails
                        (not_in (pos 0) (pos (2 ^ 8 - 1)) refl refl) (λ j h. cc))))))))

at_least_iff : (b : Bool) (lo z : ℤ) → b ≡ at_least lo z → (b ≡ true) ↔ AtLeast lo z
at_least_iff b lo z e = rw e (not-Below_iff z lo)

module _ (v : Vocab) (dt : TermId) (lex : Text) (z : ℤ) (reads : integer_of lex ≡ some z) where
  fits_parsed_iff :
      (j : IntegerType)
      → fixed_type_of v dt ≡ some j
      → (fits_parsed dt v (parse_i128 lex) ≡ true) ↔ InType j z
  unfolding parse_i128
  fits_parsed_iff j h = elim (Bool-cases (fits_i128 z)) [
    | inl fits ↦ rw (reads, fits, ◌>>=◌) (fits_type_iff v dt z j h)
    | inr out ↦
        rw (reads, out, ◌>>=◌) (λ e. cc, λ i. absurd (fixed_type_of-outside v dt z out j h i))
  ]

  well_formed_digits_iff :
      (neg : Bool) (ds : Text)
      → IsNormalised neg ds
      → signed neg (value ds) ≡ z
      → (j : IntegerType) → type_of v dt ≡ some j
      → (well_formed_digits lex dt v (some (neg, ds)) ≡ true) ↔ InType j z
  well_formed_digits_iff neg ds good same =
      let (s1, s2, s3, s4) = rw same at (signs neg ds good) in
      branch (dt == v.xsd_integer) _ _ integer _ (λ k. InType k z) (λ e. tt, λ i. refl)
        (branch (dt == v.xsd_non_negative_integer) _ _ non_negative _ (λ k. InType k z)
          (at_least_iff _ (pos 0) z s1)
          (branch (dt == v.xsd_positive_integer) _ _ positive _ (λ k. InType k z)
            (at_least_iff _ (pos 1) z s2)
            (branch (dt == v.xsd_non_positive_integer) _ _ non_positive _ (λ k. InType k z)
              (at_least_iff _ z (pos 0) s3)
              (branch (dt == v.xsd_negative_integer) _ _ negative_integer _ (λ k. InType k z)
                (at_least_iff _ z (negsuc 0) s4) fits_parsed_iff))))

is_well_formed_integer-integer_of :
    (lex : Text) (dt : TermId) (v : Vocab) (j : IntegerType)
    → type_of v dt ≡ some j
    → (is_well_formed_integer lex dt v ≡ true) ↔ ((z : ℤ) × (integer_of lex ≡ some z) × InType j z)
unfolding is_well_formed_integer
is_well_formed_integer-integer_of lex dt v j h = elim (normalises lex) [
  | malformed p q ↦ rw p (λ e. cc, λ (z, r, i). cc)
  | number neg ds p good q ↦
      let both = well_formed_digits_iff v dt lex (signed neg (value ds)) q neg ds good refl j h in
      rw p (
        λ e. (signed neg (value ds), q, both.0 e),
        λ (z, r, i). both.1 (subst (InType j) (eq_of_some (sym r ∙ q)) i),
      )
]

-- A lexical form is well formed for an integer datatype exactly if it denotes an integer (an optional sign and
-- one or more digits) and that integer is a value of the type: unbounded, bounded on one side, or of a fixed
-- width.
pub is_well_formed_integer_iff :
    (lex : Text) (dt : TermId) (v : Vocab) (j : IntegerType)
    → type_of v dt ≡ some j
    → (is_well_formed_integer lex dt v ≡ true) ↔ ((z : ℤ) × IsIntegerForm lex z × InType j z)
is_well_formed_integer_iff lex dt v j h =
    let read = is_well_formed_integer-integer_of lex dt v j h in
    (
      λ e. let (z, p, i) = read.0 e in (z, (integer_of_iff lex z).0 p, i),
      λ (z, p, i). read.1 (z, (integer_of_iff lex z).1 p, i),
    )

-- ===== src/Datatypes/Tests.antt =====
-- Integer literals compared, with value spaces of one point each.
use shacl_engine.Common.{zero, suc, ◌≡◌, ◌↔◌, refl, true, Option, none, some, [], ◌∷◌}
use shacl_engine.Model.Starts.{TermId}
use shacl_engine.Model.Tests.{vocab}
use shacl_engine.Datatypes.Integers.{Text, ℤ, equal, less}
use shacl_engine.Datatypes.Integers.Lexical.{IsIntegerForm}
use shacl_engine.Datatypes.Integers.Ordered.{Ordered}
use shacl_engine.Datatypes.{
  Xsd, Literals, is_integer_type, compare, language_matches, is_well_formed_integer,
}
use shacl_engine.Datatypes.Compare.{IsIntegerLiteral, compare-integers}
use shacl_engine.Datatypes.Ranges.{InType, byte, is_well_formed_integer_iff}
use shacl_engine.Datatypes.Languages.{InRange, language_matches_iff}

abbrev pub points : Xsd
points = record {
  Decimal = Unit;
  Float = Unit;
  DateTime = Unit;
  Date = Unit;
  Time = Unit;
  Duration = Unit;
  parse_decimal = λ t. none;
  parse_float = λ t. none;
  parse_date_time = λ t. none;
  parse_date = λ t. none;
  parse_time = λ t. none;
  parse_duration = λ t. none;
  cmp_decimal = λ x y. some equal;
  cmp_float = λ x y. some equal;
  cmp_date_time = λ x y. some equal;
  cmp_date = λ x y. some equal;
  cmp_time = λ x y. some equal;
  cmp_duration = λ x y. some equal;
  decimal_of_i128 = λ n. none;
  float_of_i128 = λ n. tt;
  float_of_decimal = λ d. tt;
  negate = λ x. x;
  infinity = tt;
  neg_infinity = tt;
  nan = tt;
}

-- `-07`, and a one with forty zeros.
abbrev minus_seven : Text
minus_seven = 45 ∷ 48 ∷ 55 ∷ []

abbrev huge : Text
huge =
    49 ∷ 48 ∷ 48 ∷ 48 ∷ 48 ∷ 48 ∷ 48 ∷ 48 ∷ 48 ∷ 48 ∷ 48 ∷ 48 ∷ 48 ∷ 48 ∷ 48 ∷ 48 ∷ 48 ∷ 48 ∷ 48
    ∷ 48 ∷ 48 ∷ 48 ∷ 48 ∷ 48 ∷ 48 ∷ 48 ∷ 48 ∷ 48 ∷ 48 ∷ 48 ∷ 48 ∷ 48 ∷ 48 ∷ 48 ∷ 48 ∷ 48 ∷ 48 ∷ 48
    ∷ 48 ∷ 48 ∷ 48 ∷ []

abbrev lex_at : TermId → Option Text
lex_at zero = some minus_seven
lex_at (suc _) = some huge

abbrev pub literals : Literals
literals = record {
  lexical_form = lex_at;
  datatype = λ t. some vocab.xsd_integer;
  language = λ t. none;
}

integer_at_0 : IsIntegerLiteral literals vocab 0 minus_seven
unfolding is_integer_type
integer_at_0 = record {
  datatype = vocab.xsd_integer;
  has_lex = refl;
  has_datatype = refl;
  untagged = refl;
  not_string = refl;
  not_boolean = refl;
  integer_type = refl;
}

integer_at_1 : IsIntegerLiteral literals vocab 1 huge
unfolding is_integer_type
integer_at_1 = record {
  datatype = vocab.xsd_integer;
  has_lex = refl;
  has_datatype = refl;
  untagged = refl;
  not_string = refl;
  not_boolean = refl;
  integer_type = refl;
}

compared : compare points 0 1 literals vocab ≡ some less
unfolding compare
compared = refl

compare-integers_example :
    (compare points 0 1 literals vocab ≡ some less)
    ↔ ((x y : ℤ) × IsIntegerForm minus_seven x × IsIntegerForm huge y × Ordered x y less)
compare-integers_example =
    compare-integers points literals vocab 0 1 minus_seven huge less integer_at_0 integer_at_1

-- `en-GB` in `EN`
language_matches_iff_example :
    (language_matches (101 ∷ 110 ∷ 45 ∷ 71 ∷ 66 ∷ []) (69 ∷ 78 ∷ []) ≡ true)
    ↔ InRange (101 ∷ 110 ∷ 45 ∷ 71 ∷ 66 ∷ []) (69 ∷ 78 ∷ [])
language_matches_iff_example = language_matches_iff (101 ∷ 110 ∷ 45 ∷ 71 ∷ 66 ∷ []) (69 ∷ 78 ∷ [])

-- `-07` as an `xsd:byte`
is_well_formed_integer_iff_example :
    (is_well_formed_integer minus_seven vocab.xsd_byte vocab ≡ true)
    ↔ ((z : ℤ) × IsIntegerForm minus_seven z × InType byte z)
is_well_formed_integer_iff_example =
    is_well_formed_integer_iff minus_seven vocab.xsd_byte vocab byte refl

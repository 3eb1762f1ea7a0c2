-- ===== src/Model/Tests.antt =====
-- The graph, its index and its collections, run on a small graph.
use shacl_engine.Common.{
  ◌≡◌, ◌↔◌, ◌⊎◌, refl, true, none, some, Option, List, [], ◌∷◌, Memᴰ, arith, row_ord, filter, ◌==◌,
}
use shacl_engine.Common.Maybe.{◌>>=◌}
use shacl_engine.Model.Starts
use shacl_engine.Model.Starts.{TermId, Row, Starts, u32_max}
use shacl_engine.Model.Starts.Runs.{run_lem}
use shacl_engine.Model.Graph.{
  Graph, build, contains, objects, object, predicate_objects, subject_predicates, has_subject,
  subjects, subjects_of, objects_of,
}
use shacl_engine.Model.Graph.Access.{IsIndexed, build-IsIndexed, spo-IsSorted}
use shacl_engine.Model.Graph.Lookups.{holds_lem, lookups-build, build_returns}
use shacl_engine.Model.Graph.Adjacency.{adjacency-build}
use shacl_engine.Model.Vocab.{Vocab}
use shacl_engine.Model.Collections.{list}
use shacl_engine.Model.Collections.Bounded.{IsListBy, IsSingle, Given, list_lem, list_single_lem}
use shacl_engine.Model.Graph.Least.{IsLeast}

-- `1` and `4` have each other as `20`, and `5` is the list of `1` and `4`.
abbrev pub pushed : List Row
pushed =
    (4, 20, 1) ∷ (1, 20, 4) ∷ (1, 20, 4) ∷ (5, 11, 1) ∷ (5, 12, 6) ∷ (6, 11, 4) ∷ (6, 12, 13) ∷ []

abbrev pub small : Graph
small = record {
  spo = (1, 20, 4) ∷ (4, 20, 1) ∷ (5, 11, 1) ∷ (5, 12, 6) ∷ (6, 11, 4) ∷ (6, 12, 13) ∷ [];
  pos = (11, 1, 5) ∷ (11, 4, 6) ∷ (12, 6, 5) ∷ (12, 13, 6) ∷ (20, 1, 4) ∷ (20, 4, 1) ∷ [];
  osp = (1, 4, 20) ∷ (1, 5, 11) ∷ (4, 1, 20) ∷ (4, 6, 11) ∷ (6, 5, 12) ∷ (13, 6, 12) ∷ [];
  spo_starts = record { base = 1; starts = 0 ∷ 1 ∷ 1 ∷ 1 ∷ 2 ∷ 4 ∷ 6 ∷ [] };
  pos_starts = record { base = 11; starts = 0 ∷ 2 ∷ 4 ∷ 4 ∷ 4 ∷ 4 ∷ 4 ∷ 4 ∷ 4 ∷ 4 ∷ 6 ∷ [] };
  osp_starts = record {
    base = 1;
    starts = 0 ∷ 2 ∷ 2 ∷ 2 ∷ 4 ∷ 4 ∷ 5 ∷ 5 ∷ 5 ∷ 5 ∷ 5 ∷ 5 ∷ 5 ∷ 6 ∷ [];
  };
}

abbrev pub vocab : Vocab
vocab = record {
  rdf_type = 10;
  rdf_first = 11;
  rdf_rest = 12;
  rdf_nil = 13;
  rdfs_domain = 14;
  rdfs_range = 15;
  rdfs_sub_property_of = 16;
  rdfs_sub_class_of = 17;
  xsd_string = 100;
  xsd_any_uri = 101;
  rdf_lang_string = 102;
  xsd_boolean = 103;
  xsd_decimal = 104;
  xsd_float = 105;
  xsd_double = 106;
  xsd_date_time = 107;
  xsd_date = 108;
  xsd_time = 109;
  xsd_duration = 110;
  xsd_integer = 111;
  xsd_long = 112;
  xsd_int = 113;
  xsd_short = 114;
  xsd_byte = 115;
  xsd_non_negative_integer = 116;
  xsd_positive_integer = 117;
  xsd_non_positive_integer = 118;
  xsd_negative_integer = 119;
  xsd_unsigned_long = 120;
  xsd_unsigned_int = 121;
  xsd_unsigned_short = 122;
  xsd_unsigned_byte = 123;
}

pub small-built : build pushed ≡ some small
unfolding build
small-built = refl

pub small-IsIndexed : IsIndexed small
small-IsIndexed = build-IsIndexed pushed small small-built

lookups-build_example :
    ((contains small 1 20 4 ≡ true) ↔ Memᴰ {A = Row} (1, 20, 4) pushed)
    × (Memᴰ 4 (objects small 1 20) ↔ Memᴰ {A = Row} (1, 20, 4) pushed)
    × (Memᴰ 1 (subjects small 20 4) ↔ Memᴰ {A = Row} (1, 20, 4) pushed)
    × (Memᴰ 1 (subjects_of small 20) ↔ ((x : TermId) × Memᴰ {A = Row} (1, 20, x) pushed))
    × (Memᴰ 4 (objects_of small 20) ↔ ((x : TermId) × Memᴰ {A = Row} (x, 20, 4) pushed))
lookups-build_example = lookups-build pushed small 1 20 4 small-built

run_lem_example : Starts.run small.spo_starts small.spo 5 ≡ filter (λ r. r.0 == 5) small.spo
run_lem_example =
    run_lem small.spo small.spo_starts 5 (spo-IsSorted small small-IsIndexed)
      small-IsIndexed.spo_index

build_returns_example : (g : Graph) × (build pushed ≡ some g)
build_returns_example = build_returns pushed (omega arith)

list_lem_example :
    (list small 5 vocab ≡ some (1 ∷ 4 ∷ [])) ↔ IsListBy (IsLeast pushed) vocab 5 (1 ∷ 4 ∷ [])
list_lem_example = list_lem pushed small vocab 5 (1 ∷ 4 ∷ []) small-built

IsSingle-firsts : IsSingle pushed vocab.rdf_first
IsSingle-firsts s x y m k =
    ground (arith, (holds_lem pushed (s, 11, x)).1 m, (holds_lem pushed (s, 11, y)).1 k)

IsSingle-rests : IsSingle pushed vocab.rdf_rest
IsSingle-rests s x y m k =
    ground (arith, (holds_lem pushed (s, 12, x)).1 m, (holds_lem pushed (s, 12, y)).1 k)

list_single_lem_example :
    (list small 5 vocab ≡ some (1 ∷ 4 ∷ [])) ↔ IsListBy (Given pushed) vocab 5 (1 ∷ 4 ∷ [])
list_single_lem_example =
    list_single_lem pushed small vocab 5 (1 ∷ 4 ∷ []) small-built IsSingle-firsts IsSingle-rests

-- `7` has itself and `rdf:nil` as its rest, and two firsts; it is read all the same.
abbrev odd : List Row
odd = (7, 11, 8) ∷ (7, 11, 9) ∷ (7, 12, 14) ∷ (7, 12, 13) ∷ []

abbrev read_odd : Option (List TermId)
unfolding build list
read_odd = build odd >>= λ g. list g 7 vocab

odd_is_read : read_odd ≡ some (8 ∷ [])
unfolding read_odd build list
odd_is_read = refl

adjacency-build_example :
    (Memᴰ {A = TermId × TermId} (20, 4) (predicate_objects small 1)
      ↔ Memᴰ {A = Row} (1, 20, 4) pushed)
    × (Memᴰ {A = TermId × TermId} (1, 20) (subject_predicates small 4)
        ↔ Memᴰ {A = Row} (1, 20, 4) pushed)
    × ((has_subject small 1 ≡ true)
        ↔ ((x : TermId) × (y : TermId) × Memᴰ {A = Row} (1, x, y) pushed))
    × (((object small 1 20 ≡ none) × ((x : TermId) → ¬ Memᴰ {A = Row} (1, 20, x) pushed))
        ⊎ ((x : TermId) × (object small 1 20 ≡ some x) × Memᴰ {A = Row} (1, 20, x) pushed))
adjacency-build_example = adjacency-build pushed small 1 20 4 small-built

-- ===== src/Inference.antt =====
-- crates/shacl/src/inference.rs: RDFS entailment, materialised to a fixpoint. The `loop` takes
-- fuel: `none` means that it ran out.
pub mod Rules
pub mod Table
pub mod Closure
mod Tests
use shacl_engine.Common.{
  ℕ, zero, suc, Bool, true, false, not, Option, none, some, List, [], ◌∷◌, ◌++◌, map, length,
  filter, ltb, ◌==◌, ◌&&◌, if◌then◌else◌, row_ord,
}
use shacl_engine.Common.Strict.{sort_dedup}
use shacl_engine.Error.{Result, ok, err, inference, or_panic, ◌>>=◌}
use shacl_engine.Model.Starts.{TermId, Row}
use shacl_engine.Model.Graph.{Graph, build, iter}
use shacl_engine.Model.Vocab.{Vocab}

-- Every `(subject, object)` of a predicate.
unfoldable pub pairs : List Row → TermId → List (TermId × TermId)
pairs triples predicate = map (λ t. (t.0, t.2)) (filter (λ t. t.1 == predicate) triples)

-- `for &(a, b) in pairs { if key == a { derived.push(make(b)) } }`
abbrev pub matching : TermId → (TermId → Row) → List (TermId × TermId) → List Row
matching key make [] = []
matching key make ((a, b) ∷ rest) =
    let more = matching key make rest in if key == a then make b ∷ more else more

-- What rdfs2, rdfs3, rdfs7 and rdfs9 derive from one triple.
abbrev pub derive_one :
    Vocab
    → List (TermId × TermId)
    → List (TermId × TermId)
    → List (TermId × TermId)
    → List (TermId × TermId)
    → Row
    → List Row
derive_one v domains ranges sub_props sub_classes (s, p, o) =
    matching p (λ class. (s, v.rdf_type, class)) domains
    ++ (matching p (λ class. (o, v.rdf_type, class)) ranges
        ++ (matching p (λ sup. (s, sup, o)) sub_props
            ++ (if p == v.rdf_type
                then matching o (λ sup. (s, v.rdf_type, sup)) sub_classes
                else [])))

abbrev pub derive_each :
    Vocab
    → List (TermId × TermId)
    → List (TermId × TermId)
    → List (TermId × TermId)
    → List (TermId × TermId)
    → List Row
    → List Row
derive_each v domains ranges sub_props sub_classes [] = []
derive_each v domains ranges sub_props sub_classes (t ∷ ts) =
    derive_one v domains ranges sub_props sub_classes t
    ++ derive_each v domains ranges sub_props sub_classes ts

-- The inner loop of rdfs5 and rdfs11, for one pair.
abbrev pub extend_pair : TermId → TermId → TermId → List (TermId × TermId) → List Row
extend_pair predicate a b [] = []
extend_pair predicate a b ((c, d) ∷ rest) =
    let more = extend_pair predicate a b rest in
    if (b == c) && not (a == d) then (a, predicate, d) ∷ more else more

abbrev pub transitive : TermId → List (TermId × TermId) → List (TermId × TermId) → List Row
transitive predicate all [] = []
transitive predicate all ((a, b) ∷ rest) =
    extend_pair predicate a b all ++ transitive predicate all rest

-- What one round derives from everything known so far.
unfoldable pub derived : Vocab → List Row → List Row
unfolding pairs
derived v triples =
    let domains = pairs triples v.rdfs_domain in
    let ranges = pairs triples v.rdfs_range in
    let sub_props = pairs triples v.rdfs_sub_property_of in
    let sub_classes = pairs triples v.rdfs_sub_class_of in
    derive_each v domains ranges sub_props sub_classes triples
    ++ (transitive v.rdfs_sub_property_of sub_props sub_props
        ++ transitive v.rdfs_sub_class_of sub_classes sub_classes)

unfoldable pub round : Vocab → List Row → List Row
unfolding sort_dedup derived
round v triples = sort_dedup (triples ++ derived v triples)

unfoldable pub run : Vocab → ℕ → ℕ → List Row → Option (Result (List Row))
unfolding round
run v max_triples zero triples = none
run v max_triples (suc fuel) triples =
    let next = round v triples in
    let rest = run v max_triples fuel next in
    if ltb max_triples (length next)
    then some (err inference)
    else if length next == length triples
    then some (ok next)
    else rest

abbrev pub finish : Result (List Row) → Result Graph
finish r = do triples ← r; or_panic (build triples)

abbrev pub finish_run : Option (Result (List Row)) → Option (Result Graph)
finish_run none = none
finish_run (some r) = some (finish r)

-- The graph with its RDFS consequences, abandoned past `max_triples`.
unfoldable pub rdfs_closure_bounded : ℕ → Graph → Vocab → ℕ → Option (Result Graph)
unfolding run sort_dedup iter build
rdfs_closure_bounded fuel graph v max_triples =
    finish_run (run v max_triples fuel (sort_dedup (iter graph)))

abbrev pub default_max_triples : ℕ
default_max_triples = 50_000_000

unfoldable pub rdfs_closure : ℕ → Graph → Vocab → Option (Result Graph)
unfolding rdfs_closure_bounded
rdfs_closure fuel graph v = rdfs_closure_bounded fuel graph v default_max_triples

-- ===== src/Inference/Table.antt =====
-- The module's table of rules, and what the code leaves out of it: the loops that rdfs5 and rdfs11
-- conclude from a cycle of subproperties or of subclasses.
use shacl_engine.Common.{◌≡◌, ◌≢◌, subst, sym, ◌↔◌, List, Memᴰ, ◌==◌, Bool-cases, inl, inr, arith}
use shacl_engine.Model.Starts.{TermId, Row}
use shacl_engine.Model.Vocab.{Vocab}

-- What follows from the triples of a graph by the rules of the module's table, as it is written.
pub data Entails (v : Vocab) (base : List Row) : Row → Type 0 where
  given : {r : Row} → Memᴰ r base → Entails v base r
  rdfs2 :
      {x p y c : TermId}
      → Entails v base (p, v.rdfs_domain, c)
      → Entails v base (x, p, y)
      → Entails v base (x, v.rdf_type, c)
  rdfs3 :
      {x p y c : TermId}
      → Entails v base (p, v.rdfs_range, c)
      → Entails v base (x, p, y)
      → Entails v base (y, v.rdf_type, c)
  rdfs5 :
      {p q r : TermId}
      → Entails v base (p, v.rdfs_sub_property_of, q)
      → Entails v base (q, v.rdfs_sub_property_of, r)
      → Entails v base (p, v.rdfs_sub_property_of, r)
  rdfs7 :
      {x p y q : TermId}
      → Entails v base (p, v.rdfs_sub_property_of, q)
      → Entails v base (x, p, y)
      → Entails v base (x, q, y)
  rdfs9 :
      {x c d : TermId}
      → Entails v base (c, v.rdfs_sub_class_of, d)
      → Entails v base (x, v.rdf_type, c)
      → Entails v base (x, v.rdf_type, d)
  rdfs11 :
      {c d e : TermId}
      → Entails v base (c, v.rdfs_sub_class_of, d)
      → Entails v base (d, v.rdfs_sub_class_of, e)
      → Entails v base (c, v.rdfs_sub_class_of, e)

-- What follows by the rules as the code restricts them: rdfs5 and rdfs11 conclude nothing from a term
-- to itself.
pub data Follows (v : Vocab) (base : List Row) : Row → Type 0 where
  given : {r : Row} → Memᴰ r base → Follows v base r
  rdfs2 :
      {x p y c : TermId}
      → Follows v base (p, v.rdfs_domain, c)
      → Follows v base (x, p, y)
      → Follows v base (x, v.rdf_type, c)
  rdfs3 :
      {x p y c : TermId}
      → Follows v base (p, v.rdfs_range, c)
      → Follows v base (x, p, y)
      → Follows v base (y, v.rdf_type, c)
  rdfs5 :
      {p q r : TermId}
      → Follows v base (p, v.rdfs_sub_property_of, q)
      → Follows v base (q, v.rdfs_sub_property_of, r)
      → p ≢ r
      → Follows v base (p, v.rdfs_sub_property_of, r)
  rdfs7 :
      {x p y q : TermId}
      → Follows v base (p, v.rdfs_sub_property_of, q)
      → Follows v base (x, p, y)
      → Follows v base (x, q, y)
  rdfs9 :
      {x c d : TermId}
      → Follows v base (c, v.rdfs_sub_class_of, d)
      → Follows v base (x, v.rdf_type, c)
      → Follows v base (x, v.rdf_type, d)
  rdfs11 :
      {c d e : TermId}
      → Follows v base (c, v.rdfs_sub_class_of, d)
      → Follows v base (d, v.rdfs_sub_class_of, e)
      → c ≢ e
      → Follows v base (c, v.rdfs_sub_class_of, e)

-- Two terms that have each other as a property have themselves.
abbrev pub HasLoops : TermId → List Row → Type 0
HasLoops p rows = (a b : TermId) → Memᴰ (a, p, b) rows → Memᴰ (b, p, a) rows → Memᴰ (a, p, a) rows

abbrev pub HasAllLoops : Vocab → List Row → Type 0
HasAllLoops v rows = HasLoops v.rdfs_sub_property_of rows × HasLoops v.rdfs_sub_class_of rows

module _ (v : Vocab) (base : List Row) where
  pub Follows-Entails : (r : Row) → Follows v base r → Entails v base r
  Follows-Entails r (Follows.given m) = Entails.given m
  Follows-Entails _ (Follows.rdfs2 a b) = Entails.rdfs2 (Follows-Entails _ a) (Follows-Entails _ b)
  Follows-Entails _ (Follows.rdfs3 a b) = Entails.rdfs3 (Follows-Entails _ a) (Follows-Entails _ b)
  Follows-Entails _ (Follows.rdfs5 a b n) =
      Entails.rdfs5 (Follows-Entails _ a) (Follows-Entails _ b)
  Follows-Entails _ (Follows.rdfs7 a b) = Entails.rdfs7 (Follows-Entails _ a) (Follows-Entails _ b)
  Follows-Entails _ (Follows.rdfs9 a b) = Entails.rdfs9 (Follows-Entails _ a) (Follows-Entails _ b)
  Follows-Entails _ (Follows.rdfs11 a b n) =
      Entails.rdfs11 (Follows-Entails _ a) (Follows-Entails _ b)

  module _ (ts : List Row) (exact : (r : Row) → Memᴰ r ts ↔ Follows v base r) where
    -- A chain of two triples whose ends may be the same.
    chain :
        (p a b c : TermId)
        → HasLoops p ts
        → (a ≢ c → Follows v base (a, p, c))
        → Follows v base (a, p, b)
        → Follows v base (b, p, c)
        → Follows v base (a, p, c)
    chain p a b c loops apart k l = elim (Bool-cases (a == c)) [
      | inl e ↦
          let same : a ≡ c = ground (arith, e) in
          let back : Follows v base (b, p, a) =
            subst (λ z. Follows v base (b, p, z)) (sym same) l in
          let loop = loops a b ((exact (a, p, b)).1 k) ((exact (b, p, a)).1 back) in
          subst (λ z. Follows v base (a, p, z)) same ((exact (a, p, a)).0 loop)
      | inr e ↦ apart (λ q. ground (arith, e, q))
    ]

    Entails-Follows : HasAllLoops v ts → (r : Row) → Entails v base r → Follows v base r
    Entails-Follows h r (Entails.given m) = Follows.given m
    Entails-Follows h _ (Entails.rdfs2 a b) =
        Follows.rdfs2 (Entails-Follows h _ a) (Entails-Follows h _ b)
    Entails-Follows h _ (Entails.rdfs3 a b) =
        Follows.rdfs3 (Entails-Follows h _ a) (Entails-Follows h _ b)
    Entails-Follows h _ (Entails.rdfs5 {p} {q} {r} a b) =
        let k = Entails-Follows h _ a in
        let l = Entails-Follows h _ b in
        chain v.rdfs_sub_property_of p q r h.0 (Follows.rdfs5 k l) k l
    Entails-Follows h _ (Entails.rdfs7 a b) =
        Follows.rdfs7 (Entails-Follows h _ a) (Entails-Follows h _ b)
    Entails-Follows h _ (Entails.rdfs9 a b) =
        Follows.rdfs9 (Entails-Follows h _ a) (Entails-Follows h _ b)
    Entails-Follows h _ (Entails.rdfs11 {c} {d} {e} a b) =
        let k = Entails-Follows h _ a in
        let l = Entails-Follows h _ b in
        chain v.rdfs_sub_class_of c d e h.1 (Follows.rdfs11 k l) k l

    Entails-held : (r : Row) → Memᴰ r ts → Entails v base r
    Entails-held r m = Follows-Entails r ((exact r).0 m)

    -- What follows is all that the table entails exactly if no loop is missing.
    pub Entails-iff : ((r : Row) → Entails v base r → Memᴰ r ts) ↔ HasAllLoops v ts
    Entails-iff = (
      λ all. (
        λ a b k l. all _ (Entails.rdfs5 (Entails-held _ k) (Entails-held _ l)),
        λ a b k l. all _ (Entails.rdfs11 (Entails-held _ k) (Entails-held _ l)),
      ),
      λ h r m. (exact r).1 (Entails-Follows h r m),
    )

-- ===== src/Validation/Entry/Groups.antt =====
-- The grouping of the work of `validate_nodes` by shape.
use shacl_engine.Common.{
  ◌≡◌, ◌↔◌, ◌⊎◌, ap, List, [], ◌∷◌, ◌==◌, ==_iff, Memᴰ, Memᴰ-cons, Memᴰ-append, Memᴰ-nil, arith,
  Bool-cases, inl, inr, ⊎_elim, if◌then◌else◌,
}
use shacl_engine.Model.Starts.{TermId}
use shacl_engine.Shapes.{ShapeId}
use shacl_engine.Validation.{Visit}
use shacl_engine.Validation.Entry.{join_work, group_work}

abbrev pub Groups : Type 0
Groups = List (ShapeId × List TermId)

-- The node is in a group of the shape.
abbrev pub Holds : ShapeId → TermId → Groups → Type 0
Holds s n [] = ⊥
Holds s n ((t, ns) ∷ rest) = ((s ≡ t) × Memᴰ n ns) ⊎ Holds s n rest

-- No group of these has the shape.
abbrev pub Lacks : ShapeId → Groups → Type 0
Lacks s [] = Unit
Lacks s ((t, ns) ∷ rest) = ¬ (s ≡ t) × Lacks s rest

-- Each shape has one group.
abbrev pub AreDistinct : Groups → Type 0
AreDistinct [] = Unit
AreDistinct ((t, ns) ∷ rest) = Lacks t rest × AreDistinct rest

join_work-Holds :
    (s shape : ShapeId) (n m : TermId) (groups : Groups)
    → Holds s n (join_work shape m groups) ↔ (Holds s n groups ⊎ ((s ≡ shape) × (n ≡ m)))
join_work-Holds s shape n m [] = ground (arith, Memᴰ-cons n m [], Memᴰ-nil n)
join_work-Holds s shape n m ((t, ns) ∷ rest) = elim (Bool-cases (t == shape)) [
  | inl e ↦
      rw (e, if◌then◌else◌)
        (ground (arith, ==_iff t shape, Memᴰ-append n ns (m ∷ []), Memᴰ-cons n m [], Memᴰ-nil n))
  | inr d ↦ rw (d, if◌then◌else◌) (ground (arith, join_work-Holds s shape n m rest))
]

join_work-Lacks :
    (s shape : ShapeId) (m : TermId) (groups : Groups)
    → Lacks s groups
    → ¬ (s ≡ shape)
    → Lacks s (join_work shape m groups)
join_work-Lacks s shape m [] lacks other = (other, tt)
join_work-Lacks s shape m ((t, ns) ∷ rest) lacks other = elim (Bool-cases (t == shape)) [
  | inl e ↦ rw (e, if◌then◌else◌) lacks
  | inr d ↦ rw (d, if◌then◌else◌) (lacks.0, join_work-Lacks s shape m rest lacks.1 other)
]

join_work-AreDistinct :
    (shape : ShapeId) (m : TermId) (groups : Groups)
    → AreDistinct groups
    → AreDistinct (join_work shape m groups)
join_work-AreDistinct shape m [] good = (tt, tt)
join_work-AreDistinct shape m ((t, ns) ∷ rest) good = elim (Bool-cases (t == shape)) [
  | inl e ↦ rw (e, if◌then◌else◌) good
  | inr d ↦
      rw (d, if◌then◌else◌)
        (
          join_work-Lacks t shape m rest good.0 (ground (arith, ==_iff t shape)),
          join_work-AreDistinct shape m rest good.1,
        )
]

grouped :
    (s : ShapeId) (n : TermId) (work : List Visit) (groups : Groups)
    → Holds s n (group_work work groups) ↔ (Holds s n groups ⊎ Memᴰ {A = Visit} (s, n) work)
unfolding group_work
grouped s n [] groups = (inl, ⊎_elim (λ k. k) (λ m. absurd (Memᴰ-nil {A = Visit} (s, n) m)))
grouped s n ((t, m) ∷ work) groups =
    let all = grouped s n work (join_work t m groups) in
    let one = join_work-Holds s t n m groups in
    (
      λ k.
          ⊎_elim (λ j. ⊎_elim inl (λ same. inr (Memᴰ.head (λ i. (same.0 i, same.1 i)))) (one.0 j))
            (λ w. inr (Memᴰ.tail w)) (all.0 k),
      ⊎_elim (λ k. all.1 (inl (one.1 (inl k))))
          (λ w.
            ⊎_elim
              (λ e.
                all.1 (inl (one.1 (inr (ap (λ (v : Visit). v.0) e, ap (λ (v : Visit). v.1) e)))))
              (λ r. all.1 (inr r)) ((Memᴰ-cons {A = Visit} (s, n) (t, m) work).0 w)),
    )

grouped-AreDistinct :
    (work : List Visit) (groups : Groups)
    → AreDistinct groups
    → AreDistinct (group_work work groups)
unfolding group_work
grouped-AreDistinct [] groups good = good
grouped-AreDistinct ((t, m) ∷ work) groups good =
    grouped-AreDistinct work (join_work t m groups) (join_work-AreDistinct t m groups good)

-- The groups of a work list have one for each shape, and hold exactly the work's pairs.
pub group_work_lem :
    (work : List Visit)
    → AreDistinct (group_work work [])
      × ((s : ShapeId) (n : TermId) → Holds s n (group_work work []) ↔ Memᴰ {A = Visit} (s, n) work)
group_work_lem work = (
  grouped-AreDistinct work [] tt,
  λ s n. (
    λ k. ⊎_elim absurd (λ m. m) ((grouped s n work []).0 k),
    λ m. (grouped s n work []).1 (inr m),
  ),
)

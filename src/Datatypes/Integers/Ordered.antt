-- ===== src/Datatypes/Integers/Ordered.antt =====
-- The order of the integers, written out apart from the code's comparisons.
use shacl_engine.Common.{ℕ, ◌<◌, ◌≡◌, refl, sym, ap, ◌∙◌}
use shacl_engine.Datatypes.Integers.{
  Ordering, less, equal, greater, ℤ, pos, negsuc, cmp_nat, cmp_int,
}
use shacl_engine.Datatypes.Integers.Digits.{
  below, level, above, compared, cmp_nat-less, cmp_nat-equal, cmp_nat-greater,
}

abbrev pub Below : ℤ → ℤ → Type 0
Below (pos m) (pos n) = m < n
Below (pos m) (negsuc n) = ⊥
Below (negsuc m) (pos n) = Unit
Below (negsuc m) (negsuc n) = n < m

-- How two integers stand to each other.
abbrev pub Ordered : ℤ → ℤ → Ordering → Type 0
Ordered x y less = Below x y
Ordered x y equal = x ≡ y
Ordered x y greater = Below y x

pub cmp_int-Ordered : (x y : ℤ) → Ordered x y (cmp_int x y)
cmp_int-Ordered (pos m) (negsuc n) = tt
cmp_int-Ordered (negsuc m) (pos n) = tt
cmp_int-Ordered (pos m) (pos n) = elim (compared m n) [
  | below l ↦ rw (cmp_nat-less m n l) l
  | level q ↦ rw (cmp_nat-equal m n q) (ap pos q)
  | above g ↦ rw (cmp_nat-greater m n g) g
]
cmp_int-Ordered (negsuc m) (negsuc n) = elim (compared n m) [
  | below l ↦ rw (cmp_nat-less n m l) l
  | level q ↦ rw (cmp_nat-equal n m q) (ap negsuc (sym q))
  | above g ↦ rw (cmp_nat-greater n m g) g
]

cmp_nat_refl : (n : ℕ) → cmp_nat n n ≡ equal
cmp_nat_refl n = cmp_nat-equal n n refl

cmp_int_refl : (x : ℤ) → cmp_int x x ≡ equal
cmp_int_refl (pos n) = cmp_nat_refl n
cmp_int_refl (negsuc n) = cmp_nat_refl n

pub cmp_int-Below : (x y : ℤ) → Below x y → cmp_int x y ≡ less
cmp_int-Below (pos m) (pos n) h = cmp_nat-less m n h
cmp_int-Below (pos m) (negsuc n) h = absurd h
cmp_int-Below (negsuc m) (pos n) h = refl
cmp_int-Below (negsuc m) (negsuc n) h = cmp_nat-less n m h

cmp_int_above : (x y : ℤ) → Below y x → cmp_int x y ≡ greater
cmp_int_above (pos m) (pos n) h = cmp_nat-greater m n h
cmp_int_above (pos m) (negsuc n) h = refl
cmp_int_above (negsuc m) (pos n) h = absurd h
cmp_int_above (negsuc m) (negsuc n) h = cmp_nat-greater n m h

pub Ordered-cmp_int : (x y : ℤ) (o : Ordering) → Ordered x y o → cmp_int x y ≡ o
Ordered-cmp_int x y less h = cmp_int-Below x y h
Ordered-cmp_int x y equal h = ap (cmp_int x) (sym h) ∙ cmp_int_refl x
Ordered-cmp_int x y greater h = cmp_int_above x y h

-- ===== src/Common/Members.antt =====
-- Membership tests on lists of numbers and of pairs of numbers: `slice::contains`, `any`, `all`.
use Prim.Native.Nat.{ℕ}
use mathlib.Core.Path.{◌≡◌, refl}
use mathlib.Core.Logic.{◌↔◌}
use mathlib.Core.Bool.{Bool, true, false, ◌&&◌, ◌||◌}
use mathlib.Core.List.{List, [], ◌∷◌, ◌++◌, Memᴰ}
use native.Mathlib.Omega.{arith}
use shacl_engine.Common.Tests.{◌==◌, ==_iff}
use shacl_engine.Common.Lists.{Memᴰ-cons, Memᴰ-nil}

abbrev pub has_id : List ℕ → ℕ → Bool
has_id [] i = false
has_id (x ∷ xs) i = (x == i) || has_id xs i

abbrev pub any {ℓ} : {A : Type ℓ} → (A → Bool) → List A → Bool
any p [] = false
any p (a ∷ rest) = p a || any p rest

abbrev pub same_pair : ℕ × ℕ → ℕ × ℕ → Bool
same_pair (a, b) (c, d) = (a == c) && (b == d)

abbrev pub has_pair : List (ℕ × ℕ) → ℕ × ℕ → Bool
has_pair [] p = false
has_pair (x ∷ xs) p = same_pair x p || has_pair xs p

pub has_id_iff : (xs : List ℕ) (i : ℕ) → (has_id xs i ≡ true) ↔ Memᴰ i xs
has_id_iff [] i = ground (arith, Memᴰ-nil i)
has_id_iff (x ∷ xs) i = ground (arith, has_id_iff xs i, Memᴰ-cons i x xs, ==_iff x i)

pub has_pair-append :
    (xs ys : List (ℕ × ℕ)) (p : ℕ × ℕ) → has_pair (xs ++ ys) p ≡ has_pair xs p || has_pair ys p
has_pair-append [] ys p = refl
has_pair-append (x ∷ xs) ys p = ground (arith, has_pair-append xs ys p)

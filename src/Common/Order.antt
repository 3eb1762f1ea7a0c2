-- ===== src/Common/Order.antt =====
-- Total orders by a Boolean test: what `Ord` gives on ids, pairs of ids and rows of three.
use Prim.Native.Nat.{ℕ}
use mathlib.Core.Path.{◌≡◌}
use mathlib.Core.Bool.{Bool, true, false, ◌&&◌, ◌||◌}
use native.Mathlib.Omega.{arith}
use shacl_engine.Common.Tests.{ltb, ◌==◌}

pub record Ord {ℓ} (A : Type ℓ) : Type ℓ where
  pub lt : A → A → Bool
  pub irrefl : (a : A) → lt a a ≡ false
  pub trans : (a b c : A) → lt a b ≡ true → lt b c ≡ true → lt a c ≡ true
  pub connex : (a b : A) → lt a b ≡ false → lt b a ≡ false → a ≡ b

abbrev pub lt_pair : ℕ × ℕ → ℕ × ℕ → Bool
lt_pair a b = ltb a.0 b.0 || (a.0 == b.0 && ltb a.1 b.1)

abbrev pub lt_row : ℕ × ℕ × ℕ → ℕ × ℕ × ℕ → Bool
lt_row a b = ltb a.0 b.0 || (a.0 == b.0 && (ltb a.1 b.1 || (a.1 == b.1 && ltb a.2 b.2)))

pub nat_irrefl : (a : ℕ) → ltb a a ≡ false
nat_irrefl a = ground arith

pub nat_trans : (a b c : ℕ) → ltb a b ≡ true → ltb b c ≡ true → ltb a c ≡ true
nat_trans a b c = ground arith

pub nat_connex : (a b : ℕ) → ltb a b ≡ false → ltb b a ≡ false → a ≡ b
nat_connex a b = ground arith

instance abbrev pub nat_ord : Ord ℕ
nat_ord = record { lt = ltb; irrefl = nat_irrefl; trans = nat_trans; connex = nat_connex }

pub pair_irrefl : (a : ℕ × ℕ) → lt_pair a a ≡ false
pair_irrefl a = ground arith

pub pair_trans : (a b c : ℕ × ℕ) → lt_pair a b ≡ true → lt_pair b c ≡ true → lt_pair a c ≡ true
pair_trans a b c = ground arith

pub pair_connex : (a b : ℕ × ℕ) → lt_pair a b ≡ false → lt_pair b a ≡ false → a ≡ b
pair_connex a b = ground arith

instance abbrev pub pair_ord : Ord (ℕ × ℕ)
pair_ord = record { lt = lt_pair; irrefl = pair_irrefl; trans = pair_trans; connex = pair_connex }

pub row_irrefl : (a : ℕ × ℕ × ℕ) → lt_row a a ≡ false
row_irrefl a = ground arith

pub row_trans : (a b c : ℕ × ℕ × ℕ) → lt_row a b ≡ true → lt_row b c ≡ true → lt_row a c ≡ true
row_trans a b c = ground arith

pub row_connex : (a b : ℕ × ℕ × ℕ) → lt_row a b ≡ false → lt_row b a ≡ false → a ≡ b
row_connex a b = ground arith

instance abbrev pub row_ord : Ord (ℕ × ℕ × ℕ)
row_ord = record { lt = lt_row; irrefl = row_irrefl; trans = row_trans; connex = row_connex }

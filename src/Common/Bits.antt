-- ===== src/Common/Bits.antt =====
-- Facts about the bit operations on bytes, by checking every value.
use Prim.Native.Nat.{ℕ, zero, suc, ◌+◌, ◌*◌, ◌%◌, ◌<◌, bit_and, bit_or}
use mathlib.Core.Path.{◌≡◌, refl}
use mathlib.Core.Bool.{Bool, true, ◌&&◌}
use mathlib.Core.Logic.{inl, inr}
use native.Mathlib.Omega.{arith}
use nginx_comment.Common.Tests.{◌==◌, ==_iff, Bool-cases}

-- A test passes at each of the first `n` numbers.
unfoldable pub passes : (ℕ → Bool) → ℕ → Bool
passes test zero = true
passes test (suc n) = passes test n && test n

pub at-passes : (test : ℕ → Bool) {n k : ℕ} → k < n → passes test n ≡ true → test k ≡ true
unfolding passes
at-passes test {n = zero} k<n e = absurd (omega arith)
at-passes test {n = suc n} {k = k} k<n e = elim (Bool-cases (k == n)) [
  | inl same ↦ rw ((==_iff k n).0 same) (ground arith)
  | inr other ↦ at-passes test {n = n} {k = k} (ground arith) (ground arith)
]

-- Two numbers whose bits do not meet: the first is a multiple of `m`, the second below it.
all_pairs : (n m : ℕ) → Bool
all_pairs n m = passes (λ a. passes (λ b. bit_or (a * m) b == a * m + b) m) n

bit_or_disjoint :
    (n m a b : ℕ) → all_pairs n m ≡ true → a < n → b < m → bit_or (a * m) b ≡ a * m + b
unfolding all_pairs
bit_or_disjoint n m a b h p q =
    (==_iff _ _).0
      (at-passes _ q (at-passes (λ a. passes (λ b. bit_or (a * m) b == a * m + b) m) p h))

pub bit_or_4_16 : (a b : ℕ) → a < 4 → b < 16 → bit_or (a * 16) b ≡ a * 16 + b
unfolding all_pairs passes
bit_or_4_16 a b = bit_or_disjoint 4 16 a b refl

pub bit_or_16_4 : (a b : ℕ) → a < 16 → b < 4 → bit_or (a * 4) b ≡ a * 4 + b
unfolding all_pairs passes
bit_or_16_4 a b = bit_or_disjoint 16 4 a b refl

pub bit_or_2_128 : (a b : ℕ) → a < 2 → b < 128 → bit_or (a * 128) b ≡ a * 128 + b
unfolding all_pairs passes
bit_or_2_128 a b = bit_or_disjoint 2 128 a b refl

module _ (x : ℕ) (byte : x < 256) where
  pub bit_and_3 : bit_and x 3 ≡ x % 4
  unfolding passes
  bit_and_3 = (==_iff _ _).0 (at-passes (λ x. bit_and x 3 == x % 4) byte refl)

  pub bit_and_15 : bit_and x 0x0f ≡ x % 16
  unfolding passes
  bit_and_15 = (==_iff _ _).0 (at-passes (λ x. bit_and x 0x0f == x % 16) byte refl)

  pub bit_and_63 : bit_and x 0x3f ≡ x % 64
  unfolding passes
  bit_and_63 = (==_iff _ _).0 (at-passes (λ x. bit_and x 0x3f == x % 64) byte refl)

  pub bit_and_1 : bit_and x 1 ≡ x % 2
  unfolding passes
  bit_and_1 = (==_iff _ _).0 (at-passes (λ x. bit_and x 1 == x % 2) byte refl)

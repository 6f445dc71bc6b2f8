-- ===== src/Base/Bits.antt =====
-- Checking a test at all values of a small range, and single bits of a byte.
use Prim.Native.Nat.{
  ℕ, zero, suc, ◌+◌, ◌-◌, ◌*◌, ◌/◌, ◌%◌, ◌^◌, ◌<◌, bit_and, bit_or, bit_and-bitwise,
}
use mathlib.Core.Path.{◌≡◌, refl}
use mathlib.Core.Bool.{Bool, true, ◌&&◌}
use native.Mathlib.Omega.{arith}
use little_os.Base.Tests.{◌==◌, if◌then◌else◌, ltb}

holds_below : (ℕ → Bool) → ℕ → Bool
holds_below test zero = true
holds_below test (suc k) = test k && holds_below test k

holds_below_lem : (test : ℕ → Bool) (n i : ℕ) → holds_below test n ≡ true → i < n → test i ≡ true
unfolding holds_below
holds_below_lem test zero i all lt = absurd (omega arith)
holds_below_lem test (suc k) i all lt = ground (arith, holds_below_lem test k i)

-- `b & (1 << k)` as a test, `b | 1 << k`, and `b & ~(1 << k)` stored in a byte.
unfoldable pub test_bit : ℕ → ℕ → ℕ
test_bit b k = if bit_and b (2 ^ k) == 0 then 0 else 1

unfoldable pub raise_bit : ℕ → ℕ → ℕ
raise_bit b k = bit_or b (2 ^ k)

unfoldable pub lower_bit : ℕ → ℕ → ℕ
lower_bit b k = bit_and b (2 ^ 32 - 1 - 2 ^ k) % 2 ^ 8

-- All bytes `b`, with two positions `k` and `m`, as one number below 2 ^ 14.
abbrev case_of : ℕ → ℕ → ℕ → ℕ
case_of b k m = b + 256 * (k + 8 * m)

abbrev checks : (ℕ → ℕ → ℕ) → ℕ → ℕ → ℕ → ℕ → Bool
checks f v b k m = test_bit (f b k) m == (if m == k then v else test_bit b m) && ltb (f b k) 256

abbrev checks_case : (ℕ → ℕ → ℕ) → ℕ → ℕ → Bool
checks_case f v x = checks f v (x % 256) (x / 256 % 8) (x / 2048)

raise_table : holds_below (checks_case raise_bit 1) 16384 ≡ true
unfolding holds_below test_bit raise_bit
raise_table = refl

lower_table : holds_below (checks_case lower_bit 0) 16384 ≡ true
unfolding holds_below test_bit lower_bit
lower_table = refl

module _ (f : ℕ → ℕ → ℕ) (v : ℕ) (table : holds_below (checks_case f v) 16384 ≡ true) (b k m : ℕ)
    (hb : b < 256) (hk : k < 8) (hm : m < 8) where
  checked : checks f v b k m ≡ true
  checked =
      let low : case_of b k m % 256 ≡ b = omega arith in
      let mid : case_of b k m / 256 % 8 ≡ k = omega arith in
      let high : case_of b k m / 2048 ≡ m = omega arith in
      rw (low, mid, high) at
        (holds_below_lem (checks_case f v) 16384 (case_of b k m) table (omega arith))

  read_checks : (test_bit (f b k) m ≡ (if m == k then v else test_bit b m)) × (f b k < 256)
  read_checks = ground (arith, checked)

module _ (b k m : ℕ) (hb : b < 256) (hk : k < 8) (hm : m < 8) where
  pub raise_bit-test :
      (test_bit (raise_bit b k) m ≡ (if m == k then 1 else test_bit b m)) × (raise_bit b k < 256)
  raise_bit-test = read_checks raise_bit 1 raise_table b k m hb hk hm

  pub lower_bit-test :
      (test_bit (lower_bit b k) m ≡ (if m == k then 0 else test_bit b m)) × (lower_bit b k < 256)
  lower_bit-test = read_checks lower_bit 0 lower_table b k m hb hk hm

pub test_bit-zero : (k : ℕ) → test_bit 0 k ≡ 0
unfolding test_bit
test_bit-zero k = rw (bit_and-bitwise 0 (2 ^ k))

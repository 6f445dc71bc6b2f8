-- ===== src/Bitmap.antt =====
-- source/kernel/memory/bitmap.c and bitmap.h: the page bitmap. `bits` is the memory from
-- `bitmap->bits` on, one byte each, which does not end where the bitmap does. Indices and counts
-- are `int`s that are not negative, and their sums are taken to fit.
pub mod Bit
pub mod Scan
pub mod Alloc
use little_os.Base.{
  ℕ, zero, suc, ◌+◌, ◌-◌, ◌/◌, ◌%◌, ◌^◌, Bool, ◌&&◌, Option, none, some, if◌then◌else◌, ◌==◌, ltb,
  leb, not, update,
}
use little_os.Base.Bits.{test_bit, raise_bit, lower_bit}
use little_os.Mem.{Memory, kmemset}

pub record Bitmap : Type 0 where
  pub count : ℕ
  pub bits : Memory

unfoldable pub bitmap_get_bytes : ℕ → ℕ
bitmap_get_bytes count = (count + 8 - 1) / 8

unfoldable pub bitmap_init : ℕ → Memory → Bitmap
unfolding bitmap_get_bytes
bitmap_init count bits =
    let num = bitmap_get_bytes count in record { count = count; bits = kmemset bits 0 0 num }

-- The loop body of `bitmap_set_bit`.
unfoldable pub put_bit : Memory → ℕ → ℕ → Memory
put_bit bits i bit =
    if not (bit == 0)
    then update bits (i / 8) (raise_bit (bits (i / 8)) (i % 8))
    else update bits (i / 8) (lower_bit (bits (i / 8)) (i % 8))

-- `for (int i = index; i < cnt; i++)`, by the rounds that are left.
unfoldable pub set_loop : ℕ → Memory → ℕ → ℕ → Memory
unfolding put_bit
set_loop zero bits i bit = bits
set_loop (suc n) bits i bit = set_loop n (put_bit bits i bit) (i + 1) bit

unfoldable pub bitmap_set_bit : Bitmap → ℕ → ℕ → ℕ → Bitmap
unfolding set_loop
bitmap_set_bit bitmap index count bit =
    if leb bitmap.count index
    then bitmap
    else record bitmap { bits = set_loop count bitmap.bits index bit }

unfoldable pub bitmap_get_bit : Bitmap → ℕ → ℕ
unfolding test_bit
bitmap_get_bit bitmap index = test_bit (bitmap.bits (index / 8)) (index % 8)

unfoldable pub bitmap_is_set : Bitmap → ℕ → Bool
unfolding bitmap_get_bit
bitmap_is_set bitmap index = not (bitmap_get_bit bitmap index == 0)

-- The inner loop of `bitmap_alloc_nbits`: the first set bit from `j` on, or none. The test bounds
-- the rounds by `count`, the fuel that it is given.
unfoldable pub scan_loop : ℕ → Bitmap → ℕ → ℕ → ℕ → Option ℕ
unfolding bitmap_get_bit
scan_loop zero bitmap i count j = none
scan_loop (suc k) bitmap i count j =
    let rest = scan_loop k bitmap i count (j + 1) in
    if ltb j bitmap.count && leb (j - i + 1) count
    then (if bitmap_get_bit bitmap j == 1 then some j else rest)
    else none

-- The outer loop; `none` is the result -1. Each round moves `i` on, so `bitmap.count - i` rounds
-- end it.
unfoldable pub alloc_loop : ℕ → Bitmap → ℕ → ℕ → Bitmap × Option ℕ
unfolding bitmap_get_bit scan_loop bitmap_set_bit
alloc_loop zero bitmap i count = (bitmap, none)
alloc_loop (suc k) bitmap i count =
    let onward = alloc_loop k bitmap (i + 1) count in
    let tried : Bitmap × Option ℕ = elim (scan_loop count bitmap i count i) [
      | some j ↦ alloc_loop k bitmap (j + 1) count
      | none ↦ (bitmap_set_bit bitmap i count 1, some i)
    ] in
    if ltb i bitmap.count
    then (if bitmap_get_bit bitmap i == 0 then tried else onward)
    else (bitmap, none)

unfoldable pub bitmap_alloc_nbits : Bitmap → ℕ → ℕ → Bitmap × Option ℕ
unfolding alloc_loop
bitmap_alloc_nbits bitmap index count = alloc_loop (bitmap.count - index) bitmap index count

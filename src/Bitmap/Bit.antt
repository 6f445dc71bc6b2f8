-- ===== src/Bitmap/Bit.antt =====
-- What `bitmap_set_bit` and `bitmap_init` leave at each index.
use little_os.Base.{
  ℕ, zero, suc, ◌+◌, ◌/◌, ◌%◌, ◌≤◌, ◌<◌, ◌^◌, ◌≡◌, ◌&&◌, if◌then◌else◌, ◌==◌, ltb, not, arith, refl,
}
use little_os.Base.Bits.{test_bit, raise_bit-test, lower_bit-test, test_bit-zero}
use little_os.Mem.{Memory}
use little_os.Mem.Fill.{inside, kmemset-get}
use little_os.Bitmap.{
  Bitmap, bitmap_get_bytes, bitmap_init, put_bit, set_loop, bitmap_set_bit, bitmap_get_bit,
  bitmap_is_set,
}

-- Each cell holds a byte.
abbrev pub IsBytes : Memory → Type 0
IsBytes m = (p : ℕ) → m p < 256

-- What `bit` writes.
abbrev pub as_bit : ℕ → ℕ
as_bit bit = if not (bit == 0) then 1 else 0

put_bit-IsBytes : (bits : Memory) (i bit : ℕ) → IsBytes bits → IsBytes (put_bit bits i bit)
unfolding put_bit
put_bit-IsBytes bits i bit v p = ground (
  arith,
  v p,
  raise_bit-test (bits (i / 8)) (i % 8) 0 (v (i / 8)),
  lower_bit-test (bits (i / 8)) (i % 8) 0 (v (i / 8)),
)

put_bit-get :
    (bits : Memory) (i bit j : ℕ)
    → IsBytes bits
    → test_bit (put_bit bits i bit (j / 8)) (j % 8)
      ≡ (if j == i then as_bit bit else test_bit (bits (j / 8)) (j % 8))
unfolding put_bit
put_bit-get bits i bit j v = ground (
  arith,
  raise_bit-test (bits (i / 8)) (i % 8) (j % 8) (v (i / 8)),
  lower_bit-test (bits (i / 8)) (i % 8) (j % 8) (v (i / 8)),
)

pub set_loop-IsBytes :
    (n : ℕ) (bits : Memory) (i bit : ℕ) → IsBytes bits → IsBytes (set_loop n bits i bit)
unfolding set_loop
set_loop-IsBytes zero bits i bit v = v
set_loop-IsBytes (suc n) bits i bit v =
    set_loop-IsBytes n (put_bit bits i bit) (i + 1) bit (put_bit-IsBytes bits i bit v)

set_loop-get :
    (n : ℕ) (bits : Memory) (i bit j : ℕ)
    → IsBytes bits
    → test_bit (set_loop n bits i bit (j / 8)) (j % 8)
      ≡ (if inside i n j then as_bit bit else test_bit (bits (j / 8)) (j % 8))
unfolding set_loop
set_loop-get zero bits i bit j v = ground arith
set_loop-get (suc n) bits i bit j v = ground (
  arith,
  set_loop-get n (put_bit bits i bit) (i + 1) bit j (put_bit-IsBytes bits i bit v),
  put_bit-get bits i bit j v,
)

pub bitmap_set_bit-IsBytes :
    (b : Bitmap) (i n bit : ℕ) → IsBytes b.bits → IsBytes (bitmap_set_bit b i n bit).bits
unfolding bitmap_set_bit
bitmap_set_bit-IsBytes b i n bit v p = ground (arith, v p, set_loop-IsBytes n b.bits i bit v p)

pub count-bitmap_set_bit : (b : Bitmap) (i n bit : ℕ) → (bitmap_set_bit b i n bit).count ≡ b.count
unfolding bitmap_set_bit
count-bitmap_set_bit b i n bit = ground arith

-- `bitmap_set_bit` gives the `n` bits from `i` on the value of `bit`, 0 or 1, if `i` is in the
-- bitmap, and leaves each other bit, in the bitmap or behind it.
pub bitmap_set_bit-get :
    (b : Bitmap) (i n bit j : ℕ)
    → IsBytes b.bits
    → bitmap_get_bit (bitmap_set_bit b i n bit) j
      ≡ (if ltb i b.count && inside i n j then as_bit bit else bitmap_get_bit b j)
unfolding bitmap_get_bit bitmap_set_bit
bitmap_set_bit-get b i n bit j v = ground (arith, set_loop-get n b.bits i bit j v)

-- `bitmap_is_set` is true exactly of a bit that reads as 1.
pub bitmap_is_set-get : (b : Bitmap) (j : ℕ) → bitmap_is_set b j ≡ (bitmap_get_bit b j == 1)
unfolding bitmap_is_set bitmap_get_bit test_bit
bitmap_is_set-get b j = ground arith

pub get_bit_cases : (b : Bitmap) (j : ℕ) → (bitmap_get_bit b j == 1) ≡ not (bitmap_get_bit b j == 0)
unfolding bitmap_get_bit test_bit
get_bit_cases b j = ground arith

-- `bitmap_init` clears every bit of the bitmap, and writes only the `(count + 7) / 8` bytes that
-- hold them.
pub bitmap_init-get :
    (count : ℕ) (bits : Memory)
    → count < 2 ^ 31
    → ((j : ℕ) → j < count → bitmap_get_bit (bitmap_init count bits) j ≡ 0)
      × ((p : ℕ) → bitmap_get_bytes count ≤ p → (bitmap_init count bits).bits p ≡ bits p)
unfolding bitmap_get_bit bitmap_init
bitmap_init-get count bits small = (
  λ j h.
      ground (arith, kmemset-get bits 0 0 (bitmap_get_bytes count) (j / 8), test_bit-zero (j % 8)),
  λ p h. ground (arith, kmemset-get bits 0 0 (bitmap_get_bytes count) p),
)

pub bitmap_init-IsBytes :
    (count : ℕ) (bits : Memory) → IsBytes bits → IsBytes (bitmap_init count bits).bits
unfolding bitmap_init
bitmap_init-IsBytes count bits v p =
    ground (arith, v p, kmemset-get bits 0 0 (bitmap_get_bytes count) p)

pub count-bitmap_init : (count : ℕ) (bits : Memory) → (bitmap_init count bits).count ≡ count
unfolding bitmap_init
count-bitmap_init count bits = refl

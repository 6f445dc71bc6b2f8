-- ===== src/Bitmap/Alloc.antt =====
-- `bitmap_alloc_nbits` on the bits: the run that it marks, its release, and a run past the end.
use little_os.Base.{true, ℕ, ◌+◌, ◌≤◌, ◌<◌, ◌≡◌, refl, if◌then◌else◌, arith, Option, none, some}
use native.Mathlib.Decide.{dec_lt}
use little_os.Mem.Fill.{inside}
use little_os.Bitmap.{Bitmap, bitmap_set_bit, bitmap_get_bit, bitmap_alloc_nbits}
use little_os.Bitmap.Bit.{IsBytes, bitmap_set_bit-get, bitmap_set_bit-IsBytes, count-bitmap_set_bit}
use little_os.Bitmap.Scan.{Clear, Placed, bitmap_alloc_nbits-Placed}

module _ (b : Bitmap) (i n : ℕ) {c : Bitmap} {p : ℕ} (v : IsBytes b.bits) (h : 0 < n)
    (e : bitmap_alloc_nbits b i n ≡ (c, some p)) where
  placed : Placed b i n (c, some p)
  placed = rw e at (bitmap_alloc_nbits-Placed b i n h)

  pub alloc-IsBytes : IsBytes c.bits
  alloc-IsBytes = rw placed.0 (bitmap_set_bit-IsBytes b p n 1 v)

  pub alloc-count : c.count ≡ b.count
  alloc-count = rw placed.0 (count-bitmap_set_bit b p n 1)

  -- The bits behind the allocation, whether or not the run fits.
  pub alloc-get : (j : ℕ) → bitmap_get_bit c j ≡ (if inside p n j then 1 else bitmap_get_bit b j)
  alloc-get j = rw placed.0 (ground (arith, bitmap_set_bit-get b p n 1 j v, placed.2))

  -- When bitmap_alloc_nbits, on a bitmap of bytes, returns p and the run of n > 0 bits from p
  -- on fits the bitmap, p is not below the start index, all bits of the run were clear, and
  -- afterwards they are set and no other bit has changed.
  pub alloc_run :
      p + n ≤ b.count
      → (i ≤ p)
        × ((j : ℕ) → inside p n j ≡ true → bitmap_get_bit b j ≡ 0)
        × ((j : ℕ) → bitmap_get_bit c j ≡ (if inside p n j then 1 else bitmap_get_bit b j))
  alloc_run fits = (placed.1, λ j w. ground (arith, placed.3 j), alloc-get)

  -- On a bitmap of bytes, clearing an allocated run that fits gives every bit its old value
  -- back.
  pub alloc_release :
      p + n ≤ b.count → (j : ℕ) → bitmap_get_bit (bitmap_set_bit c p n 0) j ≡ bitmap_get_bit b j
  alloc_release fits j = ground (
    arith,
    bitmap_set_bit-get c p n 0 j alloc-IsBytes,
    alloc-get j,
    placed.3 j,
    placed.2,
    alloc-count,
  )

-- The first window is taken if its part in the bitmap is clear.
first_window :
    (b : Bitmap) (i n : ℕ) (r : Bitmap × Option ℕ)
    → 0 < n
    → i < b.count
    → Clear b i n
    → Placed b i n r
    → r ≡ (bitmap_set_bit b i n 1, some i)
first_window b i n (c, none) h lt w s =
    let (j, lo, hi, inb, one) = s.1 i (omega arith) lt in absurd (omega (arith, w j lo hi inb))
first_window b i n (c, some p) h lt w s = elim (dec_lt i p) [
  | yes q ↦
      (let (j, lo, hi, inb, one) = s.4 i (omega arith) q in absurd (omega (arith, w j lo hi inb)))
  | no q ↦ ground arith
]

-- When the bits of a bitmap of bytes from an index i of it on are clear but fewer than n,
-- bitmap_alloc_nbits returns i all the same and sets the bit just behind the bitmap.
pub alloc_overrun :
    (b : Bitmap) (i n : ℕ)
    → IsBytes b.bits
    → i < b.count
    → Clear b i n
    → b.count < i + n
    → ((bitmap_alloc_nbits b i n).1 ≡ some i)
      × (bitmap_get_bit (bitmap_alloc_nbits b i n).0 b.count ≡ 1)
alloc_overrun b i n v lt w over =
    let h : 0 < n = omega arith in
    rw (first_window b i n (bitmap_alloc_nbits b i n) h lt w (bitmap_alloc_nbits-Placed b i n h))
      (refl, ground (arith, bitmap_set_bit-get b i n 1 b.count v))

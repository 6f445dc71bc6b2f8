-- ===== src/Bitmap/Scan.antt =====
-- The search of `bitmap_alloc_nbits`: windows of clear bits, cut off at the end of the bitmap.
use little_os.Base.{
  ℕ, zero, suc, ◌+◌, ◌-◌, ◌≤◌, ◌<◌, ◌≡◌, ◌&&◌, ◌==◌, ltb, leb, arith, Option, none, some, refl, inl,
  inr, Bool-cases, ltb→ge, ltb→lt,
}
use native.Mathlib.Decide.{ℕ_discrete, dec_lt}
use little_os.Bitmap.{
  Bitmap, scan_loop, alloc_loop, bitmap_set_bit, bitmap_get_bit, bitmap_alloc_nbits,
}
use little_os.Bitmap.Bit.{get_bit_cases}

-- The bits of the bitmap among the `n` from `i` on are clear.
abbrev pub Clear : Bitmap → ℕ → ℕ → Type 0
Clear b i n = (j : ℕ) → i ≤ j → j < i + n → j < b.count → bitmap_get_bit b j ≡ 0

-- One of them is set.
abbrev pub Blocked : Bitmap → ℕ → ℕ → Type 0
Blocked b i n = (j : ℕ) × (i ≤ j) × (j < i + n) × (j < b.count) × (bitmap_get_bit b j ≡ 1)

-- What the inner loop may answer, started at `j` for a window at `i`.
abbrev Scanned : Bitmap → ℕ → ℕ → ℕ → Option ℕ → Type 0
Scanned b i n j none = (m : ℕ) → j ≤ m → m < i + n → m < b.count → bitmap_get_bit b m ≡ 0
Scanned b i n j (some p) = (j ≤ p) × (p < i + n) × (p < b.count) × (bitmap_get_bit b p ≡ 1)

widen :
    (b : Bitmap) (i n j : ℕ) (r : Option ℕ)
    → bitmap_get_bit b j ≡ 0
    → Scanned b i n (j + 1) r
    → Scanned b i n j r
widen b i n j none z s =
    λ m. elim (ℕ_discrete m j) [ yes e ↦ ground arith | no e ↦ ground (arith, s m) ]
widen b i n j (some p) z s = omega arith

scan_loop-Scanned :
    (k : ℕ) (b : Bitmap) (i n j : ℕ) → i ≤ j → i + n ≤ j + k → Scanned b i n j (scan_loop k b i n j)
unfolding scan_loop
scan_loop-Scanned zero b i n j h f = ground arith
scan_loop-Scanned (suc k) b i n j h f = elim (Bool-cases (ltb j b.count && leb (j - i + 1) n)) [
  | inr past ↦ rw past (ground arith)
  | inl here ↦ rw here (elim (Bool-cases (bitmap_get_bit b j == 1)) [
    | inl busy ↦ rw busy (ground arith)
    | inr free ↦ rw free (
        widen b i n j (scan_loop k b i n (j + 1)) (ground (arith, get_bit_cases b j))
          (scan_loop-Scanned k b i n (j + 1) (omega arith) (omega arith)))
  ])
]

-- What `bitmap_alloc_nbits` answers from `i` on: the first index in the bitmap whose window has no
-- set bit, marked; or none, when there is no such index, and then nothing changes.
abbrev pub Placed : Bitmap → ℕ → ℕ → Bitmap × Option ℕ → Type 0
Placed b i n (c, none) = (c ≡ b) × ((q : ℕ) → i ≤ q → q < b.count → Blocked b q n)
Placed b i n (c, some p) =
    (c ≡ bitmap_set_bit b p n 1)
    × (i ≤ p)
    × (p < b.count)
    × Clear b p n
    × ((q : ℕ) → i ≤ q → q < p → Blocked b q n)

-- Windows that start before a placed one are blocked, if those skipped are.
later :
    (b : Bitmap) (i j n : ℕ) (r : Bitmap × Option ℕ)
    → i ≤ j
    → ((q : ℕ) → i ≤ q → q < j → Blocked b q n)
    → Placed b j n r
    → Placed b i n r
later b i j n (c, none) h skip s =
    (s.0, λ q lo hi. elim (dec_lt q j) [ yes e ↦ skip q lo e | no e ↦ s.1 q (omega arith) hi ])
later b i j n (c, some p) h skip s = (
  s.0,
  omega arith,
  s.2,
  s.3,
  λ q lo hi. elim (dec_lt q j) [ yes e ↦ skip q lo e | no e ↦ s.4 q (omega arith) hi ],
)

-- The window at `i` after the inner loop: marked if it is clear, and else every window up to the
-- set bit that was met is blocked.
tried-Placed :
    (b : Bitmap) (i n : ℕ) (onward : ℕ → Bitmap × Option ℕ) (r : Option ℕ)
    → i < b.count
    → Scanned b i n i r
    → ((j : ℕ) → i ≤ j → Placed b (j + 1) n (onward j))
    → Placed b i n (elim r [ some j ↦ onward j | none ↦ (bitmap_set_bit b i n 1, some i) ])
tried-Placed b i n onward none h s rest = (refl, omega arith, h, s, ground arith)
tried-Placed b i n onward (some p) h s rest =
    later b i (p + 1) n (onward p) (omega arith)
      (λ q lo hi. (p, omega arith, omega arith, s.2, s.3)) (rest p (omega arith))

alloc_loop-Placed :
    (k : ℕ) (b : Bitmap) (i n : ℕ) → 0 < n → b.count ≤ i + k → Placed b i n (alloc_loop k b i n)
unfolding alloc_loop
alloc_loop-Placed zero b i n some_n f = (refl, ground arith)
alloc_loop-Placed (suc k) b i n some_n f = elim (Bool-cases (ltb i b.count)) [
  | inr past ↦ rw past (refl, λ q lo hi. absurd (omega (arith, ltb→ge i b.count past)))
  | inl here ↦ rw here (elim (Bool-cases (bitmap_get_bit b i == 0)) [
    | inl free ↦ rw free (
        tried-Placed b i n (λ j. alloc_loop k b (j + 1) n) (scan_loop n b i n i)
          (ltb→lt i b.count here) (scan_loop-Scanned n b i n i (omega arith) (omega arith))
          (λ j h. alloc_loop-Placed k b (j + 1) n some_n (omega arith)))
    | inr busy ↦ rw busy (
        later b i (i + 1) n (alloc_loop k b (i + 1) n) (omega arith)
          (λ q lo hi. (
            q,
            omega arith,
            omega arith,
            omega (arith, ltb→lt i b.count here),
            ground (arith, get_bit_cases b i),
          ))
          (alloc_loop-Placed k b (i + 1) n some_n (omega arith)))
  ])
]

-- For n > 0, bitmap_alloc_nbits returns the first index from i on whose window of n bits, as far
-- as it lies in the bitmap, is clear, and sets those n bits; or it returns -1, every window is
-- blocked, and nothing changes.
pub bitmap_alloc_nbits-Placed :
    (b : Bitmap) (i n : ℕ) → 0 < n → Placed b i n (bitmap_alloc_nbits b i n)
unfolding bitmap_alloc_nbits
bitmap_alloc_nbits-Placed b i n h = alloc_loop-Placed (b.count - i) b i n h (omega arith)

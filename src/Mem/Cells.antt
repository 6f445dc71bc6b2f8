-- ===== src/Mem/Cells.antt =====
-- Words of four bytes in memory: what a write leaves at each, and what `kmemset` does.
use little_os.Base.{ℕ, ◌+◌, ◌%◌, ◌≤◌, ◌<◌, ◌^◌, ◌≡◌, ◌⊎◌, arith}
use little_os.Mem.{Memory, kmemset, read32, write32}
use little_os.Mem.Fill.{kmemset-get}

pub read32-write32 : (m : Memory) (a v : ℕ) → v < 2 ^ 32 → read32 (write32 m a v) a ≡ v
unfolding read32 write32
read32-write32 m a v h = ground arith

pub read32-write32_low : (m : Memory) (a v : ℕ) → read32 (write32 m a v) a ≡ v % 2 ^ 32
unfolding read32 write32
read32-write32_low m a v = ground arith

-- Words that do not overlap do not meet.
pub read32-write32_far :
    (m : Memory) (a v b : ℕ) → (a + 4 ≤ b) ⊎ (b + 4 ≤ a) → read32 (write32 m a v) b ≡ read32 m b
unfolding read32 write32
read32-write32_far m a v b h = ground arith

kmemset_in :
    (m : Memory) (d byte size p : ℕ)
    → size < 2 ^ 31
    → d ≤ p
    → p < d + size
    → kmemset m d byte size p ≡ byte
kmemset_in m d byte size p small lo hi = ground (arith, kmemset-get m d byte size p)

kmemset_out :
    (m : Memory) (d byte size p : ℕ) → (d + size ≤ p) ⊎ (p < d) → kmemset m d byte size p ≡ m p
kmemset_out m d byte size p h = ground (arith, kmemset-get m d byte size p)

pub read32-kmemset :
    (m : Memory) (d size a : ℕ)
    → size < 2 ^ 31
    → d ≤ a
    → a + 4 ≤ d + size
    → read32 (kmemset m d 0 size) a ≡ 0
unfolding read32
read32-kmemset m d size a small lo hi = omega (
  arith,
  kmemset_in m d 0 size a small lo (omega arith),
  kmemset_in m d 0 size (a + 1) small (omega arith) (omega arith),
  kmemset_in m d 0 size (a + 2) small (omega arith) (omega arith),
  kmemset_in m d 0 size (a + 3) small (omega arith) (omega arith),
)

pub read32-kmemset_far :
    (m : Memory) (d byte size a : ℕ)
    → (d + size ≤ a) ⊎ (a + 4 ≤ d)
    → read32 (kmemset m d byte size) a ≡ read32 m a
unfolding read32
read32-kmemset_far m d byte size a h = omega (
  arith,
  kmemset_out m d byte size a (omega arith),
  kmemset_out m d byte size (a + 1) (omega arith),
  kmemset_out m d byte size (a + 2) (omega arith),
  kmemset_out m d byte size (a + 3) (omega arith),
)

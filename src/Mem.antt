-- ===== src/Mem.antt =====
-- `kmemset` and `kmemcpy` of source/kernel/tools/klib.c on a memory of bytes.
pub mod Fill
pub mod Cells
use little_os.Base.{ℕ, zero, suc, ◌+◌, ◌*◌, ◌/◌, ◌%◌, ◌^◌, if◌then◌else◌, leb, update}

abbrev pub Memory : Type 0
Memory = ℕ → ℕ

-- `while (size--) *d++ = data;`
fill_loop : ℕ → Memory → ℕ → ℕ → Memory
fill_loop zero m d byte = m
fill_loop (suc n) m d byte = fill_loop n (update m d byte) (d + 1) byte

-- `size` is an `int` as its bit pattern; a negative one writes nothing.
unfoldable pub kmemset : Memory → ℕ → ℕ → ℕ → Memory
unfolding fill_loop
kmemset m dest byte size = if leb (2 ^ 31) size then m else fill_loop size m dest byte

-- `while (size--) *d++ = *s++;`
copy_loop : ℕ → Memory → ℕ → ℕ → Memory
copy_loop zero m d s = m
copy_loop (suc n) m d s = copy_loop n (update m d (m s)) (d + 1) (s + 1)

unfoldable pub kmemcpy : Memory → ℕ → ℕ → ℕ → Memory
unfolding copy_loop
kmemcpy m dest src size = if leb (2 ^ 31) size then m else copy_loop size m dest src

-- A `uint32_t` in memory, its lowest byte first.
unfoldable pub read32 : Memory → ℕ → ℕ
read32 m a = m a + m (a + 1) * 2 ^ 8 + m (a + 2) * 2 ^ 16 + m (a + 3) * 2 ^ 24

unfoldable pub write32 : Memory → ℕ → ℕ → Memory
write32 m a v =
    let m₁ = update m a (v % 2 ^ 8) in
    let m₂ = update m₁ (a + 1) (v / 2 ^ 8 % 2 ^ 8) in
    let m₃ = update m₂ (a + 2) (v / 2 ^ 16 % 2 ^ 8) in update m₃ (a + 3) (v / 2 ^ 24 % 2 ^ 8)

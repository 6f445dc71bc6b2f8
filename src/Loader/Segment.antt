-- ===== src/Loader/Segment.antt =====
-- One program header: the bytes that are copied, and the zeros behind them.
use little_os.Base.{
  ℕ, zero, suc, ◌+◌, ◌-◌, ◌≤◌, ◌<◌, ◌≡◌, ◌⊎◌, ◌∙◌, arith, true, false, if◌then◌else◌, some, update,
  ltb, lt→ltb, ge→ltb,
}
use little_os.Base.Word.{sub32}
use little_os.Mem.{Memory, read32}
use little_os.Mem.Fill.{inside}
use little_os.Loader.{copy_segment, clear_segment, p_filesz, p_memsz, phdr_size}

-- The `n` bytes from `d` on and the `k` from `a` on are apart.
abbrev pub Apart : ℕ → ℕ → ℕ → ℕ → Type 0
Apart d n a k = (d + n ≤ a) ⊎ (a + k ≤ d)

-- Memories that agree on the `n` bytes from `a` on.
abbrev pub Agree : ℕ → ℕ → Memory → Memory → Type 0
Agree a n m m' = (p : ℕ) → a ≤ p → p < a + n → m' p ≡ m p

pub read32-Agree :
    (a n b : ℕ) (m m' : Memory) → Agree a n m m' → a ≤ b → b + 4 ≤ a + n → read32 m' b ≡ read32 m b
unfolding read32
read32-Agree a n b m m' ag lo hi = omega (
  arith,
  ag b (omega arith) (omega arith),
  ag (b + 1) (omega arith) (omega arith),
  ag (b + 2) (omega arith) (omega arith),
  ag (b + 3) (omega arith) (omega arith),
)

update-Agree : (a n d v : ℕ) (m : Memory) → Apart d 1 a n → Agree a n m (update m d v)
update-Agree a n d v m h p lo hi = ground arith

-- The copy ends, with `n` bytes copied from `src` to `dest`.
pub copy_segment-get :
    (k : ℕ) (m : Memory) (phdr dest src j n : ℕ)
    → p_filesz m phdr ≡ j + n
    → n < k
    → Apart dest n phdr phdr_size
    → Apart dest n src n
    → (m' : Memory) × (copy_segment k m phdr dest src j ≡ some m')
      × ((p : ℕ) → m' p ≡ (if inside dest n p then m (src + (p - dest)) else m p))
unfolding copy_segment
copy_segment-get zero m phdr dest src j n e f a b = absurd (omega arith)
copy_segment-get (suc k) m phdr dest src j zero e f a b =
    let done : ltb j (p_filesz m phdr) ≡ false = ge→ltb j (p_filesz m phdr) (omega arith) in
    (m, rw done, λ p. ground arith)
copy_segment-get (suc k) m phdr dest src j (suc n) e f a b =
    let more : ltb j (p_filesz m phdr) ≡ true = lt→ltb j (p_filesz m phdr) (omega arith) in
    let m₁ : Memory = update m dest (m src) in
    let size : p_filesz m₁ phdr ≡ j + 1 + n =
      read32-Agree phdr phdr_size (phdr + 16) m m₁
        (update-Agree phdr phdr_size dest (m src) m (omega arith)) (omega arith) (omega arith)
      ∙ omega arith in
    let (m', run, get) =
      copy_segment-get k m₁ phdr (dest + 1) (src + 1) (j + 1) n size (omega arith) (omega arith)
        (omega arith) in
    (m', rw (more, run), λ p. ground (arith, get p))

pub clear_segment-get :
    (k : ℕ) (m : Memory) (phdr dest j n : ℕ)
    → sub32 (p_memsz m phdr) (p_filesz m phdr) ≡ j + n
    → n < k
    → Apart dest n phdr phdr_size
    → (m' : Memory) × (clear_segment k m phdr dest j ≡ some m')
      × ((p : ℕ) → m' p ≡ (if inside dest n p then 0 else m p))
unfolding clear_segment
clear_segment-get zero m phdr dest j n e f a = absurd (omega arith)
clear_segment-get (suc k) m phdr dest j zero e f a =
    let size : ℕ = sub32 (p_memsz m phdr) (p_filesz m phdr) in
    let done : ltb j size ≡ false = ge→ltb j size (omega arith) in (m, rw done, λ p. ground arith)
clear_segment-get (suc k) m phdr dest j (suc n) e f a =
    let size : ℕ = sub32 (p_memsz m phdr) (p_filesz m phdr) in
    let more : ltb j size ≡ true = lt→ltb j size (omega arith) in
    let m₁ : Memory = update m dest 0 in
    let agree = update-Agree phdr phdr_size dest 0 m (omega arith) in
    let filesz : p_filesz m₁ phdr ≡ p_filesz m phdr =
      read32-Agree phdr phdr_size (phdr + 16) m m₁ agree (omega arith) (omega arith) in
    let memsz : p_memsz m₁ phdr ≡ p_memsz m phdr =
      read32-Agree phdr phdr_size (phdr + 20) m m₁ agree (omega arith) (omega arith) in
    let rest : sub32 (p_memsz m₁ phdr) (p_filesz m₁ phdr) ≡ j + 1 + n =
      rw (filesz, memsz) (omega arith) in
    let (m', run, get) =
      clear_segment-get k m₁ phdr (dest + 1) (j + 1) n rest (omega arith) (omega arith) in
    (m', rw (more, run), λ p. ground (arith, get p))

-- ===== src/Loader/Image.antt =====
-- `read_elf`: the image that the file's segments make in memory.
use little_os.Base.{
  ℕ, zero, suc, ◌+◌, ◌*◌, ◌≤◌, ◌<◌, ◌≡◌, ap, refl, sym, ◌∙◌, arith, true, false, some, ltb, lt→ltb,
  ge→ltb,
}
use little_os.Mem.{Memory}
use little_os.Loader.{
  load_segment, load_segments, read_elf, read16, elf_magic, e_entry, e_phoff, e_phnum, p_type,
  phdr_size, pt_load,
}
use little_os.Loader.Segment.{Agree, read32-Agree}
use little_os.Loader.Place.{in_segment, Fits, load_one}

-- The byte at `p` once the first `n` segments are placed, the later over the earlier.
unfoldable pub image : Memory → ℕ → ℕ → ℕ → ℕ
image m file zero p = m p
image m file (suc n) p =
    in_segment m file (file + e_phoff m file + phdr_size * n) p (image m file n p)

image_zero : (m : Memory) (file p : ℕ) → image m file 0 p ≡ m p
unfolding image
image_zero m file p = refl

image_next :
    (m : Memory) (file i p : ℕ)
    → in_segment m file (file + e_phoff m file + phdr_size * i) p (image m file i p)
      ≡ image m file (i + 1) p
unfolding image
image_next m file i p = let next : suc i ≡ i + 1 = omega arith in ap (λ j. image m file j p) next

-- A file of `len` bytes at `file` in the memory whose headers and segments are in it, and whose
-- segments can be placed.
pub record IsElf (m : Memory) (file len fuel : ℕ) : Type 0 where
  pub magic : elf_magic m file ≡ true
  pub header : 52 ≤ len
  pub headers : e_phoff m file + phdr_size * e_phnum m file ≤ len
  pub fits :
      (i : ℕ)
      → i < e_phnum m file
      → p_type m (file + e_phoff m file + phdr_size * i) ≡ pt_load
      → Fits m file len fuel (file + e_phoff m file + phdr_size * i)

module _ (m : Memory) (file len fuel : ℕ) (is : IsElf m file len fuel) where
  same_number : (c : Memory) → Agree file len m c → e_phnum c file ≡ e_phnum m file
  unfolding read16
  same_number c ag =
      let header = is.header in
      omega (
        arith,
        ag (file + 44) (omega arith) (omega arith),
        ag (file + 45) (omega arith) (omega arith),
      )

  same_offset : (c : Memory) → Agree file len m c → e_phoff c file ≡ e_phoff m file
  same_offset c ag =
      let header = is.header in read32-Agree file len (file + 28) m c ag (omega arith) (omega arith)

  abbrev Ended : ℕ → ℕ → Memory → Type 0
  Ended k i c =
      (c' : Memory) × (load_segments k fuel c file i ≡ some c')
      × Agree file len m c'
      × ((p : ℕ) → c' p ≡ image m file (e_phnum m file) p)

  one_round :
      (k i : ℕ) (c c₁ : Memory)
      → ltb i (e_phnum c file) ≡ true
      → e_phoff c file ≡ e_phoff m file
      → load_segment fuel c file (file + e_phoff m file + phdr_size * i) ≡ some c₁
      → Ended k (i + 1) c₁
      → Ended (suc k) i c
  unfolding load_segments
  one_round k i c c₁ more offset run (c', run', ag', get') =
      (c', rw (more, offset, run, run'), ag', get')

  load_segments-image :
      (k i n : ℕ) (c : Memory)
      → e_phnum m file ≡ i + n
      → n < k
      → Agree file len m c
      → ((p : ℕ) → c p ≡ image m file i p)
      → Ended k i c
  unfolding load_segments image
  load_segments-image zero i n c e f ag get = absurd (omega arith)
  load_segments-image (suc k) i zero c e f ag get =
      let number = same_number c ag in
      let done : ltb i (e_phnum c file) ≡ false = ge→ltb i (e_phnum c file) (omega arith) in
      let at : e_phnum m file ≡ i = omega arith in (c, rw done, ag, λ p. rw at (get p))
  load_segments-image (suc k) i (suc n) c e f ag get =
      let number = same_number c ag in
      let headers = is.headers in
      let more : ltb i (e_phnum c file) ≡ true = lt→ltb i (e_phnum c file) (omega arith) in
      let phdr : ℕ = file + e_phoff m file + phdr_size * i in
      let r =
        load_one m file len fuel c phdr ag (omega arith) (omega arith) (is.fits i (omega arith)) in
      one_round k i c r.0.0 more (same_offset c ag) r.0.1 (
        load_segments-image k (i + 1) n r.0.0 (omega arith) (omega arith) r.1
          (λ p. r.0.2 p ∙ ap (in_segment m file phdr p) (get p) ∙ image_next m file i p))

  entered :
      (rounds : ℕ)
      → Ended rounds 0 m
      → (c' : Memory) × (read_elf rounds fuel m file ≡ some (c', e_entry m file))
        × ((p : ℕ) → c' p ≡ image m file (e_phnum m file) p)
  unfolding read_elf
  entered rounds (c', run, ag, get) =
      let header = is.header in
      let entry : e_entry c' file ≡ e_entry m file =
        read32-Agree file len (file + 24) m c' ag (omega arith) (omega arith) in
      (c', rw (is.magic, run, entry), get)

-- Of a file whose headers and segments are in it and whose segments go outside it, with more
-- rounds than program headers and more fuel than any segment's size, read_elf ends, returns the
-- entry point of the file, and leaves in memory the image that is described byte by byte: each
-- segment's bytes, zeros behind them, later segments over earlier ones, and all else as before.
pub read_elf-image :
    (m : Memory) (file len rounds fuel : ℕ)
    → IsElf m file len fuel
    → e_phnum m file < rounds
    → (c' : Memory) × (read_elf rounds fuel m file ≡ some (c', e_entry m file))
      × ((p : ℕ) → c' p ≡ image m file (e_phnum m file) p)
read_elf-image m file len rounds fuel is enough = entered m file len fuel is rounds (
    load_segments-image m file len fuel is rounds 0 (e_phnum m file) m (omega arith) enough
      (λ p lo hi. refl) (λ p. sym (image_zero m file p)))

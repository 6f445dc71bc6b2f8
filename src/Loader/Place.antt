-- ===== src/Loader/Place.antt =====
-- The body of the loop of `read_elf`: what placing one segment leaves in memory.
use little_os.Base.{
  ℕ, ◌+◌, ◌-◌, ◌≤◌, ◌<◌, ◌≡◌, ◌^◌, ◌==◌, ◌∙◌, arith, true, false, if◌then◌else◌, some, Bool-cases,
  inl, inr, ==_iff,
}
use little_os.Mem.{Memory, read32}
use little_os.Mem.Fill.{inside}
use little_os.Loader.{
  copy_segment, clear_segment, load_segment, p_type, p_offset, p_paddr, p_filesz, p_memsz,
  phdr_size, pt_load,
}
use little_os.Loader.Segment.{Apart, Agree, read32-Agree, copy_segment-get, clear_segment-get}

-- The byte at `p` behind the segment with the header at `phdr`, when it was `old` before: a byte
-- of the file, a zero behind those, or `old` outside the segment.
abbrev pub in_segment : Memory → ℕ → ℕ → ℕ → ℕ → ℕ
in_segment m file phdr p old =
    if p_type m phdr == pt_load
    then (if inside (p_paddr m phdr) (p_filesz m phdr) p
        then m (file + p_offset m phdr + (p - p_paddr m phdr))
        else if inside (p_paddr m phdr + p_filesz m phdr) (p_memsz m phdr - p_filesz m phdr) p
        then 0
        else old)
    else old

-- A segment of a file of `len` bytes at `file` that can be placed: its bytes are in the file, and
-- it is put outside the file.
pub record Fits (m : Memory) (file len fuel phdr : ℕ) : Type 0 where
  pub sizes : p_filesz m phdr ≤ p_memsz m phdr
  pub small : p_memsz m phdr < 2 ^ 31
  pub rounds : p_memsz m phdr < fuel
  pub source : p_offset m phdr + p_filesz m phdr ≤ len
  pub apart : Apart (p_paddr m phdr) (p_memsz m phdr) file len

module _ (m : Memory) (file len fuel : ℕ) where
  -- The fields of a header in the file, read from a memory that holds the file.
  same_field :
      (c : Memory) (phdr k : ℕ)
      → Agree file len m c
      → file ≤ phdr
      → phdr + phdr_size ≤ file + len
      → k + 4 ≤ phdr_size
      → read32 c (phdr + k) ≡ read32 m (phdr + k)
  same_field c phdr k ag lo hi h =
      read32-Agree file len (phdr + k) m c ag (omega arith) (omega arith)

  -- What the copy leaves, and the zeros behind it.
  abbrev Copied : Memory → ℕ → Type 0
  Copied c phdr =
      (c' : Memory) × (copy_segment fuel c phdr (p_paddr m phdr) (file + p_offset m phdr) 0
        ≡ some c')
      × ((p : ℕ)
          → c' p ≡ (
              if inside (p_paddr m phdr) (p_filesz m phdr) p
              then c (file + p_offset m phdr + (p - p_paddr m phdr))
              else c p))

  abbrev Cleared : Memory → ℕ → Type 0
  Cleared c phdr =
      (c' : Memory) × (clear_segment fuel c phdr (p_paddr m phdr + p_filesz m phdr) 0 ≡ some c')
      × ((p : ℕ)
          → c' p ≡ (
              if inside (p_paddr m phdr + p_filesz m phdr) (p_memsz m phdr - p_filesz m phdr) p
              then 0
              else c p))

  abbrev pub Loaded : Memory → ℕ → Type 0
  Loaded c phdr =
      (c' : Memory) × (load_segment fuel c file phdr ≡ some c')
      × ((p : ℕ) → c' p ≡ in_segment m file phdr p (c p))

  module _ (c : Memory) (phdr : ℕ) (ag : Agree file len m c) (lo : file ≤ phdr)
      (hi : phdr + phdr_size ≤ file + len) (load : (p_type m phdr == pt_load) ≡ true)
      (fit : Fits m file len fuel phdr) where
    copied : Copied c phdr
    copied =
        let filesz : p_filesz c phdr ≡ p_filesz m phdr =
          same_field c phdr 16 ag lo hi (omega arith) in
        let apart = fit.apart in
        let sizes = fit.sizes in
        let rounds = fit.rounds in
        let source = fit.source in
        copy_segment-get fuel c phdr (p_paddr m phdr) (file + p_offset m phdr) 0 (p_filesz m phdr)
          (omega arith) (omega arith) (omega arith) (omega arith)

    cleared : Cleared c phdr
    cleared =
        let filesz : p_filesz c phdr ≡ p_filesz m phdr =
          same_field c phdr 16 ag lo hi (omega arith) in
        let memsz : p_memsz c phdr ≡ p_memsz m phdr = same_field c phdr 20 ag lo hi (omega arith) in
        let apart = fit.apart in
        let sizes = fit.sizes in
        let rounds = fit.rounds in
        let small = fit.small in
        clear_segment-get fuel c phdr (p_paddr m phdr + p_filesz m phdr) 0
          (p_memsz m phdr - p_filesz m phdr) (rw (filesz, memsz) (omega arith)) (omega arith)
          (omega arith)

    Copied-Agree : (r : Copied c phdr) → Agree file len m r.0
    Copied-Agree (c₁, run, get) p l h =
        let apart = fit.apart in let sizes = fit.sizes in ground (arith, get p, ag p l h)

  both_runs :
      (c : Memory) (phdr : ℕ)
      → Agree file len m c
      → file ≤ phdr
      → phdr + phdr_size ≤ file + len
      → (p_type m phdr == pt_load) ≡ true
      → Fits m file len fuel phdr
      → (r : Copied c phdr) → Agree file len m r.0
      → Cleared r.0 phdr
      → Loaded c phdr
  unfolding load_segment
  both_runs c phdr ag lo hi load fit (c₁, run₁, get₁) ag₁ (c₂, run₂, get₂) =
      let kind : p_type c phdr ≡ p_type m phdr =
        read32-Agree file len phdr m c ag lo (omega arith) in
      let offset : p_offset c phdr ≡ p_offset m phdr = same_field c phdr 4 ag lo hi (omega arith) in
      let paddr : p_paddr c phdr ≡ p_paddr m phdr = same_field c phdr 12 ag lo hi (omega arith) in
      let paddr₁ : p_paddr c₁ phdr ≡ p_paddr m phdr =
        same_field c₁ phdr 12 ag₁ lo hi (omega arith) in
      let filesz₁ : p_filesz c₁ phdr ≡ p_filesz m phdr =
        same_field c₁ phdr 16 ag₁ lo hi (omega arith) in
      let source = fit.source in
      (
        c₂,
        rw (kind, load, offset, paddr, run₁, paddr₁, filesz₁, run₂),
        λ p.
            rw load
              (ground (arith, get₁ p, get₂ p, ag (file + p_offset m phdr + (p - p_paddr m phdr)))),
      )

  load_fitting :
      (c : Memory) (phdr : ℕ)
      → Agree file len m c
      → file ≤ phdr
      → phdr + phdr_size ≤ file + len
      → (p_type m phdr == pt_load) ≡ true
      → Fits m file len fuel phdr
      → Loaded c phdr
  load_fitting c phdr ag lo hi load fit =
      let r = copied c phdr ag lo hi load fit in
      let ag₁ = Copied-Agree c phdr ag lo hi load fit r in
      both_runs c phdr ag lo hi load fit r ag₁ (cleared r.0 phdr ag₁ lo hi load fit)

  skip :
      (c : Memory) (phdr : ℕ)
      → Agree file len m c
      → file ≤ phdr
      → phdr + phdr_size ≤ file + len
      → (p_type m phdr == pt_load) ≡ false
      → load_segment fuel c file phdr ≡ some c
  unfolding load_segment
  skip c phdr ag lo hi other =
      let kind : p_type c phdr ≡ p_type m phdr =
        read32-Agree file len phdr m c ag lo (omega arith) in
      rw (kind, other)

  pub load_one :
      (c : Memory) (phdr : ℕ)
      → Agree file len m c
      → file ≤ phdr
      → phdr + phdr_size ≤ file + len
      → (p_type m phdr ≡ pt_load → Fits m file len fuel phdr)
      → (r : Loaded c phdr) × Agree file len m r.0
  load_one c phdr ag lo hi fit = elim (Bool-cases (p_type m phdr == pt_load)) [
    | inl load ↦
        (let f = fit ((==_iff _ _).0 load) in
          let apart = f.apart in
          let sizes = f.sizes in
          let r = load_fitting c phdr ag lo hi load f in
          (r, (λ p l h. r.2 p ∙ rw load (ground (arith, ag p l h)))))
    | inr other ↦ ((c, skip c phdr ag lo hi other, λ p. rw other), ag)
  ]

-- ===== src/PageTable/Create.antt =====
-- `create_page_table`: a new directory, which shares the table of the first 4 MB.
use little_os.Base.{
  ℕ, ◌+◌, ◌*◌, ◌/◌, ◌%◌, ◌<◌, ◌≡◌, ◌≢◌, ◌^◌, ◌==◌, inl, inr, sym, ◌∙◌, arith, true, false, ltb,
  if◌then◌else◌, none, Bool-cases, ==_iff,
}
use native.Mathlib.Decide.{ℕ_discrete}
use little_os.Mem.{Memory, kmemset, read32, write32}
use little_os.Mem.Cells.{read32-write32_low, read32-write32_far, read32-kmemset, read32-kmemset_far}
use little_os.Memory.{AddrAlloc, mem_page_size, ualloc_pages}
use little_os.Memory.Single.{TakenPage, ualloc_page}
use little_os.PageTable.{
  Paging, present, entry_addr, entry_size, pde_cnt, share_kernel, create_page_table,
}
use little_os.PageTable.Entry.{
  pde_at, entry, translate, Reserved, IsTables, pages_apart, words_apart,
}
use little_os.PageTable.Table.{Grown-Reserved, taken-aligned, taken_other, taken-Reserved}

module _ (s : Paging) (kernel_table t : ℕ) (w : AddrAlloc) (is : IsTables s kernel_table)
    (tp : TakenPage s.manager w t) where
  abbrev pub shared : Memory
  shared =
      write32 (kmemset s.mem t 0 mem_page_size) (t + entry_size * 0)
        (read32 (kmemset s.mem t 0 mem_page_size) (kernel_table + entry_size * 0))

  -- A reserved page reads as before.
  kept_read :
      (a x : ℕ)
      → Reserved s.manager a
      → x < 1024
      → read32 shared (a + entry_size * x) ≡ read32 s.mem (a + entry_size * x)
  kept_read a x r hx =
      let ne = taken_other is.manager is.pages tp a r in
      let ht = taken-aligned is.manager is.pages tp in
      let ha = r.aligned in
      read32-write32_far (kmemset s.mem t 0 mem_page_size) (t + entry_size * 0)
        (read32 (kmemset s.mem t 0 mem_page_size) (kernel_table + entry_size * 0))
        (a + entry_size * x) (pages_apart t a 0 x ht ha ne (omega arith) hx)
      ∙ read32-kmemset_far s.mem t 0 mem_page_size (a + entry_size * x) (ground arith)

  cleared_read :
      read32 (kmemset s.mem t 0 mem_page_size) (kernel_table + entry_size * 0)
      ≡ pde_at s.mem kernel_table 0
  cleared_read =
      let ne = taken_other is.manager is.pages tp kernel_table is.own in
      let ht = taken-aligned is.manager is.pages tp in
      let ha = is.own.aligned in
      read32-kmemset_far s.mem t 0 mem_page_size (kernel_table + entry_size * 0) (ground arith)

  first : pde_at shared t 0 ≡ pde_at s.mem kernel_table 0 % 2 ^ 32
  first =
      read32-write32_low (kmemset s.mem t 0 mem_page_size) (t + entry_size * 0)
        (read32 (kmemset s.mem t 0 mem_page_size) (kernel_table + entry_size * 0))
      ∙ omega (arith, cleared_read)

  others : (d : ℕ) → d < pde_cnt → d ≢ 0 → pde_at shared t d ≡ 0
  others d hd ne =
      read32-write32_far (kmemset s.mem t 0 mem_page_size) (t + entry_size * 0)
        (read32 (kmemset s.mem t 0 mem_page_size) (kernel_table + entry_size * 0))
        (t + entry_size * d) (words_apart t 0 d (λ e. ne (sym e)))
      ∙ read32-kmemset s.mem t mem_page_size (t + entry_size * d) (omega arith) (omega arith)
          (omega arith)

  pub first_addr : entry_addr (pde_at shared t 0) ≡ entry_addr (pde_at s.mem kernel_table 0)
  first_addr = rw first (omega arith)

  pub first_present : present (pde_at shared t 0) ≡ present (pde_at s.mem kernel_table 0)
  first_present = rw first (omega arith)

  shared-entry :
      (g : ℕ)
      → g < 2 ^ 20
      → entry shared t g ≡ (if ltb g (2 ^ 10) then entry s.mem kernel_table g else 0)
  unfolding entry
  shared-entry g hg = elim (ℕ_discrete (g / 2 ^ 10) 0) [
    | yes low ↦
        (let small : ltb g (2 ^ 10) ≡ true = ground arith in
          rw (small, low, first_present, first_addr)
            (elim (Bool-cases (present (pde_at s.mem kernel_table 0) == 1)) [
              | inl p ↦ rw p (
                  kept_read (entry_addr (pde_at s.mem kernel_table 0)) (g % 2 ^ 10)
                    (is.table 0 (omega arith) ((==_iff _ _).0 p)).0 (omega arith))
              | inr n ↦ rw n
            ]))
    | no high ↦
        (let large : ltb g (2 ^ 10) ≡ false = ground arith in
          rw (large, others (g / 2 ^ 10) (omega arith) high))
  ]

  only_first : (d : ℕ) → d < pde_cnt → present (pde_at shared t d) ≡ 1 → d ≡ 0
  only_first d hd p = elim (ℕ_discrete d 0) [
    | yes e ↦ e
    | no ne ↦ absurd (omega (arith, others d hd ne, p))
  ]

  pub shared-IsTables : IsTables (record { mem = shared; manager = w }) t
  shared-IsTables = record {
    manager = tp.grown.manager;
    pages = rw tp.grown.start is.pages;
    own = taken-Reserved is.manager is.pages tp;
    table = λ d hd p.
        (let r = is.table 0 (omega arith) (rw (only_first d hd p, first_present) at p) in
          rw (only_first d hd p, first_addr)
            (
              Grown-Reserved tp.grown r.0,
              λ e.
                  taken_other is.manager is.pages tp (entry_addr (pde_at s.mem kernel_table 0)) r.0
                    (sym e),
              r.2,
            ));
    apart = λ c d hc hd p q e. only_first c hc p ∙ sym (only_first d hd q);
  }

  shared-translate :
      (v : ℕ)
      → v < 2 ^ 32
      → translate shared t v ≡ (if ltb v (2 ^ 22) then translate s.mem kernel_table v else none)
  unfolding translate
  shared-translate v hv =
      let c : ltb (v / 2 ^ 12) (2 ^ 10) ≡ ltb v (2 ^ 22) = ground arith in
      rw (shared-entry (v / 2 ^ 12) (omega arith), c)
        (elim (Bool-cases (ltb v (2 ^ 22))) [ inl low ↦ rw low | inr high ↦ rw high ])

  kept-entry : (g : ℕ) → g < 2 ^ 20 → entry shared kernel_table g ≡ entry s.mem kernel_table g
  unfolding entry
  kept-entry g hg =
      let d : ℕ = g / 2 ^ 10 in
      rw (kept_read kernel_table d is.own (omega arith))
        (elim (Bool-cases (present (pde_at s.mem kernel_table d) == 1)) [
          | inl p ↦ rw p (
              kept_read (entry_addr (pde_at s.mem kernel_table d)) (g % 2 ^ 10)
                (is.table d (omega arith) ((==_iff _ _).0 p)).0 (omega arith))
          | inr n ↦ rw n
        ])

  kept-translate :
      (v : ℕ) → v < 2 ^ 32 → translate shared kernel_table v ≡ translate s.mem kernel_table v
  unfolding translate
  kept-translate v hv = rw (kept-entry (v / 2 ^ 12) (omega arith))

-- When the kernel's tables are well formed and a page is granted, create_page_table makes
-- well-formed tables by which the processor translates the addresses below 4 MB as the kernel's
-- tables do and no others, and the kernel's translations do not change.
pub create_page_table-translate :
    (s : Paging) (kernel_table : ℕ)
    → IsTables s kernel_table
    → (create_page_table s kernel_table).1 ≢ 0
    → IsTables (create_page_table s kernel_table).0 (create_page_table s kernel_table).1
      × ((v : ℕ)
          → v < 2 ^ 32
          → translate
              (create_page_table s kernel_table).0.mem
              (create_page_table s kernel_table).1
              v
            ≡ (if ltb v (2 ^ 22) then translate s.mem kernel_table v else none))
      × ((v : ℕ)
          → v < 2 ^ 32
          → translate (create_page_table s kernel_table).0.mem kernel_table v
            ≡ translate s.mem kernel_table v)
unfolding create_page_table share_kernel
create_page_table-translate s kernel_table is real =
    let w : AddrAlloc = (ualloc_pages s.manager 1).0 in
    let t : ℕ = (ualloc_pages s.manager 1).1 in
    let tp = ualloc_page is.manager real in
    (
      shared-IsTables s kernel_table t w is tp,
      shared-translate s kernel_table t w is tp,
      kept-translate s kernel_table t w is tp,
    )

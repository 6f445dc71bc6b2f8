-- ===== src/PageTable/Shared.antt =====
-- `create_page_table` and then `pagetable_destroy`.
use little_os.Base.{
  ℕ, suc, ◌+◌, ◌*◌, ◌<◌, ◌≡◌, ◌≢◌, ◌||◌, refl, ◌∙◌, arith, Bool, true, false, lt→ltb, ==_iff,
}
use little_os.Mem.{Memory, read32}
use little_os.Memory.{AddrAlloc, mem_page_size, ualloc_pages}
use little_os.Memory.Pages.{in_use}
use little_os.Memory.Single.{ualloc_page}
use little_os.PageTable.{
  Paging, present, entry_addr, entry_size, share_kernel, create_page_table, pagetable_destroy,
}
use little_os.PageTable.Entry.{pde_at, IsTables}
use little_os.PageTable.Create.{shared, shared-IsTables, first_addr, first_present}
use little_os.PageTable.Destroy.{index_of, held, held_by_tables, pagetable_destroy-Less}

or_true : (b : Bool) → (b || true) ≡ true
or_true true = refl
or_true false = refl

-- The table of the first entry is among those that are given back.
first_held :
    (start size : ℕ) (mem : Memory) (j k pde : ℕ)
    → present (read32 mem pde) ≡ 1
    → index_of start size (entry_addr (read32 mem pde)) ≡ j
    → held_by_tables start size mem j (suc k) pde ≡ true
unfolding held_by_tables
first_held start size mem j k pde p e = rw (
  (==_iff _ _).1 p,
  (==_iff _ _).1 e,
  or_true (held start size mem j 1024 (entry_addr (read32 mem pde))),
)

destroyed :
    (s : Paging) (dir p : ℕ)
    → IsTables s dir
    → present (pde_at s.mem dir 0) ≡ 1
    → p < s.manager.bitmap.count
    → entry_addr (pde_at s.mem dir 0) ≡ s.manager.kernelstart + p * mem_page_size
    → in_use (pagetable_destroy s dir).manager p ≡ 0
destroyed s dir p is here hp at =
    let less = pagetable_destroy-Less s dir is.manager.bytes in
    let index : index_of s.manager.kernelstart s.manager.page_size (entry_addr (pde_at s.mem dir 0))
        ≡ p =
      rw is.manager.paged (omega (arith, at, is.manager.fits, hp)) in
    let gone =
      first_held s.manager.kernelstart s.manager.page_size s.mem p 1023 (dir + entry_size * 0) here
        index in
    less.used p ∙ rw (lt→ltb p s.manager.bitmap.count hp, gone)

-- When the first table of well-formed kernel tables is a page of the manager, a new page table is
-- granted, and it is destroyed again, that page of the kernel is free.
pub destroy_shared :
    (s : Paging) (kernel_table p : ℕ)
    → IsTables s kernel_table
    → present (pde_at s.mem kernel_table 0) ≡ 1
    → p < s.manager.bitmap.count
    → entry_addr (pde_at s.mem kernel_table 0) ≡ s.manager.kernelstart + p * mem_page_size
    → (create_page_table s kernel_table).1 ≢ 0
    → in_use
        (pagetable_destroy
          (create_page_table s kernel_table).0
          (create_page_table s kernel_table).1).manager
        p
      ≡ 0
unfolding create_page_table share_kernel
destroy_shared s kernel_table p is here hp at real =
    let w : AddrAlloc = (ualloc_pages s.manager 1).0 in
    let t : ℕ = (ualloc_pages s.manager 1).1 in
    let tp = ualloc_page is.manager real in
    let made = shared-IsTables s kernel_table t w is tp in
    destroyed (record { mem = shared s kernel_table t w is tp; manager = w }) t p made
      (first_present s kernel_table t w is tp ∙ here) (omega (arith, tp.grown.count, hp))
      (first_addr s kernel_table t w is tp ∙ at ∙ omega (arith, tp.grown.start))

-- ===== src/PageTable.antt =====
-- source/kernel/mmu/pagetable.c and pagetable.h: the two levels of page tables. Tables lie in the
-- physical memory, which the kernel sees at the same addresses; an entry is a word. `addr_manager`
-- is carried with the memory, and its bitmap lies outside the pages that it manages. `ASSERT` is
-- empty, as in a build without KERNEL_DEBUG.
pub mod Entry
pub mod Table
pub mod Find
pub mod Mapping
pub mod Walk
pub mod Create
pub mod Destroy
pub mod Shared
use Prim.Native.Nat.{bit_and, bit_or}
use little_os.Base.{
  ℕ, zero, suc, ◌+◌, ◌-◌, ◌*◌, ◌/◌, ◌%◌, ◌^◌, List, [], ◌∷◌, if◌then◌else◌, ltb, ◌==◌,
}
use little_os.Base.Word.{u32, add32, sub32}
use little_os.Mem.{Memory, kmemset, read32, write32}
use little_os.Memory.{
  AddrAlloc, mem_page_size, mem_kernelfree_start, kalloc_pages, ualloc_pages, kfree_pages, down2,
}

-- MEM_KERNELFREE_END.
abbrev pub mem_kernelfree_end : ℕ
mem_kernelfree_end = 2 * 1024 * 1024

-- VADDR_DIR and VADDR_TABLE.
abbrev pub vaddr_dir : ℕ → ℕ
vaddr_dir vaddr = vaddr / 2 ^ 22

abbrev pub vaddr_table : ℕ → ℕ
vaddr_table vaddr = vaddr / 2 ^ 12 % 2 ^ 10

-- PDE_CNT and PTE_CNT, and the size of an entry.
abbrev pub pde_cnt : ℕ
pde_cnt = 1024

abbrev pub entry_size : ℕ
entry_size = 4

-- The fields of `pde_t` and `pte_t` that the code reads.
abbrev pub present : ℕ → ℕ
present v = v % 2

-- PDE_ADDR and PTE_ADDR, of an entry.
abbrev pub entry_addr : ℕ → ℕ
entry_addr v = v / 2 ^ 12 % 2 ^ 20 * 2 ^ 12

-- P, W and U of both kinds of entries.
abbrev pub flag_p : ℕ
flag_p = 1

abbrev pub flag_w : ℕ
flag_w = 2

abbrev pub flag_u : ℕ
flag_u = 4

pub record Paging : Type 0 where
  pub mem : Memory
  pub manager : AddrAlloc

-- The address of the entry, and 0 for NULL.
unfoldable pub find_pte : Paging → ℕ → ℕ → Paging × ℕ
find_pte s dir vaddr =
    let pde = dir + entry_size * vaddr_dir vaddr in
    if present (read32 s.mem pde) == 1
    then (s, entry_addr (read32 s.mem pde) + entry_size * vaddr_table vaddr)
    else let (manager, page_table) = kalloc_pages s.manager 1 in
      if page_table == 0
      then (record s { manager = manager }, 0)
      else let mem = write32 s.mem pde (bit_or page_table (flag_p + flag_w + flag_u)) in
        let mem = kmemset mem page_table 0 mem_page_size in
        (record { mem = mem; manager = manager }, page_table + entry_size * vaddr_table vaddr)

-- `for (int i = 0; i < count; i++)`, by the rounds that are left.
unfoldable pub vaddr2paddr : Paging → ℕ → ℕ → ℕ → (count : ℕ) → ℕ → Paging
unfolding find_pte
vaddr2paddr s dir vaddr paddr zero perm = s
vaddr2paddr s dir vaddr paddr (suc count) perm =
    let (s, pte) = find_pte s dir vaddr in
    let mapped = record s { mem = write32 s.mem pte (bit_or (bit_or paddr perm) flag_p) } in
    let rest =
      vaddr2paddr mapped dir (add32 vaddr mem_page_size) (add32 paddr mem_page_size) count perm in
    if pte == 0 then s else rest

-- At NULL, `PTE_ADDR(pte)` reads what lies at address 0.
unfoldable pub get_v2p : Paging → ℕ → ℕ → Paging × ℕ
unfolding find_pte
get_v2p s dir vaddr =
    let (s, pte) = find_pte s dir vaddr in
    (s, add32 (entry_addr (read32 s.mem pte)) (bit_and vaddr 0xFFF))

-- The inner loop of `pagetable_destroy`, by the rounds that are left.
unfoldable pub free_pages : ℕ → Memory → AddrAlloc → ℕ → AddrAlloc
free_pages zero mem w pte = w
free_pages (suc k) mem w pte =
    let v = read32 mem pte in
    free_pages k mem (if present v == 1 then kfree_pages w (entry_addr v) 1 else w)
      (pte + entry_size)

unfoldable pub free_tables : ℕ → Memory → AddrAlloc → ℕ → AddrAlloc
unfolding free_pages
free_tables zero mem w pde = w
free_tables (suc k) mem w pde =
    let v = read32 mem pde in
    let freed = kfree_pages (free_pages 1024 mem w (entry_addr v)) (entry_addr v) 1 in
    free_tables k mem (if present v == 1 then freed else w) (pde + entry_size)

unfoldable pub pagetable_destroy : Paging → ℕ → Paging
unfolding free_tables
pagetable_destroy s dir =
    let user_pde_start = vaddr_dir mem_kernelfree_end in
    let w =
      free_tables (pde_cnt - user_pde_start) s.mem s.manager (dir + entry_size * user_pde_start) in
    record s { manager = kfree_pages w dir 1 }

-- `for (int i = 0; i <= user_pde_start; i++)`, by the rounds that are left.
unfoldable pub share_kernel : ℕ → Memory → ℕ → ℕ → ℕ → Memory
share_kernel zero mem kernel_table dir i = mem
share_kernel (suc k) mem kernel_table dir i =
    share_kernel k (write32 mem (dir + entry_size * i) (read32 mem (kernel_table + entry_size * i)))
      kernel_table dir (i + 1)

unfoldable pub create_page_table : Paging → ℕ → Paging × ℕ
unfolding share_kernel
create_page_table s kernel_table =
    let (manager, dir) = ualloc_pages s.manager 1 in
    let mem = kmemset s.mem dir 0 mem_page_size in
    let user_pde_start = vaddr_dir mem_kernelfree_end in
    (
      record { mem = share_kernel (user_pde_start + 1) mem kernel_table dir 0; manager = manager },
      dir,
    )

-- `mmu_manager_t`.
pub record MmuManager : Type 0 where
  pub vstart : ℕ
  pub vend : ℕ
  pub pstart : ℕ
  pub perm : ℕ

-- `UP2(data, bound)`, `(data + bound - 1) & ~(bound - 1)` on 32 bits.
unfoldable pub up2 : ℕ → ℕ → ℕ
unfolding down2
up2 x bound = down2 (sub32 (add32 x bound) 1) bound

-- `vstart` and `vend` are `int`s; `npage` is their difference in pages, none if it is negative.
unfoldable pub map_region : Paging → ℕ → MmuManager → Paging
unfolding up2 down2 vaddr2paddr
map_region s kernel_table map =
    let vstart = down2 map.vstart mem_page_size in
    let vend = up2 map.vend mem_page_size in
    let size = sub32 vend vstart in
    let npage : ℕ = if ltb size (2 ^ 31) then size / mem_page_size else 0 in
    vaddr2paddr s kernel_table vstart map.pstart npage map.perm

unfoldable pub map_regions : Paging → ℕ → List MmuManager → Paging
unfolding map_region
map_regions s kernel_table [] = s
map_regions s kernel_table (map ∷ rest) =
    map_regions (map_region s kernel_table map) kernel_table rest

-- The linker's symbols.
pub record Segments : Type 0 where
  pub kernel_base : ℕ
  pub kernel_end : ℕ
  pub stext : ℕ
  pub etext : ℕ
  pub sdata : ℕ

-- PTE_R is 0.
abbrev pub kernel_map : Segments → List MmuManager
kernel_map g =
    record {
      vstart = g.kernel_base;
      vend = g.kernel_end;
      pstart = g.kernel_base;
      perm = flag_w + flag_u;
    }
    ∷ record { vstart = g.stext; vend = g.etext; pstart = g.stext; perm = flag_u }
    ∷ record { vstart = g.sdata; vend = 0x80000 - 1; pstart = g.sdata; perm = flag_w + flag_u }
    ∷ record {
      vstart = mem_kernelfree_start;
      vend = mem_kernelfree_end * 10;
      pstart = mem_kernelfree_start;
      perm = flag_w + flag_u;
    }
    ∷ []

-- Up to the switch to the new table, which is the processor's.
unfoldable pub create_kernel_table : Paging → ℕ → Segments → Paging
unfolding map_regions
create_kernel_table s kernel_table g =
    let cleared = record s { mem = kmemset s.mem kernel_table 0 (pde_cnt * entry_size) } in
    map_regions cleared kernel_table (kernel_map g)

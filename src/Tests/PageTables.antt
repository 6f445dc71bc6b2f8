-- ===== src/Tests/PageTables.antt =====
-- Page tables: an empty directory at 4 MB, outside a manager of 600 pages.
use little_os.Base.{
  ℕ, ◌∙◌, false, ◌+◌, ◌*◌, ◌/◌, ◌<◌, ◌≤◌, ◌≡◌, ◌≢◌, ◌⊎◌, ◌^◌, ◌||◌, ◌==◌, refl, arith, some, none,
  ltb, if◌then◌else◌, inl, inr,
}
use little_os.Mem.{read32}
use little_os.Bitmap.{alloc_loop, scan_loop, bitmap_alloc_nbits, bitmap_get_bit}
use little_os.Memory.{kalloc_pages, ualloc_pages}
use little_os.Memory.Pages.{in_use}
use little_os.Memory.Single.{TakenPage, kalloc_page}
use little_os.PageTable.{
  Paging, present, entry_size, find_pte, vaddr2paddr, create_page_table, pagetable_destroy,
}
use little_os.PageTable.Entry.{pde_at, entry, translate, IsTables}
use little_os.PageTable.Table.{added, added_present, added_addr, added-IsTables}
use little_os.PageTable.Find.{Found, NotFound, find_pte-Found}
use little_os.PageTable.Mapping.{Spent}
use little_os.PageTable.Walk.{Translates, vaddr2paddr-Translates}
use little_os.PageTable.Create.{create_page_table-translate}
use little_os.PageTable.Destroy.{Less, index_of, held_by_tables, pagetable_destroy-Less}
use little_os.PageTable.Shared.{destroy_shared}
use little_os.Tests.Pages.{zeros, manager, manager-IsManager}

abbrev pub dir : ℕ
dir = 4 * 1024 * 1024

abbrev pub empty : Paging
empty = record { mem = zeros; manager = manager }

no_table : (d : ℕ) → pde_at zeros dir d ≡ 0
unfolding read32
no_table d = refl

absent : (d : ℕ) → present (pde_at zeros dir d) ≢ 1
absent d h = omega (arith, h, no_table d)

pub empty-IsTables : IsTables empty dir
empty-IsTables = record {
  manager = manager-IsManager;
  pages = refl;
  own = record { aligned = refl; kept = λ p h f e. omega arith };
  table = λ d h p. absurd (absent d p);
  apart = λ c d hc hd p q e. absurd (absent c p);
}

find_pte-Found_example :
    NotFound empty dir 0x401234 (find_pte empty dir 0x401234)
    ⊎ Found empty dir 0x401234 (find_pte empty dir 0x401234)
find_pte-Found_example = find_pte-Found 0x401234 empty-IsTables (omega arith)

-- Two pages on both sides of 4 MB, for which two tables are made.
abbrev two_pages : Paging
two_pages = vaddr2paddr empty dir 0x3FF000 0x800000 2 6

vaddr2paddr-Translates_example :
    (k : ℕ) × (k ≤ 2)
    × ((k ≡ 2) ⊎ Spent two_pages.manager)
    × IsTables two_pages dir
    × Translates empty dir (0x3FF000 / 2 ^ 12) 0x800000 k two_pages
vaddr2paddr-Translates_example =
    vaddr2paddr-Translates 2 empty dir 0x3FF000 0x800000 6 empty-IsTables (omega arith)
      (omega arith) (omega arith) (omega arith) (omega arith)

-- The table at 1 MB, the manager's first page, maps address 0 to 0x7000.
abbrev one_page : Paging
one_page = record {
  mem = λ p.
      if p == dir + 2
      then 0x10
      else if p == dir
      then 1
      else if p == 0x100000
      then 1
      else if p == 0x100001
      then 0x70
      else 0;
  manager = manager;
}

one_page-translate : translate one_page.mem dir 0x12 ≡ some 0x7012
unfolding translate entry read32
one_page-translate = refl

user_page : (ualloc_pages manager 1).1 ≡ 2 * 1024 * 1024
unfolding ualloc_pages bitmap_alloc_nbits alloc_loop scan_loop bitmap_get_bit
user_page = refl

user_page_found : (create_page_table empty dir).1 ≢ 0
unfolding create_page_table
user_page_found h = omega (arith, h, user_page)

create_page_table-translate_example :
    IsTables (create_page_table empty dir).0 (create_page_table empty dir).1
    × ((v : ℕ)
        → v < 2 ^ 32
        → translate (create_page_table empty dir).0.mem (create_page_table empty dir).1 v
          ≡ (if ltb v (2 ^ 22) then translate empty.mem dir v else none))
    × ((v : ℕ)
        → v < 2 ^ 32
        → translate (create_page_table empty dir).0.mem dir v ≡ translate empty.mem dir v)
create_page_table-translate_example =
    create_page_table-translate empty dir empty-IsTables user_page_found

pagetable_destroy-Less_example :
    Less manager
      (λ j.
        held_by_tables manager.kernelstart manager.page_size one_page.mem j 1024
          (dir + entry_size * 0)
        || index_of manager.kernelstart manager.page_size dir == j)
      (pagetable_destroy one_page dir).manager
pagetable_destroy-Less_example = pagetable_destroy-Less one_page dir (λ p. omega arith)

kernel_page : (kalloc_pages manager 1).1 ≡ 1024 * 1024
unfolding kalloc_pages bitmap_alloc_nbits alloc_loop scan_loop bitmap_get_bit
kernel_page = refl

page_taken : TakenPage manager (kalloc_pages manager 1).0 (kalloc_pages manager 1).1
page_taken = elim (kalloc_page manager-IsManager).1 [
  | inl e ↦ absurd (omega (arith, e, kernel_page))
  | inr r ↦ r.1
]

no_first : (present (pde_at zeros dir 0) == 1) ≡ false
no_first = ground (arith, no_table 0)

-- A kernel table with the first page as its first table.
abbrev kernel : Paging
kernel = added {s = empty} {dir = dir} empty-IsTables page_taken 0 (omega arith) no_first

kernel-IsTables : IsTables kernel dir
kernel-IsTables = added-IsTables empty-IsTables page_taken 0 (omega arith) no_first

next_page : (ualloc_pages (kalloc_pages manager 1).0 1).1 ≡ 2 * 1024 * 1024
unfolding kalloc_pages ualloc_pages bitmap_alloc_nbits alloc_loop scan_loop bitmap_get_bit
next_page = refl

next_page_found : (create_page_table kernel dir).1 ≢ 0
unfolding create_page_table
next_page_found h = omega (arith, h, next_page)

destroy_shared_example :
    in_use
      (pagetable_destroy (create_page_table kernel dir).0 (create_page_table kernel dir).1).manager
      page_taken.page
    ≡ 0
destroy_shared_example =
    destroy_shared kernel dir page_taken.page kernel-IsTables
      (added_present empty-IsTables page_taken 0 (omega arith) no_first)
      (omega (arith, page_taken.inside_page, page_taken.grown.count))
      (added_addr empty-IsTables page_taken 0 (omega arith) no_first
        ∙ page_taken.address
        ∙ omega (arith, page_taken.grown.start))
      next_page_found

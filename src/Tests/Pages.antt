-- ===== src/Tests/Pages.antt =====
-- Page bitmaps and page managers.
use little_os.Base.{
  ℕ, ◌*◌, ◌-◌, ◌%◌, ◌/◌, ◌<◌, ◌≤◌, ◌≡◌, ◌⊎◌, refl, arith, ◌==◌, if◌then◌else◌, some,
}
use little_os.Base.Bits.{test_bit, test_bit-zero}
use little_os.Mem.{Memory}
use little_os.Mem.Fill.{inside}
use little_os.Bitmap.{
  Bitmap, bitmap_get_bytes, bitmap_set_bit, bitmap_get_bit, alloc_loop, scan_loop,
  bitmap_alloc_nbits,
}
use little_os.Bitmap.Bit.{IsBytes, bitmap_set_bit-get, bitmap_set_bit-IsBytes, count-bitmap_set_bit}
use little_os.Bitmap.Scan.{Clear, Blocked, Placed, bitmap_alloc_nbits-Placed}
use little_os.Bitmap.Alloc.{alloc_overrun}
use little_os.Memory.{
  MemInfo, AddrAlloc, mem_page_size, mem_kernelfree_start, kfree_pages, kalloc_pages, ualloc_pages,
  memory_init,
}
use little_os.Memory.Pages.{
  IsManager, in_use, Taken, Granted, Refused, kfree_pages-Granted, kalloc_pages-Granted,
  kalloc_pages-leak, ualloc_pages-Granted,
}
use little_os.Memory.Setup.{sizes, Fresh, memory_init-Fresh}

abbrev pub zeros : Memory
zeros p = 0

-- Sixteen pages, the first four in use.
abbrev sixteen : Bitmap
sixteen = record { count = 16; bits = λ p. if p == 0 then 15 else 0 }

sixteen-IsBytes : IsBytes sixteen.bits
sixteen-IsBytes p = ground arith

after : (bitmap_alloc_nbits sixteen 0 3).1 ≡ some 4
unfolding bitmap_alloc_nbits alloc_loop scan_loop bitmap_get_bit test_bit
after = refl

abbrev three : Bitmap
three = bitmap_set_bit sixteen 4 3 1

found : bitmap_alloc_nbits sixteen 0 3 ≡ (three, some 4)
unfolding bitmap_alloc_nbits alloc_loop scan_loop bitmap_get_bit test_bit
found = refl

bitmap_alloc_nbits-Placed_example : Placed sixteen 0 3 (bitmap_alloc_nbits sixteen 0 3)
bitmap_alloc_nbits-Placed_example = bitmap_alloc_nbits-Placed sixteen 0 3 (omega arith)

-- Four pages, all free.
abbrev four : Bitmap
four = record { count = 4; bits = zeros }

four-Clear : Clear four 2 5
unfolding bitmap_get_bit
four-Clear j a b c = test_bit-zero (j % 8)

alloc_overrun_example :
    ((bitmap_alloc_nbits four 2 5).1 ≡ some 2)
    × (bitmap_get_bit (bitmap_alloc_nbits four 2 5).0 4 ≡ 1)
alloc_overrun_example =
    alloc_overrun four 2 5 (λ p. omega arith) (omega arith) four-Clear (omega arith)

-- A manager of 600 pages, all free.
abbrev pub manager : AddrAlloc
manager = record {
  bitmap = record { count = 600; bits = zeros };
  page_size = 4096;
  kernelstart = mem_kernelfree_start;
  userstart = 2 * 1024 * 1024;
  size = 600 * 4096;
}

pub manager-IsManager : IsManager manager
manager-IsManager = record {
  bytes = λ p. omega arith;
  paged = refl;
  placed = omega arith;
  fits = omega arith;
}

manager-Clear : Clear manager.bitmap 5 3
unfolding bitmap_get_bit
manager-Clear j a b c = test_bit-zero (j % 8)

ualloc_pages-Granted_example :
    Refused manager 256 3 (ualloc_pages manager 3)
    ⊎ ((p : ℕ) × Granted manager 256 3 p (ualloc_pages manager 3))
ualloc_pages-Granted_example = ualloc_pages-Granted 3 manager-IsManager (omega arith)

granted : (p : ℕ) × (p ≤ 5) × Granted manager 0 3 p (kalloc_pages manager 3)
granted =
    kalloc_pages-Granted 3 5 manager-IsManager (omega arith) (omega arith) (omega arith)
      manager-Clear

kfree_pages-Granted_example :
    in_use (kfree_pages (kalloc_pages manager 3).0 (kalloc_pages manager 3).1 3) 4
    ≡ in_use manager 4
kfree_pages-Granted_example =
    kfree_pages-Granted 0 3 granted.0 (kalloc_pages manager 3) manager-IsManager granted.2
      (omega (arith, granted.1)) 4

-- A manager of 1025 pages, the first 1023 in use.
abbrev all_free : Bitmap
all_free = record { count = 1025; bits = zeros }

abbrev full : AddrAlloc
full = record {
  bitmap = bitmap_set_bit all_free 0 1023 1;
  page_size = 4096;
  kernelstart = mem_kernelfree_start;
  userstart = 2 * 1024 * 1024;
  size = 1025 * 4096;
}

full-count : full.bitmap.count ≡ 1025
full-count = count-bitmap_set_bit all_free 0 1023 1

full-IsManager : IsManager full
full-IsManager = record {
  bytes = bitmap_set_bit-IsBytes all_free 0 1023 1 (λ p. omega arith);
  paged = refl;
  placed = omega arith;
  fits = omega (arith, full-count);
}

all_free-get : (j : ℕ) → bitmap_get_bit all_free j ≡ 0
unfolding bitmap_get_bit
all_free-get j = test_bit-zero (j % 8)

full-get :
    (j : ℕ)
    → bitmap_get_bit full.bitmap j ≡ (if inside 0 1023 j then 1 else bitmap_get_bit all_free j)
full-get j = ground (arith, bitmap_set_bit-get all_free 0 1023 1 j (λ p. omega arith))

full-Clear : Clear full.bitmap 1023 1
full-Clear j a b c = ground (arith, full-get j, all_free-get j)

full-Blocked : (i : ℕ) → i < 1023 → Blocked full.bitmap i 1
full-Blocked i h =
    (i, omega arith, omega arith, omega (arith, full-count), ground (arith, full-get i))

kalloc_pages-leak_example :
    ((kalloc_pages full 1).1 ≡ 0) × Taken full (kalloc_pages full 1).0 1023 1
kalloc_pages-leak_example =
    kalloc_pages-leak 1 1023 full-IsManager (omega arith) (omega arith) (omega (arith, full-count))
      full-Clear full-Blocked

-- One block of 4 MB.
abbrev one_block : MemInfo
one_block = record { info = λ i. record { start = 0; offset = 4 * 1024 * 1024 }; count = 1 }

one_block-sizes : sizes 1 one_block 0 ≡ 4 * 1024 * 1024
unfolding sizes
one_block-sizes = refl

one_block-bitmap :
    bitmap_get_bytes ((sizes 1 one_block 0 - mem_kernelfree_start) / mem_page_size) ≡ 96
unfolding sizes bitmap_get_bytes
one_block-bitmap = refl

memory_init-Fresh_example :
    Fresh zeros
      (memory_init zeros one_block)
      ((sizes 1 one_block 0 - mem_kernelfree_start) / mem_page_size)
memory_init-Fresh_example =
    memory_init-Fresh zeros one_block 0x20000 (λ p. omega arith) (omega (arith, one_block-sizes))
      (omega (arith, one_block-sizes)) (omega (arith, one_block-bitmap))

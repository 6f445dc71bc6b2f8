-- ===== src/Memory.antt =====
-- source/kernel/memory/memory.c and memory.h, with the `mem_info_t` of source/comm/mem_info.h:
-- the manager of physical pages over the bitmap. A function that changes `addr_manager` takes it
-- and returns it. Addresses are `uint32_t`; page counts are `int`s that are not negative, and
-- `page_size` is at least 2, so that a page index fits an `int`.
pub mod Pages
pub mod Single
pub mod Setup
use Prim.Native.Nat.{bit_and}
use little_os.Base.{ℕ, zero, suc, ◌+◌, ◌-◌, ◌*◌, ◌/◌, ◌^◌, Option, none, some, if◌then◌else◌, leb}
use little_os.Base.Word.{u32, add32, sub32}
use little_os.Mem.{Memory}
use little_os.Bitmap.{Bitmap, bitmap_init, bitmap_set_bit, bitmap_alloc_nbits}

abbrev pub mem_page_size : ℕ
mem_page_size = 4096

abbrev pub mem_kernelfree_start : ℕ
mem_kernelfree_start = 1024 * 1024

abbrev pub mem_userfree_start : ℕ
mem_userfree_start = 2 * 1024 * 1024

-- `mem_info_t`: the blocks of usable memory that the loader found.
pub record MemBlock : Type 0 where
  pub start : ℕ
  pub offset : ℕ

pub record MemInfo : Type 0 where
  pub info : ℕ → MemBlock
  pub count : ℕ

pub record AddrAlloc : Type 0 where
  pub bitmap : Bitmap
  pub page_size : ℕ
  pub kernelstart : ℕ
  pub userstart : ℕ
  pub size : ℕ

unfoldable pub kfree_pages : AddrAlloc → ℕ → ℕ → AddrAlloc
kfree_pages m addr n =
    let pg_idx = sub32 addr m.kernelstart / m.page_size in
    record m { bitmap = bitmap_set_bit m.bitmap pg_idx n 0 }

unfoldable pub kalloc_pages : AddrAlloc → ℕ → AddrAlloc × ℕ
kalloc_pages m n =
    let (b, page_index) = bitmap_alloc_nbits m.bitmap 0 n in
    let addr : ℕ = elim page_index [
      | none ↦ 0
      | some i ↦ if leb 1023 i then 0 else add32 m.kernelstart (i * mem_page_size)
    ] in
    (record m { bitmap = b }, addr)

unfoldable pub ualloc_pages : AddrAlloc → ℕ → AddrAlloc × ℕ
ualloc_pages m n =
    let first = (mem_userfree_start - mem_kernelfree_start) / mem_page_size in
    let (b, page_index) = bitmap_alloc_nbits m.bitmap first n in
    let addr : ℕ = elim page_index [
      | none ↦ 0
      | some i ↦ add32 m.kernelstart (i * mem_page_size)
    ] in
    (record m { bitmap = b }, addr)

-- `for (int i = 0; i < mem_info->count; i++)`, by the rounds that are left.
unfoldable pub size_loop : ℕ → MemInfo → ℕ → ℕ → ℕ
size_loop zero mem_info i mem_size = mem_size
size_loop (suc k) mem_info i mem_size =
    size_loop k mem_info (i + 1) (add32 mem_size (mem_info.info i).offset)

unfoldable pub total_mem_size : MemInfo → ℕ
unfolding size_loop
total_mem_size mem_info = size_loop mem_info.count mem_info 0 0

unfoldable pub alloc_init : Memory → ℕ → ℕ → ℕ → ℕ → AddrAlloc
alloc_init bits size kstart ustart page_size = record {
  bitmap = bitmap_init (size / page_size) bits;
  page_size = page_size;
  kernelstart = kstart;
  userstart = ustart;
  size = size;
}

-- `DOWN2(data, bound)`, `data & ~(bound - 1)` on 32 bits.
unfoldable pub down2 : ℕ → ℕ → ℕ
down2 x bound = bit_and x (2 ^ 32 - 1 - (bound - 1))

abbrev pub mem_ebda_start : ℕ
mem_ebda_start = 0x80000

-- `memory` is what lies from `free_addr` on. Its assertion that the bitmap ends below
-- `mem_ebda_start` changes nothing; it is a hypothesis where it matters.
unfoldable pub memory_init : Memory → MemInfo → AddrAlloc
unfolding total_mem_size down2 alloc_init
memory_init memory mem_info =
    let mem_free_size = sub32 (total_mem_size mem_info) mem_kernelfree_start in
    let mem_free_size = down2 mem_free_size mem_page_size in
    alloc_init memory mem_free_size mem_kernelfree_start mem_userfree_start mem_page_size

-- ===== src/Memory/Setup.antt =====
-- `total_mem_size` and `memory_init`: the manager that the kernel starts with.
use little_os.Base.{ℕ, zero, suc, ◌+◌, ◌-◌, ◌*◌, ◌/◌, ◌%◌, ◌^◌, ◌≤◌, ◌<◌, ◌≡◌, refl, arith, ◌∙◌}
use little_os.Base.Bitwise.{bit_and-high, bit_and-mask}
use little_os.Base.Word.{sub32}
use little_os.Mem.{Memory}
use little_os.Bitmap.{bitmap_get_bytes}
use little_os.Bitmap.Bit.{IsBytes, bitmap_init-get, bitmap_init-IsBytes, count-bitmap_init}
use little_os.Memory.{
  MemInfo, AddrAlloc, mem_page_size, mem_kernelfree_start, mem_ebda_start, mem_userfree_start,
  size_loop, total_mem_size, alloc_init, down2, memory_init,
}
use little_os.Memory.Pages.{IsManager, in_use}

-- The sizes of the `k` blocks from block `i` on, with no wrap-around.
unfoldable pub sizes : ℕ → MemInfo → ℕ → ℕ
sizes zero mem_info i = 0
sizes (suc k) mem_info i = (mem_info.info i).offset + sizes k mem_info (i + 1)

size_loop-sizes :
    (k : ℕ) (mem_info : MemInfo) (i acc : ℕ)
    → acc < 2 ^ 32
    → size_loop k mem_info i acc ≡ (acc + sizes k mem_info i) % 2 ^ 32
unfolding size_loop sizes
size_loop-sizes zero mem_info i acc h = omega arith
size_loop-sizes (suc k) mem_info i acc h = omega (
  arith,
  size_loop-sizes k mem_info (i + 1) ((acc + (mem_info.info i).offset) % 2 ^ 32) (omega arith),
)

-- `total_mem_size` is the sum of the block sizes modulo 2 ^ 32.
pub total_mem_size-sizes :
    (mem_info : MemInfo) → total_mem_size mem_info ≡ sizes mem_info.count mem_info 0 % 2 ^ 32
unfolding total_mem_size
total_mem_size-sizes mem_info =
    omega (arith, size_loop-sizes mem_info.count mem_info 0 0 (omega arith))

-- `DOWN2` to a page is rounding down to a multiple of the page size.
pub down2_page : (x : ℕ) → x < 2 ^ 32 → down2 x mem_page_size ≡ x / 4096 * 4096
unfolding down2
down2_page x h = bit_and-high 12 x (2 ^ 20 - 1) ∙ omega (arith, bit_and-mask 20 (x / 2 ^ 12))

-- A manager of `c` pages, all of them free, whose bitmap is written over `memory`.
pub record Fresh (memory : Memory) (m : AddrAlloc) (c : ℕ) : Type 0 where
  pub manager : IsManager m
  pub count : m.bitmap.count ≡ c
  pub free : (j : ℕ) → j < c → in_use m j ≡ 0
  pub outside : (p : ℕ) → bitmap_get_bytes c ≤ p → m.bitmap.bits p ≡ memory p

alloc_init-Fresh :
    (memory : Memory) (size c : ℕ)
    → IsBytes memory
    → size / mem_page_size ≡ c
    → mem_kernelfree_start + size < 2 ^ 32
    → Fresh memory (alloc_init memory size mem_kernelfree_start mem_userfree_start mem_page_size) c
unfolding alloc_init
alloc_init-Fresh memory size c v e room =
    let r = bitmap_init-get c memory (omega arith) in
    rw e (record {
      manager = record {
        bytes = bitmap_init-IsBytes c memory v;
        paged = refl;
        placed = omega arith;
        fits = rw (count-bitmap_init c memory) (omega arith);
      };
      count = count-bitmap_init c memory;
      free = r.0;
      outside = r.1;
    })

free_size :
    (t : ℕ)
    → t < 2 ^ 32
    → mem_kernelfree_start ≤ t
    → down2 (sub32 t mem_kernelfree_start) mem_page_size ≡ (t - mem_kernelfree_start) / 4096 * 4096
free_size t h enough = down2_page (sub32 t mem_kernelfree_start) (omega arith) ∙ omega arith

-- When the sizes of the blocks found add up to at least 1 MB and below 4 GB, in a memory of
-- bytes, with the bitmap of free_addr ending below 512 KB, memory_init sets up a well-formed
-- manager of as many pages as that sum less 1 MB has, each of them free, and writes only the
-- bytes of the bitmap.
pub memory_init-Fresh :
    (memory : Memory) (mem_info : MemInfo) (free_addr : ℕ)
    → IsBytes memory
    → mem_kernelfree_start ≤ sizes mem_info.count mem_info 0
    → sizes mem_info.count mem_info 0 < 2 ^ 32
    → free_addr
        + bitmap_get_bytes
            ((sizes mem_info.count mem_info 0 - mem_kernelfree_start) / mem_page_size)
      < mem_ebda_start
    → Fresh memory
        (memory_init memory mem_info)
        ((sizes mem_info.count mem_info 0 - mem_kernelfree_start) / mem_page_size)
unfolding memory_init
memory_init-Fresh memory mem_info free_addr v enough small below =
    let t : ℕ = sizes mem_info.count mem_info 0 in
    let total : total_mem_size mem_info ≡ t = omega (arith, total_mem_size-sizes mem_info) in
    rw (total, free_size t small enough)
      (alloc_init-Fresh memory ((t - mem_kernelfree_start) / 4096 * 4096)
        ((t - mem_kernelfree_start) / mem_page_size) v (omega arith) (omega arith))

-- ===== src/Loader/Gdt16.antt =====
-- source/loader/gdt16/gdt16.c: the descriptors that the loader enters protected mode with.
use Prim.Native.Nat.{bit_and, bit_or}
use little_os.Base.{
  ℕ, zero, suc, ◌+◌, ◌*◌, ◌/◌, ◌^◌, ◌≡◌, ◌∙◌, ap, refl, arith, if◌then◌else◌, ltb, leb, update,
}
use little_os.Base.Word.{u8, u16}
use little_os.Gdt.{
  GdtTable, gdt_size, segment_desc, gdt_segment_set, gdt_init, clear_loop, kernel_selector_cs,
  kernel_selector_ds, seg_code, seg_data,
}
use little_os.Gdt.Alloc.{gdt_init-get, clear_loop-get}

unfoldable pub gdt16_segment_set : GdtTable → (selector limit base attr : ℕ) → GdtTable
gdt16_segment_set table selector limit base attr =
    let large = ltb 0xFFFFF limit in
    let attr' : ℕ = if large then bit_or attr 0x8000 else attr in
    let limit' : ℕ = if large then limit / 0x1000 else limit in
    update table (selector / 2 ^ 3) (record {
      limit_low = u16 (bit_and limit' 0xFFFF);
      base_low = u16 (bit_and base 0xFFFF);
      base_middle = u8 (bit_and (base / 2 ^ 16) 0xFF);
      attributes = u16 (bit_or attr' (bit_and (limit' / 2 ^ 16) 0xF * 2 ^ 8));
      base_high = u8 (bit_and (base / 2 ^ 24) 0xFF);
    })

-- The loop over all descriptors, by the rounds that are left.
unfoldable pub clear16_loop : ℕ → GdtTable → ℕ → GdtTable
unfolding gdt16_segment_set
clear16_loop zero table i = table
clear16_loop (suc k) table i = clear16_loop k (gdt16_segment_set table (i * 2 ^ 3) 0 0 0) (i + 1)

unfoldable pub gdt16_init : GdtTable → GdtTable
gdt16_init table =
    let cleared = clear16_loop gdt_size table 0 in
    let t₁ = gdt16_segment_set cleared kernel_selector_ds 0xFFFFFFFF 0 seg_data in
    gdt16_segment_set t₁ kernel_selector_cs 0xFFFFFFFF 0 seg_code

set16-set :
    (t : GdtTable) (selector limit base attr : ℕ)
    → gdt16_segment_set t selector limit base attr ≡ gdt_segment_set t selector limit base attr
unfolding gdt16_segment_set gdt_segment_set segment_desc
set16-set t selector limit base attr = refl

clear16_loop-clear_loop : (k : ℕ) (t : GdtTable) (i : ℕ) → clear16_loop k t i ≡ clear_loop k t i
unfolding clear16_loop clear_loop gdt_segment_set segment_desc
clear16_loop-clear_loop zero t i = refl
clear16_loop-clear_loop (suc k) t i =
    clear16_loop-clear_loop k (gdt_segment_set t (i * 2 ^ 3) 0 0 0) (i + 1)

gdt16_init_lem :
    (t : GdtTable)
    → gdt16_init t
      ≡ gdt_segment_set
          (gdt_segment_set (clear_loop gdt_size t 0) kernel_selector_ds 0xFFFFFFFF 0 seg_data)
          kernel_selector_cs
          0xFFFFFFFF
          0
          seg_code
unfolding gdt16_init
gdt16_init_lem t =
    set16-set
      (gdt16_segment_set (clear16_loop gdt_size t 0) kernel_selector_ds 0xFFFFFFFF 0 seg_data)
      kernel_selector_cs 0xFFFFFFFF 0 seg_code
    ∙ ap (λ T. gdt_segment_set T kernel_selector_cs 0xFFFFFFFF 0 seg_code)
        (set16-set (clear16_loop gdt_size t 0) kernel_selector_ds 0xFFFFFFFF 0 seg_data
          ∙ ap (λ T. gdt_segment_set T kernel_selector_ds 0xFFFFFFFF 0 seg_data)
              (clear16_loop-clear_loop gdt_size t 0))

-- gdt16_init and gdt_init, whatever the tables held, agree on the null descriptor and on the flat
-- code and data segments of the kernel; the other descriptors up to 255 are zeros behind
-- gdt16_init, and those from 256 on stay.
pub gdt16_init-gdt_init :
    (t s : GdtTable) (q : ℕ)
    → gdt16_init t q
      ≡ (if leb q 2 then gdt_init s q else if ltb q gdt_size then segment_desc 0 0 0 else t q)
unfolding gdt_segment_set
gdt16_init-gdt_init t s q =
    rw (gdt16_init_lem t) (ground (arith, clear_loop-get 256 t 0 q, gdt_init-get s q))

-- ===== src/Gdt.antt =====
-- source/kernel/gdt/gdt.c, with the descriptor of source/comm/os_cfg.h: the global descriptor table. The table is a function of the index, since
-- the code does not check a selector against the table's end.
pub mod Fields
pub mod Alloc
use Prim.Native.Nat.{bit_and, bit_or}
use little_os.Base.{
  ℕ, zero, suc, ◌+◌, ◌-◌, ◌*◌, ◌/◌, ◌%◌, ◌^◌, Option, none, some, if◌then◌else◌, ltb, ◌==◌, update,
}
use little_os.Base.Word.{u8, u16}

pub record GdtEntry : Type 0 where
  pub limit_low : ℕ
  pub base_low : ℕ
  pub base_middle : ℕ
  pub attributes : ℕ
  pub base_high : ℕ

abbrev pub GdtTable : Type 0
GdtTable = ℕ → GdtEntry

abbrev pub gdt_size : ℕ
gdt_size = 256

-- `sizeof(gdt_entry_t)`, packed.
abbrev pub entry_bytes : ℕ
entry_bytes = 8

-- The fields that `gdt_segment_set` computes.
unfoldable pub segment_desc : ℕ → ℕ → ℕ → GdtEntry
segment_desc limit base attr =
    let large = ltb 0xFFFFF limit in
    let attr' : ℕ = if large then bit_or attr 0x8000 else attr in
    let limit' : ℕ = if large then limit / 0x1000 else limit in
    record {
      limit_low = u16 (bit_and limit' 0xFFFF);
      base_low = u16 (bit_and base 0xFFFF);
      base_middle = u8 (bit_and (base / 2 ^ 16) 0xFF);
      attributes = u16 (bit_or attr' (bit_and (limit' / 2 ^ 16) 0xF * 2 ^ 8));
      base_high = u8 (bit_and (base / 2 ^ 24) 0xFF);
    }

unfoldable pub gdt_segment_set : GdtTable → ℕ → ℕ → ℕ → ℕ → GdtTable
gdt_segment_set table selector limit base attr =
    update table (selector / 2 ^ 3) (segment_desc limit base attr)

-- `for (int i = 1; i < GDT_SIZE; i++)`, by the rounds that are left; `none` is -1.
unfoldable pub alloc_loop : ℕ → GdtTable → ℕ → Option ℕ
alloc_loop zero table i = none
alloc_loop (suc k) table i =
    let rest = alloc_loop k table (i + 1) in
    if (table i).attributes == 0 then some (i * entry_bytes) else rest

unfoldable pub gdt_alloc_seg : GdtTable → Option ℕ
unfolding alloc_loop
gdt_alloc_seg table = alloc_loop (gdt_size - 1) table 1

-- `for (int i = 0; i < GDT_SIZE; i++) gdt_segment_set(i << 3, 0, 0, 0);`
unfoldable pub clear_loop : ℕ → GdtTable → ℕ → GdtTable
unfolding gdt_segment_set
clear_loop zero table i = table
clear_loop (suc k) table i = clear_loop k (gdt_segment_set table (i * 2 ^ 3) 0 0 0) (i + 1)

abbrev pub kernel_selector_cs : ℕ
kernel_selector_cs = 1 * 2 ^ 3

abbrev pub kernel_selector_ds : ℕ
kernel_selector_ds = 2 * 2 ^ 3

abbrev pub user_selector_cs : ℕ
user_selector_cs = 4 * 2 ^ 3 + 3

abbrev pub user_selector_ds : ℕ
user_selector_ds = 5 * 2 ^ 3 + 3

-- SEG_P_PRESENT | SEG_S_NORMAL | SEG_TYPE_RW | SEG_D, with the type and the privilege.
abbrev pub seg_code : ℕ
seg_code = 2 ^ 7 + 2 ^ 4 + 2 ^ 3 + 2 ^ 1 + 2 ^ 14

abbrev pub seg_data : ℕ
seg_data = 2 ^ 7 + 2 ^ 4 + 2 ^ 1 + 2 ^ 14

abbrev pub seg_dpl3 : ℕ
seg_dpl3 = 3 * 2 ^ 5

unfoldable pub gdt_init : GdtTable → GdtTable
gdt_init table =
    let cleared = clear_loop gdt_size table 0 in
    let t₁ = gdt_segment_set cleared kernel_selector_cs 0xFFFFFFFF 0 seg_code in
    let t₂ = gdt_segment_set t₁ kernel_selector_ds 0xFFFFFFFF 0 seg_data in
    let t₃ = gdt_segment_set t₂ user_selector_cs 0xFFFFFFFF 0 (seg_code + seg_dpl3) in
    gdt_segment_set t₃ user_selector_ds 0xFFFFFFFF 0 (seg_data + seg_dpl3)

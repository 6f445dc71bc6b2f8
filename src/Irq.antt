-- ===== src/Irq.antt =====
-- source/kernel/irq/irq.c and irq.h, with `irq_status` of source/comm/types.h: the interrupt
-- flag, the interrupt descriptor table and the interrupt controller. The flags register is a
-- word; what `sti` and `cli` do to it is the processor's, and so is what a port answers. Handler
-- addresses are the linker's: `entry` gives them.
pub mod Protect
pub mod Gates
pub mod Handlers
use Prim.Native.Nat.{bit_and}
use little_os.Base.{
  ℕ, zero, suc, ◌+◌, ◌-◌, ◌*◌, ◌/◌, ◌%◌, ◌^◌, Bool, true, false, Option, none, some, List, [], ◌∷◌,
  ◌++◌, if◌then◌else◌, ltb, leb, ◌==◌, update,
}
use little_os.Base.Word.{u8, u16}

pub data IrqStatus : Type 0 where
  intr_on intr_off : IrqStatus

-- EFLAGS_IF, bit 9.
abbrev pub eflags_if : ℕ
eflags_if = 2 ^ 9

-- `sti` and `cli`.
abbrev pub sti : ℕ → ℕ
sti eflags = eflags - eflags / 2 ^ 9 % 2 * 2 ^ 9 + 2 ^ 9

abbrev pub cli : ℕ → ℕ
cli eflags = eflags - eflags / 2 ^ 9 % 2 * 2 ^ 9

unfoldable pub get_irq_status : ℕ → IrqStatus
get_irq_status eflags = if bit_and eflags_if eflags == 0 then intr_off else intr_on

-- Each returns the flags and the status before.
unfoldable pub irq_enable : ℕ → ℕ × IrqStatus
irq_enable eflags =
    let old_status = get_irq_status eflags in
    elim old_status [ intr_off ↦ (sti eflags, intr_off) | intr_on ↦ (eflags, intr_on) ]

unfoldable pub irq_disable : ℕ → ℕ × IrqStatus
irq_disable eflags =
    let old_status = get_irq_status eflags in
    elim old_status [ intr_on ↦ (cli eflags, intr_on) | intr_off ↦ (eflags, intr_off) ]

unfoldable pub irq_set_status : ℕ → IrqStatus → ℕ × IrqStatus
irq_set_status eflags intr_on = irq_enable eflags
irq_set_status eflags intr_off = irq_disable eflags

unfoldable pub irq_enter_protection : ℕ → ℕ × IrqStatus
irq_enter_protection eflags = irq_disable eflags

-- The C function has no `return`; its result is never used.
unfoldable pub irq_leave_protection : ℕ → IrqStatus → ℕ
irq_leave_protection eflags status = (irq_set_status eflags status).0

pub record IrqDesc : Type 0 where
  pub limit15_0 : ℕ
  pub selector : ℕ
  pub attribute : ℕ
  pub limit31_16 : ℕ

abbrev pub Idt : Type 0
Idt = ℕ → IrqDesc

abbrev pub idt_size : ℕ
idt_size = 256

-- GATE_TYPE_IDT | GATE_P, with privilege 0 or 3.
abbrev pub gate_dpl0 : ℕ
gate_dpl0 = 0xE * 2 ^ 8 + 2 ^ 15

abbrev pub gate_dpl3 : ℕ
gate_dpl3 = 0xE * 2 ^ 8 + 2 ^ 15 + 3 * 2 ^ 13

-- The gate for a handler, in `table` at index `i`; an address above 0xFFFFF writes nothing.
unfoldable pub irq_segment_set : Idt → ℕ → ℕ → ℕ → ℕ → Idt
irq_segment_set table i selector offset attr =
    if ltb 0xFFFFF offset
    then table
    else update table i (record {
      limit15_0 = u16 (bit_and offset 0xFFFF);
      selector = selector;
      attribute = attr;
      limit31_16 = u16 (bit_and (offset / 2 ^ 16) 0xFFFF);
    })

abbrev pub kernel_selector_cs : ℕ
kernel_selector_cs = 8

unfoldable pub irq_install : Idt → ℕ → ℕ → Idt × Bool
irq_install table irq_num handler =
    if leb idt_size irq_num
    then (table, false)
    else (irq_segment_set table irq_num kernel_selector_cs handler gate_dpl0, true)

pub data Exception : Type 0 where
  unknown divider debug nmi breakpoint overflow bound_range invalid_opcode : Exception
  device_unfound double_fault invalid_tss segment_not_present stack_segment_fault : Exception
  general_protection page_fault float_point_error aligment_check machine_check : Exception
  simd virtual_exception : Exception

-- The calls of `irq_install` in `irq_init`, in order.
abbrev pub installs : List (ℕ × Exception)
installs =
    (0, divider)
    ∷ (1, debug)
    ∷ (2, nmi)
    ∷ (3, breakpoint)
    ∷ (4, overflow)
    ∷ (5, bound_range)
    ∷ (6, invalid_opcode)
    ∷ (7, device_unfound)
    ∷ (8, double_fault)
    ∷ (10, invalid_tss)
    ∷ (11, segment_not_present)
    ∷ (12, stack_segment_fault)
    ∷ (13, general_protection)
    ∷ (14, page_fault)
    ∷ (16, float_point_error)
    ∷ (17, aligment_check)
    ∷ (18, machine_check)
    ∷ (19, simd)
    ∷ (20, virtual_exception)
    ∷ []

unfoldable pub install_all : (Exception → ℕ) → List (ℕ × Exception) → Idt → Idt
install_all entry [] table = table
install_all entry ((v, e) ∷ rest) table = install_all entry rest (irq_install table v (entry e)).0

unfoldable pub fill_loop : ℕ → Idt → ℕ → ℕ → Idt
fill_loop zero table i handler = table
fill_loop (suc k) table i handler =
    fill_loop k (irq_segment_set table i kernel_selector_cs handler gate_dpl0) (i + 1) handler

-- `irq_init` on the table, behind `pic_init` and before `lidt`.
unfoldable pub irq_init : (Exception → ℕ) → (syscall_handler : ℕ) → Idt → Idt
irq_init entry syscall_handler table =
    let filled = fill_loop idt_size table 0 (entry unknown) in
    let installed = install_all entry installs filled in
    irq_segment_set installed 0x80 kernel_selector_cs syscall_handler gate_dpl3

abbrev pub pic_m_ctrl : ℕ
pic_m_ctrl = 0x20

abbrev pub pic_m_data : ℕ
pic_m_data = 0x21

abbrev pub pic_s_ctrl : ℕ
pic_s_ctrl = 0xA0

abbrev pub pic_s_data : ℕ
pic_s_data = 0xA1

abbrev pub pic_start : ℕ
pic_start = 0x20

-- `outb` calls in order: port and byte.
abbrev pub Writes : Type 0
Writes = List (ℕ × ℕ)

abbrev pub pic_init : Writes
pic_init =
    (pic_m_ctrl, 0x11)
    ∷ (pic_m_data, 0x20)
    ∷ (pic_m_data, 0x04)
    ∷ (pic_m_data, 0x01)
    ∷ (pic_s_ctrl, 0x11)
    ∷ (pic_s_data, 0x28)
    ∷ (pic_s_data, 0x02)
    ∷ (pic_s_data, 0x01)
    ∷ []

-- `~(1 << n)` as an `int`, on its 32 bits.
abbrev pub clear_mask : ℕ → ℕ
clear_mask n = 2 ^ 32 - 1 - 2 ^ n

-- `pic_num` is a `uint8_t`, and `inb` says what the ports read; below PIC_START only a message is
-- logged.
unfoldable pub pic_enable : (inb : ℕ → ℕ) → ℕ → Writes
pic_enable inb pic_num =
    if ltb pic_num pic_start
    then []
    else let n = pic_num - pic_start in
      if ltb n 8
      then (pic_m_data, u8 (bit_and (inb pic_m_data) (clear_mask n))) ∷ []
      else (pic_s_data, u8 (bit_and (inb pic_s_data) (clear_mask (n - 8)))) ∷ []

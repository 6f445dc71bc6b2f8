-- ===== src/Tests/Tables.antt =====
-- The descriptor tables and the interrupt flag.
use little_os.Base.{ℕ, ◌+◌, ◌*◌, ◌^◌, ◌≡◌, ◌%◌, ◌/◌, arith, ltb, ◌==◌, if◌then◌else◌}
use little_os.Gdt.{GdtTable, segment_desc}
use little_os.Gdt.Fields.{last_offset, segment_desc-limit}
use little_os.Irq.{
  Idt, gate_dpl0, gate_dpl3, Exception, page_fault, irq_init, intr_off, get_irq_status,
  irq_enter_protection, irq_leave_protection,
}
use little_os.Irq.Protect.{protection}
use little_os.Irq.Gates.{gate, irq_init-get}

segment_desc-limit_example :
    (last_offset (segment_desc 0xFFFFFFFF 0 (4 * 2 ^ 12 + 0x9A))
      ≡ (if ltb 0xFFFFF 0xFFFFFFFF then 0xFFFFFFFF / 0x1000 * 0x1000 + 0xFFF else 0xFFFFFFFF))
    × ((segment_desc 0xFFFFFFFF 0 (4 * 2 ^ 12 + 0x9A)).attributes % 2 ^ 8 ≡ 0x9A)
    × ((segment_desc 0xFFFFFFFF 0 (4 * 2 ^ 12 + 0x9A)).attributes / 2 ^ 12 % 2 ^ 3 ≡ 4)
segment_desc-limit_example =
    segment_desc-limit 0xFFFFFFFF 0 4 0x9A (omega arith) (omega arith) (omega arith)

abbrev unset : GdtTable
unset q = record { limit_low = 0; base_low = 0; base_middle = 0; attributes = 1; base_high = 0 }

protection_example :
    let (inner, status) = irq_enter_protection 0x202 in
    (get_irq_status inner ≡ intr_off)
    × (status ≡ get_irq_status 0x202)
    × (irq_leave_protection inner status ≡ 0x202)
protection_example = protection 0x202

abbrev blank : Idt
blank q = record { limit15_0 = 0; selector = 0; attribute = 0; limit31_16 = 0 }

abbrev at_64k : Exception → ℕ
at_64k e = 0x10000

irq_init-get_example :
    irq_init at_64k 0x20000 blank 14
    ≡ (if 14 == 0x80 then gate 0x20000 gate_dpl3 else gate (at_64k page_fault) gate_dpl0)
irq_init-get_example =
    irq_init-get at_64k (λ e. omega arith) 0x20000 blank 14 (omega arith) (omega arith)

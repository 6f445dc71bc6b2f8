-- ===== src/Irq/Protect.antt =====
-- The interrupt flag across protected sections.
use little_os.Base.{ℕ, ◌/◌, ◌%◌, ◌^◌, ◌≡◌, ◌==◌, arith, if◌then◌else◌}
use little_os.Base.Bitwise.{bit_and-bit, bit_and_comm}
use little_os.Irq.{
  intr_on, intr_off, eflags_if, cli, get_irq_status, irq_enable, irq_disable, irq_set_status,
  irq_enter_protection, irq_leave_protection,
}

status_of :
    (eflags : ℕ) → get_irq_status eflags ≡ (if eflags / 2 ^ 9 % 2 == 0 then intr_off else intr_on)
unfolding get_irq_status
status_of eflags = rw (bit_and_comm eflags_if eflags, bit_and-bit 9 eflags) (ground arith)

-- A section between irq_enter_protection and irq_leave_protection runs with interrupts off, and
-- behind it the flags register is what it was, whether interrupts were on or off before.
pub protection :
    (eflags : ℕ)
    → let (inner, status) = irq_enter_protection eflags in
      (get_irq_status inner ≡ intr_off)
      × (status ≡ get_irq_status eflags)
      × (irq_leave_protection inner status ≡ eflags)
unfolding irq_enter_protection irq_leave_protection irq_set_status irq_enable irq_disable
protection eflags = ground (arith, status_of eflags, status_of (cli eflags))

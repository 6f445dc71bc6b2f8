-- ===== src/Irq/Handlers.antt =====
-- The exception handlers of irq.c, behind the entries in assembly that call them.
use little_os.Base.{ℕ, zero, suc, ◌≡◌, refl, Option, none, some, Bool, true, false, if◌then◌else◌}
use little_os.Irq.{
  Exception, unknown, divider, debug, nmi, breakpoint, overflow, bound_range, invalid_opcode,
  device_unfound, double_fault, invalid_tss, segment_not_present, stack_segment_fault,
  general_protection, page_fault, float_point_error, aligment_check, machine_check, simd,
  virtual_exception,
}

-- `hlt(); for (;;);`, of which `rounds` rounds are run.
unfoldable pub halt_loop : (rounds : ℕ) → Option (Unit {0})
halt_loop zero = none
halt_loop (suc k) = halt_loop k

-- `irq_handler_<exception>`: `none` says that it is still running.
unfoldable pub irq_handler : Exception → (rounds : ℕ) → Option (Unit {0})
unfolding halt_loop
irq_handler unknown rounds = some tt
irq_handler divider rounds = some tt
irq_handler debug rounds = halt_loop rounds
irq_handler nmi rounds = halt_loop rounds
irq_handler breakpoint rounds = halt_loop rounds
irq_handler overflow rounds = halt_loop rounds
irq_handler bound_range rounds = halt_loop rounds
irq_handler invalid_opcode rounds = halt_loop rounds
irq_handler device_unfound rounds = halt_loop rounds
irq_handler double_fault rounds = halt_loop rounds
irq_handler invalid_tss rounds = halt_loop rounds
irq_handler segment_not_present rounds = halt_loop rounds
irq_handler stack_segment_fault rounds = halt_loop rounds
irq_handler general_protection rounds = halt_loop rounds
irq_handler page_fault rounds = halt_loop rounds
irq_handler float_point_error rounds = halt_loop rounds
irq_handler aligment_check rounds = halt_loop rounds
irq_handler machine_check rounds = halt_loop rounds
irq_handler simd rounds = halt_loop rounds
irq_handler virtual_exception rounds = halt_loop rounds

halt_loop-none : (k : ℕ) → halt_loop k ≡ none
unfolding halt_loop
halt_loop-none zero = refl
halt_loop-none (suc k) = halt_loop-none k

-- The exceptions whose handler only returns.
abbrev pub is_ignored : Exception → Bool
is_ignored unknown = true
is_ignored divider = true
is_ignored _ = false

-- Of an ignored exception the handler returns; every other handler is still running after any
-- number of rounds.
pub irq_handler-is_ignored :
    (e : Exception) (rounds : ℕ) → irq_handler e rounds ≡ (if is_ignored e then some tt else none)
unfolding irq_handler
irq_handler-is_ignored unknown rounds = refl
irq_handler-is_ignored divider rounds = refl
irq_handler-is_ignored _ rounds = halt_loop-none rounds

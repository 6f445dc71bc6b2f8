-- ===== src/Irq/Gates.antt =====
-- The gates that `irq_install` and `irq_init` leave in the table.
use Prim.Native.Nat.{bit_and}
use little_os.Base.{
  ℕ, zero, suc, ◌+◌, ◌/◌, ◌%◌, ◌^◌, ◌≤◌, ◌<◌, ◌≡◌, ◌==◌, arith, if◌then◌else◌, List, [], ◌∷◌, true,
  ge→ltb, ◌&&◌, ltb, leb, ◌∙◌, ap,
}
use little_os.Base.Bitwise.{bit_and-mask}
use little_os.Base.Word.{u16}
use little_os.Irq.{
  IrqDesc, Idt, idt_size, irq_segment_set, irq_install, kernel_selector_cs, gate_dpl0, gate_dpl3,
  Exception, unknown, divider, debug, nmi, breakpoint, overflow, bound_range, invalid_opcode,
  device_unfound, double_fault, invalid_tss, segment_not_present, stack_segment_fault,
  general_protection, page_fault, float_point_error, aligment_check, machine_check, simd,
  virtual_exception, installs, install_all, fill_loop, irq_init,
}

-- The gate to a handler.
abbrev pub gate : ℕ → ℕ → IrqDesc
gate offset attr = record {
  limit15_0 = offset % 2 ^ 16;
  selector = kernel_selector_cs;
  attribute = attr;
  limit31_16 = offset / 2 ^ 16;
}

irq_segment_set-get :
    (t : Idt) (i offset attr q : ℕ)
    → offset ≤ 0xFFFFF
    → irq_segment_set t i kernel_selector_cs offset attr q
      ≡ (if q == i then gate offset attr else t q)
unfolding irq_segment_set
irq_segment_set-get t i offset attr q h =
    let low : u16 (bit_and offset 0xFFFF) ≡ offset % 2 ^ 16 =
      omega (arith, bit_and-mask 16 offset) in
    let high : u16 (bit_and (offset / 2 ^ 16) 0xFFFF) ≡ offset / 2 ^ 16 =
      omega (arith, bit_and-mask 16 (offset / 2 ^ 16)) in
    rw (ge→ltb 0xFFFFF offset h, low, high)

-- irq_install of a handler at most at 0xFFFFF reports failure and changes nothing for a number
-- outside the table, and inside points that gate, and no other, to the handler.
pub irq_install-get :
    (t : Idt) (v handler q : ℕ)
    → handler ≤ 0xFFFFF
    → ((irq_install t v handler).1 ≡ ltb v idt_size)
      × ((irq_install t v handler).0 q
          ≡ (if ltb v idt_size && (q == v) then gate handler gate_dpl0 else t q))
unfolding irq_install
irq_install-get t v handler q h = ground (arith, irq_segment_set-get t v handler gate_dpl0 q h)

-- For a number in the table, a handler above 0xFFFFF is not installed, and irq_install reports
-- success all the same.
pub irq_install_far :
    (t : Idt) (v handler : ℕ)
    → v < idt_size
    → 0xFFFFF < handler
    → irq_install t v handler ≡ (t, true)
unfolding irq_install irq_segment_set
irq_install_far t v handler hv hh = ground arith

-- The handler of vector `q` behind a row of installations, the last one for it, or `d`.
abbrev assigned : ℕ → List (ℕ × Exception) → Exception → Exception
assigned q [] d = d
assigned q ((v, e) ∷ rest) d = assigned q rest (if q == v then e else d)

-- The handler of vector `q`, as the processor's manual names the exceptions; 9 and 15 are reserved.
abbrev pub expected : ℕ → Exception
expected q =
    if q == 0
    then divider
    else if q == 1
    then debug
    else if q == 2
    then nmi
    else if q == 3
    then breakpoint
    else if q == 4
    then overflow
    else if q == 5
    then bound_range
    else if q == 6
    then invalid_opcode
    else if q == 7
    then device_unfound
    else if q == 8
    then double_fault
    else if q == 10
    then invalid_tss
    else if q == 11
    then segment_not_present
    else if q == 12
    then stack_segment_fault
    else if q == 13
    then general_protection
    else if q == 14
    then page_fault
    else if q == 16
    then float_point_error
    else if q == 17
    then aligment_check
    else if q == 18
    then machine_check
    else if q == 19
    then simd
    else if q == 20
    then virtual_exception
    else unknown

assigned-expected : (q : ℕ) → assigned q installs unknown ≡ expected q
assigned-expected q = ground arith

abbrev InTable : List (ℕ × Exception) → Type 0
InTable [] = Unit
InTable ((v, e) ∷ rest) = (v < idt_size) × InTable rest

module _ (entry : Exception → ℕ) (near : (e : Exception) → entry e ≤ 0xFFFFF) where
  fill_loop-get :
      (k : ℕ) (t : Idt) (i q : ℕ)
      → fill_loop k t i (entry unknown) q
        ≡ (if leb i q && ltb q (i + k) then gate (entry unknown) gate_dpl0 else t q)
  unfolding fill_loop
  fill_loop-get zero t i q = ground arith
  fill_loop-get (suc k) t i q =
      let t' : Idt = irq_segment_set t i kernel_selector_cs (entry unknown) gate_dpl0 in
      ground (
        arith,
        fill_loop-get k t' (i + 1) q,
        irq_segment_set-get t i (entry unknown) gate_dpl0 q (near unknown),
      )

  install_all-get :
      (rest : List (ℕ × Exception)) (t : Idt) (q : ℕ) (d : Exception)
      → InTable rest
      → t q ≡ gate (entry d) gate_dpl0
      → install_all entry rest t q ≡ gate (entry (assigned q rest d)) gate_dpl0
  unfolding install_all
  install_all-get [] t q d w e = e
  install_all-get ((v, x) ∷ rest) t q d w e =
      install_all-get rest (irq_install t v (entry x)).0 q (if q == v then x else d) w.1
        (ground (arith, irq_install-get t v (entry x) q (near x), near x))

  -- With all handlers at addresses up to 0xFFFFF, irq_init points each of the 256 gates to its
  -- handler: 0x80 to the system call's with privilege 3, each of 0 to 20 but 9 and 15 to the
  -- handler of the processor's exception of that number, every other to the unknown handler,
  -- whatever the table held.
  pub irq_init-get :
      (syscall_handler : ℕ) (t : Idt) (q : ℕ)
      → syscall_handler ≤ 0xFFFFF
      → q < idt_size
      → irq_init entry syscall_handler t q ≡ (
          if q == 0x80 then gate syscall_handler gate_dpl3 else gate (entry (expected q)) gate_dpl0)
  unfolding irq_init
  irq_init-get syscall_handler t q hs hq =
      let filled : Idt = fill_loop 256 t 0 (entry unknown) in
      let start : filled q ≡ gate (entry unknown) gate_dpl0 =
        ground (arith, fill_loop-get 256 t 0 q) in
      let done =
        install_all-get installs filled q unknown (omega arith) start
        ∙ ap (λ e. gate (entry e) gate_dpl0) (assigned-expected q) in
      irq_segment_set-get (install_all entry installs filled) 0x80 syscall_handler gate_dpl3 q hs
      ∙ ap (λ g. if q == 0x80 then gate syscall_handler gate_dpl3 else g) done

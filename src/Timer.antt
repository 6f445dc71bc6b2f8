-- ===== src/Timer.antt =====
-- source/kernel/Timer/Timer.c: the timer's interrupt. `timer_init` is left out: its COUNTER_VALUE
-- is a `double`, to which C applies no `&` and no `>>`.
use little_os.Base.{ℕ, ◌-◌, ◌^◌, [], ◌∷◌, if◌then◌else◌, leb}
use little_os.Base.Word.{add32}
use little_os.Cmd.{Cmd, pure, ◌>>◌}
use little_os.Klist.{Ptr}
use little_os.Irq.{Writes, pic_m_ctrl, pic_s_ctrl, pic_start}
use little_os.Task.{Kernel, task_time_tick}

-- IRQ_Timer.
abbrev pub irq_timer : ℕ
irq_timer = 0x20

-- `ticks` is a `long` of 32 bits.
abbrev pub system_read_timer : ℕ → ℕ
system_read_timer ticks = ticks

-- Of a vector of the controllers, which start at PIC_START; `1 << 5` ends the interrupt.
unfoldable pub pic_send_eoi : ℕ → Writes
pic_send_eoi pic_num =
    if leb 8 (pic_num - pic_start)
    then (pic_s_ctrl, 2 ^ 5) ∷ (pic_m_ctrl, 2 ^ 5) ∷ []
    else (pic_m_ctrl, 2 ^ 5) ∷ []

-- The count of ticks behind it, and what is written to the controllers.
unfoldable pub irq_handler_timer : (fuel : ℕ) (mgr : Ptr) (ticks : ℕ) → Cmd Kernel (ℕ × Writes)
unfolding pic_send_eoi
irq_handler_timer fuel mgr ticks = do
  task_time_tick mgr fuel
  pure (add32 ticks 1, pic_send_eoi irq_timer)

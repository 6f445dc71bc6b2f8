-- ===== src/Serial.antt =====
-- source/kernel/tools/log.c: the serial port. What `inb` reads from the status port is the
-- machine's: a function of the number of polls so far. The loop that waits takes fuel, and `none`
-- says that it ran out.
pub mod Wait
use Prim.Native.Nat.{bit_and}
use little_os.Base.{
  ℕ, zero, suc, ◌+◌, Bool, not, Option, none, some, List, [], ◌∷◌, if◌then◌else◌, ◌==◌,
}
use little_os.Base.Word.{u8}
use little_os.Irq.{Writes}

abbrev pub port_com1 : ℕ
port_com1 = 0x3F8

abbrev pub log_init : Writes
log_init =
    (port_com1 + 1, 0x00)
    ∷ (port_com1 + 3, 0x80)
    ∷ (port_com1 + 0, 0x03)
    ∷ (port_com1 + 1, 0x00)
    ∷ (port_com1 + 3, 0x03)
    ∷ (port_com1 + 2, 0xC7)
    ∷ (port_com1 + 4, 0x0B)
    ∷ []

-- Of poll number `t`; its answer is compared with `false`, which is 0.
abbrev pub is_transmit_empty : (ℕ → ℕ) → ℕ → Bool
is_transmit_empty status t = not (bit_and (status t) 0x20 == 0)

-- `while (is_transmit_empty() == false);`, from poll number `t` on: the number of the next poll.
unfoldable pub wait_empty : ℕ → (ℕ → ℕ) → ℕ → Option ℕ
wait_empty zero status t = none
wait_empty (suc k) status t =
    let rest = wait_empty k status (t + 1) in
    if is_transmit_empty status t then some (t + 1) else rest

-- The number of the next poll, and what is written.
unfoldable pub write_serial : ℕ → (ℕ → ℕ) → ℕ → ℕ → Option (ℕ × Writes)
unfolding wait_empty
write_serial fuel status t a = elim (wait_empty fuel status t) [
  | none ↦ none
  | some t' ↦ some (t', (port_com1, u8 a) ∷ [])
]

abbrev pub write_serial_end : Writes
write_serial_end = (port_com1, b'\r') ∷ (port_com1, b'\n') ∷ []

-- ===== src/Serial/Wait.antt =====
-- The serial port gets ready.
use little_os.Base.{
  ℕ, zero, suc, ◌+◌, ◌<◌, ◌≡◌, ap, ◌∙◌, arith, true, some, ◌∷◌, [], Bool-cases, inl, inr,
}
use little_os.Base.Word.{u8}
use little_os.Serial.{port_com1, is_transmit_empty, wait_empty, write_serial}

-- The port is found empty by one of `fuel` polls, from any poll on.
abbrev pub IsServed : ℕ → (ℕ → ℕ) → Type 0
IsServed fuel status = (t : ℕ) → (d : ℕ) × (d < fuel) × (is_transmit_empty status (t + d) ≡ true)

wait_empty-ends :
    (k : ℕ) (status : ℕ → ℕ) (t d : ℕ)
    → d < k
    → is_transmit_empty status (t + d) ≡ true
    → (t' : ℕ) × (wait_empty k status t ≡ some t')
unfolding wait_empty
wait_empty-ends zero status t d h e = absurd (omega arith)
wait_empty-ends (suc k) status t zero h e =
    let ready : is_transmit_empty status t ≡ true =
      ap (is_transmit_empty status) (omega arith) ∙ e in
    (t + 1, rw ready)
wait_empty-ends (suc k) status t (suc d) h e = elim (Bool-cases (is_transmit_empty status t)) [
  | inl ready ↦ (t + 1, rw ready)
  | inr busy ↦
      (let later : is_transmit_empty status (t + 1 + d) ≡ true =
          ap (is_transmit_empty status) (omega arith) ∙ e in
        let r = wait_empty-ends k status (t + 1) d (omega arith) later in (r.0, rw busy r.1))
]

pub write_serial-writes :
    (fuel : ℕ) (status : ℕ → ℕ) (t a : ℕ)
    → IsServed fuel status
    → (t' : ℕ) × (write_serial fuel status t a ≡ some (t', (port_com1, u8 a) ∷ []))
unfolding write_serial
write_serial-writes fuel status t a served =
    let (d, h, e) = served t in
    let r = wait_empty-ends fuel status t d h e in (r.0, rw (write_serial, r.1))

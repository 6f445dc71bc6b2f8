-- ===== src/Klib/Printf/Output.antt =====
-- What klog_printf writes to the serial port.
use little_os.Base.{
  ℕ, zero, suc, ◌+◌, ◌≤◌, ◌<◌, ◌≡◌, Bool, ◌&&◌, ◌⊎◌, ◌∙◌, ap, arith, true, false, some, List, [],
  ◌∷◌, length, ◌==◌, update, not, inl,
}
use little_os.Base.Word.{u8}
use little_os.Mem.{Memory, kmemset}
use little_os.Mem.Fill.{kmemset-get}
use little_os.Irq.{Writes}
use little_os.Serial.{port_com1}
use little_os.Serial.Wait.{IsServed, write_serial-writes}
use little_os.Klib.Swap.{IsString}
use little_os.Klib.Printf.{normal, klog_vsprintf, print_loop, klog_printf}
use little_os.Klib.Printf.Text.{expand, all_simple, put_chars, put_chars_far, vsprintf_loop-expand}

abbrev pub no_zero : List ℕ → Bool
no_zero [] = true
no_zero (c ∷ cs) = not (c == 0) && no_zero cs

-- Each character as one write to the port.
abbrev pub sent : List ℕ → Writes
sent [] = []
sent (c ∷ cs) = (port_com1, u8 c) ∷ sent cs

same_end : (p n : ℕ) → p + 1 + n ≡ p + suc n
same_end p n = omega arith

print_loop-sent :
    (k fuel : ℕ) (status : ℕ → ℕ) (t : ℕ) (m : Memory) (p : ℕ) (cs : List ℕ)
    → length cs < k
    → IsServed fuel status
    → no_zero cs ≡ true
    → m (p + length cs) ≡ 0
    → print_loop k fuel status t (put_chars m p cs) p ≡ some (sent cs)
unfolding print_loop
print_loop-sent zero fuel status t m p cs f served nz end = absurd (omega arith)
print_loop-sent (suc k) fuel status t m p [] f served nz end =
    let ended : m p ≡ 0 = ap m (omega arith) ∙ end in rw ended
print_loop-sent (suc k) fuel status t m p (c ∷ cs) f served nz end =
    let rest : no_zero cs ≡ true = ground (arith, nz) in
    let here : put_chars (update m p c) (p + 1) cs p ≡ c =
      put_chars_far (update m p c) (p + 1) cs p (inl (omega arith)) ∙ ground arith in
    let more : (c == 0) ≡ false = ground (arith, nz) in
    let w = write_serial-writes fuel status t c served in
    let later =
      print_loop-sent k fuel status w.0 (update m p c) (p + 1) cs (omega arith) served rest
        (ground (arith, ap m (same_end p (length cs)) ∙ end)) in
    rw (here, more, w.1, later)

-- When the serial port gets ready within the fuel, and the format has no conversion but %% and %c
-- and unknown ones, lies apart from the buffer, and its text is shorter than the buffer and has
-- no zero, klog_printf ends and has written that text to the port, with a carriage return behind
-- each line feed, and nothing else; the rounds are at least the buffer's 256 and more than the
-- format's characters.
pub klog_printf-sent :
    (rounds fuel stack buf : ℕ) (status : ℕ → ℕ) (m : Memory) (fmt n : ℕ) (args : ℕ → ℕ)
    → IsServed fuel status
    → IsString m fmt n
    → all_simple n m fmt normal ≡ true
    → (fmt + n < buf) ⊎ (buf + 256 ≤ fmt)
    → length (expand args n m fmt 0 normal) < 256
    → no_zero (expand args n m fmt 0 normal) ≡ true
    → n < rounds
    → 256 ≤ rounds
    → klog_printf rounds fuel stack buf status m fmt args
      ≡ some (sent (expand args n m fmt 0 normal))
unfolding klog_printf klog_vsprintf
klog_printf-sent rounds fuel stack buf status m fmt n args served s simple apart short nz f g =
    let cs = expand args n m fmt 0 normal in
    let cleared : Memory = kmemset m buf 0 256 in
    let text =
      vsprintf_loop-expand fuel stack args m n rounds cleared buf fmt 0 normal f s simple
        (λ p lo hi. ground (arith, kmemset-get m buf 0 256 p, apart)) (omega (arith, apart)) in
    let out =
      print_loop-sent rounds fuel status 0 cleared buf cs (omega arith) served nz
        (ground (arith, kmemset-get m buf 0 256 (buf + length cs))) in
    rw (text, out)

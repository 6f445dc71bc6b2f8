-- ===== src/Klib/Printf.antt =====
-- klog_vsprintf and klog_printf of source/kernel/tools/klib.c. The words of `va_list` are the
-- machine's stack: `args i` is the one that the `va_arg` number `i` takes. `stack` is where the
-- arrays `p` and `cbuf` of a conversion lie. Numbers of `%d` are not negative.
pub mod Text
pub mod Output
use little_os.Base.{
  ℕ, zero, suc, ◌+◌, Option, none, some, List, [], ◌∷◌, ◌++◌, if◌then◌else◌, ◌==◌, update, not,
}
use little_os.Base.Word.{u8}
use little_os.Mem.{Memory, kmemset}
use little_os.Irq.{Writes}
use little_os.Serial.{write_serial}
use little_os.Klib.{◌>>=◌, kintlen, kitoa_s, kdecimal_to_hexadecimal}

-- `state` of klog_vsprintf.
pub data State : Type 0 where
  normal format : State

-- `while (*ptr != 0) *ch++ = *ptr++;`, and where `ch` is then.
unfoldable pub copy_chars : ℕ → Memory → (ch ptr : ℕ) → Option (Memory × ℕ)
copy_chars zero m ch ptr = none
copy_chars (suc k) m ch ptr =
    let rest = copy_chars k (update m ch (m ptr)) (ch + 1) (ptr + 1) in
    if not (m ptr == 0) then rest else some (m, ch)

-- The memory, `ch`, and the number of the next argument.
abbrev pub Place : Type 0
Place = Memory × ℕ × ℕ

-- The conversion `%c`, for the character `c` of the format.
unfoldable pub convert : (fuel stack : ℕ) → (ℕ → ℕ) → Memory → (ch i c : ℕ) → Option Place
unfolding copy_chars
convert fuel stack args m ch i c =
    if c == b'%'
    then some (update m ch b'%', ch + 1, i)
    else if c == b'd'
    then (do
      len ← kintlen fuel (args i)
      m ← kitoa_s fuel m stack (args i)
      (m, ch) ← copy_chars fuel m ch stack
      some (m, ch, i + 1))
    else if c == b'c'
    then some (update m ch (u8 (args i)), ch + 1, i + 1)
    else if c == b's'
    then (do (m, ch) ← copy_chars fuel m ch (args i); some (m, ch, i + 1))
    else if c == b'x'
    then (do
      m ← kdecimal_to_hexadecimal fuel (kmemset m stack 0 50) stack (args i)
      (m, ch) ← copy_chars fuel (update (update m ch b'0') (ch + 1) b'x') (ch + 2) stack
      some (m, ch, i + 1))
    else some (m, ch, i)

-- One round of the loop, for the character `c` of the format. Each moves `fmt` on by one.
unfoldable pub vsprintf_step :
    (fuel stack : ℕ) → (ℕ → ℕ) → Memory → (ch i c : ℕ) → State → Option (Place × State)
unfolding convert
vsprintf_step fuel stack args m ch i c normal =
    if c == b'%'
    then some ((m, ch, i), format)
    else if c == b'\n'
    then some ((update (update m ch b'\n') (ch + 1) b'\r', ch + 2, i), normal)
    else some ((update m ch c, ch + 1, i), normal)
vsprintf_step fuel stack args m ch i c format = do
  at ← convert fuel stack args m ch i c
  some (at, normal)

unfoldable pub vsprintf_loop :
    ℕ → (fuel stack : ℕ) → (ℕ → ℕ) → Memory → (ch fmt i : ℕ) → State → Option Memory
unfolding vsprintf_step
vsprintf_loop zero fuel stack args m ch fmt i state = none
vsprintf_loop (suc k) fuel stack args m ch fmt i state =
    let rest = vsprintf_step fuel stack args m ch i (m fmt) state >>= λ r.
    vsprintf_loop k fuel stack args r.0.0 r.0.1 (fmt + 1) r.0.2 r.1 in
    if not (m fmt == 0) then rest else some m

unfoldable pub klog_vsprintf :
    (rounds fuel stack : ℕ) → Memory → (buf fmt : ℕ) → (ℕ → ℕ) → Option Memory
unfolding vsprintf_loop
klog_vsprintf rounds fuel stack m buf fmt args =
    vsprintf_loop rounds fuel stack args m buf fmt 0 normal

-- `while (*p != 0) write_serial(*p++);`, from poll number `t` of the port on.
unfoldable pub print_loop : ℕ → (fuel : ℕ) → (ℕ → ℕ) → ℕ → Memory → (p : ℕ) → Option Writes
print_loop zero fuel status t m p = none
print_loop (suc k) fuel status t m p =
    let rest = (do
      (t, w) ← write_serial fuel status t (m p)
      ws ← print_loop k fuel status t m (p + 1)
      some (w ++ ws)) in
    if not (m p == 0) then rest else some []

-- `buf` is where the array of 256 characters lies. What is written to the port is returned.
unfoldable pub klog_printf :
    (rounds fuel stack buf : ℕ) → (ℕ → ℕ) → Memory → (fmt : ℕ) → (ℕ → ℕ) → Option Writes
unfolding klog_vsprintf print_loop
klog_printf rounds fuel stack buf status m fmt args = do
  m ← klog_vsprintf rounds fuel stack (kmemset m buf 0 256) buf fmt args
  print_loop rounds fuel status 0 m buf

-- ===== src/Klib/Printf/Text.antt =====
-- The text that klog_vsprintf makes of a format whose conversions are `%%` and `%c`, or unknown.
use little_os.Base.{
  ℕ, zero, suc, ◌+◌, ◌≤◌, ◌<◌, ◌≡◌, ◌⊎◌, refl, sym, ◌∙◌, ap, arith, Bool, true, false, ◌&&◌, some,
  List, [], ◌∷◌, ◌++◌, length, length-append, if◌then◌else◌, ◌==◌, update, not, inl, inr,
  Bool-cases, ==_of_ne,
}
use little_os.Base.Word.{u8}
use little_os.Mem.{Memory}
use little_os.Klib.Swap.{IsString}
use little_os.Klib.Printf.{State, normal, format, convert, vsprintf_step, vsprintf_loop}

-- What the character `c` of the format adds to the text, the next state, and the next argument.
abbrev pub emitted : (ℕ → ℕ) → (c i : ℕ) → State → List ℕ
emitted args c i normal =
    if c == b'%' then [] else if c == b'\n' then b'\n' ∷ b'\r' ∷ [] else c ∷ []
emitted args c i format =
    if c == b'%' then b'%' ∷ [] else if c == b'c' then u8 (args i) ∷ [] else []

abbrev pub next_state : ℕ → State → State
next_state c normal = if c == b'%' then format else normal
next_state c format = normal

abbrev pub next_argument : ℕ → ℕ → State → ℕ
next_argument c i normal = i
next_argument c i format = if c == b'c' then i + 1 else i

-- The text of the `n` characters from `fmt` on.
abbrev pub expand : (ℕ → ℕ) → ℕ → Memory → (fmt i : ℕ) → State → List ℕ
expand args zero m fmt i state = []
expand args (suc n) m fmt i state =
    emitted args (m fmt) i state
    ++ expand args n m (fmt + 1) (next_argument (m fmt) i state) (next_state (m fmt) state)

-- No conversion of a number or a string.
abbrev pub is_simple : ℕ → State → Bool
is_simple c normal = true
is_simple c format = not (c == b'd') && not (c == b's') && not (c == b'x')

abbrev pub all_simple : ℕ → Memory → (fmt : ℕ) → State → Bool
all_simple zero m fmt state = true
all_simple (suc n) m fmt state =
    is_simple (m fmt) state && all_simple n m (fmt + 1) (next_state (m fmt) state)

-- The memory with the characters from `ch` on.
abbrev pub put_chars : Memory → ℕ → List ℕ → Memory
put_chars m ch [] = m
put_chars m ch (c ∷ cs) = put_chars (update m ch c) (ch + 1) cs

pub put_chars_far :
    (m : Memory) (ch : ℕ) (cs : List ℕ) (p : ℕ)
    → (p < ch) ⊎ (ch + length cs ≤ p)
    → put_chars m ch cs p ≡ m p
put_chars_far m ch [] p h = refl
put_chars_far m ch (c ∷ cs) p h = ground (arith, put_chars_far (update m ch c) (ch + 1) cs p, h)

put_chars-append :
    (m : Memory) (ch : ℕ) (cs ds : List ℕ)
    → put_chars m ch (cs ++ ds) ≡ put_chars (put_chars m ch cs) (ch + length cs) ds
put_chars-append m ch [] ds = ap (λ a. put_chars m a ds) (omega arith)
put_chars-append m ch (c ∷ cs) ds =
    put_chars-append (update m ch c) (ch + 1) cs ds
    ∙ ap (λ a. put_chars (put_chars (update m ch c) (ch + 1) cs) a ds) (omega arith)

other :
    (c : ℕ)
    → is_simple c format ≡ true
    → ((c == b'd') ≡ false) × ((c == b's') ≡ false) × ((c == b'x') ≡ false)
other c h = (ground (arith, h), ground (arith, h), ground (arith, h))

vsprintf_step-emitted :
    (fuel stack : ℕ) (args : ℕ → ℕ) (m : Memory) (ch i c : ℕ) (state : State)
    → is_simple c state ≡ true
    → vsprintf_step fuel stack args m ch i c state
      ≡ some (
        (
          put_chars m ch (emitted args c i state),
          ch + length (emitted args c i state),
          next_argument c i state,
        ),
        next_state c state,
      )
unfolding vsprintf_step convert
vsprintf_step-emitted fuel stack args m ch i c normal h =
    let same : ch ≡ ch + 0 = omega arith in
    elim (Bool-cases (c == b'%')) [
      | inl per ↦ rw per (ap (λ a. some ((m, a, i), format)) same)
      | inr e ↦ elim (Bool-cases (c == b'\n')) [ inl line ↦ rw (e, line) | inr f ↦ rw (e, f) ]
    ]
vsprintf_step-emitted fuel stack args m ch i c format h =
    let same : ch ≡ ch + 0 = omega arith in
    let (d, s, x) = other c h in
    elim (Bool-cases (c == b'%')) [
      | inl per ↦ (let apart : (c == b'c') ≡ false = ground (arith, per) in rw (per, apart))
      | inr e ↦ elim (Bool-cases (c == b'c')) [
        | inl char ↦ rw (e, d, char)
        | inr f ↦ rw (e, d, f, s, x) (ap (λ a. some ((m, a, i), normal)) same)
      ]
    ]

IsString-tail : (m : Memory) (buf n : ℕ) → IsString m buf (suc n) → IsString m (buf + 1) n
IsString-tail m buf n s = record {
  body = λ i h e. s.body (suc i) (omega arith) (ap m (omega arith) ∙ e);
  end = ap m (omega arith) ∙ s.end;
}

and_cases : (a b : Bool) → (a && b) ≡ true → (a ≡ true) × (b ≡ true)
and_cases a b h = (ground (arith, h), ground (arith, h))

module _ (fuel stack : ℕ) (args : ℕ → ℕ) (t : Memory) where
  -- From a memory with the rest of the format in it, and room for its text outside it.
  pub vsprintf_loop-expand :
      (n k : ℕ) (m : Memory) (ch fmt i : ℕ) (state : State)
      → n < k
      → IsString t fmt n
      → all_simple n t fmt state ≡ true
      → ((p : ℕ) → fmt ≤ p → p ≤ fmt + n → m p ≡ t p)
      → (fmt + n < ch) ⊎ (ch + length (expand args n t fmt i state) ≤ fmt)
      → vsprintf_loop k fuel stack args m ch fmt i state
        ≡ some (put_chars m ch (expand args n t fmt i state))
  unfolding vsprintf_loop
  vsprintf_loop-expand n zero m ch fmt i state f s simple same room = absurd (omega arith)
  vsprintf_loop-expand zero (suc k) m ch fmt i state f s simple same room =
      let ended : m fmt ≡ 0 = same fmt (omega arith) (omega arith) ∙ ap t (omega arith) ∙ s.end in
      rw ended
  vsprintf_loop-expand (suc n) (suc k) m ch fmt i state f s simple same room =
      let here : m fmt ≡ t fmt = same fmt (omega arith) (omega arith) in
      let more : (t fmt == 0) ≡ false =
        ==_of_ne _ _ (λ e. s.body 0 (omega arith) (ap t (omega arith) ∙ e)) in
      let (now, later) = and_cases (is_simple (t fmt) state) _ simple in
      let step = vsprintf_step-emitted fuel stack args m ch i (t fmt) state now in
      let cs = emitted args (t fmt) i state in
      let ds =
        expand args n t (fmt + 1) (next_argument (t fmt) i state) (next_state (t fmt) state) in
      let size : length (cs ++ ds) ≡ length cs + length ds = length-append cs ds in
      let rest =
        vsprintf_loop-expand n k (put_chars m ch cs) (ch + length cs) (fmt + 1)
          (next_argument (t fmt) i state) (next_state (t fmt) state) (omega arith)
          (IsString-tail t fmt n s) later
          (λ p lo hi.
            put_chars_far m ch cs p (omega (arith, room)) ∙ same p (omega arith) (omega arith))
          (omega (arith, room)) in
      rw (here, more, step) (rest ∙ ap some (sym (put_chars-append m ch cs ds)))

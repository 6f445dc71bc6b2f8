-- ===== src/Klib/Print.antt =====
-- `kitoa_s` and `kdecimalToHexadecimal`.
use little_os.Base.{
  ℕ, suc, ◌+◌, ◌-◌, ◌<◌, ◌≤◌, ◌^◌, ◌≡◌, ◌≢◌, arith, if◌then◌else◌, ltb, leb, ◌&&◌, ◌==◌, some, true,
  false, update, Bool-cases, inl, inr, lt→ltb, ge→ltb,
}
use little_os.Mem.{Memory, kmemset}
use little_os.Klib.Swap.{IsString, kreverse_charstr-IsString}
use little_os.Klib.Digits.{high_first, Spelt, spells}
use little_os.Klib.{
  kreverse_charstr, decimal, below_zero, hexadecimal, kitoa_s, kdecimal_to_hexadecimal,
}

-- The digits that the characters stand for.
abbrev pub decimal_value : ℕ → ℕ
decimal_value c = c - b'0'

abbrev pub hexadecimal_value : ℕ → ℕ
hexadecimal_value c = if ltb c 58 then c - b'0' else c - 55

-- Of a positive int, with more fuel than the number, kitoa_s returns, and the buffer holds a
-- string of decimal digits, with its zero and with no 0 in front, that read as a decimal is the
-- number.
pub kitoa_s-IsString :
    (fuel : ℕ) (m : Memory) (buf num : ℕ)
    → 0 < num
    → num < 2 ^ 31
    → num < fuel
    → (m' : Memory) × (n : ℕ) × (kitoa_s fuel m buf num ≡ some m')
      × IsString m' buf n
      × ((i : ℕ) → i < n → (b'0' ≤ m' (buf + i)) × (m' (buf + i) ≤ b'9'))
      × (m' buf ≢ b'0')
      × (high_first 10 decimal_value m' buf n ≡ num)
unfolding kitoa_s Spelt
kitoa_s-IsString fuel m buf num positive small f =
    let (m', n, run, s, digits, top, v) =
      spells 10 decimal decimal_value (omega arith) (λ d h. omega arith) (λ d h. ground arith) fuel
        (kmemset m buf 0 4) buf num f in
    (
      m',
      n,
      rw (lt→ltb num (2 ^ 31) small) run,
      s,
      (λ i lt. let r = digits i lt in omega (arith, r.1)),
      (let (d, real, below, at) = top positive in omega (arith, real, at)),
      v,
    )

-- Of a negative int, with more fuel than its magnitude, kitoa_s returns, and the buffer holds a
-- string without a sign, whose characters lie from 39 to the digit 0 and, each taken from the
-- digit 0, spell the magnitude.
pub kitoa_s_negative :
    (fuel : ℕ) (m : Memory) (buf value : ℕ)
    → 2 ^ 31 ≤ value
    → value < 2 ^ 32
    → 2 ^ 32 - value < fuel
    → (m' : Memory) × (n : ℕ) × (kitoa_s fuel m buf value ≡ some m')
      × IsString m' buf n
      × ((i : ℕ) → i < n → (39 ≤ m' (buf + i)) × (m' (buf + i) ≤ b'0'))
      × (high_first 10 (λ c. b'0' - c) m' buf n ≡ 2 ^ 32 - value)
unfolding kitoa_s Spelt
kitoa_s_negative fuel m buf value negative small f =
    let (m', n, run, s, digits, top, v) =
      spells 10 below_zero (λ c. b'0' - c) (omega arith) (λ d h. omega arith) (λ d h. omega arith)
        fuel (kmemset m buf 0 4) buf (2 ^ 32 - value) f in
    (
      m',
      n,
      rw (ge→ltb value (2 ^ 31) negative) run,
      s,
      (λ i lt. let r = digits i lt in omega (arith, r.1)),
      v,
    )

-- Of zero, with some fuel, kitoa_s returns and leaves the empty string.
pub kitoa_s-zero :
    (fuel : ℕ) (m : Memory) (buf : ℕ)
    → (m' : Memory) × (kitoa_s (suc fuel) m buf 0 ≡ some m') × (m' buf ≡ 0)
unfolding kitoa_s
kitoa_s-zero fuel m buf = emptied (
    kreverse_charstr-IsString (suc fuel) (update (kmemset m buf 0 4) (buf + 0) 0) buf 0
      (record { body = λ i h. absurd (omega arith); end = ground arith }) (omega arith))
  where
    emptied :
        (m' : Memory) × (kreverse_charstr (suc fuel) (update (kmemset m buf 0 4) (buf + 0) 0) buf
            ≡ some m')
          × ((p : ℕ)
              → m' p ≡ (
                  if leb buf p && ltb p (buf + 0)
                  then update (kmemset m buf 0 4) (buf + 0) 0 (buf + (buf + 0 - suc p))
                  else update (kmemset m buf 0 4) (buf + 0) 0 p))
        → (m' : Memory) × (kreverse_charstr (suc fuel) (update (kmemset m buf 0 4) (buf + 0) 0) buf
            ≡ some m')
          × (m' buf ≡ 0)
    emptied (m', run, get) = (m', run, (ground (arith, get buf)))

-- With more fuel than the number, which is an int that is not negative, kdecimalToHexadecimal
-- returns, and the buffer holds a string that read as a hexadecimal number is the number.
pub kdecimal_to_hexadecimal-IsString :
    (fuel : ℕ) (m : Memory) (buf num : ℕ)
    → num < fuel
    → num < 2 ^ 31
    → (m' : Memory) × (n : ℕ) × (kdecimal_to_hexadecimal fuel m buf num ≡ some m')
      × IsString m' buf n
      × (high_first 16 hexadecimal_value m' buf n ≡ num)
unfolding kdecimal_to_hexadecimal Spelt high_first
kdecimal_to_hexadecimal-IsString fuel m buf num f small = elim (Bool-cases (num == 0)) [
  | inl zeroed ↦ (
    update (update m buf b'0') (buf + 1) 0,
    1,
    (rw (zeroed)),
    (record { body = λ i h. ground arith; end = ground arith }),
    ground (arith, high_zero),
  )
  | inr more ↦ long more (lt→ltb num (2 ^ 31) small) (
      spells 16 hexadecimal hexadecimal_value (omega arith) (λ d h. ground arith)
        (λ d h. ground arith) fuel m buf num f)
]
  where
    high_zero : high_first 16 hexadecimal_value (update (update m buf b'0') (buf + 1) 0) buf 1 ≡ 0
    high_zero = ground arith

    long :
        num == 0 ≡ false
        → ltb num (2 ^ 31) ≡ true
        → Spelt 16 hexadecimal hexadecimal_value
            (omega arith)
            (λ d h. ground arith)
            (λ d h. ground arith)
            fuel
            m
            buf
            num
        → (m' : Memory) × (n : ℕ) × (kdecimal_to_hexadecimal fuel m buf num ≡ some m')
          × IsString m' buf n
          × (high_first 16 hexadecimal_value m' buf n ≡ num)
    long more e (m', n, run, s, digits, top, v) = (m', n, rw (more, e, run), s, v)

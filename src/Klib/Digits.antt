-- ===== src/Klib/Digits.antt =====
-- Digits in a memory, and what the digit loop writes.
use native.Mathlib.Decide.{ℕ_discrete}
use little_os.Base.{
  sym, ◌∙◌, ap, ℕ, zero, suc, ◌+◌, ◌-◌, ◌*◌, ◌/◌, ◌%◌, ◌≤◌, ◌<◌, ◌≡◌, ◌≢◌, refl, arith,
  if◌then◌else◌, ltb, leb, ◌&&◌, ◌==◌, some, false, update, Bool-cases, inl, inr,
}
use native.Mathlib.Nat.{
  add_assoc, add_comm, zero-add, mul_comm, div-lt_self, mod-add-div, mod-lt, mul-zero,
}
use little_os.Mem.{Memory}
use little_os.Klib.Swap.{IsString, kreverse_charstr-IsString}
use little_os.Klib.{◌>>=◌, kreverse_charstr, put_digits}

-- The number that `n` characters from `p` on spell to base `base`, lowest digit first, and
-- highest digit first; `value` is the digit that a character stands for.
module _ (base : ℕ) (value : ℕ → ℕ) (m : Memory) where
  unfoldable pub low_first : ℕ → ℕ → ℕ
  low_first p zero = 0
  low_first p (suc n) = value (m p) + base * low_first (p + 1) n

  unfoldable pub high_first : ℕ → ℕ → ℕ
  high_first p zero = 0
  high_first p (suc n) = high_first p n * base + value (m (p + n))

module _ (base : ℕ) (digit value : ℕ → ℕ) (large : 1 < base)
    (inverse : (d : ℕ) → d < base → value (digit d) ≡ d)
    (nonzero : (d : ℕ) → d < base → digit d ≢ 0) where
  -- A character of one of the digits.
  abbrev pub IsDigit : ℕ → Type 0
  IsDigit c = (d : ℕ) × (d < base) × (c ≡ digit d)

  -- A character of a digit that is not zero.
  abbrev pub IsTop : ℕ → Type 0
  IsTop c = (d : ℕ) × (0 < d) × (d < base) × (c ≡ digit d)

  IsDigit-real : (c : ℕ) → IsDigit c → c ≢ 0
  IsDigit-real c (d, h, e) z = nonzero d h (sym e ∙ z)

  -- What the loop has written when it ends: `j` characters that spell the number.
  pub record Written (m : Memory) (buf i num : ℕ) (m' : Memory) (j : ℕ) : Type 0 where
    pub spelt : low_first base value m' (buf + i) j ≡ num
    pub before : (p : ℕ) → p < buf + i → m' p ≡ m p
    pub short : j ≤ num
    pub digits : (q : ℕ) → i ≤ q → q < i + j → IsDigit (m' (buf + q))
    pub top : 0 < num → (0 < j) × IsTop (m' (buf + (i + (j - 1))))

  Written-step :
      (m : Memory) (buf i num : ℕ) (m' : Memory) (j : ℕ)
      → num / base < num
      → Written (update m (buf + i) (digit (num % base))) buf (i + 1) (num / base) m' j
      → Written m buf i num m' (suc j)
  unfolding low_first
  Written-step m buf i num m' j lt w = record {
    short = (let short = w.short in omega arith);
    spelt = rw (
      here,
      inverse (num % base) (mod-lt num (omega arith)),
      add_assoc buf i 1,
      w.spelt,
      mod-add-div num base,
    );
    before = λ p h. ground (arith, w.before p);
    digits = λ q a b. elim (ℕ_discrete q i) [
      | yes e ↦ (num % base, mod-lt num (omega arith), ap (λ x. m' (buf + x)) e ∙ here)
      | no ne ↦ w.digits q (omega arith) (omega arith)
    ];
    top = λ _. (
      omega arith,
      elim (ℕ_discrete (num / base) 0) [
        | yes z ↦
            (let none_left : j ≡ 0 = omega (arith, w.short) in
              (
                num % base,
                rest_real z,
                mod-lt num (omega arith),
                ap (λ x. m' (buf + x)) (omega arith) ∙ here,
              ))
        | no more ↦
            (let (some_left, (d, positive, small, at)) = w.top (omega arith) in
              (d, positive, small, top_index some_left ∙ at))
      ],
    );
  }
    where
      top_index : 0 < j → m' (buf + (i + (suc j - 1))) ≡ m' (buf + (i + 1 + (j - 1)))
      top_index some_left = ap (λ x. m' (buf + x)) (omega arith)

      rest_real : num / base ≡ 0 → 0 < num % base
      rest_real z =
          let whole : num % base + base * (num / base) ≡ num = mod-add-div num base in
          let none : base * (num / base) ≡ 0 = ap (λ x. base * x) z ∙ mul-zero base in omega arith

      here : m' (buf + i) ≡ digit (num % base)
      here = ground (arith, w.before (buf + i))

  -- The loop from `num` on ends, with the digits written.
  pub Ends : ℕ → Memory → ℕ → ℕ → ℕ → Type 0
  Ends k m buf i num =
      (m' : Memory) × (j : ℕ) × (put_digits base digit k m buf i num ≡ some (m', i + j))
      × Written m buf i num m' j

  Ends-step :
      (k : ℕ) (m : Memory) (buf i num : ℕ)
      → num == 0 ≡ false
      → num / base < num
      → Ends k (update m (buf + i) (digit (num % base))) buf (i + 1) (num / base)
      → Ends (suc k) m buf i num
  unfolding Ends put_digits
  Ends-step k m buf i num more lt (m', j, run, w) =
      (m', suc j, (rw (more, run, next)), Written-step m buf i num m' j lt w)
    where
      next : i + 1 + j ≡ i + suc j
      next = omega arith

  -- With enough fuel the loop ends, and it has written the digits.
  pub put_digits-Written : (k : ℕ) (m : Memory) (buf i num : ℕ) → num < k → Ends k m buf i num
  unfolding Ends put_digits low_first
  put_digits-Written zero m buf i num h = absurd (omega arith)
  put_digits-Written (suc k) m buf i num h = elim (Bool-cases (num == 0)) [
    | inl done ↦ (
      m,
      0,
      ground arith,
      record {
        spelt = ground arith;
        short = omega arith;
        before = λ p _. refl;
        digits = λ q a b. absurd (omega arith);
        top = λ p. absurd (ground arith);
      },
    )
    | inr more ↦
        (let lt = div-lt_self {n = num} {k = base} (ground arith) large in
          Ends-step k m buf i num more lt (
            put_digits-Written k (update m (buf + i) (digit (num % base))) buf (i + 1) (num / base)
              (omega arith)))
  ]

  high_first-reversed :
      (m m' : Memory) (p q n : ℕ)
      → ((i : ℕ) → i < n → m' (p + i) ≡ m (q + (n - suc i)))
      → high_first base value m' p n ≡ low_first base value m q n
  unfolding low_first high_first
  high_first-reversed m m' p q zero h = refl
  high_first-reversed m m' p q (suc n) h = rw (
    high_first-reversed m m' p (q + 1) n (λ i lt. ground (arith, h i)),
    last,
    mul_comm base,
    add_comm (value (m q)),
  )
    where
      last : m' (p + n) ≡ m q
      last = ground (arith, h n)

  -- The digit loop, the terminator and the reversal.
  unfoldable pub Spelt : ℕ → Memory → ℕ → ℕ → Type 0
  Spelt fuel m buf num =
      (m' : Memory) × (n : ℕ) × ((do
        (m'', i) ← put_digits base digit fuel m buf 0 num
        kreverse_charstr fuel (update m'' (buf + i) 0) buf)
        ≡ some m')
      × IsString m' buf n
      × ((i : ℕ) → i < n → IsDigit (m' (buf + i)))
      × (0 < num → IsTop (m' buf))
      × (high_first base value m' buf n ≡ num)

  -- What `kreverse_charstr` leaves of `n` characters.
  Reversed : ℕ → Memory → ℕ → ℕ → Type 0
  Reversed fuel m buf n =
      (m' : Memory) × (kreverse_charstr fuel m buf ≡ some m')
      × ((p : ℕ)
          → m' p ≡ (if leb buf p && ltb p (buf + n) then m (buf + (buf + n - suc p)) else m p))

  turned :
      (fuel : ℕ) (m : Memory) (buf num : ℕ) (m₁ : Memory) (n : ℕ)
      → put_digits base digit fuel m buf 0 num ≡ some (m₁, n)
      → Written m buf 0 num m₁ n
      → Reversed fuel (update m₁ (buf + n) 0) buf n
      → Spelt fuel m buf num
  unfolding Reversed Spelt
  turned fuel m buf num m₁ n run w (m₂, rev, get) = (
    m₂,
    n,
    (rw (run, rev)),
    (record {
      body = λ i lt. IsDigit-real (m₂ (buf + i)) (turned_digit i lt);
      end = ground (arith, get (buf + n));
    }),
    turned_digit,
    turned_top,
    rw (high_first-reversed m₁ m₂ buf (buf + 0) n (λ i lt. ground (arith, get (buf + i))), w.spelt),
  )
    where
      first_turned :
          0 < n
          → (if leb buf buf && ltb buf (buf + n)
              then update m₁ (buf + n) 0 (buf + (buf + n - suc buf))
              else update m₁ (buf + n) 0 buf)
            ≡ m₁ (buf + (n - 1))
      first_turned some_left = ground arith

      turned_top : 0 < num → IsTop (m₂ buf)
      turned_top p =
          let (some_left, top) = w.top p in
          let at : m₂ buf ≡ m₁ (buf + (0 + (n - 1))) =
            get buf ∙ first_turned some_left ∙ ap m₁ (omega arith) in
          rw at top

      turned_digit : (i : ℕ) → i < n → IsDigit (m₂ (buf + i))
      turned_digit i lt =
          let at : m₂ (buf + i) ≡ m₁ (buf + (n - suc i)) = ground (arith, get (buf + i)) in
          rw at (w.digits (n - suc i) (omega arith) (omega arith))

  terminated :
      (m : Memory) (buf num : ℕ) (m₁ : Memory) (n : ℕ)
      → Written m buf 0 num m₁ n
      → IsString (update m₁ (buf + n) 0) buf n
  terminated m buf num m₁ n w = record {
    body = λ i lt.
        (let at : update m₁ (buf + n) 0 (buf + i) ≡ m₁ (buf + i) = ground arith in
          IsDigit-real (update m₁ (buf + n) 0 (buf + i))
            (rw at (w.digits i (omega arith) (omega arith))));
    end = ground arith;
  }

  ended :
      (fuel : ℕ) (m : Memory) (buf num : ℕ)
      → num < fuel
      → Ends fuel m buf 0 num
      → Spelt fuel m buf num
  unfolding Ends Reversed
  ended fuel m buf num f (m₁, n, run, w) =
      (let short = w.short in
        turned fuel m buf num m₁ n (rw (run, zero-add n)) w (
          kreverse_charstr-IsString fuel (update m₁ (buf + n) 0) buf n (terminated m buf num m₁ n w)
            (omega arith)))

  -- With enough fuel, the string that is left spells the number, its highest digit first.
  pub spells : (fuel : ℕ) (m : Memory) (buf num : ℕ) → num < fuel → Spelt fuel m buf num
  spells fuel m buf num f = ended fuel m buf num f (put_digits-Written fuel m buf 0 num f)

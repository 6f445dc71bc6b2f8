-- ===== src/Base/Bitwise.antt =====
-- `&` and `|` at every width, as arithmetic on the fields of a word.
use Prim.Native.Nat.{
  ℕ, zero, suc, ◌+◌, ◌-◌, ◌*◌, ◌/◌, ◌%◌, ◌^◌, ◌≤◌, ◌<◌, min, max, digits, bitwise, bit_and, bit_or,
  bit_and-bitwise, bit_or-bitwise,
}
use mathlib.Core.Path.{◌≡◌, refl, ap, ◌∙◌}
use native.Mathlib.Nat.{pow-suc, one-le-pow}
use native.Mathlib.Omega.{arith}

-- The operations are recursions on binary digits; any fuel from the first number on is enough.
module _ (left_out : ℕ → ℕ) (digit : ℕ → ℕ → ℕ) where
  enough_fuel :
      (f g x y : ℕ) → x ≤ f → x ≤ g → digits left_out digit f x y ≡ digits left_out digit g x y
  enough_fuel zero zero x y p q = refl
  enough_fuel (suc f) zero zero y p q = refl
  enough_fuel (suc f) zero (suc x) y p q = absurd (omega arith)
  enough_fuel zero (suc g) zero y p q = refl
  enough_fuel zero (suc g) (suc x) y p q = absurd (omega arith)
  enough_fuel (suc f) (suc g) zero y p q = refl
  enough_fuel (suc f) (suc g) (suc x) y p q =
      omega (arith, enough_fuel f g (suc x / 2) (y / 2) (omega arith) (omega arith))

  lowest_digit :
      (x y : ℕ)
      → bitwise left_out digit (suc x) y
        ≡ bitwise left_out digit (suc x / 2) (y / 2) * 2 + digit (suc x % 2) (y % 2)
  lowest_digit x y =
      omega (arith, enough_fuel x (suc x / 2) (suc x / 2) (y / 2) (omega arith) (omega arith))

pub bit_and-halves : (x y : ℕ) → bit_and x y ≡ bit_and (x / 2) (y / 2) * 2 + min (x % 2) (y % 2)
bit_and-halves zero y = simp bit_and-bitwise (omega arith)
bit_and-halves (suc x) y = simp bit_and-bitwise (lowest_digit (λ _. 0) min x y)

pub bit_or-halves : (x y : ℕ) → bit_or x y ≡ bit_or (x / 2) (y / 2) * 2 + max (x % 2) (y % 2)
bit_or-halves zero y = simp bit_or-bitwise (omega arith)
bit_or-halves (suc x) y = simp bit_or-bitwise (lowest_digit (λ t. t) max x y)

-- By halving, with a bound on the number.
bit_or-zero_below : (n x : ℕ) → x ≤ n → bit_or x 0 ≡ x
bit_or-zero_below zero x h = let e : x ≡ 0 = omega arith in rw e
bit_or-zero_below (suc n) zero h = refl
bit_or-zero_below (suc n) (suc x) h =
    omega (arith, bit_or-halves (suc x) 0, bit_or-zero_below n (suc x / 2) (omega arith))

pub bit_or-zero : (x : ℕ) → bit_or x 0 ≡ x
bit_or-zero x = bit_or-zero_below x x (omega arith)

bit_and-zero_below : (n x : ℕ) → x ≤ n → bit_and x 0 ≡ 0
bit_and-zero_below zero x h = let e : x ≡ 0 = omega arith in rw e
bit_and-zero_below (suc n) zero h = refl
bit_and-zero_below (suc n) (suc x) h =
    omega (arith, bit_and-halves (suc x) 0, bit_and-zero_below n (suc x / 2) (omega arith))

pub bit_and-zero : (x : ℕ) → bit_and x 0 ≡ 0
bit_and-zero x = bit_and-zero_below x x (omega arith)

double : (q k : ℕ) → q * 2 ^ suc k ≡ 2 * (q * 2 ^ k)
double q k = omega (arith, ap (λ (t : ℕ). q * t) (pow-suc 2 k))

half_field : (k q r : ℕ) → (q * 2 ^ suc k + r) / 2 ≡ q * 2 ^ k + r / 2
half_field k q r = omega (arith, double q k)

odd_field : (k q r : ℕ) → (q * 2 ^ suc k + r) % 2 ≡ r % 2
odd_field k q r = omega (arith, double q k)

-- Both operations work on the high fields and on the low fields of two words apart.
module _ (q s : ℕ) where
  pub bit_and-fields :
      (k r t : ℕ)
      → r < 2 ^ k
      → t < 2 ^ k
      → bit_and (q * 2 ^ k + r) (s * 2 ^ k + t) ≡ bit_and q s * 2 ^ k + bit_and r t
  bit_and-fields zero r t h g =
      let e : r ≡ 0 = omega arith in
      let d : t ≡ 0 = omega arith in
      let e₁ : q * 2 ^ 0 + 0 ≡ q = omega arith in
      let e₂ : s * 2 ^ 0 + 0 ≡ s = omega arith in rw (e, d, e₁, e₂) (omega arith)
  bit_and-fields (suc k) r t h g =
      let inner =
        bit_and-fields k (r / 2) (t / 2) (omega (arith, pow-suc 2 k))
          (omega (arith, pow-suc 2 k)) in
      rw
        (
          bit_and-halves (q * 2 ^ suc k + r) (s * 2 ^ suc k + t),
          half_field k q r,
          half_field k s t,
          odd_field k q r,
          odd_field k s t,
          inner,
        )
        (omega (arith, double (bit_and q s) k, bit_and-halves r t))

  pub bit_or-fields :
      (k r t : ℕ)
      → r < 2 ^ k
      → t < 2 ^ k
      → bit_or (q * 2 ^ k + r) (s * 2 ^ k + t) ≡ bit_or q s * 2 ^ k + bit_or r t
  bit_or-fields zero r t h g =
      let e : r ≡ 0 = omega arith in
      let d : t ≡ 0 = omega arith in
      let e₁ : q * 2 ^ 0 + 0 ≡ q = omega arith in
      let e₂ : s * 2 ^ 0 + 0 ≡ s = omega arith in rw (e, d, e₁, e₂) (omega arith)
  bit_or-fields (suc k) r t h g =
      let inner =
        bit_or-fields k (r / 2) (t / 2) (omega (arith, pow-suc 2 k)) (omega (arith, pow-suc 2 k)) in
      rw
        (
          bit_or-halves (q * 2 ^ suc k + r) (s * 2 ^ suc k + t),
          half_field k q r,
          half_field k s t,
          odd_field k q r,
          odd_field k s t,
          inner,
        )
        (omega (arith, double (bit_or q s) k, bit_or-halves r t))

pub zero-bit_and : (x : ℕ) → bit_and 0 x ≡ 0
zero-bit_and x = simp bit_and-bitwise (omega arith)

pub zero-bit_or : (x : ℕ) → bit_or 0 x ≡ x
zero-bit_or x = simp bit_or-bitwise (omega arith)

all_ones : (k r : ℕ) → r < 2 ^ k → bit_and r (2 ^ k - 1) ≡ r
all_ones zero r h = let e : r ≡ 0 = omega arith in rw e
all_ones (suc k) r h =
    let e₁ : (2 ^ suc k - 1) / 2 ≡ 2 ^ k - 1 = omega (arith, pow-suc 2 k) in
    let e₂ : (2 ^ suc k - 1) % 2 ≡ 1 = omega (arith, pow-suc 2 k, one-le-pow k 2) in
    rw (bit_and-halves, e₁, e₂, all_ones k (r / 2) (omega (arith, pow-suc 2 k))) (omega arith)

-- A mask of `k` ones takes the low field.
pub bit_and-mask : (k x : ℕ) → bit_and x (2 ^ k - 1) ≡ x % 2 ^ k
bit_and-mask k x =
    let p = one-le-pow k 2 in
    let e : x ≡ x / 2 ^ k * 2 ^ k + x % 2 ^ k = grind arith in
    let d : 2 ^ k - 1 ≡ 0 * 2 ^ k + (2 ^ k - 1) = omega arith in
    let low : x % 2 ^ k < 2 ^ k = grind arith in
    ap (λ y. bit_and y (2 ^ k - 1)) e
    ∙ ap (bit_and (x / 2 ^ k * 2 ^ k + x % 2 ^ k)) d
    ∙ bit_and-fields (x / 2 ^ k) 0 k (x % 2 ^ k) (2 ^ k - 1) low (omega arith)
    ∙ rw (bit_and-zero (x / 2 ^ k), all_ones k (x % 2 ^ k) low) (omega arith)

-- A mask of high bits takes the high field in place.
pub bit_and-high : (k x s : ℕ) → bit_and x (s * 2 ^ k) ≡ bit_and (x / 2 ^ k) s * 2 ^ k
bit_and-high k x s =
    let p = one-le-pow k 2 in
    let e : x ≡ x / 2 ^ k * 2 ^ k + x % 2 ^ k = grind arith in
    let d : s * 2 ^ k ≡ s * 2 ^ k + 0 = omega arith in
    let low : x % 2 ^ k < 2 ^ k = grind arith in
    ap (λ y. bit_and y (s * 2 ^ k)) e
    ∙ ap (bit_and (x / 2 ^ k * 2 ^ k + x % 2 ^ k)) d
    ∙ bit_and-fields (x / 2 ^ k) s k (x % 2 ^ k) 0 low (omega arith)
    ∙ omega (arith, bit_and-zero (x % 2 ^ k))

-- `(q << k) | r` is a sum when `r` fits `k` bits.
pub bit_or-low : (k q r : ℕ) → r < 2 ^ k → bit_or (q * 2 ^ k) r ≡ q * 2 ^ k + r
bit_or-low k q r h =
    let p = one-le-pow k 2 in
    let e : q * 2 ^ k ≡ q * 2 ^ k + 0 = omega arith in
    let d : r ≡ 0 * 2 ^ k + r = omega arith in
    ap (λ y. bit_or y r) e
    ∙ ap (bit_or (q * 2 ^ k + 0)) d
    ∙ bit_or-fields q 0 k 0 r (omega arith) h
    ∙ rw (bit_or-zero q, zero-bit_or r)

-- A single bit, read by its mask.
pub bit_and-bit : (k x : ℕ) → bit_and x (2 ^ k) ≡ x / 2 ^ k % 2 * 2 ^ k
bit_and-bit k x =
    let e : 2 ^ k ≡ 1 * 2 ^ k = omega arith in
    ap (bit_and x) e ∙ bit_and-high k x 1 ∙ ap (λ y. y * 2 ^ k) (bit_and-mask 1 (x / 2 ^ k))

bit_and_comm_below : (n x y : ℕ) → x ≤ n → y ≤ n → bit_and x y ≡ bit_and y x
bit_and_comm_below zero x y h g =
    let e : x ≡ 0 = omega arith in let d : y ≡ 0 = omega arith in rw (e, d)
bit_and_comm_below (suc n) zero y h g = rw (zero-bit_and y, bit_and-zero y)
bit_and_comm_below (suc n) (suc x) zero h g = rw (zero-bit_and (suc x), bit_and-zero (suc x))
bit_and_comm_below (suc n) (suc x) (suc y) h g = omega (
  arith,
  bit_and-halves (suc x) (suc y),
  bit_and-halves (suc y) (suc x),
  bit_and_comm_below n (suc x / 2) (suc y / 2) (omega arith) (omega arith),
)

pub bit_and_comm : (x y : ℕ) → bit_and x y ≡ bit_and y x
bit_and_comm x y = bit_and_comm_below (x + y) x y (omega arith) (omega arith)

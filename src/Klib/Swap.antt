-- ===== src/Klib/Swap.antt =====
-- `kswap`, `kstrlen` and `kreverse_charstr`.
use little_os.Base.{
  ℕ, zero, suc, ◌+◌, ◌-◌, ◌*◌, ◌≤◌, ◌<◌, ◌≡◌, ◌≢◌, ◌&&◌, refl, arith, if◌then◌else◌, ltb, leb, ◌==◌,
  some, Bool-cases, inl, inr,
}
use native.Mathlib.Decide.{ℕ_discrete}
use little_os.Mem.{Memory}
use little_os.Klib.{strlen_loop, kstrlen, DateType, kswap, reverse_loop, kreverse_charstr}

-- kswap exchanges two chars; of any other type it copies the second value over the first and
-- leaves the second, so the first is lost.
pub kswap-get :
    (m : Memory) (a b p : ℕ)
    → (kswap m a b DateType.char p ≡ (if p == b then m a else if p == a then m b else m p))
      × ((t : DateType) → t ≢ DateType.char → kswap m a b t p ≡ (if p == a then m b else m p))
unfolding kswap
kswap-get m a b p = (ground arith, lost)
  where
    lost : (t : DateType) → t ≢ DateType.char → kswap m a b t p ≡ (if p == a then m b else m p)
    lost DateType.char ne = absurd (ne refl)
    lost DateType.int ne = ground arith
    lost _ ne = ground arith

-- A string of `n` characters: none of them is zero, and a zero stands behind them.
pub record IsString (m : Memory) (buf n : ℕ) : Type 0 where
  pub body : (i : ℕ) → i < n → m (buf + i) ≢ 0
  pub end : m (buf + n) ≡ 0

strlen_loop-IsString :
    (k : ℕ) (m : Memory) (buf n cnt : ℕ)
    → IsString m buf n
    → cnt ≤ n
    → n < cnt + k
    → strlen_loop k m buf cnt ≡ some n
unfolding strlen_loop
strlen_loop-IsString zero m buf n cnt s h f = absurd (omega arith)
strlen_loop-IsString (suc k) m buf n cnt s h f = elim (ℕ_discrete cnt n) [
  | yes e ↦ ground (arith, ended)
  | no e ↦ ground (arith, s.body cnt, strlen_loop-IsString k m buf n (cnt + 1) s)
]
  where
    ended : cnt ≡ n → m (buf + cnt) ≡ 0
    ended e = rw (e, s.end)

-- `kstrlen` is the number of characters.
pub kstrlen-IsString :
    (fuel : ℕ) (m : Memory) (buf n : ℕ) → IsString m buf n → n < fuel → kstrlen fuel m buf ≡ some n
unfolding kstrlen
kstrlen-IsString fuel m buf n s f =
    strlen_loop-IsString fuel m buf n 0 s (omega arith) (omega arith)

reverse_loop-get :
    (k : ℕ) (m : Memory) (buf l r p : ℕ)
    → r ≤ l + 2 * k
    → reverse_loop k m buf l r p
      ≡ (if leb (buf + l) p && leb p (buf + r) then m (buf + l + (buf + r - p)) else m p)
unfolding reverse_loop
reverse_loop-get zero m buf l r p h = ground arith
reverse_loop-get (suc k) m buf l r p h = elim (Bool-cases (ltb l r)) [
  | inl lt ↦ ground (
    arith,
    reverse_loop-get k (kswap m (buf + l) (buf + r) DateType.char) buf (l + 1) (r - 1) p
        (omega arith),
    (kswap-get m (buf + l) (buf + r) p).0,
    (kswap-get m (buf + l) (buf + r) (buf + (l + 1) + (buf + (r - 1) - p))).0,
  )
  | inr ge ↦ ground arith
]

-- Of a string of n characters, with more fuel than n, kreverse_charstr ends with the characters
-- in the opposite order, and no other byte of the memory is changed.
pub kreverse_charstr-IsString :
    (fuel : ℕ) (m : Memory) (buf n : ℕ)
    → IsString m buf n
    → n < fuel
    → (m' : Memory) × (kreverse_charstr fuel m buf ≡ some m')
      × ((p : ℕ)
          → m' p ≡ (if leb buf p && ltb p (buf + n) then m (buf + (buf + n - suc p)) else m p))
unfolding kreverse_charstr
kreverse_charstr-IsString fuel m buf n s f = (
  reverse_loop n m buf 0 (n - 1),
  (rw (kstrlen-IsString fuel m buf n s f)),
  λ p. ground (arith, reverse_loop-get n m buf 0 (n - 1) p (omega arith)),
)

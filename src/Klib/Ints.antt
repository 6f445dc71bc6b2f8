-- ===== src/Klib/Ints.antt =====
-- `karr_strlen` and `kreverse_intstr`: rows of `int` that end at a zero, one to a cell.
use little_os.Base.{
  ℕ, zero, suc, ◌+◌, ◌-◌, ◌*◌, ◌≤◌, ◌<◌, ◌≡◌, arith, Option, some, none, if◌then◌else◌, ltb, leb,
  ◌==◌, ◌&&◌, not, Bool-cases, inl, inr,
}
use native.Mathlib.Decide.{ℕ_discrete}
use little_os.Mem.{Memory}
use little_os.Klib.{kswap, DateType, ◌>>=◌}
use little_os.Klib.Swap.{IsString}

arr_strlen_loop : ℕ → Memory → (buf cnt : ℕ) → Option ℕ
arr_strlen_loop zero m buf cnt = none
arr_strlen_loop (suc k) m buf cnt =
    let rest = arr_strlen_loop k m buf (cnt + 1) in
    if not (m (buf + cnt) == 0) then rest else some cnt

karr_strlen : ℕ → Memory → (buf : ℕ) → Option ℕ
unfolding arr_strlen_loop
karr_strlen fuel m buf = arr_strlen_loop fuel m buf 0

reverse_ints : ℕ → Memory → (buf l r : ℕ) → Memory
reverse_ints zero m buf l r = m
reverse_ints (suc k) m buf l r =
    let rest = reverse_ints k (kswap m (buf + l) (buf + r) DateType.int) buf (l + 1) (r - 1) in
    if ltb l r then rest else m

-- Of an empty row `r` is -1 in C and 0 here: the loop ends at once in both.
pub kreverse_intstr : ℕ → Memory → (buf : ℕ) → Option Memory
unfolding karr_strlen reverse_ints
kreverse_intstr fuel m buf = do
  len ← karr_strlen fuel m buf
  some (reverse_ints len m buf 0 (len - 1))

arr_strlen_loop-IsString :
    (k : ℕ) (m : Memory) (buf n cnt : ℕ)
    → IsString m buf n
    → cnt ≤ n
    → n < cnt + k
    → arr_strlen_loop k m buf cnt ≡ some n
unfolding arr_strlen_loop
arr_strlen_loop-IsString zero m buf n cnt s h f = absurd (omega arith)
arr_strlen_loop-IsString (suc k) m buf n cnt s h f = elim (ℕ_discrete cnt n) [
  | yes e ↦ (let stop : m (buf + cnt) ≡ 0 = rw e s.end in ground arith)
  | no e ↦ ground (arith, s.body cnt, arr_strlen_loop-IsString k m buf n (cnt + 1) s)
]

kswap_int : (m : Memory) (a b p : ℕ) → kswap m a b DateType.int p ≡ (if p == a then m b else m p)
unfolding kswap
kswap_int m a b p = ground arith

reverse_ints-get :
    (k : ℕ) (m : Memory) (buf l r p : ℕ)
    → r ≤ l + 2 * k
    → reverse_ints k m buf l r p ≡ (
        if leb (buf + l) p && ltb (p - buf + (p - buf)) (l + r)
        then m (buf + l + (buf + r - p))
        else m p)
unfolding reverse_ints
reverse_ints-get zero m buf l r p h = ground arith
reverse_ints-get (suc k) m buf l r p h = elim (Bool-cases (ltb l r)) [
  | inl lt ↦ ground (
    arith,
    reverse_ints-get k (kswap m (buf + l) (buf + r) DateType.int) buf (l + 1) (r - 1) p
        (omega arith),
    kswap_int m (buf + l) (buf + r) p,
    kswap_int m (buf + l) (buf + r) (buf + (l + 1) + (buf + (r - 1) - p)),
  )
  | inr ge ↦ ground arith
]

-- Of a row of n numbers that are not zero, with more fuel than n, kreverse_intstr ends with the
-- front half of the row overwritten by the back half in the opposite order; the back half and all
-- other cells stay, so the numbers of the front half are lost.
pub kreverse_intstr-get :
    (fuel : ℕ) (m : Memory) (buf n : ℕ)
    → IsString m buf n
    → n < fuel
    → (m' : Memory) × (kreverse_intstr fuel m buf ≡ some m')
      × ((p : ℕ)
          → m' p ≡ (
              if leb buf p && ltb (p - buf + (p - buf) + 1) n
              then m (buf + (buf + n - suc p))
              else m p))
unfolding kreverse_intstr
kreverse_intstr-get fuel m buf n s f = (
  reverse_ints n m buf 0 (n - 1),
  rw (arr_strlen_loop-IsString fuel m buf n 0 s (omega arith) (omega arith)),
  λ p. ground (arith, reverse_ints-get n m buf 0 (n - 1) p (omega arith)),
)

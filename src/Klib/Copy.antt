-- ===== src/Klib/Copy.antt =====
-- `kstrcpy`: the characters of a string, without the zero behind them.
use little_os.Base.{
  ℕ, zero, suc, ◌+◌, ◌-◌, ◌≤◌, ◌<◌, ◌≡◌, ◌⊎◌, arith, some, if◌then◌else◌, ltb, leb, ◌&&◌, update,
}
use little_os.Mem.{Memory}
use little_os.Klib.{strcpy_loop, kstrcpy}
use little_os.Klib.Swap.{IsString, kstrlen-IsString}

strcpy_loop-get :
    (k : ℕ) (m : Memory) (dest src i n p : ℕ)
    → i + k ≤ n
    → (dest + n ≤ src) ⊎ (src + n ≤ dest)
    → strcpy_loop k m dest src i p
      ≡ (if leb (dest + i) p && ltb p (dest + (i + k)) then m (src + (p - dest)) else m p)
unfolding strcpy_loop
strcpy_loop-get zero m dest src i n p h apart = ground arith
strcpy_loop-get (suc k) m dest src i n p h apart = ground (
  arith,
  strcpy_loop-get k (update m (dest + i) (m (src + i))) dest src (i + 1) n p (omega arith) apart,
)

-- Of a string of n characters at src that does not overlap the n bytes at dest, with more fuel
-- than n, kstrcpy ends with the characters at dest, and no other byte of the memory is changed:
-- not the one behind them either, so the copy has no zero of its own.
pub kstrcpy-get :
    (fuel : ℕ) (m : Memory) (dest src n : ℕ)
    → IsString m src n
    → n < fuel
    → (dest + n ≤ src) ⊎ (src + n ≤ dest)
    → (m' : Memory) × (kstrcpy fuel m dest src ≡ some m')
      × ((p : ℕ) → m' p ≡ (if leb dest p && ltb p (dest + n) then m (src + (p - dest)) else m p))
unfolding kstrcpy
kstrcpy-get fuel m dest src n s f apart = (
  strcpy_loop n m dest src 0,
  rw (kstrlen-IsString fuel m src n s f),
  λ p. ground (arith, strcpy_loop-get n m dest src 0 n p (omega arith) apart),
)

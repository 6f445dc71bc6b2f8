-- ===== src/Mem/Fill.antt =====
-- What `kmemset` and `kmemcpy` leave at each address.
use little_os.Base.{
  ℕ, zero, suc, ◌+◌, ◌-◌, ◌≤◌, ◌^◌, ◌≡◌, ◌⊎◌, ◌&&◌, Bool, if◌then◌else◌, leb, ltb, update, arith,
}
use little_os.Mem.{Memory, fill_loop, kmemset, copy_loop, kmemcpy}

-- `p` is one of the `n` addresses from `d` on.
abbrev pub inside : ℕ → ℕ → ℕ → Bool
inside d n p = leb d p && ltb p (d + n)

fill_loop-get :
    (n : ℕ) (m : Memory) (d byte p : ℕ)
    → fill_loop n m d byte p ≡ (if inside d n p then byte else m p)
unfolding fill_loop
fill_loop-get zero m d byte p = ground arith
fill_loop-get (suc n) m d byte p = ground (arith, fill_loop-get n (update m d byte) (d + 1) byte p)

-- `kmemset` fills exactly the `size` bytes from `dest` on; at a negative size it changes nothing.
pub kmemset-get :
    (m : Memory) (dest byte size p : ℕ)
    → kmemset m dest byte size p ≡ (if ltb size (2 ^ 31) && inside dest size p then byte else m p)
unfolding kmemset
kmemset-get m dest byte size p = ground (arith, fill_loop-get size m dest byte p)

copy_loop-get :
    (n : ℕ) (m : Memory) (d s p : ℕ)
    → (d ≤ s) ⊎ (s + n ≤ d)
    → copy_loop n m d s p ≡ (if inside d n p then m (s + (p - d)) else m p)
unfolding copy_loop
copy_loop-get zero m d s p apart = ground arith
copy_loop-get (suc n) m d s p apart =
    ground (arith, copy_loop-get n (update m d (m s)) (d + 1) (s + 1) p)

-- kmemcpy copies size bytes: unless the destination starts inside the source, behind its start,
-- it receives what the source held; nothing else changes, and at a negative size nothing at all.
pub kmemcpy-get :
    (m : Memory) (dest src size p : ℕ)
    → (dest ≤ src) ⊎ (src + size ≤ dest)
    → kmemcpy m dest src size p
      ≡ (if ltb size (2 ^ 31) && inside dest size p then m (src + (p - dest)) else m p)
unfolding kmemcpy
kmemcpy-get m dest src size p apart = ground (arith, copy_loop-get size m dest src p apart)

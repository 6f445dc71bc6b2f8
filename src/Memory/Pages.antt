-- ===== src/Memory/Pages.antt =====
-- `kalloc_pages`, `ualloc_pages` and `kfree_pages`: addresses, page indices, and release.
use little_os.Base.{
  ℕ, ◌+◌, ◌*◌, ◌/◌, ◌^◌, ◌≤◌, ◌<◌, ◌≡◌, refl, if◌then◌else◌, leb, arith, Option, none, some, true,
  inl, inr, ◌⊎◌, ap, le→leb, ge→leb,
}
use little_os.Base.Word.{add32, sub32}
use little_os.Mem.Fill.{inside}
use little_os.Bitmap.{Bitmap, bitmap_get_bit, bitmap_alloc_nbits}
use little_os.Bitmap.Bit.{IsBytes, bitmap_set_bit-get}
use little_os.Bitmap.Scan.{Clear, Blocked, Placed, bitmap_alloc_nbits-Placed}
use little_os.Bitmap.Alloc.{alloc_run, alloc-count, alloc-IsBytes}
use native.Mathlib.Decide.{dec_lt}
use little_os.Memory.{AddrAlloc, mem_page_size, kfree_pages, kalloc_pages, ualloc_pages}

-- A manager as `memory_init` sets it up: its pages, from `kernelstart` on, are below 4 GB.
pub record IsManager (m : AddrAlloc) : Type 0 where
  pub bytes : IsBytes m.bitmap.bits
  pub paged : m.page_size ≡ mem_page_size
  pub placed : 0 < m.kernelstart
  pub fits : m.kernelstart + m.bitmap.count * mem_page_size < 2 ^ 32

-- The page at an address is in use.
abbrev pub in_use : AddrAlloc → ℕ → ℕ
in_use m i = bitmap_get_bit m.bitmap i

-- The pages from `p` to `p + n` of `m` were free, in `w` they are in use, and no other page
-- changed.
pub record Taken (m w : AddrAlloc) (p n : ℕ) : Type 0 where
  pub free : (j : ℕ) → inside p n j ≡ true → in_use m j ≡ 0
  pub used : (j : ℕ) → in_use w j ≡ (if inside p n j then 1 else in_use m j)
  pub kept : IsManager w
  pub start : w.kernelstart ≡ m.kernelstart
  pub count : w.bitmap.count ≡ m.bitmap.count

-- A window that is clear is not blocked.
not_blocked : (b : Bitmap) (q n : ℕ) → Clear b q n → ¬ (Blocked b q n)
not_blocked b q n free (j, lo, hi, inb, one) = absurd (omega (arith, free j lo hi inb))

-- A request for `n` pages from page `first` on is granted at page `p`.
pub record Granted (m : AddrAlloc) (first n p : ℕ) (r : AddrAlloc × ℕ) : Type 0 where
  pub address : r.1 ≡ m.kernelstart + p * mem_page_size
  pub behind : first ≤ p
  pub managed : p < m.bitmap.count
  pub taken : p + n ≤ m.bitmap.count → Taken m r.0 p n

-- It is refused: the address is 0, nothing changes, and no window from page `first` on is free.
pub record Refused (m : AddrAlloc) (first n : ℕ) (r : AddrAlloc × ℕ) : Type 0 where
  pub address : r.1 ≡ 0
  pub same : r.0 ≡ m
  pub full : (q : ℕ) → first ≤ q → q < m.bitmap.count → Blocked m.bitmap q n

module _ {m : AddrAlloc} (is : IsManager m) (first n : ℕ) (h : 0 < n) where
  page_address :
      (p : ℕ)
      → p < m.bitmap.count
      → add32 m.kernelstart (p * mem_page_size) ≡ m.kernelstart + p * mem_page_size
  page_address p lt = omega arith

  pub grant :
      (c : Bitmap) (p : ℕ)
      → bitmap_alloc_nbits m.bitmap first n ≡ (c, some p)
      → Placed m.bitmap first n (c, some p)
      → Granted m first n p (record m { bitmap = c }, add32 m.kernelstart (p * mem_page_size))
  grant c p e s = record {
    address = page_address p s.2;
    behind = s.1;
    managed = s.2;
    taken = λ fit.
        (let r = alloc_run m.bitmap first n is.bytes h e fit in
          record {
            free = r.1;
            used = r.2;
            kept = record {
              bytes = alloc-IsBytes m.bitmap first n is.bytes h e;
              paged = is.paged;
              placed = is.placed;
              fits = rw (alloc-count m.bitmap first n is.bytes h e) is.fits;
            };
            start = refl;
            count = alloc-count m.bitmap first n is.bytes h e;
          });
  }

  refuse :
      (c : Bitmap)
      → Placed m.bitmap first n (c, none)
      → Refused m first n (record m { bitmap = c }, 0)
  refuse c s = record { address = refl; same = ap (λ b. record m { bitmap = b }) s.0; full = s.1 }

pub ualloc_pages-none :
    (m : AddrAlloc) (n : ℕ) (c : Bitmap)
    → bitmap_alloc_nbits m.bitmap 256 n ≡ (c, none)
    → ualloc_pages m n ≡ (record m { bitmap = c }, 0)
unfolding ualloc_pages
ualloc_pages-none m n c e = rw e

pub ualloc_pages-some :
    (m : AddrAlloc) (n : ℕ) (c : Bitmap) (p : ℕ)
    → bitmap_alloc_nbits m.bitmap 256 n ≡ (c, some p)
    → ualloc_pages m n ≡ (record m { bitmap = c }, add32 m.kernelstart (p * mem_page_size))
unfolding ualloc_pages
ualloc_pages-some m n c p e = rw e

pub kalloc_pages-none :
    (m : AddrAlloc) (n : ℕ) (c : Bitmap)
    → bitmap_alloc_nbits m.bitmap 0 n ≡ (c, none)
    → kalloc_pages m n ≡ (record m { bitmap = c }, 0)
unfolding kalloc_pages
kalloc_pages-none m n c e = rw e

pub kalloc_pages-some :
    (m : AddrAlloc) (n : ℕ) (c : Bitmap) (p : ℕ)
    → bitmap_alloc_nbits m.bitmap 0 n ≡ (c, some p)
    → kalloc_pages m n
      ≡ (record m { bitmap = c }, if leb 1023 p then 0 else add32 m.kernelstart (p * mem_page_size))
unfolding kalloc_pages
kalloc_pages-some m n c p e = rw e

-- In a well-formed manager, a request for n > 0 user pages is either refused, with address 0,
-- nothing changed and every window from page 256 on blocked; or granted at a page from 256 on, at
-- that page's address, and if the run fits then its pages were free, are now in use, and no other
-- page changed.
pub ualloc_pages-Granted :
    {m : AddrAlloc} (n : ℕ)
    → IsManager m
    → 0 < n
    → Refused m 256 n (ualloc_pages m n) ⊎ ((p : ℕ) × Granted m 256 n p (ualloc_pages m n))
ualloc_pages-Granted {m} n is h =
    go (bitmap_alloc_nbits m.bitmap 256 n) refl (bitmap_alloc_nbits-Placed m.bitmap 256 n h)
  where
    go :
        (r : Bitmap × Option ℕ)
        → bitmap_alloc_nbits m.bitmap 256 n ≡ r
        → Placed m.bitmap 256 n r
        → Refused m 256 n (ualloc_pages m n) ⊎ ((p : ℕ) × Granted m 256 n p (ualloc_pages m n))
    go (c, none) e s = rw (ualloc_pages-none m n c e) (inl (refuse is 256 n h c s))
    go (c, some p) e s = rw (ualloc_pages-some m n c p e) (inr (p, grant is 256 n h c p e s))

-- In a well-formed manager, while a window of n > 0 free pages starts at a page q below 1023,
-- kalloc_pages grants a run that starts at q or before.
pub kalloc_pages-Granted :
    {m : AddrAlloc} (n q : ℕ)
    → IsManager m
    → 0 < n
    → q < 1023
    → q < m.bitmap.count
    → Clear m.bitmap q n
    → (p : ℕ) × (p ≤ q) × Granted m 0 n p (kalloc_pages m n)
kalloc_pages-Granted {m} n q is h low inside_q free =
    go (bitmap_alloc_nbits m.bitmap 0 n) refl (bitmap_alloc_nbits-Placed m.bitmap 0 n h)
  where
    go :
        (r : Bitmap × Option ℕ)
        → bitmap_alloc_nbits m.bitmap 0 n ≡ r
        → Placed m.bitmap 0 n r
        → (p : ℕ) × (p ≤ q) × Granted m 0 n p (kalloc_pages m n)
    go (c, none) e s = absurd (not_blocked m.bitmap q n free (s.1 q (omega arith) inside_q))
    go (c, some p) e s = elim (dec_lt q p) [
      | yes after ↦ absurd (not_blocked m.bitmap q n free (s.4 q (omega arith) after))
      | no within ↦
          rw (kalloc_pages-some m n c p e, ge→leb 1023 p (omega arith))
            (p, omega arith, grant is 0 n h c p e s)
    ]

-- In a well-formed manager, where the first window of n > 0 free pages starts at page 1023 or
-- later and fits, kalloc_pages returns 0 and yet marks the window's pages as in use.
pub kalloc_pages-leak :
    {m : AddrAlloc} (n q : ℕ)
    → IsManager m
    → 0 < n
    → 1023 ≤ q
    → q + n ≤ m.bitmap.count
    → Clear m.bitmap q n
    → ((i : ℕ) → i < q → Blocked m.bitmap i n)
    → ((kalloc_pages m n).1 ≡ 0) × Taken m (kalloc_pages m n).0 q n
kalloc_pages-leak {m} n q is h high fit free blocked =
    go (bitmap_alloc_nbits m.bitmap 0 n) refl (bitmap_alloc_nbits-Placed m.bitmap 0 n h)
  where
    go :
        (r : Bitmap × Option ℕ)
        → bitmap_alloc_nbits m.bitmap 0 n ≡ r
        → Placed m.bitmap 0 n r
        → ((kalloc_pages m n).1 ≡ 0) × Taken m (kalloc_pages m n).0 q n
    go (c, none) e s = absurd (not_blocked m.bitmap q n free (s.1 q (omega arith) (omega arith)))
    go (c, some p) e s = elim (dec_lt q p) [
      | yes after ↦ absurd (not_blocked m.bitmap q n free (s.4 q (omega arith) after))
      | no within ↦ elim (dec_lt p q) [
        | yes before ↦ absurd (not_blocked m.bitmap p n s.3 (blocked p before))
        | no above ↦
            (let same : p ≡ q = omega arith in
              rw (kalloc_pages-some m n c p e, le→leb 1023 p (omega arith))
                (refl, rw (← same) ((grant is 0 n h c p e s).taken (omega arith))))
      ]
    ]

-- In a well-formed manager, freeing the address and page count of a granted run that fits puts
-- every page back to what it was before the request.
pub kfree_pages-Granted :
    {m : AddrAlloc} (first n p : ℕ) (r : AddrAlloc × ℕ)
    → IsManager m
    → Granted m first n p r
    → p + n ≤ m.bitmap.count
    → (j : ℕ) → in_use (kfree_pages r.0 r.1 n) j ≡ in_use m j
unfolding kfree_pages
kfree_pages-Granted {m} first n p (w, addr) is g fit j =
    let t = g.taken fit in
    let index : sub32 addr w.kernelstart / w.page_size ≡ p =
      rw (t.kept.paged, t.start) (omega (arith, g.address, g.managed, is.fits)) in
    rw index (
      ground (
        arith,
        bitmap_set_bit-get w.bitmap p n 0 j t.kept.bytes,
        t.used j,
        t.free j,
        t.count,
        g.managed,
      ))

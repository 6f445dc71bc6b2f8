-- ===== src/Memory/Single.antt =====
-- One page from `kalloc_pages` and from `ualloc_pages`, as the page tables take them.
use little_os.Base.{
  ℕ, ◌+◌, ◌*◌, ◌<◌, ◌≡◌, ◌≢◌, ◌⊎◌, inl, inr, refl, ◌∙◌, arith, leb, true, Option, some, none,
  Bool-cases,
}
use little_os.Base.Word.{add32}
use little_os.Mem.Fill.{inside}
use little_os.Bitmap.{Bitmap, bitmap_alloc_nbits}
use little_os.Bitmap.Scan.{Placed, bitmap_alloc_nbits-Placed}
use little_os.Memory.{AddrAlloc, mem_page_size, kalloc_pages, ualloc_pages}
use little_os.Memory.Pages.{
  IsManager, in_use, Taken, grant, kalloc_pages-none, kalloc_pages-some, ualloc_pages-Granted,
}

-- The pages of `w` that are free were free in `m`.
pub record Grown (m w : AddrAlloc) : Type 0 where
  pub manager : IsManager w
  pub start : w.kernelstart ≡ m.kernelstart
  pub count : w.bitmap.count ≡ m.bitmap.count
  pub free : (j : ℕ) → in_use w j ≡ 0 → in_use m j ≡ 0

-- The page at `a` was free, and now it is in use.
pub record TakenPage (m w : AddrAlloc) (a : ℕ) : Type 0 where
  pub grown : Grown m w
  pub page : ℕ
  pub address : a ≡ m.kernelstart + page * mem_page_size
  pub inside_page : page < m.bitmap.count
  pub was_free : in_use m page ≡ 0
  pub is_used : in_use w page ≡ 1

pub Taken-Grown : {m w : AddrAlloc} {p n : ℕ} → Taken m w p n → Grown m w
Taken-Grown {m} {w} {p} {n} t = record {
  manager = t.kept;
  start = t.start;
  count = t.count;
  free = λ j e. elim (Bool-cases (inside p n j)) [
    | inl yes_in ↦ t.free j yes_in
    | inr out ↦ ground (arith, t.used j)
  ];
}

page_inside : (p : ℕ) → inside p 1 p ≡ true
page_inside p = ground arith

pub Taken-TakenPage :
    {m w : AddrAlloc} {p : ℕ}
    → p < m.bitmap.count
    → Taken m w p 1
    → TakenPage m w (m.kernelstart + p * mem_page_size)
Taken-TakenPage {m} {w} {p} h t = record {
  grown = Taken-Grown t;
  page = p;
  address = refl;
  inside_page = h;
  was_free = t.free p (page_inside p);
  is_used = ground (arith, t.used p, page_inside p);
}

pub Grown-refl : {m : AddrAlloc} → IsManager m → Grown m m
Grown-refl is = record { manager = is; start = refl; count = refl; free = λ j z. z }

-- `kalloc_pages(1)` takes a free page, or returns 0.
pub kalloc_page :
    {m : AddrAlloc}
    → IsManager m
    → Grown m (kalloc_pages m 1).0
      × (((kalloc_pages m 1).1 ≡ 0)
          ⊎ (((kalloc_pages m 1).1 ≢ 0) × TakenPage m (kalloc_pages m 1).0 (kalloc_pages m 1).1))
kalloc_page {m} is =
    go (bitmap_alloc_nbits m.bitmap 0 1) refl (bitmap_alloc_nbits-Placed m.bitmap 0 1 (omega arith))
  where
    go :
        (r : Bitmap × Option ℕ)
        → bitmap_alloc_nbits m.bitmap 0 1 ≡ r
        → Placed m.bitmap 0 1 r
        → Grown m (kalloc_pages m 1).0
          × (((kalloc_pages m 1).1 ≡ 0)
              ⊎ (((kalloc_pages m 1).1 ≢ 0)
                  × TakenPage m (kalloc_pages m 1).0 (kalloc_pages m 1).1))
    go (c, none) e s = rw (kalloc_pages-none m 1 c e, s.0) (Grown-refl is, inl refl)
    go (c, some p) e s =
        let t = (grant is 0 1 (omega arith) c p e s).taken (omega (arith, s.2)) in
        let at : add32 m.kernelstart (p * mem_page_size) ≡ m.kernelstart + p * mem_page_size =
          omega (arith, is.fits, s.2) in
        rw (kalloc_pages-some m 1 c p e) (
          Taken-Grown t,
          elim (Bool-cases (leb 1023 p)) [
            | inl late ↦ rw late (inl refl)
            | inr early ↦ rw (early, at) (inr (omega (arith, is.placed), Taken-TakenPage s.2 t))
          ],
        )

-- `ualloc_pages(1)` takes a free page, or returns 0.
pub ualloc_page :
    {m : AddrAlloc}
    → IsManager m
    → (ualloc_pages m 1).1 ≢ 0
    → TakenPage m (ualloc_pages m 1).0 (ualloc_pages m 1).1
ualloc_page {m} is real = elim (ualloc_pages-Granted 1 is (omega arith)) [
  | inl r ↦ absurd (real r.address)
  | inr (p, g) ↦ rw g.address (Taken-TakenPage g.managed (g.taken (omega (arith, g.managed))))
]

pub Grown-trans : {m w x : AddrAlloc} → Grown m w → Grown w x → Grown m x
Grown-trans g h = record {
  manager = h.manager;
  start = h.start ∙ g.start;
  count = h.count ∙ g.count;
  free = λ j z. g.free j (h.free j z);
}

-- Granted or refused, `ualloc_pages(1)` frees no page.
pub ualloc_page-Grown : {m : AddrAlloc} → IsManager m → Grown m (ualloc_pages m 1).0
ualloc_page-Grown {m} is = elim (ualloc_pages-Granted 1 is (omega arith)) [
  | inl r ↦ rw r.same (Grown-refl is)
  | inr (p, g) ↦ Taken-Grown (g.taken (omega (arith, g.managed)))
]

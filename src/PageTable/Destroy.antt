-- ===== src/PageTable/Destroy.antt =====
-- `pagetable_destroy`: which pages it gives back.
use little_os.Base.{
  ℕ, zero, suc, ◌+◌, ◌*◌, ◌/◌, ◌≡◌, ◌==◌, ◌&&◌, ◌||◌, Bool, refl, ap₂, ◌∙◌, arith, false, ltb,
  if◌then◌else◌, Bool-cases, inl, inr,
}
use little_os.Base.Word.{sub32}
use little_os.Mem.{Memory, read32}
use little_os.Bitmap.Bit.{IsBytes, bitmap_set_bit-get, bitmap_set_bit-IsBytes, count-bitmap_set_bit}
use little_os.Memory.{AddrAlloc, kfree_pages}
use little_os.Memory.Pages.{in_use}
use little_os.PageTable.{
  Paging, present, entry_addr, entry_size, free_pages, free_tables, pagetable_destroy,
}

-- The page of an address, in a manager of pages of `size` bytes from `start` on.
abbrev pub index_of : ℕ → ℕ → ℕ → ℕ
index_of start size a = sub32 a start / size

module _ (start size : ℕ) (mem : Memory) where
  -- Page `j` is that of one of the `k` entries from `pte` on that are present.
  unfoldable pub held : ℕ → ℕ → ℕ → Bool
  held j zero pte = false
  held j (suc k) pte =
      let v = read32 mem pte in
      (present v == 1 && index_of start size (entry_addr v) == j) || held j k (pte + entry_size)

  -- Page `j` is a table of one of the `k` directory entries from `pde` on, or one that such a
  -- table maps.
  unfoldable pub held_by_tables : ℕ → ℕ → ℕ → Bool
  unfolding held
  held_by_tables j zero pde = false
  held_by_tables j (suc k) pde =
      let v = read32 mem pde in
      (present v == 1 && (held j 1024 (entry_addr v) || index_of start size (entry_addr v) == j))
      || held_by_tables j k (pde + entry_size)

-- `v` is `w` with the pages given back that `gone` says.
pub record Less (w : AddrAlloc) (gone : ℕ → Bool) (v : AddrAlloc) : Type 0 where
  pub bytes : IsBytes v.bitmap.bits
  pub start : v.kernelstart ≡ w.kernelstart
  pub paged : v.page_size ≡ w.page_size
  pub count : v.bitmap.count ≡ w.bitmap.count
  pub used : (j : ℕ) → in_use v j ≡ (if ltb j w.bitmap.count && gone j then 0 else in_use w j)

Less-refl : (w : AddrAlloc) → IsBytes w.bitmap.bits → Less w (λ j. false) w
Less-refl w b = record {
  bytes = b;
  start = refl;
  paged = refl;
  count = refl;
  used = λ j. ground arith;
}

Less-trans :
    {w v u : AddrAlloc} {f g : ℕ → Bool} → Less w f v → Less v g u → Less w (λ j. f j || g j) u
Less-trans {f = f} {g = g} a b = record {
  bytes = b.bytes;
  start = rw (b.start) a.start;
  paged = rw (b.paged) a.paged;
  count = rw (b.count) a.count;
  used = λ j. ground (arith, a.used j, b.used j, a.count);
}

abbrev index_at : ℕ → ℕ → ℕ → ℕ
index_at a start size = index_of start size a

module _ (start size : ℕ) where
  kfree_page :
      (w : AddrAlloc) (a : ℕ)
      → w.kernelstart ≡ start
      → w.page_size ≡ size
      → IsBytes w.bitmap.bits
      → Less w (λ j. index_of start size a == j) (kfree_pages w a 1)
  unfolding kfree_pages
  kfree_page w a e d b =
      let index : ℕ = index_of w.kernelstart w.page_size a in
      let same : index ≡ index_of start size a = ap₂ (index_at a) e d in
      record {
        bytes = bitmap_set_bit-IsBytes w.bitmap index 1 0 b;
        start = refl;
        paged = refl;
        count = count-bitmap_set_bit w.bitmap index 1 0;
        used = λ j. ground (arith, bitmap_set_bit-get w.bitmap index 1 0 j b, same);
      }

module _ (start size : ℕ) (mem : Memory) where
  free_pages-Less :
      (k : ℕ) (w : AddrAlloc) (pte : ℕ)
      → w.kernelstart ≡ start
      → w.page_size ≡ size
      → IsBytes w.bitmap.bits
      → Less w (λ j. held start size mem j k pte) (free_pages k mem w pte)
  unfolding free_pages held
  free_pages-Less zero w pte e d b = Less-refl w b
  free_pages-Less (suc k) w pte e d b = elim (Bool-cases (present (read32 mem pte) == 1)) [
    | inl p ↦
        (let one = kfree_page start size w (entry_addr (read32 mem pte)) e d b in
          rw p (
            Less-trans one (
              free_pages-Less k (kfree_pages w (entry_addr (read32 mem pte)) 1) (pte + entry_size)
                (one.start ∙ e) (one.paged ∙ d) one.bytes)))
    | inr n ↦ rw n (free_pages-Less k w (pte + entry_size) e d b)
  ]

  free_tables-Less :
      (k : ℕ) (w : AddrAlloc) (pde : ℕ)
      → w.kernelstart ≡ start
      → w.page_size ≡ size
      → IsBytes w.bitmap.bits
      → Less w (λ j. held_by_tables start size mem j k pde) (free_tables k mem w pde)
  unfolding free_tables held_by_tables
  free_tables-Less zero w pde e d b = Less-refl w b
  free_tables-Less (suc k) w pde e d b = elim (Bool-cases (present (read32 mem pde) == 1)) [
    | inl p ↦
        (let a : ℕ = entry_addr (read32 mem pde) in
          let inner = free_pages-Less 1024 w a e d b in
          let own =
            kfree_page start size (free_pages 1024 mem w a) a (inner.start ∙ e) (inner.paged ∙ d)
              inner.bytes in
          let both = Less-trans inner own in
          rw p (
            Less-trans both (
              free_tables-Less k (kfree_pages (free_pages 1024 mem w a) a 1) (pde + entry_size)
                (both.start ∙ e) (both.paged ∙ d) both.bytes)))
    | inr n ↦ rw n (free_tables-Less k w (pde + entry_size) e d b)
  ]

destroy_from :
    (k : ℕ) (s : Paging) (dir pde : ℕ)
    → IsBytes s.manager.bitmap.bits
    → Less s.manager
        (λ j.
          held_by_tables s.manager.kernelstart s.manager.page_size s.mem j k pde
          || index_of s.manager.kernelstart s.manager.page_size dir == j)
        (kfree_pages (free_tables k s.mem s.manager pde) dir 1)
destroy_from k s dir pde b =
    let start : ℕ = s.manager.kernelstart in
    let size : ℕ = s.manager.page_size in
    let tables = free_tables-Less start size s.mem k s.manager pde refl refl b in
    Less-trans tables (
      kfree_page start size (free_tables k s.mem s.manager pde) dir tables.start tables.paged
        tables.bytes)

-- With a bitmap of bytes, pagetable_destroy gives back exactly the manager's pages that hold the
-- directory, a table that its 1024 entries name, or a page that such a table maps; every other
-- page stays as it was.
pub pagetable_destroy-Less :
    (s : Paging) (dir : ℕ)
    → IsBytes s.manager.bitmap.bits
    → Less s.manager
        (λ j.
          held_by_tables s.manager.kernelstart s.manager.page_size s.mem j 1024
            (dir + entry_size * 0)
          || index_of s.manager.kernelstart s.manager.page_size dir == j)
        (pagetable_destroy s dir).manager
unfolding pagetable_destroy
pagetable_destroy-Less s dir b = destroy_from 1024 s dir (dir + entry_size * 0) b

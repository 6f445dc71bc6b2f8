-- ===== src/PageTable/Entry.antt =====
-- The tables as the processor reads them, and what a write to an entry changes.
use little_os.Base.{
  ℕ, ◌+◌, ◌*◌, ◌/◌, ◌%◌, ◌≤◌, ◌<◌, ◌≡◌, ◌≢◌, ◌⊎◌, ◌^◌, ◌==◌, inl, inr, sym, arith, if◌then◌else◌,
  Option, some, none, Bool-cases, ==_iff, ne_of_==,
}
use native.Mathlib.Decide.{ℕ_discrete}
use little_os.Mem.{Memory, read32, write32}
use little_os.Mem.Cells.{read32-write32, read32-write32_far}
use little_os.Memory.{AddrAlloc, mem_page_size}
use little_os.Memory.Pages.{IsManager, in_use}
use little_os.PageTable.{Paging, present, entry_addr, entry_size, pde_cnt}

-- Entry `d` of the directory.
abbrev pub pde_at : Memory → ℕ → ℕ → ℕ
pde_at m dir d = read32 m (dir + entry_size * d)

-- The entry of page number `g`, and 0 where there is no table for it.
unfoldable pub entry : Memory → ℕ → ℕ → ℕ
entry m dir g =
    let pde = pde_at m dir (g / 2 ^ 10) in
    if present pde == 1 then read32 m (entry_addr pde + entry_size * (g % 2 ^ 10)) else 0

-- The physical address of a virtual one, where it is mapped.
unfoldable pub translate : Memory → ℕ → ℕ → Option ℕ
unfolding entry
translate m dir vaddr =
    let pte = entry m dir (vaddr / 2 ^ 12) in
    if present pte == 1 then some (entry_addr pte + vaddr % 2 ^ 12) else none

-- A page that the manager does not hand out.
pub record Reserved (w : AddrAlloc) (a : ℕ) : Type 0 where
  pub aligned : a % mem_page_size ≡ 0
  pub kept : (p : ℕ) → p < w.bitmap.count → in_use w p ≡ 0 → w.kernelstart + p * mem_page_size ≢ a

-- The directory at `dir` and its tables are pages apart, none of which the manager hands out.
pub record IsTables (s : Paging) (dir : ℕ) : Type 0 where
  pub manager : IsManager s.manager
  pub pages : s.manager.kernelstart % mem_page_size ≡ 0
  pub own : Reserved s.manager dir
  pub table :
      (d : ℕ)
      → d < pde_cnt
      → present (pde_at s.mem dir d) ≡ 1
      → Reserved s.manager (entry_addr (pde_at s.mem dir d))
        × (entry_addr (pde_at s.mem dir d) ≢ dir)
        × (entry_addr (pde_at s.mem dir d) ≢ 0)
  pub apart :
      (c d : ℕ)
      → c < pde_cnt
      → d < pde_cnt
      → present (pde_at s.mem dir c) ≡ 1
      → present (pde_at s.mem dir d) ≡ 1
      → entry_addr (pde_at s.mem dir c) ≡ entry_addr (pde_at s.mem dir d)
      → c ≡ d

-- Words of two pages do not overlap, nor do two words of a table.
pub pages_apart :
    (a b x y : ℕ)
    → a % mem_page_size ≡ 0
    → b % mem_page_size ≡ 0
    → a ≢ b
    → x < 1024
    → y < 1024
    → (a + entry_size * x + 4 ≤ b + entry_size * y) ⊎ (b + entry_size * y + 4 ≤ a + entry_size * x)
pages_apart a b x y ha hb ne hx hy = ground arith

pub words_apart :
    (a x y : ℕ)
    → x ≢ y
    → (a + entry_size * x + 4 ≤ a + entry_size * y) ⊎ (a + entry_size * y + 4 ≤ a + entry_size * x)
words_apart a x y ne = ground arith

module _ {s : Paging} {dir : ℕ} (is : IsTables s dir) (d x e : ℕ) (hd : d < pde_cnt) (hx : x < 1024)
    (here : present (pde_at s.mem dir d) ≡ 1) where
  abbrev put : Memory
  put = write32 s.mem (entry_addr (pde_at s.mem dir d) + entry_size * x) e

  -- A write to an entry of a table leaves the directory.
  pub put-pde_at : (c : ℕ) → c < pde_cnt → pde_at put dir c ≡ pde_at s.mem dir c
  put-pde_at c hc =
      let t = is.table d hd here in
      read32-write32_far s.mem (entry_addr (pde_at s.mem dir d) + entry_size * x) e
        (dir + entry_size * c)
        (pages_apart (entry_addr (pde_at s.mem dir d)) dir x c t.0.aligned is.own.aligned t.1 hx hc)

  abbrev slot : ℕ
  slot = entry_addr (pde_at s.mem dir d) + entry_size * x

  -- The slots of two pages do not overlap.
  far_slot :
      (c y : ℕ)
      → c < pde_cnt
      → y < 1024
      → present (pde_at s.mem dir c) ≡ 1
      → c * 2 ^ 10 + y ≢ d * 2 ^ 10 + x
      → (slot + 4 ≤ entry_addr (pde_at s.mem dir c) + entry_size * y)
        ⊎ (entry_addr (pde_at s.mem dir c) + entry_size * y + 4 ≤ slot)
  far_slot c y hc hy there ne = elim (ℕ_discrete c d) [
    | yes same ↦ rw same (words_apart (entry_addr (pde_at s.mem dir d)) x y (λ k. ne (omega arith)))
    | no other ↦
        pages_apart (entry_addr (pde_at s.mem dir d)) (entry_addr (pde_at s.mem dir c)) x y
          (is.table d hd here).0.aligned (is.table c hc there).0.aligned
          (λ k. other (sym (is.apart d c hd hc here there k))) hx hy
  ]

  put_hit : (g : ℕ) → g ≡ d * 2 ^ 10 + x → e < 2 ^ 32 → entry put dir g ≡ e
  unfolding entry
  put_hit g at he =
      let q : g / 2 ^ 10 ≡ d = omega arith in
      let r : g % 2 ^ 10 ≡ x = omega arith in
      rw (q, r, put-pde_at d hd, here, read32-write32 s.mem slot e he)

  put_miss : (g : ℕ) → g < 2 ^ 20 → g ≢ d * 2 ^ 10 + x → entry put dir g ≡ entry s.mem dir g
  unfolding entry
  put_miss g hg ne = elim (Bool-cases (present (pde_at s.mem dir (g / 2 ^ 10)) == 1)) [
    | inl p ↦
        rw (put-pde_at (g / 2 ^ 10) (omega arith), p)
          (read32-write32_far s.mem slot e
            (entry_addr (pde_at s.mem dir (g / 2 ^ 10)) + entry_size * (g % 2 ^ 10))
            (far_slot (g / 2 ^ 10) (g % 2 ^ 10) (omega arith) (omega arith) ((==_iff _ _).0 p)
              (omega arith)))
    | inr n ↦ rw (put-pde_at (g / 2 ^ 10) (omega arith), n)
  ]

  -- It changes the entry of one page.
  pub put-entry :
      (g : ℕ)
      → g < 2 ^ 20
      → e < 2 ^ 32
      → entry put dir g ≡ (if g == d * 2 ^ 10 + x then e else entry s.mem dir g)
  put-entry g hg he = elim (Bool-cases (g == d * 2 ^ 10 + x)) [
    | inl h ↦ rw h (put_hit g ((==_iff _ _).0 h) he)
    | inr n ↦ rw n (put_miss g hg (ne_of_== _ _ n))
  ]

  pub put-IsTables : IsTables (record s { mem = put }) dir
  put-IsTables = record {
    manager = is.manager;
    pages = is.pages;
    own = is.own;
    table = λ c hc. rw (put-pde_at c hc) (is.table c hc);
    apart = λ b c hb hc. rw (put-pde_at b hb, put-pde_at c hc) (is.apart b c hb hc);
  }

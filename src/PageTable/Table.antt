-- ===== src/PageTable/Table.antt =====
-- A new table in the directory: a page of zeros from the manager.
use Prim.Native.Nat.{bit_or}
use little_os.Base.{
  ℕ, ◌+◌, ◌*◌, ◌/◌, ◌%◌, ◌≤◌, ◌<◌, ◌≡◌, ◌≢◌, ◌⊎◌, ◌^◌, ◌==◌, inl, inr, sym, ◌∙◌, ap, arith, false,
  Bool-cases, ==_iff,
}
use little_os.Base.Bitwise.{bit_or-low}
use native.Mathlib.Decide.{ℕ_discrete}
use little_os.Mem.{kmemset, read32, write32}
use little_os.Mem.Cells.{read32-write32, read32-write32_far, read32-kmemset, read32-kmemset_far}
use little_os.Memory.{AddrAlloc, mem_page_size}
use little_os.Memory.Pages.{IsManager}
use little_os.Memory.Single.{Grown, TakenPage}
use little_os.PageTable.{Paging, present, entry_addr, entry_size, pde_cnt}
use little_os.PageTable.Entry.{pde_at, entry, Reserved, IsTables, pages_apart, words_apart}

pub Grown-Reserved : {m w : AddrAlloc} {a : ℕ} → Grown m w → Reserved m a → Reserved w a
Grown-Reserved g r = record {
  aligned = r.aligned;
  kept = λ p h z. rw (g.start) (r.kept p (omega (arith, h, g.count)) (g.free p z));
}

pub Grown-IsTables :
    {s : Paging} {dir : ℕ} {w : AddrAlloc}
    → Grown s.manager w
    → IsTables s dir
    → IsTables (record s { manager = w }) dir
Grown-IsTables g is = record {
  manager = g.manager;
  pages = rw (g.start) is.pages;
  own = Grown-Reserved g is.own;
  table = λ d hd p. (let r = is.table d hd p in (Grown-Reserved g r.0, r.1, r.2));
  apart = is.apart;
}

module _ {m w : AddrAlloc} {t : ℕ} (is : IsManager m) (pages : m.kernelstart % mem_page_size ≡ 0)
    (tp : TakenPage m w t) where
  pub taken-aligned : t % mem_page_size ≡ 0
  taken-aligned = omega (arith, tp.address, pages)

  pub taken_small : t + mem_page_size < 2 ^ 32
  taken_small = omega (arith, tp.address, tp.inside_page, is.fits)

  pub taken_real : t ≢ 0
  taken_real = omega (arith, tp.address, is.placed)

  pub taken_other : (a : ℕ) → Reserved m a → t ≢ a
  taken_other a r e = r.kept tp.page tp.inside_page tp.was_free (sym tp.address ∙ e)

  pub taken-Reserved : Reserved w t
  taken-Reserved = record {
    aligned = taken-aligned;
    kept = λ p h z e.
        (let same : p ≡ tp.page = omega (arith, tp.address, tp.grown.start, e) in
          absurd (omega (arith, tp.is_used, rw same at z)));
  }

-- `page_table | PDE_P | PDE_W | PDE_U`.
table_entry : (t : ℕ) → t % mem_page_size ≡ 0 → bit_or t 7 ≡ t + 7
table_entry t h =
    let e : t ≡ t / 2 ^ 12 * 2 ^ 12 = omega arith in
    ap (λ x. bit_or x 7) e ∙ bit_or-low 12 (t / 2 ^ 12) 7 (omega arith) ∙ omega arith

module _ {s : Paging} {dir : ℕ} (is : IsTables s dir) {w : AddrAlloc} {t : ℕ}
    (tp : TakenPage s.manager w t) (d : ℕ) (hd : d < pde_cnt)
    (absent : (present (pde_at s.mem dir d) == 1) ≡ false) where
  abbrev pub added : Paging
  added = record {
    mem = kmemset (write32 s.mem (dir + entry_size * d) (bit_or t 7)) t 0 mem_page_size;
    manager = w;
  }

  far_dir :
      (c : ℕ)
      → c < pde_cnt
      → (t + mem_page_size ≤ dir + entry_size * c) ⊎ (dir + entry_size * c + 4 ≤ t)
  far_dir c hc =
      let ne = taken_other is.manager is.pages tp dir is.own in
      let a = taken-aligned is.manager is.pages tp in let b = is.own.aligned in ground arith

  added_here : pde_at added.mem dir d ≡ t + 7
  added_here =
      read32-kmemset_far (write32 s.mem (dir + entry_size * d) (bit_or t 7)) t 0 mem_page_size
        (dir + entry_size * d) (far_dir d hd)
      ∙ rw (table_entry t (taken-aligned is.manager is.pages tp)) (
          read32-write32 s.mem (dir + entry_size * d) (t + 7)
            (omega (arith, taken_small is.manager is.pages tp)))

  added_there : (c : ℕ) → c < pde_cnt → c ≢ d → pde_at added.mem dir c ≡ pde_at s.mem dir c
  added_there c hc ne =
      read32-kmemset_far (write32 s.mem (dir + entry_size * d) (bit_or t 7)) t 0 mem_page_size
        (dir + entry_size * c) (far_dir c hc)
      ∙ read32-write32_far s.mem (dir + entry_size * d) (bit_or t 7) (dir + entry_size * c)
          (words_apart dir d c (λ e. ne (sym e)))

  new_addr : entry_addr (t + 7) ≡ t
  new_addr = omega (arith, taken_small is.manager is.pages tp, taken-aligned is.manager is.pages tp)

  -- What the other tables hold stays.
  added_read :
      (c y : ℕ)
      → c < pde_cnt
      → y < 1024
      → present (pde_at s.mem dir c) ≡ 1
      → read32 added.mem (entry_addr (pde_at s.mem dir c) + entry_size * y)
        ≡ read32 s.mem (entry_addr (pde_at s.mem dir c) + entry_size * y)
  added_read c y hc hy there =
      let r = is.table c hc there in
      let a : ℕ = entry_addr (pde_at s.mem dir c) in
      let ne = taken_other is.manager is.pages tp a r.0 in
      let k = taken-aligned is.manager is.pages tp in
      let b = r.0.aligned in
      read32-kmemset_far (write32 s.mem (dir + entry_size * d) (bit_or t 7)) t 0 mem_page_size
        (a + entry_size * y) (ground arith)
      ∙ read32-write32_far s.mem (dir + entry_size * d) (bit_or t 7) (a + entry_size * y)
          (pages_apart dir a d y is.own.aligned b (λ e. r.1 (sym e)) hd hy)

  pub added_present : present (pde_at added.mem dir d) ≡ 1
  added_present = rw added_here (omega (arith, taken-aligned is.manager is.pages tp))

  pub added_addr : entry_addr (pde_at added.mem dir d) ≡ t
  added_addr = rw added_here new_addr

  -- A new table changes no page's entry.
  pub added-entry : (g : ℕ) → g < 2 ^ 20 → entry added.mem dir g ≡ entry s.mem dir g
  unfolding entry
  added-entry g hg = elim (ℕ_discrete (g / 2 ^ 10) d) [
    | yes same ↦
        rw (same, absent, added_present, added_addr)
          (read32-kmemset (write32 s.mem (dir + entry_size * d) (bit_or t 7)) t mem_page_size
            (t + entry_size * (g % 2 ^ 10)) (omega arith) (omega arith) (omega arith))
    | no other ↦
        rw (added_there (g / 2 ^ 10) (omega arith) other)
          (elim (Bool-cases (present (pde_at s.mem dir (g / 2 ^ 10)) == 1)) [
            | inl p ↦ rw p (
                added_read (g / 2 ^ 10) (g % 2 ^ 10) (omega arith) (omega arith) ((==_iff _ _).0 p))
            | inr n ↦ rw n
          ])
  ]

  fresh :
      (c : ℕ) → c < pde_cnt → present (pde_at s.mem dir c) ≡ 1 → t ≢ entry_addr (pde_at s.mem dir c)
  fresh c hc there =
      taken_other is.manager is.pages tp (entry_addr (pde_at s.mem dir c)) (is.table c hc there).0

  added_apart :
      (b c : ℕ)
      → b < pde_cnt
      → c < pde_cnt
      → present (pde_at added.mem dir b) ≡ 1
      → present (pde_at added.mem dir c) ≡ 1
      → entry_addr (pde_at added.mem dir b) ≡ entry_addr (pde_at added.mem dir c)
      → b ≡ c
  added_apart b c hb hc = elim (ℕ_discrete b d) [
    | yes bd ↦ elim (ℕ_discrete c d) [
      | yes cd ↦ λ p q e. bd ∙ sym cd
      | no co ↦ rw (bd, added_addr, added_there c hc co) (λ p q e. absurd (fresh c hc q e))
    ]
    | no bo ↦ elim (ℕ_discrete c d) [
      | yes cd ↦ rw (cd, added_addr, added_there b hb bo) (λ p q e. absurd (fresh b hb p (sym e)))
      | no co ↦ rw (added_there b hb bo, added_there c hc co) (is.apart b c hb hc)
    ]
  ]

  pub added-IsTables : IsTables added dir
  added-IsTables = record {
    manager = tp.grown.manager;
    pages = rw tp.grown.start is.pages;
    own = Grown-Reserved tp.grown is.own;
    table = λ c hc p. elim (ℕ_discrete c d) [
      | yes same ↦
          rw (same, added_addr)
            (
              taken-Reserved is.manager is.pages tp,
              taken_other is.manager is.pages tp dir is.own,
              taken_real is.manager is.pages tp,
            )
      | no other ↦ rw (added_there c hc other) (
          let r = is.table c hc (rw (added_there c hc other) at p) in
          (Grown-Reserved tp.grown r.0, r.1, r.2))
    ];
    apart = added_apart;
  }

-- ===== src/PageTable/Find.antt =====
-- `find_pte`: the slot of a page, with a table made for it where there is none.
use little_os.Base.{
  ℕ, ◌+◌, ◌*◌, ◌<◌, ◌≡◌, ◌≢◌, ◌⊎◌, ◌^◌, ◌==◌, inl, inr, refl, arith, Bool-cases, ==_iff, ==_of_ne,
}
use little_os.Memory.{kalloc_pages}
use little_os.Memory.Single.{kalloc_page}
use little_os.PageTable.{
  Paging, present, entry_addr, entry_size, pde_cnt, find_pte, vaddr_dir, vaddr_table,
}
use little_os.PageTable.Entry.{pde_at, entry, IsTables}
use little_os.PageTable.Table.{
  Grown-IsTables, added_present, added_addr, added-entry, added-IsTables,
}

-- The slot that is found, in the tables of `r`: those of `s` with at most a table more.
pub record Found (s : Paging) (dir vaddr : ℕ) (r : Paging × ℕ) : Type 0 where
  pub tables : IsTables r.0 dir
  pub here : present (pde_at r.0.mem dir (vaddr_dir vaddr)) ≡ 1
  pub slot :
      r.1 ≡ entry_addr (pde_at r.0.mem dir (vaddr_dir vaddr)) + entry_size * vaddr_table vaddr
  pub real : r.1 ≢ 0
  pub same : (g : ℕ) → g < 2 ^ 20 → entry r.0.mem dir g ≡ entry s.mem dir g

-- There was no table, and no page for one: NULL, and the memory is as it was.
pub record NotFound (s : Paging) (dir vaddr : ℕ) (r : Paging × ℕ) : Type 0 where
  pub null : r.1 ≡ 0
  pub tables : IsTables r.0 dir
  pub mem : r.0.mem ≡ s.mem
  pub after : r.0.manager ≡ (kalloc_pages s.manager 1).0
  pub no_table : present (pde_at s.mem dir (vaddr_dir vaddr)) ≡ 0
  pub no_page : (kalloc_pages s.manager 1).1 ≡ 0

-- In well-formed tables, find_pte of a 32-bit address returns the slot of its page in the table
-- of the directory, with at most a new table of zeros, so that no page's entry changes and the
-- tables stay well formed; or NULL, when there is no table and the manager has no page, and then
-- the memory is as it was.
pub find_pte-Found :
    {s : Paging} {dir : ℕ} (vaddr : ℕ)
    → IsTables s dir
    → vaddr < 2 ^ 32
    → NotFound s dir vaddr (find_pte s dir vaddr) ⊎ Found s dir vaddr (find_pte s dir vaddr)
unfolding find_pte
find_pte-Found {s} {dir} vaddr is small =
    let d : ℕ = vaddr_dir vaddr in
    let hd : d < pde_cnt = omega arith in
    let page = kalloc_page is.manager in
    elim (Bool-cases (present (pde_at s.mem dir d) == 1)) [
      | inl there ↦
          (let p = (==_iff _ _).0 there in
            rw there (
              inr (record {
                tables = is;
                here = p;
                slot = refl;
                real = omega (arith, (is.table d hd p).2);
                same = λ g hg. refl;
              })))
      | inr absent ↦ rw absent (elim page.1 [
        | inl none_left ↦ rw none_left (
            inl (record {
              null = refl;
              tables = Grown-IsTables page.0 is;
              mem = refl;
              after = refl;
              no_table = ground (arith, absent);
              no_page = none_left;
            }))
        | inr (got, tp) ↦ rw (==_of_ne (kalloc_pages s.manager 1).1 0 got) (
            inr (record {
              tables = added-IsTables is tp d hd absent;
              here = added_present is tp d hd absent;
              slot = rw (added_addr is tp d hd absent);
              real = omega (arith, got);
              same = added-entry is tp d hd absent;
            }))
      ])
    ]

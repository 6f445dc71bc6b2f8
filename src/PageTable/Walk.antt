-- ===== src/PageTable/Walk.antt =====
-- What the processor translates behind `vaddr2paddr`, and `get_v2p`.
use Prim.Native.Nat.{bit_and}
use little_os.Base.{
  ℕ, ◌+◌, ◌-◌, ◌*◌, ◌/◌, ◌%◌, ◌≤◌, ◌<◌, ◌≡◌, ◌⊎◌, ◌^◌, ◌==◌, ◌&&◌, inl, inr, arith, true, leb, ltb,
  if◌then◌else◌, some, Bool-cases, ==_iff,
}
use little_os.Base.Word.{add32}
use little_os.Base.Bitwise.{bit_and-mask}
use little_os.Mem.{read32}
use little_os.Memory.{mem_page_size}
use little_os.PageTable.{
  Paging, present, entry_addr, entry_size, find_pte, vaddr2paddr, get_v2p, vaddr_dir, vaddr_table,
}
use little_os.PageTable.Entry.{pde_at, entry, translate, IsTables}
use little_os.PageTable.Mapping.{leaf, Mapped, Spent, Runs, vaddr2paddr-Runs}

-- `t` translates the addresses of `k` pages from page `g₀` on to those from `paddr` on, and all
-- others as `s` does.
pub Translates : Paging → ℕ → ℕ → ℕ → ℕ → Paging → Type 0
Translates s dir g₀ paddr k t =
    (v : ℕ)
    → v < 2 ^ 32
    → translate t.mem dir v ≡ (
        if leb g₀ (v / 2 ^ 12) && ltb (v / 2 ^ 12) (g₀ + k)
        then some (paddr + (v / 2 ^ 12 - g₀) * mem_page_size + v % 2 ^ 12)
        else translate s.mem dir v)

leaf-present : (q perm : ℕ) → q % mem_page_size ≡ 0 → (present (leaf q perm) == 1) ≡ true
leaf-present q perm h = (==_iff _ _).1 (omega arith)

leaf_addr :
    (q perm : ℕ)
    → q % mem_page_size ≡ 0
    → q + mem_page_size ≤ 2 ^ 32
    → perm < mem_page_size
    → entry_addr (leaf q perm) ≡ q
leaf_addr q perm h room small = omega arith

Mapped-Translates :
    (s t : Paging) (dir g₀ paddr perm k : ℕ)
    → Mapped s dir g₀ paddr perm k t
    → paddr + k * mem_page_size ≤ 2 ^ 32
    → paddr % mem_page_size ≡ 0
    → perm < mem_page_size
    → Translates s dir g₀ paddr k t
unfolding translate Translates
Mapped-Translates s t dir g₀ paddr perm k mp room aligned small v hv =
    let g : ℕ = v / 2 ^ 12 in
    elim (Bool-cases (leb g₀ g && ltb g (g₀ + k))) [
      | inl h ↦
          (let q : ℕ = paddr + (g - g₀) * mem_page_size in
            let lt : g - g₀ < k = ground arith in
            let whole : q % mem_page_size ≡ 0 = omega arith in
            rw (
              mp.entries g (omega arith),
              h,
              leaf-present q perm whole,
              leaf_addr q perm whole (omega arith) small,
            ))
      | inr h ↦ rw (mp.entries g (omega arith), h)
    ]

-- In well-formed tables, for a run of pages that ends within both address spaces, with aligned
-- physical pages and flags below a page's size, vaddr2paddr ends with well-formed tables by which
-- the processor translates the first k pages of the run to the physical pages from paddr on, and
-- every other address as before; k is the whole run, unless the manager had no page left for a
-- table.
pub vaddr2paddr-Translates :
    (count : ℕ) (s : Paging) (dir vaddr paddr perm : ℕ)
    → IsTables s dir
    → vaddr < 2 ^ 32
    → vaddr / 2 ^ 12 + count ≤ 2 ^ 20
    → paddr + count * mem_page_size ≤ 2 ^ 32
    → paddr % mem_page_size ≡ 0
    → perm < mem_page_size
    → (k : ℕ) × (k ≤ count)
      × ((k ≡ count) ⊎ Spent (vaddr2paddr s dir vaddr paddr count perm).manager)
      × IsTables (vaddr2paddr s dir vaddr paddr count perm) dir
      × Translates s dir (vaddr / 2 ^ 12) paddr k (vaddr2paddr s dir vaddr paddr count perm)
unfolding Runs
vaddr2paddr-Translates count s dir vaddr paddr perm is hv fit room aligned small =
    let (k, le, end, mp) =
      vaddr2paddr-Runs count s dir vaddr paddr perm is hv fit room aligned small in
    (
      k,
      le,
      end,
      mp.tables,
      Mapped-Translates s (vaddr2paddr s dir vaddr paddr count perm) dir (vaddr / 2 ^ 12) paddr perm
          k mp (omega arith) aligned small,
    )

-- The slot that the processor reads for `vaddr`.
abbrev slot : Paging → ℕ → ℕ → ℕ
slot s dir vaddr = entry_addr (pde_at s.mem dir (vaddr_dir vaddr)) + entry_size * vaddr_table vaddr

walked :
    (s : Paging) (dir vaddr a : ℕ)
    → translate s.mem dir vaddr ≡ some a
    → ((present (pde_at s.mem dir (vaddr_dir vaddr)) == 1) ≡ true)
      × (entry_addr (read32 s.mem (slot s dir vaddr)) + vaddr % 2 ^ 12 ≡ a)
unfolding translate entry
walked s dir vaddr a =
    let same : vaddr / 2 ^ 12 / 2 ^ 10 ≡ vaddr_dir vaddr = omega arith in
    rw same (λ e. ground arith)

-- Of an address that the tables map, get_v2p returns the address that the processor translates it
-- to, and changes nothing.
pub get_v2p-translate :
    (s : Paging) (dir vaddr a : ℕ)
    → translate s.mem dir vaddr ≡ some a
    → get_v2p s dir vaddr ≡ (s, a)
unfolding get_v2p find_pte
get_v2p-translate s dir vaddr a e =
    let w = walked s dir vaddr a e in
    let m : bit_and vaddr 0xFFF ≡ vaddr % 2 ^ 12 = bit_and-mask 12 vaddr in
    let r : add32 (entry_addr (read32 s.mem (slot s dir vaddr))) (vaddr % 2 ^ 12) ≡ a =
      omega (arith, w) in
    rw (w.0, m, r)

-- ===== src/PageTable/Mapping.antt =====
-- `vaddr2paddr`: a run of pages is mapped, page by page.
use Prim.Native.Nat.{bit_or}
use little_os.Base.{
  ℕ, zero, suc, ◌+◌, ◌-◌, ◌*◌, ◌/◌, ◌%◌, ◌≤◌, ◌<◌, ◌≡◌, ◌⊎◌, ◌^◌, ◌&&◌, inl, inr, refl, ap, arith,
  leb, ltb, if◌then◌else◌, ==_of_ne,
}
use little_os.Base.Word.{add32}
use little_os.Base.Bitwise.{bit_or-low, bit_or-halves, bit_or-zero}
use native.Mathlib.Decide.{ℕ_discrete}
use little_os.Mem.{write32}
use little_os.Memory.{AddrAlloc, mem_page_size, kalloc_pages}
use little_os.PageTable.{Paging, flag_p, find_pte, vaddr2paddr, vaddr_dir, vaddr_table}
use little_os.PageTable.Entry.{entry, IsTables, put-entry, put-IsTables}
use little_os.PageTable.Find.{Found, NotFound, find_pte-Found}

-- The entry of a page: its address, its flags, and the present bit.
abbrev pub leaf : ℕ → ℕ → ℕ
leaf paddr perm = paddr + perm / 2 * 2 + 1

or_one : (q : ℕ) → bit_or q 1 ≡ q / 2 * 2 + 1
or_one q = omega (arith, bit_or-halves q 1, bit_or-zero (q / 2))

leaf_lem :
    (paddr perm : ℕ)
    → paddr % mem_page_size ≡ 0
    → perm < mem_page_size
    → bit_or (bit_or paddr perm) flag_p ≡ leaf paddr perm
leaf_lem paddr perm h small =
    let q : ℕ = paddr / 2 ^ 12 in
    let e : paddr ≡ q * 2 ^ 12 = omega arith in
    rw e (rw (bit_or-low 12 q perm small, or_one (q * 2 ^ 12 + perm)) (omega arith))

-- `k` pages from page `g₀` on are mapped to the physical pages from `paddr` on, and no other.
pub record Mapped (s : Paging) (dir g₀ paddr perm k : ℕ) (t : Paging) : Type 0 where
  pub tables : IsTables t dir
  pub entries :
      (g : ℕ)
      → g < 2 ^ 20
      → entry t.mem dir g ≡ (
          if leb g₀ g && ltb g (g₀ + k)
          then leaf (paddr + (g - g₀) * mem_page_size) perm
          else entry s.mem dir g)

-- The manager had no page left for a table, and this is what it became.
unfoldable pub Spent : AddrAlloc → Type 0
Spent v = (w : AddrAlloc) × ((kalloc_pages w 1).1 ≡ 0) × (v ≡ (kalloc_pages w 1).0)

-- `vaddr2paddr` maps the first `k` pages of the run, all of them unless memory is spent.
unfoldable pub Runs : Paging → ℕ → ℕ → ℕ → ℕ → ℕ → Paging → Type 0
Runs s dir g₀ paddr perm count t =
    (k : ℕ) × (k ≤ count) × ((k ≡ count) ⊎ Spent t.manager) × Mapped s dir g₀ paddr perm k t

stopped :
    (s : Paging) (dir vaddr paddr perm count : ℕ)
    → NotFound s dir vaddr (find_pte s dir vaddr)
    → Runs s dir (vaddr / 2 ^ 12) paddr perm count (find_pte s dir vaddr).0
unfolding Runs Spent
stopped s dir vaddr paddr perm count n = (
  0,
  omega arith,
  inr (s.manager, n.no_page, n.after),
  record { tables = n.tables; entries = λ g hg. rw n.mem (ground arith) },
)

abbrev mapped : Paging → ℕ → ℕ → ℕ → ℕ → Paging
mapped s dir vaddr paddr perm = record (find_pte s dir vaddr).0 {
  mem =
      write32 (find_pte s dir vaddr).0.mem (find_pte s dir vaddr).1
        (bit_or (bit_or paddr perm) flag_p);
}

module _ (s : Paging) (dir vaddr paddr perm : ℕ) (hv : vaddr < 2 ^ 32)
    (hp : paddr + mem_page_size ≤ 2 ^ 32) (aligned : paddr % mem_page_size ≡ 0)
    (small : perm < mem_page_size) where
  one_page :
      Found s dir vaddr (find_pte s dir vaddr)
      → Mapped s dir (vaddr / 2 ^ 12) paddr perm 1 (mapped s dir vaddr paddr perm)
  one_page f =
      let hd : vaddr_dir vaddr < 1024 = omega arith in
      let hx : vaddr_table vaddr < 1024 = omega arith in
      let e = leaf_lem paddr perm aligned small in
      let bound : leaf paddr perm < 2 ^ 32 = omega arith in
      rw (f.slot, e)
        (record {
          tables =
              put-IsTables f.tables (vaddr_dir vaddr) (vaddr_table vaddr) (leaf paddr perm) hd hx
                f.here;
          entries = λ g hg. ground (
            arith,
            put-entry f.tables (vaddr_dir vaddr) (vaddr_table vaddr) (leaf paddr perm) hd hx f.here
                g hg bound,
            f.same g hg,
          );
        })

-- The rest of the run behind its first page.
further :
    (s m : Paging) (dir g₀ g₁ paddr paddr₁ perm count : ℕ) (t : Paging)
    → (count ≡ 0) ⊎ ((g₁ ≡ g₀ + 1) × (paddr₁ ≡ paddr + mem_page_size))
    → Mapped s dir g₀ paddr perm 1 m
    → Runs m dir g₁ paddr₁ perm count t
    → Runs s dir g₀ paddr perm (suc count) t
unfolding Runs
further s m dir g₀ g₁ paddr paddr₁ perm count t on one (k, le, end, rest) = (
  suc k,
  omega arith,
  (elim end [ inl e ↦ inl (ap suc e) | inr e ↦ inr e ]),
  record {
    tables = rest.tables;
    entries = λ g hg. ground (arith, rest.entries g hg, one.entries g hg);
  },
)

onward :
    (vaddr paddr count : ℕ)
    → vaddr / 2 ^ 12 + suc count ≤ 2 ^ 20
    → paddr + suc count * mem_page_size ≤ 2 ^ 32
    → (count ≡ 0)
      ⊎ ((add32 vaddr mem_page_size / 2 ^ 12 ≡ vaddr / 2 ^ 12 + 1)
          × (add32 paddr mem_page_size ≡ paddr + mem_page_size))
onward vaddr paddr count fit room = elim (ℕ_discrete count 0) [
  | yes e ↦ inl e
  | no ne ↦ inr (omega arith, omega arith)
]

-- In well-formed tables, `vaddr2paddr` maps a run of pages to physical pages from a page's address
-- on, with the flags of `perm`: it maps the first `k` pages, and fewer than all only if the
-- manager had no page left for a table. No other page's entry changes, and the tables stay well formed.
pub vaddr2paddr-Runs :
    (count : ℕ) (s : Paging) (dir vaddr paddr perm : ℕ)
    → IsTables s dir
    → vaddr < 2 ^ 32
    → vaddr / 2 ^ 12 + count ≤ 2 ^ 20
    → paddr + count * mem_page_size ≤ 2 ^ 32
    → paddr % mem_page_size ≡ 0
    → perm < mem_page_size
    → Runs s dir (vaddr / 2 ^ 12) paddr perm count (vaddr2paddr s dir vaddr paddr count perm)
unfolding vaddr2paddr Runs
vaddr2paddr-Runs zero s dir vaddr paddr perm is hv fit room aligned small =
    (0, omega arith, inl refl, record { tables = is; entries = λ g hg. ground arith })
vaddr2paddr-Runs (suc count) s dir vaddr paddr perm is hv fit room aligned small =
    elim (find_pte-Found vaddr is hv) [
      | inl n ↦ rw (n.null) (stopped s dir vaddr paddr perm (suc count) n)
      | inr f ↦
          (let one = one_page s dir vaddr paddr perm hv (omega arith) aligned small f in
            rw (==_of_ne (find_pte s dir vaddr).1 0 f.real) (
              further s (mapped s dir vaddr paddr perm) dir (vaddr / 2 ^ 12)
                (add32 vaddr mem_page_size / 2 ^ 12) paddr (add32 paddr mem_page_size) perm count
                (vaddr2paddr (mapped s dir vaddr paddr perm) dir (add32 vaddr mem_page_size)
                  (add32 paddr mem_page_size) count perm)
                (onward vaddr paddr count fit room) one
                (vaddr2paddr-Runs count (mapped s dir vaddr paddr perm) dir
                  (add32 vaddr mem_page_size) (add32 paddr mem_page_size) perm one.tables
                  (omega arith) (omega arith) (omega arith) (omega arith) small)))
    ]

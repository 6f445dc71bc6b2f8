-- ===== src/Gdt/Alloc.antt =====
-- `gdt_alloc_seg` and `gdt_init`: which descriptors are free.
use little_os.Base.{
  ℕ, zero, suc, ◌+◌, ◌*◌, ◌≤◌, ◌<◌, ◌^◌, ◌≡◌, ◌≢◌, refl, arith, if◌then◌else◌, Option, none, some,
  ltb, leb, ◌&&◌, ◌==◌, Bool-cases, inl, inr, ==_iff, ne_of_==,
}
use native.Mathlib.Decide.{ℕ_discrete}
use little_os.Gdt.{
  GdtTable, GdtEntry, gdt_size, entry_bytes, alloc_loop, gdt_alloc_seg, clear_loop, gdt_init,
  segment_desc, gdt_segment_set, seg_code, seg_data, seg_dpl3,
}

-- The answer of the search from descriptor `i` on: the first one whose attributes are 0, as a
-- selector; or none, and all of them up to the end of the table are in use.
abbrev pub FirstFree : GdtTable → ℕ → Option ℕ → Type 0
FirstFree t i none = (j : ℕ) → i ≤ j → j < gdt_size → (t j).attributes ≢ 0
FirstFree t i (some s) =
    (j : ℕ) × (s ≡ j * entry_bytes)
    × (i ≤ j)
    × (j < gdt_size)
    × ((t j).attributes ≡ 0)
    × ((q : ℕ) → i ≤ q → q < j → (t q).attributes ≢ 0)

skip :
    (t : GdtTable) (i : ℕ) (r : Option ℕ)
    → (t i).attributes ≢ 0
    → FirstFree t (i + 1) r
    → FirstFree t i r
skip t i none used f =
    λ j. elim (ℕ_discrete j i) [ yes e ↦ λ _ _. rw e used | no e ↦ λ lo hi. f j (omega arith) hi ]
skip t i (some s) used (j, at, lo, hi, free, before) = (
  j,
  at,
  omega arith,
  hi,
  free,
  λ q. elim (ℕ_discrete q i) [ yes e ↦ λ _ _. rw e used | no e ↦ λ l h. before q (omega arith) h ],
)

alloc_loop-FirstFree :
    (k : ℕ) (t : GdtTable) (i : ℕ) → i + k ≡ gdt_size → FirstFree t i (alloc_loop k t i)
unfolding alloc_loop
alloc_loop-FirstFree zero t i e = λ j lo hi. absurd (omega arith)
alloc_loop-FirstFree (suc k) t i e = elim (Bool-cases ((t i).attributes == 0)) [
  | inl free ↦
      rw free
        (i, refl, omega arith, omega arith, (==_iff _ _).0 free, λ q lo hi. absurd (omega arith))
  | inr used ↦ rw used (
      skip t i (alloc_loop k t (i + 1)) (ne_of_== _ _ used)
        (alloc_loop-FirstFree k t (i + 1) (omega arith)))
]

-- gdt_alloc_seg returns the selector of the first descriptor behind the null descriptor whose
-- attributes are 0, and -1 only when all 255 are in use.
pub gdt_alloc_seg-FirstFree : (t : GdtTable) → FirstFree t 1 (gdt_alloc_seg t)
unfolding gdt_alloc_seg
gdt_alloc_seg-FirstFree t = alloc_loop-FirstFree 255 t 1 refl

pub clear_loop-get :
    (k : ℕ) (t : GdtTable) (i q : ℕ)
    → clear_loop k t i q ≡ (if leb i q && ltb q (i + k) then segment_desc 0 0 0 else t q)
unfolding clear_loop gdt_segment_set
clear_loop-get zero t i q = ground arith
clear_loop-get (suc k) t i q =
    ground (arith, clear_loop-get k (gdt_segment_set t (i * 2 ^ 3) 0 0 0) (i + 1) q)

-- What `gdt_init` leaves at index `q`.
abbrev pub initial : GdtTable → ℕ → GdtEntry
initial t q =
    if q == 5
    then segment_desc 0xFFFFFFFF 0 (seg_data + seg_dpl3)
    else if q == 4
    then segment_desc 0xFFFFFFFF 0 (seg_code + seg_dpl3)
    else if q == 2
    then segment_desc 0xFFFFFFFF 0 seg_data
    else if q == 1
    then segment_desc 0xFFFFFFFF 0 seg_code
    else if ltb q gdt_size
    then segment_desc 0 0 0
    else t q

-- gdt_init fills all 256 descriptors, whatever they held: flat code and data segments at 1 and 2
-- for the kernel and at 4 and 5 for user programs, and zeros elsewhere.
pub gdt_init-get : (t : GdtTable) (q : ℕ) → gdt_init t q ≡ initial t q
unfolding gdt_init gdt_segment_set
gdt_init-get t q = ground (arith, clear_loop-get 256 t 0 q)

-- The first descriptor that `gdt_alloc_seg` hands out after `gdt_init` is number 3.
pub gdt_alloc_seg-gdt_init : (t : GdtTable) → gdt_alloc_seg (gdt_init t) ≡ some 24
unfolding gdt_alloc_seg gdt_init clear_loop segment_desc
gdt_alloc_seg-gdt_init t = refl

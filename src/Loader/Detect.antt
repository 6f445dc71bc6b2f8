-- ===== src/Loader/Detect.antt =====
-- `detect_method1`: which blocks of memory it notes, and when it ends.
use little_os.Base.{
  ℕ, zero, suc, ◌+◌, ◌<◌, ◌≡◌, ◌==◌, ◌||◌, not, refl, ap, update, arith, if◌then◌else◌, some, none,
  List, [], ◌∷◌, length, get_elem?, Bool-cases, inl, inr, ==_iff,
}
use native.Mathlib.Nat.{add-zero}
use little_os.Memory.{MemInfo, MemBlock}
use little_os.Loader.{Reply, smap, max_mem_length, note_entry, detect_loop, detect_method1}

-- The replies of the BIOS that are read to the end, at most `k` from number `i` on: up to the
-- last one, which has a `count_id` of 0 and is not 20 bytes long, or a reply without the signature.
unfoldable pub taken : ℕ → (ℕ → Reply) → ℕ → List Reply
taken zero bios i = []
taken (suc k) bios i =
    let r = bios i in
    let rest = taken k bios (i + 1) in
    if r.signature == smap
    then (if r.blength == 20 || not (r.count_id == 0) then r ∷ rest else r ∷ [])
    else []

-- The blocks of usable memory among them.
unfoldable pub usable : List Reply → List MemBlock
usable [] = []
usable (r ∷ rs) =
    if r.entry.kind == 1
    then record { start = r.entry.base_l; offset = r.entry.length_l } ∷ usable rs
    else usable rs

-- `mem'` is `mem` with the blocks `bs` behind the others.
pub record Noted (mem : MemInfo) (bs : List MemBlock) (mem' : MemInfo) : Type 0 where
  pub count : mem'.count ≡ mem.count + length bs
  pub noted : (j : ℕ) → j < length bs → some (mem'.info (mem.count + j)) ≡ get_elem? bs j
  pub before : (j : ℕ) → j < mem.count → mem'.info j ≡ mem.info j

Noted-nil : (mem : MemInfo) → Noted mem [] mem
Noted-nil mem = record {
  count = omega arith;
  noted = λ j h. absurd (omega arith);
  before = λ j h. refl;
}

Noted-cons :
    (b : MemBlock) (bs : List MemBlock) (mem mem' : MemInfo)
    → Noted (record { info = update mem.info mem.count b; count = mem.count + 1 }) bs mem'
    → Noted mem (b ∷ bs) mem'
Noted-cons b bs mem mem' n = record {
  count = omega (arith, n.count);
  noted = found;
  before = λ j h. ground (arith, n.before j);
}
  where
    at_end : mem'.info mem.count ≡ b
    at_end = ground (arith, n.before mem.count)

    found : (j : ℕ) → j < suc (length bs) → some (mem'.info (mem.count + j)) ≡ get_elem? (b ∷ bs) j
    found zero h = rw (add-zero mem.count, at_end)
    found (suc j) h =
        let e : mem.count + suc j ≡ mem.count + 1 + j = omega arith in
        rw e (n.noted j (omega arith))

Noted-step :
    (r : Reply) (rs : List Reply) (mem mem' : MemInfo)
    → Noted (note_entry r.entry mem) (usable rs) mem'
    → Noted mem (usable (r ∷ rs)) mem'
unfolding usable
Noted-step r rs mem mem' n = elim (Bool-cases (r.entry.kind == 1)) [
  | inl is_usable ↦ rw is_usable (
      Noted-cons (record { start = r.entry.base_l; offset = r.entry.length_l }) (usable rs) mem mem'
        (rw is_usable at n))
  | inr other ↦ rw other (rw other at n)
]

detect_loop-Noted :
    (k : ℕ) (bios : ℕ → Reply) (i : ℕ) (mem : MemInfo)
    → Noted mem (usable (taken k bios i)) (detect_loop k bios i mem).0
unfolding detect_loop taken usable
detect_loop-Noted zero bios i mem = Noted-nil mem
detect_loop-Noted (suc k) bios i mem =
    let r : Reply = bios i in
    let onward =
      Noted-step r (taken k bios (i + 1)) mem
        (detect_loop k bios (i + 1) (note_entry r.entry mem)).0
        (detect_loop-Noted k bios (i + 1) (note_entry r.entry mem)) in
    elim (Bool-cases (r.signature == smap)) [
      | inr wrong ↦ rw wrong (Noted-nil mem)
      | inl right ↦ elim (Bool-cases (r.blength == 20)) [
        | inl short ↦ rw (right, short) onward
        | inr long ↦ elim (Bool-cases (r.count_id == 0)) [
          | inl last ↦
              rw (right, long, last)
                (Noted-step r [] mem (note_entry r.entry mem) (Noted-nil (note_entry r.entry mem)))
          | inr more ↦ rw (right, long, more) onward
        ]
      ]
    ]

-- All replies from number `i` on.
unfoldable pub replies : ℕ → (ℕ → Reply) → ℕ → List Reply
replies zero bios i = []
replies (suc k) bios i = bios i ∷ replies k bios (i + 1)

detect_loop_short :
    (k : ℕ) (bios : ℕ → Reply) (i : ℕ) (mem : MemInfo)
    → ((j : ℕ) → (bios j).signature ≡ smap)
    → ((j : ℕ) → (bios j).blength ≡ 20)
    → ((detect_loop k bios i mem).1 ≡ none) × (taken k bios i ≡ replies k bios i)
unfolding detect_loop taken replies
detect_loop_short zero bios i mem s b = (refl, refl)
detect_loop_short (suc k) bios i mem s b =
    let r = detect_loop_short k bios (i + 1) (note_entry (bios i).entry mem) s b in
    rw ((==_iff _ _).1 (s i), (==_iff _ _).1 (b i)) (r.0, ap (λ rs. bios i ∷ rs) r.1)

-- When the record is empty and the BIOS answers every call with the signature and entries of 20
-- bytes, detect_method1 notes the usable memory of all 20 replies, in their order, also of those
-- behind the one that says it is the last, and ends without a result.
pub detect_method1_short :
    (bios : ℕ → Reply) (mem : MemInfo)
    → mem.count ≡ 0
    → ((j : ℕ) → (bios j).signature ≡ smap)
    → ((j : ℕ) → (bios j).blength ≡ 20)
    → ((detect_method1 bios mem).1 ≡ none)
      × Noted mem (usable (replies max_mem_length bios 0)) (detect_method1 bios mem).0
unfolding detect_method1
detect_method1_short bios mem empty s b =
    let r = detect_loop_short 20 bios 0 mem s b in
    (r.0, rw r.1 at (detect_loop-Noted 20 bios 0 mem))

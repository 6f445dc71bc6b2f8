-- ===== src/Gdt/Fields.antt =====
-- The fields of a descriptor, and how the processor reads them.
use Prim.Native.Nat.{bit_or}
use little_os.Base.{
  ℕ, ◌+◌, ◌*◌, ◌/◌, ◌%◌, ◌^◌, ◌<◌, ◌≡◌, arith, if◌then◌else◌, ltb, ◌∙◌, ap, inl, inr, Bool-cases,
  sym, ltb→ge, lt→ltb, ge→ltb, true, false,
}
use little_os.Base.Bitwise.{bit_and-mask, bit_or-fields, bit_or-low, bit_or-zero}
use little_os.Gdt.{GdtEntry, segment_desc}

-- How the processor reads a descriptor: the base, the limit in units, and their size.
abbrev pub base_of : GdtEntry → ℕ
base_of d = d.base_low + d.base_middle * 2 ^ 16 + d.base_high * 2 ^ 24

abbrev pub units_of : GdtEntry → ℕ
units_of d = d.limit_low + d.attributes / 2 ^ 8 % 2 ^ 4 * 2 ^ 16

abbrev pub granular : GdtEntry → ℕ
granular d = d.attributes / 2 ^ 15

-- The last offset of the segment: with granularity the limit counts pages.
abbrev pub last_offset : GdtEntry → ℕ
last_offset d = if ltb 0 (granular d) then units_of d * 0x1000 + 0xFFF else units_of d

-- Of a descriptor made from a 32-bit base, the processor reads that base from its three fields,
-- whatever the limit and the attributes.
pub segment_desc-base :
    (limit base attr : ℕ) → base < 2 ^ 32 → base_of (segment_desc limit base attr) ≡ base
unfolding segment_desc
segment_desc-base limit base attr h =
    omega
      (arith, bit_and-mask 16 base, bit_and-mask 8 (base / 2 ^ 16), bit_and-mask 8 (base / 2 ^ 24))

-- Attributes with a free field for the limit: flags above it, access bits below.
join_limit :
    (flags access high : ℕ)
    → flags < 16
    → access < 256
    → high < 16
    → bit_or (flags * 2 ^ 12 + access) (high * 2 ^ 8) ≡ flags * 2 ^ 12 + high * 2 ^ 8 + access
join_limit flags access high hf ha hh =
    let e : flags * 2 ^ 12 + access ≡ flags * 16 * 2 ^ 8 + access = omega arith in
    let d : high * 2 ^ 8 ≡ high * 2 ^ 8 + 0 = omega arith in
    ap (λ x. bit_or x (high * 2 ^ 8)) e
    ∙ ap (bit_or (flags * 16 * 2 ^ 8 + access)) d
    ∙ bit_or-fields (flags * 16) high 8 access 0 ha (omega arith)
    ∙ rw (bit_or-low 4 flags high hh, bit_or-zero access) (omega arith)

set_granular :
    (flags access : ℕ)
    → flags < 8
    → access < 2 ^ 12
    → bit_or (flags * 2 ^ 12 + access) 0x8000 ≡ (flags + 8) * 2 ^ 12 + access
set_granular flags access hf ha =
    let e : bit_or (0 * 2 ^ 3 + flags) (1 * 2 ^ 3 + 0) ≡ bit_or 0 1 * 2 ^ 3 + bit_or flags 0 =
      bit_or-fields 0 1 3 flags 0 hf (omega arith) in
    let d : 0 * 2 ^ 3 + flags ≡ flags = omega arith in
    let top : bit_or flags 8 ≡ flags + 8 =
      ap (λ x. bit_or x 8) (sym d) ∙ e ∙ rw (bit_or-zero flags) (omega arith) in
    bit_or-fields flags 8 12 access 0 ha (omega arith) ∙ rw (top, bit_or-zero access)

module _ (limit base flags access : ℕ) (hl : limit < 2 ^ 32) (hf : flags < 8)
    (ha : access < 256) where
  abbrev desc : GdtEntry
  desc = segment_desc limit base (flags * 2 ^ 12 + access)

  small_fields :
      ltb 0xFFFFF limit ≡ false
      → (desc.limit_low ≡ limit % 2 ^ 16)
        × (desc.attributes ≡ flags * 2 ^ 12 + limit / 2 ^ 16 * 2 ^ 8 + access)
  unfolding segment_desc
  small_fields e =
      let h : limit / 2 ^ 16 < 16 = omega (arith, ltb→ge 0xFFFFF limit e) in
      rw (e, bit_and-mask 16 limit, bit_and-mask 4 (limit / 2 ^ 16))
        (omega (
          arith,
          ltb→ge 0xFFFFF limit e,
          join_limit flags access (limit / 2 ^ 16 % 2 ^ 4) (omega arith) ha (omega arith),
        ))

  large_fields :
      ltb 0xFFFFF limit ≡ true
      → (desc.limit_low ≡ limit / 2 ^ 12 % 2 ^ 16)
        × (desc.attributes ≡ (flags + 8) * 2 ^ 12 + limit / 2 ^ 28 * 2 ^ 8 + access)
  unfolding segment_desc
  large_fields e =
      rw
        (
          e,
          set_granular flags access hf (omega arith),
          bit_and-mask 16 (limit / 2 ^ 12),
          bit_and-mask 4 (limit / 2 ^ 12 / 2 ^ 16),
        )
        (omega (
          arith,
          join_limit (flags + 8) access (limit / 2 ^ 12 / 2 ^ 16 % 2 ^ 4) (omega arith) ha
              (omega arith),
        ))

  -- Of a descriptor made from a 32-bit limit, 3 flag bits and 8 access bits, the processor
  -- reads a segment that ends at the limit up to 1 MB, and above at the end of the limit's
  -- page; the flags and the access bits come back.
  pub segment_desc-limit :
      (last_offset desc ≡ (if ltb 0xFFFFF limit then limit / 0x1000 * 0x1000 + 0xFFF else limit))
      × (desc.attributes % 2 ^ 8 ≡ access)
      × (desc.attributes / 2 ^ 12 % 2 ^ 3 ≡ flags)
  segment_desc-limit = elim (Bool-cases (ltb 0xFFFFF limit)) [
    | inl e ↦
        (let f = large_fields e in
          let g : ltb 0 (granular desc) ≡ true = lt→ltb 0 (granular desc) (omega arith) in
          rw (e, g) (omega arith, omega arith, omega arith))
    | inr e ↦
        (let f = small_fields e in
          let h : limit < 2 ^ 20 = omega (arith, ltb→ge 0xFFFFF limit e) in
          let g : ltb 0 (granular desc) ≡ false = ge→ltb 0 (granular desc) (omega arith) in
          rw (e, g) (omega arith, omega arith, omega arith))
  ]

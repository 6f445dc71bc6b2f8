-- ===== src/Loader/Sectors.antt =====
-- `load2mem`: the words that the disk gives are in memory, one sector behind the other.
use native.Mathlib.Decide.{dec_lt}
use Prim.Native.Nat.{bit_and}
use little_os.Base.{
  ℕ, zero, suc, ◌+◌, ◌-◌, ◌*◌, ◌/◌, ◌≤◌, ◌<◌, ◌≡◌, ◌⊎◌, ◌^◌, List, [], ◌∷◌, ◌==◌, refl, ◌∙◌, ap,
  arith, true, some, if◌then◌else◌, Bool-cases, inl, inr, update, ==_iff,
}
use little_os.Base.Word.{u8}
use little_os.Mem.{Memory}
use little_os.Loader.{sector_commands, wait_ready, read_words, sector_words, read_sectors, load2mem}

-- `m'` is `m` with the `n` words from number `i` on, stored from `buf` on, the low byte first.
abbrev pub Stored : Memory → Memory → (ℕ → ℕ) → ℕ → ℕ → ℕ → Type 0
Stored m m' words i n buf =
    ((x : ℕ)
      → x < n
      → (m' (buf + 2 * x) ≡ u8 (words (i + x)))
        × (m' (buf + 2 * x + 1) ≡ u8 (words (i + x) / 2 ^ 8)))
    × ((p : ℕ) → (p < buf) ⊎ (buf + 2 * n ≤ p) → m' p ≡ m p)

Stored-none : (m : Memory) (words : ℕ → ℕ) (i buf : ℕ) → Stored m m words i 0 buf
Stored-none m words i buf = ((λ x h. absurd (omega arith)), λ p out. refl)

Stored-append :
    (m m₁ m₂ : Memory) (words : ℕ → ℕ) (i a b n buf : ℕ)
    → n ≡ a + b
    → Stored m m₁ words i a buf
    → Stored m₁ m₂ words (i + a) b (buf + 2 * a)
    → Stored m m₂ words i n buf
Stored-append m m₁ m₂ words i a b n buf total (here, out) (here₂, out₂) = (
  (λ x h. elim (dec_lt x a) [
    | yes l ↦ (out₂ _ (inl (omega arith)) ∙ (here x l).0, out₂ _ (inl (omega arith)) ∙ (here x l).1)
    | no g ↦
        (let r = here₂ (x - a) (omega arith) in
          (
            ap m₂ (omega arith) ∙ r.0 ∙ ap (λ j. u8 (words j)) (omega arith),
            ap m₂ (omega arith) ∙ r.1 ∙ ap (λ j. u8 (words j / 2 ^ 8)) (omega arith),
          ))
  ]),
  λ p o. out₂ p (omega (arith, o)) ∙ out p (omega (arith, o)),
)

Stored-one :
    (m : Memory) (words : ℕ → ℕ) (i buf : ℕ)
    → Stored m (update (update m buf (u8 (words i))) (buf + 1) (u8 (words i / 2 ^ 8))) words i 1 buf
Stored-one m words i buf = (
  (λ x h.
      let at : words (i + x) ≡ words i = ap words (omega arith) in
      (ground (arith, at), ground (arith, at))),
  λ p o. ground (arith, o),
)

Stored-words :
    (k : ℕ) (words : ℕ → ℕ) (i : ℕ) (m : Memory) (buf : ℕ)
    → Stored m (read_words k words i m buf) words i k buf
unfolding read_words
Stored-words zero words i m buf = Stored-none m words i buf
Stored-words (suc k) words i m buf =
    Stored-append m _ _ words i 1 k (suc k) buf (omega arith) (Stored-one m words i buf) (
      Stored-words k words (i + 1)
        (update (update m buf (u8 (words i))) (buf + 1) (u8 (words i / 2 ^ 8))) (buf + 2))

-- The disk is found ready by one of `fuel` polls, from any poll on.
abbrev pub IsReady : ℕ → (ℕ → ℕ) → Type 0
IsReady fuel status = (t : ℕ) → (d : ℕ) × (d < fuel) × (bit_and (status (t + d)) 0x88 ≡ 0x8)

wait_ready-ready :
    (k : ℕ) (status : ℕ → ℕ) (t d : ℕ)
    → d < k
    → bit_and (status (t + d)) 0x88 ≡ 0x8
    → (t' : ℕ) × (wait_ready k status t ≡ some t')
unfolding wait_ready
wait_ready-ready zero status t d h e = absurd (omega arith)
wait_ready-ready (suc k) status t zero h e =
    let ready : (bit_and (status t) 0x88 == 0x8) ≡ true =
      (==_iff _ _).1 (ap (λ j. bit_and (status j) 0x88) (omega arith) ∙ e) in
    (t + 1, rw ready)
wait_ready-ready (suc k) status t (suc d) h e = elim (Bool-cases (bit_and (status t) 0x88 == 0x8)) [
  | inl ready ↦ (t + 1, rw ready)
  | inr busy ↦
      (let later : bit_and (status (t + 1 + d)) 0x88 ≡ 0x8 =
          ap (λ j. bit_and (status j) 0x88) (omega arith) ∙ e in
        let r = wait_ready-ready k status (t + 1) d (omega arith) later in (r.0, rw busy r.1))
]

abbrev Ended : ℕ → ℕ → (ℕ → ℕ) → (ℕ → ℕ) → ℕ → ℕ → Memory → ℕ → Type 0
Ended k fuel status words t i m buf =
    (m' : Memory) × (read_sectors k fuel status words t i m buf ≡ some m')
    × Stored m m' words i (sector_words * k) buf

next_sector :
    (k fuel : ℕ) (status words : ℕ → ℕ) (t i : ℕ) (m : Memory) (buf : ℕ)
    → (w : (t' : ℕ) × (wait_ready fuel status t ≡ some t'))
    → Ended k fuel status words w.0
        (i + sector_words)
        (read_words sector_words words i m buf)
        (buf + 2 * sector_words)
    → Ended (suc k) fuel status words t i m buf
unfolding read_sectors
next_sector k fuel status words t i m buf (t', waited) (m', run, stored) = (
  m',
  rw (waited, run),
  Stored-append m (read_words sector_words words i m buf) m' words i sector_words (sector_words * k)
      (sector_words * suc k) buf (omega arith) (Stored-words sector_words words i m buf) stored,
)

read_sectors-Stored :
    (k fuel : ℕ) (status words : ℕ → ℕ) (t i : ℕ) (m : Memory) (buf : ℕ)
    → IsReady fuel status
    → Ended k fuel status words t i m buf
unfolding read_sectors
read_sectors-Stored zero fuel status words t i m buf ready = (m, refl, Stored-none m words i buf)
read_sectors-Stored (suc k) fuel status words t i m buf ready =
    let (d, h, e) = ready t in
    let w = wait_ready-ready fuel status t d h e in
    next_sector k fuel status words t i m buf w
      (read_sectors-Stored k fuel status words w.0 (i + sector_words) _ _ ready)

-- What a register of the disk holds behind a row of writes: the last byte and the one before it.
abbrev pub latched : ℕ → List (ℕ × ℕ) → ℕ × ℕ → ℕ × ℕ
latched port [] held = held
latched port ((p, b) ∷ rest) held = latched port rest (if p == port then (b, held.0) else held)

-- The last write.
abbrev pub last_write : List (ℕ × ℕ) → ℕ × ℕ → ℕ × ℕ
last_write [] w = w
last_write (w ∷ rest) _ = last_write rest w

-- How the disk reads the writes to its ports: a count of 16 bits and a sector of 48, the high half
-- of each written first, the drive, and behind them the command READ SECTORS EXT.
pub record Requests (writes : List (ℕ × ℕ)) (sector sector_count : ℕ) : Type 0 where
  pub count :
      (latched 0x1F2 writes (0, 0)).0 + 2 ^ 8 * (latched 0x1F2 writes (0, 0)).1 ≡ sector_count
  pub address :
      (latched 0x1F3 writes (0, 0)).0
        + 2 ^ 8 * (latched 0x1F4 writes (0, 0)).0
        + 2 ^ 16 * (latched 0x1F5 writes (0, 0)).0
        + 2 ^ 24 * (latched 0x1F3 writes (0, 0)).1
        + 2 ^ 32 * (latched 0x1F4 writes (0, 0)).1
        + 2 ^ 40 * (latched 0x1F5 writes (0, 0)).1
      ≡ sector
  pub drive : (latched 0x1F6 writes (0, 0)).0 ≡ 0xE0
  pub command : last_write writes (0, 0) ≡ (0x1F7, 0x24)

sector_commands-Requests :
    (sector sector_count : ℕ)
    → sector < 2 ^ 32
    → sector_count < 2 ^ 16
    → Requests (sector_commands sector sector_count) sector sector_count
sector_commands-Requests sector sector_count hs hc = record {
  count = omega (arith, hc);
  address = omega (arith, hs);
  drive = refl;
  command = refl;
}

-- For a 32-bit sector and a 16-bit count, when from any poll on the disk is found ready within
-- the fuel, load2mem ends, has written to the disk's ports what the disk reads as that sector,
-- that count and, last, the command to read, and has stored the words it read one behind the
-- other, 256 for each sector, the low byte first, changing no other byte.
pub load2mem-Stored :
    (fuel : ℕ) (status words : ℕ → ℕ) (m : Memory) (sector sector_count buf : ℕ)
    → sector < 2 ^ 32
    → sector_count < 2 ^ 16
    → IsReady fuel status
    → (writes : List (ℕ × ℕ)) × (m' : Memory) × (load2mem fuel status words m sector sector_count
          buf
        ≡ some (writes, m'))
      × Requests writes sector sector_count
      × Stored m m' words 0 (sector_words * sector_count) buf
unfolding load2mem
load2mem-Stored fuel status words m sector sector_count buf hs hc ready =
    let r = read_sectors-Stored sector_count fuel status words 0 0 m buf ready in
    (
      sector_commands sector sector_count,
      r.0,
      rw r.1,
      sector_commands-Requests sector sector_count hs hc,
      r.2,
    )

-- ===== src/Loader.antt =====
-- source/loader/loader16.c and loader32.c, with source/comm/elf.h and the `ARDS_entry_t` of
-- source/comm/mem_info.h: memory detection, reading sectors, and placing the kernel's segments.
-- What the BIOS answers and what ports read is the machine's: a function of the number of calls so
-- far. Loops over memory take fuel, and `none` says that it ran out. The sizes and offsets in a
-- file are below 2 ^ 31, so that the `int` counters do not overflow.
pub mod Detect
pub mod Segment
pub mod Place
pub mod Image
pub mod Sectors
pub mod Gdt16
use Prim.Native.Nat.{bit_and}
use little_os.Base.{
  ℕ, zero, suc, ◌+◌, ◌-◌, ◌*◌, ◌/◌, ◌%◌, ◌^◌, Bool, true, false, ◌&&◌, ◌||◌, not, Option, none,
  some, List, [], ◌∷◌, if◌then◌else◌, ltb, ◌==◌, update,
}
use little_os.Base.Word.{u8, sub32}
use little_os.Mem.{Memory, read32}
use little_os.Memory.{MemInfo, MemBlock}

abbrev pub max_mem_length : ℕ
max_mem_length = 20

-- `ARDS_entry_t`; `kind` is its `Type`.
pub record ArdsEntry : Type 0 where
  pub base_l : ℕ
  pub base_h : ℕ
  pub length_l : ℕ
  pub length_h : ℕ
  pub kind : ℕ

-- What one `int 0x15` leaves: eax, ecx, ebx and the entry.
pub record Reply : Type 0 where
  pub signature : ℕ
  pub blength : ℕ
  pub count_id : ℕ
  pub entry : ArdsEntry

abbrev pub smap : ℕ
smap = 0x534D4150

-- One round's entry goes into `mem` if it is usable memory. `mem.info` has 20 places, which a
-- record that starts empty does not exceed in 20 rounds; a write behind them is not modelled.
abbrev pub note_entry : ArdsEntry → MemInfo → MemInfo
note_entry entry mem =
    if entry.kind == 1
    then record {
      info = update mem.info mem.count (record { start = entry.base_l; offset = entry.length_l });
      count = mem.count + 1;
    }
    else mem

-- The loop of `detect_method1` from round `i` on, by the rounds that are left. Behind the last
-- round the function ends without a `return`: its result is `none`.
unfoldable pub detect_loop : ℕ → (ℕ → Reply) → ℕ → MemInfo → MemInfo × Option Bool
detect_loop zero bios i mem = (mem, none)
detect_loop (suc k) bios i mem =
    let r = bios i in
    let noted = note_entry r.entry mem in
    let rest = detect_loop k bios (i + 1) noted in
    if not (r.signature == smap)
    then (mem, some false)
    else if r.blength == 20
    then rest
    else if r.count_id == 0
    then (noted, some true)
    else rest

unfoldable pub detect_method1 : (ℕ → Reply) → MemInfo → MemInfo × Option Bool
unfolding detect_loop
detect_method1 bios mem = detect_loop max_mem_length bios 0 mem

-- `detect_method2` and `detect_method3` return false and do nothing else, so the memory found is
-- that of the first method whatever it returns.
unfoldable pub detect_memory : (ℕ → Reply) → MemInfo → MemInfo
unfolding detect_method1
detect_memory bios mem = (detect_method1 bios mem).0

unfoldable pub read16 : Memory → ℕ → ℕ
read16 m a = m a + m (a + 1) * 2 ^ 8

infixl 5 ◌>>=◌
abbrev pub ◌>>=◌ {ℓ κ} : {A : Type ℓ} {B : Type κ} → Option A → (A → Option B) → Option B
none >>= f = none
some a >>= f = f a

-- The fields of `Elf32_Ehdr` and `Elf32_Phdr` that the code reads, by their offsets.
abbrev pub e_entry : Memory → ℕ → ℕ
e_entry m hdr = read32 m (hdr + 24)

abbrev pub e_phoff : Memory → ℕ → ℕ
e_phoff m hdr = read32 m (hdr + 28)

abbrev pub e_phnum : Memory → ℕ → ℕ
e_phnum m hdr = read16 m (hdr + 44)

abbrev pub phdr_size : ℕ
phdr_size = 32

abbrev pub pt_load : ℕ
pt_load = 1

abbrev pub p_type : Memory → ℕ → ℕ
p_type m phdr = read32 m phdr

abbrev pub p_offset : Memory → ℕ → ℕ
p_offset m phdr = read32 m (phdr + 4)

abbrev pub p_paddr : Memory → ℕ → ℕ
p_paddr m phdr = read32 m (phdr + 12)

abbrev pub p_filesz : Memory → ℕ → ℕ
p_filesz m phdr = read32 m (phdr + 16)

abbrev pub p_memsz : Memory → ℕ → ℕ
p_memsz m phdr = read32 m (phdr + 20)

-- `for (int j = 0; j < phdr->p_filesz; j++) *dest++ = *src++;`, the size read again each round.
unfoldable pub copy_segment : ℕ → Memory → (phdr : ℕ) → ℕ → ℕ → (j : ℕ) → Option Memory
copy_segment zero m phdr dest src j = none
copy_segment (suc k) m phdr dest src j =
    let rest = copy_segment k (update m dest (m src)) phdr (dest + 1) (src + 1) (j + 1) in
    if ltb j (p_filesz m phdr) then rest else some m

-- The loop that fills the rest with zeros; the subtraction is of words.
unfoldable pub clear_segment : ℕ → Memory → (phdr : ℕ) → ℕ → (j : ℕ) → Option Memory
clear_segment zero m phdr dest j = none
clear_segment (suc k) m phdr dest j =
    let rest = clear_segment k (update m dest 0) phdr (dest + 1) (j + 1) in
    if ltb j (sub32 (p_memsz m phdr) (p_filesz m phdr)) then rest else some m

-- The body of the loop over the program headers.
unfoldable pub load_segment : ℕ → Memory → (file_buffer phdr : ℕ) → Option Memory
unfolding copy_segment clear_segment
load_segment fuel m file_buffer phdr = if not (p_type m phdr == pt_load) then some m else do
  m ← copy_segment fuel m phdr (p_paddr m phdr) (file_buffer + p_offset m phdr) 0
  clear_segment fuel m phdr (p_paddr m phdr + p_filesz m phdr) 0

unfoldable pub load_segments : (rounds fuel : ℕ) → Memory → ℕ → ℕ → Option Memory
unfolding load_segment
load_segments zero fuel m file_buffer i = none
load_segments (suc k) fuel m file_buffer i =
    let phdr = file_buffer + e_phoff m file_buffer + phdr_size * i in
    let rest =
      load_segment fuel m file_buffer phdr >>= λ m'. load_segments k fuel m' file_buffer (i + 1) in
    if ltb i (e_phnum m file_buffer) then rest else some m

-- 0x7F, 'E', 'L', 'F'.
abbrev pub elf_magic : Memory → ℕ → Bool
elf_magic m hdr = m hdr == 0x7F && m (hdr + 1) == b'E' && m (hdr + 2) == b'L' && m (hdr + 3) == b'F'

unfoldable pub read_elf : (rounds fuel : ℕ) → Memory → ℕ → Option (Memory × ℕ)
unfolding load_segments
read_elf rounds fuel m file_buffer =
    if elf_magic m file_buffer
    then (do m ← load_segments rounds fuel m file_buffer 0; some (m, e_entry m file_buffer))
    else some (m, 0)

-- The writes to the ports of the disk: the sector, of 48 bits, and the count, each as two rounds.
abbrev pub sector_commands : ℕ → ℕ → List (ℕ × ℕ)
sector_commands sector sector_count =
    (0x1F6, 0xE0)
    ∷ (0x1F2, u8 (sector_count / 2 ^ 8))
    ∷ (0x1F3, u8 (sector / 2 ^ 24))
    ∷ (0x1F4, 0)
    ∷ (0x1F5, 0)
    ∷ (0x1F2, u8 sector_count)
    ∷ (0x1F3, u8 sector)
    ∷ (0x1F4, u8 (sector / 2 ^ 8))
    ∷ (0x1F5, u8 (sector / 2 ^ 16))
    ∷ (0x1F7, 0x24)
    ∷ []

-- `while ((inb(0x1F7) & 0x88) != 0x8);`, from poll number `t` on: the number of the next poll.
unfoldable pub wait_ready : ℕ → (ℕ → ℕ) → ℕ → Option ℕ
wait_ready zero status t = none
wait_ready (suc k) status t =
    let rest = wait_ready k status (t + 1) in
    if bit_and (status t) 0x88 == 0x8 then some (t + 1) else rest

-- `*data_buf++ = inw(0x1F0);`, by the words that are left; word number `i` is read next.
unfoldable pub read_words : ℕ → (ℕ → ℕ) → ℕ → Memory → ℕ → Memory
read_words zero words i m buf = m
read_words (suc k) words i m buf =
    read_words k words (i + 1)
      (update (update m buf (u8 (words i))) (buf + 1) (u8 (words i / 2 ^ 8))) (buf + 2)

abbrev pub sector_words : ℕ
sector_words = 256

-- `while (sector_count-- > 0)`, by the sectors that are left.
unfoldable pub read_sectors :
    ℕ → (fuel : ℕ) → (ℕ → ℕ) → (ℕ → ℕ) → ℕ → ℕ → Memory → ℕ → Option Memory
unfolding wait_ready read_words
read_sectors zero fuel status words t i m buf = some m
read_sectors (suc k) fuel status words t i m buf = do
  t ← wait_ready fuel status t
  read_sectors k fuel status words t (i + sector_words) (read_words sector_words words i m buf)
      (buf + 2 * sector_words)

-- `sector` is a `uint32_t` and `sector_count` a `uint16_t`.
unfoldable pub load2mem :
    (fuel : ℕ) → (ℕ → ℕ) → (ℕ → ℕ) → Memory → ℕ → ℕ → ℕ → Option (List (ℕ × ℕ) × Memory)
unfolding read_sectors
load2mem fuel status words m sector sector_count buf = do
  m ← read_sectors sector_count fuel status words 0 0 m buf
  some (sector_commands sector sector_count, m)

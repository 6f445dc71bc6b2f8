-- ===== src/Tests/Loading.antt =====
-- Memory detection, an image of one segment, and one sector.
use little_os.Base.{
  ℕ, zero, suc, ◌+◌, ◌*◌, ◌<◌, ◌≡◌, ◌==◌, refl, arith, none, some, List, if◌then◌else◌, inr,
}
use little_os.Mem.{Memory, read32}
use little_os.Memory.{MemInfo}
use little_os.Loader.{
  Reply, smap, max_mem_length, detect_method1, read16, read_elf, load2mem, sector_words, e_entry,
  e_phoff, e_phnum, p_type, phdr_size, pt_load,
}
use little_os.Loader.Detect.{replies, usable, Noted, detect_method1_short}
use little_os.Loader.Place.{Fits}
use little_os.Loader.Image.{image, IsElf, read_elf-image}
use little_os.Loader.Sectors.{Requests, Stored, IsReady, load2mem-Stored}
use little_os.Tests.Pages.{zeros}

-- A BIOS that answers every call with the same block of 64 KB and entries of 20 bytes.
abbrev bios : ℕ → Reply
bios i = record {
  signature = smap;
  blength = 20;
  count_id = 0;
  entry = record { base_l = 0; base_h = 0; length_l = 0x10000; length_h = 0; kind = 1 };
}

abbrev no_memory : MemInfo
no_memory = record { info = λ i. record { start = 0; offset = 0 }; count = 0 }

-- One block, told as the last one, is noted 20 times.
detect_method1_short_example :
    ((detect_method1 bios no_memory).1 ≡ none)
    × Noted no_memory (usable (replies max_mem_length bios 0)) (detect_method1 bios no_memory).0
detect_method1_short_example = detect_method1_short bios no_memory refl (λ j. refl) (λ j. refl)

-- A file at 4 KB: the header, one program header behind it, and two bytes that go to 20 KB and
-- are followed there by two zeros.
abbrev elf : Memory
elf p =
    if p == 0x1000
    then 0x7F
    else if p == 0x1001
    then b'E'
    else if p == 0x1002
    then b'L'
    else if p == 0x1003
    then b'F'
    else if p == 0x1000 + 25
    then 0x50
    else if p == 0x1000 + 28
    then 52
    else if p == 0x1000 + 44
    then 1
    else if p == 0x1000 + 52
    then 1
    else if p == 0x1000 + 56
    then 84
    else if p == 0x1000 + 65
    then 0x50
    else if p == 0x1000 + 68
    then 2
    else if p == 0x1000 + 72
    then 4
    else if p == 0x1000 + 84
    then 7
    else if p == 0x1000 + 85
    then 9
    else 0

elf-Fits :
    (i : ℕ)
    → i < e_phnum elf 0x1000
    → p_type elf (0x1000 + e_phoff elf 0x1000 + phdr_size * i) ≡ pt_load
    → Fits elf 0x1000 86 5 (0x1000 + e_phoff elf 0x1000 + phdr_size * i)
unfolding read32 read16
elf-Fits zero h e = record {
  sizes = omega arith;
  small = omega arith;
  rounds = omega arith;
  source = omega arith;
  apart = inr (omega arith);
}
elf-Fits (suc i) h e = absurd (omega (arith, h))

elf-IsElf : IsElf elf 0x1000 86 5
unfolding read32 read16
elf-IsElf = record { magic = refl; header = omega arith; headers = omega arith; fits = elf-Fits }

one_header : e_phnum elf 0x1000 < 2
unfolding read16
one_header = omega arith

read_elf-image_example :
    (m : Memory) × (read_elf 2 5 elf 0x1000 ≡ some (m, e_entry elf 0x1000))
    × ((p : ℕ) → m p ≡ image elf 0x1000 (e_phnum elf 0x1000) p)
read_elf-image_example = read_elf-image elf 0x1000 86 2 5 elf-IsElf one_header

-- A disk that is always ready, and whose word number `i` is `i`.
always : IsReady 1 (λ t. 8)
always t = (0, omega arith, refl)

load2mem-Stored_example :
    (writes : List (ℕ × ℕ)) × (m : Memory) × (load2mem 1 (λ t. 8) (λ i. i) zeros 5 2 0x8000
      ≡ some (writes, m))
    × Requests writes 5 2
    × Stored zeros m (λ i. i) 0 (sector_words * 2) 0x8000
load2mem-Stored_example =
    load2mem-Stored 1 (λ t. 8) (λ i. i) zeros 5 2 0x8000 (omega arith) (omega arith) always

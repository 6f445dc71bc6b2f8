-- ===== src/Tests/Text.antt =====
-- Character buffers and block operations.
use little_os.Base.{
  ℕ, suc, ◌+◌, ◌-◌, ◌<◌, ◌≤◌, ◌≡◌, ◌≢◌, refl, arith, ltb, leb, ◌==◌, ◌&&◌, if◌then◌else◌, some,
}
use little_os.Mem.{Memory}
use little_os.Klib.{kitoa_s}
use little_os.Klib.Swap.{IsString}
use little_os.Klib.Ints.{kreverse_intstr, kreverse_intstr-get}
use little_os.Klib.Digits.{high_first}
use little_os.Klib.Print.{decimal_value, kitoa_s-IsString, kitoa_s_negative}

-- "ab" at address 100.
abbrev ab : Memory
ab p = if p == 100 then 97 else if p == 101 then 98 else 0

ab-IsString : IsString ab 100 2
ab-IsString = record { body = λ i h. ground arith; end = refl }

kitoa_s-IsString_example :
    (m' : Memory) × (n : ℕ) × (kitoa_s 2050 ab 100 2049 ≡ some m')
    × IsString m' 100 n
    × ((i : ℕ) → i < n → (b'0' ≤ m' (100 + i)) × (m' (100 + i) ≤ b'9'))
    × (m' 100 ≢ b'0')
    × (high_first 10 decimal_value m' 100 n ≡ 2049)
kitoa_s-IsString_example =
    kitoa_s-IsString 2050 ab 100 2049 (omega arith) (omega arith) (omega arith)

-- Of -7.
kitoa_s_negative_example :
    (m' : Memory) × (n : ℕ) × (kitoa_s 8 ab 100 0xFFFFFFF9 ≡ some m')
    × IsString m' 100 n
    × ((i : ℕ) → i < n → (39 ≤ m' (100 + i)) × (m' (100 + i) ≤ b'0'))
    × (high_first 10 (λ c. b'0' - c) m' 100 n ≡ 7)
kitoa_s_negative_example =
    kitoa_s_negative 8 ab 100 0xFFFFFFF9 (omega arith) (omega arith) (omega arith)

kreverse_intstr-get_example :
    (m' : Memory) × (kreverse_intstr 3 ab 100 ≡ some m')
    × ((p : ℕ)
        → m' p ≡ (
            if leb 100 p && ltb (p - 100 + (p - 100) + 1) 2
            then ab (100 + (100 + 2 - suc p))
            else ab p))
kreverse_intstr-get_example = kreverse_intstr-get 3 ab 100 2 ab-IsString (omega arith)

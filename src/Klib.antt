-- ===== src/Klib.antt =====
-- source/kernel/tools/klib.c and kmath.c: character buffers. A buffer is an address in a memory
-- of bytes. Loops that end at a zero take fuel, and `none` says that it ran out.
pub mod Swap
pub mod Digits
pub mod Print
pub mod Copy
pub mod Ints
pub mod Printf
use little_os.Base.{
  ℕ, zero, suc, ◌+◌, ◌-◌, ◌/◌, ◌%◌, ◌^◌, Bool, ◌&&◌, Option, none, some, if◌then◌else◌, ltb, ◌==◌,
  update, not,
}
use little_os.Base.Word.{u8}
use little_os.Mem.{Memory, kmemset}

infixl 5 ◌>>=◌
abbrev pub ◌>>=◌ {ℓ κ} : {A : Type ℓ} {B : Type κ} → Option A → (A → Option B) → Option B
none >>= f = none
some a >>= f = f a

strlen_loop : ℕ → Memory → ℕ → ℕ → Option ℕ
strlen_loop zero m buf cnt = none
strlen_loop (suc k) m buf cnt =
    let rest = strlen_loop k m buf (cnt + 1) in if not (m (buf + cnt) == 0) then rest else some cnt

unfoldable pub kstrlen : ℕ → Memory → ℕ → Option ℕ
unfolding strlen_loop
kstrlen fuel m buf = strlen_loop fuel m buf 0

strcpy_loop : ℕ → Memory → ℕ → ℕ → ℕ → Memory
strcpy_loop zero m dest src i = m
strcpy_loop (suc k) m dest src i =
    strcpy_loop k (update m (dest + i) (m (src + i))) dest src (i + 1)

unfoldable pub kstrcpy : ℕ → Memory → (dest src : ℕ) → Option Memory
unfolding strcpy_loop
kstrcpy fuel m dest src = do len ← kstrlen fuel m src; some (strcpy_loop len m dest src 0)

-- `DateType` of `kswap`, the types of four and of eight bytes taken together with the others.
pub data DateType : Type 0 where
  int uint8 uint16 uint32 float double char : DateType

-- The two cells that `kswap` works on hold values of the type that it is told. Only the case of
-- `char` writes back what it saved in `temp`.
unfoldable pub kswap : Memory → ℕ → ℕ → DateType → Memory
kswap m a b DateType.char = let temp = m a in let m' = update m a (m b) in update m' b temp
kswap m a b _ = let m' = update m a (m b) in update m' b (m' a)

reverse_loop : ℕ → Memory → ℕ → ℕ → ℕ → Memory
reverse_loop zero m buf l r = m
reverse_loop (suc k) m buf l r =
    let rest = reverse_loop k (kswap m (buf + l) (buf + r) DateType.char) buf (l + 1) (r - 1) in
    if ltb l r then rest else m

-- Of an empty string `r` is -1 in C and 0 here: the loop ends at once in both. Each round takes
-- two characters, so as many rounds as there are characters end it.
unfoldable pub kreverse_charstr : ℕ → Memory → ℕ → Option Memory
unfolding reverse_loop
kreverse_charstr fuel m buf = do len ← kstrlen fuel m buf; some (reverse_loop len m buf 0 (len - 1))

intlen_loop : ℕ → ℕ → ℕ → Option ℕ
intlen_loop zero n i = none
intlen_loop (suc k) n i =
    let rest = intlen_loop k (n / 10) (i + 1) in if not (n == 0) then rest else some i

-- Of an `int` that is not negative.
unfoldable pub kintlen : ℕ → ℕ → Option ℕ
unfolding intlen_loop
kintlen fuel n = if n == 0 then some 1 else intlen_loop fuel n 0

-- The digits of `num` to base `base`, lowest first, from `p` on, with the count `i`: the loop of
-- `kitoa_s` and of `kdecimalToHexadecimal`.
unfoldable pub put_digits :
    (base : ℕ) (digit : ℕ → ℕ) → ℕ → Memory → ℕ → ℕ → ℕ → Option (Memory × ℕ)
put_digits base digit zero m buf i num = none
put_digits base digit (suc k) m buf i num =
    let rest =
      put_digits base digit k (update m (buf + i) (digit (num % base))) buf (i + 1) (num / base) in
    if num == 0 then some (m, i) else rest

abbrev pub decimal : ℕ → ℕ
decimal d = b'0' + d

-- The remainder of a negative number is not positive.
abbrev pub below_zero : ℕ → ℕ
below_zero d = b'0' - d

-- `value` is an `int` as its bit pattern. `sizeof(buf)` is the size of a pointer, and `size` is
-- unused.
unfoldable pub kitoa_s : ℕ → Memory → ℕ → ℕ → Option Memory
unfolding put_digits kreverse_charstr
kitoa_s fuel m buf value = do
  (m', i) ←
      (if ltb value (2 ^ 31)
        then put_digits 10 decimal fuel (kmemset m buf 0 4) buf 0 value
        else put_digits 10 below_zero fuel (kmemset m buf 0 4) buf 0 (2 ^ 32 - value))
  kreverse_charstr fuel (update m' (buf + i) 0) buf

abbrev pub hexadecimal : ℕ → ℕ
hexadecimal d = if ltb d 10 then d + b'0' else d + 55

-- `decimal_num` is an `int` as its bit pattern; `while (decimalNum > 0)` does not run for a
-- negative one.
unfoldable pub kdecimal_to_hexadecimal : ℕ → Memory → ℕ → ℕ → Option Memory
unfolding put_digits kreverse_charstr
kdecimal_to_hexadecimal fuel m buf decimal_num =
    if decimal_num == 0 then some (update (update m buf b'0') (buf + 1) 0) else (do
      (m', i) ←
          put_digits 16 hexadecimal fuel m buf 0
            (if ltb decimal_num (2 ^ 31) then decimal_num else 0)
      kreverse_charstr fuel (update m' (buf + i) 0) buf)

-- ===== src/Tests/Printing.antt =====
-- Printing "Hi %c" with a line's end.
use little_os.Base.{ℕ, ◌+◌, ◌<◌, ◌≡◌, ◌≢◌, ◌==◌, refl, arith, some, if◌then◌else◌, inl}
use little_os.Mem.{Memory}
use little_os.Serial.Wait.{IsServed}
use little_os.Klib.Swap.{IsString}
use little_os.Klib.Printf.{normal, klog_printf}
use little_os.Klib.Printf.Text.{expand}
use little_os.Klib.Printf.Output.{sent, klog_printf-sent}

-- The format at 256.
abbrev hi : Memory
hi p =
    if p == 256
    then b'H'
    else if p == 257
    then b'i'
    else if p == 258
    then b' '
    else if p == 259
    then b'%'
    else if p == 260
    then b'c'
    else if p == 261
    then b'\n'
    else 0

hi-IsString : IsString hi 256 6
hi-IsString = record { body = body; end = refl }
  where
    body : (i : ℕ) → i < 6 → hi (256 + i) ≢ 0
    body i h = ground arith

-- A port that is always empty.
always : IsServed 1 (λ t. 0x20)
always t = (0, omega arith, refl)

abbrev exclaim : ℕ → ℕ
exclaim i = b'!'

klog_printf-sent_example :
    klog_printf 256 1 0x2000 0x1000 (λ t. 0x20) hi 256 exclaim
    ≡ some (sent (expand exclaim 6 hi 256 0 normal))
klog_printf-sent_example =
    klog_printf-sent 256 1 0x2000 0x1000 (λ t. 0x20) hi 256 6 exclaim always hi-IsString refl
      (inl (omega arith)) (omega arith) refl (omega arith) (omega arith)

-- ===== src/Cmd.antt =====
-- Commands of the kernel over a state: what C leaves undefined is a fault, and a loop that is
-- given too few rounds says so.

use mathlib.Core.Path.{◌≡◌}

pub data Run (S A : Type 0) : Type 0 where
  ok : A → S → Run S A
  fault : Run S A
  out_of_fuel : Run S A

abbrev pub Cmd : Type 0 → Type 0 → Type 0
Cmd S A = S → Run S A

abbrev pub pure : {S A : Type 0} → A → Cmd S A
pure a s = ok a s

module _ {S A B : Type 0} where
  abbrev pub and_then : Run S A → (A → Cmd S B) → Run S B
  and_then (ok a s) k = k a s
  and_then fault k = fault
  and_then out_of_fuel k = out_of_fuel

  infixl 5 ◌>>=◌ ◌>>◌
  abbrev pub ◌>>=◌ : Cmd S A → (A → Cmd S B) → Cmd S B
  ◌>>=◌ m k s = and_then (m s) k

  abbrev pub ◌>>◌ : Cmd S A → Cmd S B → Cmd S B
  m >> k = m >>= λ _. k

-- The run of a command on a part of the state, with the rest put back round it.
abbrev pub within : {S T A : Type 0} → (T → S) → Run T A → Run S A
within put (ok a t) = ok a (put t)
within put fault = fault
within put out_of_fuel = out_of_fuel

pub same_run : {S A : Type 0} {r : Run S A} {a b : A} {s t : S} → r ≡ ok a s → r ≡ ok b t → s ≡ t
same_run p q = cc

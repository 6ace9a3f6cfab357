-- ===== src/Prelude/Int.antt =====
-- Signed numbers: `negsuc n` is -(n + 1).
use solounlucky.Prelude.Texts.{Text, to_string}
use mathlib.Core.List.{◌∷◌}
use Prim.Native.Nat.{ℕ, suc}

pub data ℤ : Type 0 where
  pos : ℕ → ℤ
  negsuc : ℕ → ℤ

-- The decimal text of a whole number.
abbrev pub int_text : ℤ → Text
int_text (pos n) = to_string n
int_text (negsuc n) = b'-' ∷ to_string (suc n)

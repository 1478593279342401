-- ===== src/Prelude/Int.antt =====
-- Go's signed integers: `negsuc n` is -(n + 1).
use Prim.Native.Nat.{ℕ, suc, ◌-◌}
use deep.Prelude.Tests.{leb, if◌then◌else◌}

pub data ℤ : Type 0 where
  pos : ℕ → ℤ
  negsuc : ℕ → ℤ

abbrev pub pos_part : ℤ → ℕ
pos_part (pos n) = n
pos_part (negsuc n) = 0

abbrev pub neg_part : ℤ → ℕ
neg_part (pos n) = 0
neg_part (negsuc n) = suc n

-- a - b, as an integer.
abbrev pub sub_ℕ : ℕ → ℕ → ℤ
sub_ℕ a b = if leb b a then pos (a - b) else negsuc (b - a - 1)

-- ===== src/Prelude/ByteStrings.antt =====
-- Go strings and byte slices: sequences of bytes with equality and the byte-wise order of `<`.
use Prim.Native.Nat.{ℕ}
use mathlib.Core.Path.{◌≡◌, refl}
use mathlib.Core.Logic.{◌↔◌}
use mathlib.Core.List.{List, [], ◌∷◌}
use mathlib.Core.Bool.{Bool, true, false, ◌&&◌, ◌||◌}
use native.Mathlib.Omega.{arith}
use deep.Prelude.Tests.{Eq, ltb, nat_beq}

abbrev pub Bytes : Type 0
Bytes = List ℕ

abbrev pub bytes_beq : Bytes → Bytes → Bool
bytes_beq [] [] = true
bytes_beq [] (b ∷ bs) = false
bytes_beq (a ∷ as') [] = false
bytes_beq (a ∷ as') (b ∷ bs) = nat_beq a b && bytes_beq as' bs

-- `a < b` on strings.
abbrev pub bytes_lt : Bytes → Bytes → Bool
bytes_lt [] [] = false
bytes_lt [] (b ∷ bs) = true
bytes_lt (a ∷ as') [] = false
bytes_lt (a ∷ as') (b ∷ bs) = ltb a b || (nat_beq a b && bytes_lt as' bs)

pub bytes_beq_iff : (a b : Bytes) → (bytes_beq a b ≡ true) ↔ (a ≡ b)
bytes_beq_iff [] [] = ground arith
bytes_beq_iff [] (b ∷ bs) = ground arith
bytes_beq_iff (a ∷ as') [] = ground arith
bytes_beq_iff (a ∷ as') (b ∷ bs) = ground (arith, bytes_beq_iff as' bs)

instance abbrev pub bytes_eq : Eq Bytes
bytes_eq = record { beq = bytes_beq; beq_iff = bytes_beq_iff }

pub bytes_lt_irrefl : (a : Bytes) → bytes_lt a a ≡ false
bytes_lt_irrefl [] = refl
bytes_lt_irrefl (a ∷ as') = ground (arith, bytes_lt_irrefl as')

pub bytes_lt_trans :
    (a b c : Bytes) → bytes_lt a b ≡ true → bytes_lt b c ≡ true → bytes_lt a c ≡ true
bytes_lt_trans [] [] c p q = q
bytes_lt_trans [] (b ∷ bs) [] p q = cc
bytes_lt_trans [] (b ∷ bs) (c ∷ cs) p q = refl
bytes_lt_trans (a ∷ as') [] c p q = cc
bytes_lt_trans (a ∷ as') (b ∷ bs) [] p q = q
bytes_lt_trans (a ∷ as') (b ∷ bs) (c ∷ cs) p q = ground (arith, bytes_lt_trans as' bs cs)

-- Two strings neither of which is below the other are equal.
pub bytes_lt_total : (a b : Bytes) → bytes_lt a b ≡ false → bytes_lt b a ≡ false → a ≡ b
bytes_lt_total [] [] p q = refl
bytes_lt_total [] (b ∷ bs) p q = cc
bytes_lt_total (a ∷ as') [] p q = cc
bytes_lt_total (a ∷ as') (b ∷ bs) p q = ground (arith, bytes_lt_total as' bs)

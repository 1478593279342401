-- ===== src/Compaction/Format.antt =====
-- The numbers and times that pkg/deepdb/compaction_block_selector.go prints and compares: `%v` and
-- `%016X` of Go's fmt, `Unix` of a time, and signed arithmetic.
use deep.Prelude.{
  ℕ, zero, suc, ◌+◌, ◌-◌, ◌/◌, ◌%◌, Bytes, Bool, [], ◌∷◌, length, ltb, leb, nat_beq, if◌then◌else◌,
  ℤ, pos, negsuc, pos_part, neg_part, sub_ℕ,
}
use deep.Backend.{Time, nanos_per_second, unix_epoch}

-- The digits of a number, before those in `acc`. A number has no more digits than its fuel, which
-- is the number itself.
unfoldable pub digits_in : ℕ → (ℕ → ℕ) → ℕ → ℕ → Bytes → Bytes
digits_in base digit zero n acc = acc
digits_in base digit (suc fuel) n acc =
    let more = digits_in base digit fuel (n / base) (digit (n % base) ∷ acc) in
    if nat_beq n 0 then acc else more

abbrev upper_hex_digit : ℕ → ℕ
upper_hex_digit d = if ltb d 10 then b'0' + d else b'A' + (d - 10)

abbrev dec_digit : ℕ → ℕ
dec_digit d = b'0' + d

-- `%v` of a natural number.
unfoldable pub decimal : ℕ → Bytes
unfolding digits_in
decimal n = if nat_beq n 0 then b'0' ∷ [] else digits_in 10 dec_digit n n []

abbrev pad_zero : ℕ → Bytes → Bytes
pad_zero zero s = s
pad_zero (suc n) s = b'0' ∷ pad_zero n s

-- `%0wX` of a natural number.
unfoldable pub hex_padded : ℕ → ℕ → Bytes
unfolding digits_in
hex_padded width n =
    let s = if nat_beq n 0 then b'0' ∷ [] else digits_in 16 upper_hex_digit n n [] in
    pad_zero (width - length s) s

unfoldable pub decimal_ℤ : ℤ → Bytes
unfolding decimal
decimal_ℤ (pos n) = decimal n
decimal_ℤ (negsuc n) = b'-' ∷ decimal (n + 1)

-- The sign counts for the width.
unfoldable pub hex16_ℤ : ℤ → Bytes
unfolding hex_padded
hex16_ℤ (pos n) = hex_padded 16 n
hex16_ℤ (negsuc n) = b'-' ∷ hex_padded 15 (n + 1)

abbrev pub leb_ℤ : ℤ → ℤ → Bool
leb_ℤ a b = leb (pos_part a + neg_part b) (pos_part b + neg_part a)

abbrev pub beq_ℤ : ℤ → ℤ → Bool
beq_ℤ a b = nat_beq (pos_part a + neg_part b) (pos_part b + neg_part a)

infixl 65 ◌-ℤ◌
abbrev pub ◌-ℤ◌ : ℤ → ℤ → ℤ
a -ℤ b = sub_ℕ (pos_part a + neg_part b) (neg_part a + pos_part b)

-- `/` of int64 rounds towards zero.
abbrev pub quot : ℤ → ℕ → ℤ
quot (pos n) d = pos (n / d)
quot (negsuc n) d = sub_ℕ 0 ((n + 1) / d)

-- `t.Unix()`.
unfoldable pub unix : Time → ℤ
unix t = sub_ℕ (t / nanos_per_second) unix_epoch

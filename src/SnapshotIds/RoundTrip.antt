-- ===== src/SnapshotIds/RoundTrip.antt =====
-- An ID of 16 bytes printed by pkg/util/snapshotid.go and read again.
use deep.Prelude.{
  ℕ, zero, suc, ◌+◌, ◌-◌, ◌*◌, ◌/◌, ◌%◌, ◌≤◌, ◌<◌, ◌≡◌, refl, ap, ap₂, ◌∙◌, Bytes, true, [], ◌∷◌,
  ◌++◌, some, Bool-cases, All, length, ltb, nat_beq, arith, inl, inr,
}
use deep.SnapshotIds.{
  is_hex, all_hex, hex_value, hex_digit, decode_hex, encode_hex, zeros, even_text, trim_zeros,
  hex_string_to_snapshot_id, snapshot_id_to_hex_string,
}

abbrev pub IsByte : ℕ → Type 0
IsByte b = b < 256

is_hex-hex_digit : (d : ℕ) → d < 16 → is_hex (hex_digit d) ≡ true
is_hex-hex_digit d h = ground arith

hex_value-hex_digit : (d : ℕ) → d < 16 → hex_value (hex_digit d) ≡ d
hex_value-hex_digit d h = ground arith

hex_digit-zero : (d : ℕ) → nat_beq (hex_digit d) b'0' ≡ nat_beq d 0
hex_digit-zero d = ground arith

length-encode_hex : (bs : Bytes) → length (encode_hex bs) % 2 ≡ 0
unfolding encode_hex
length-encode_hex [] = omega arith
length-encode_hex (b ∷ bs) = omega (arith, length-encode_hex bs)

all_hex-encode_hex : (bs : Bytes) → All IsByte bs → all_hex (encode_hex bs) ≡ true
unfolding encode_hex
all_hex-encode_hex [] a = refl
all_hex-encode_hex (b ∷ bs) a =
    rw (is_hex-hex_digit (b / 16) (omega (arith, a.0)), is_hex-hex_digit (b % 16) (omega arith))
      (all_hex-encode_hex bs a.1)

all_hex-trim_zeros : (cs : Bytes) → all_hex cs ≡ true → all_hex (trim_zeros cs) ≡ true
all_hex-trim_zeros [] h = refl
all_hex-trim_zeros (c ∷ cs) h = ground (arith, h, all_hex-trim_zeros cs)

byte-digits :
    (b : ℕ) → b < 256 → hex_value (hex_digit (b / 16)) * 16 + hex_value (hex_digit (b % 16)) ≡ b
byte-digits b h =
    rw (hex_value-hex_digit (b / 16) (omega (arith, h)), hex_value-hex_digit (b % 16) (omega arith))
      (omega arith)

byte-digit : (d : ℕ) → d < 16 → hex_value b'0' * 16 + hex_value (hex_digit d) ≡ d
byte-digit d h = rw (hex_value-hex_digit d h) (omega arith)

decode_hex-encode_hex : (bs : Bytes) → All IsByte bs → decode_hex (encode_hex bs) ≡ bs
unfolding decode_hex encode_hex
decode_hex-encode_hex [] a = refl
decode_hex-encode_hex (b ∷ bs) a = rw (byte-digits b a.0, decode_hex-encode_hex bs a.1) refl

-- The bytes without the zeros in front.
abbrev trimmed : Bytes → Bytes
trimmed [] = []
trimmed (zero ∷ bs) = trimmed bs
trimmed (suc b ∷ bs) = suc b ∷ bs

even_text-even : (cs : Bytes) → length cs % 2 ≡ 0 → even_text cs ≡ cs
even_text-even cs h = ground (arith, h)

even_text-odd : (c : ℕ) (cs : Bytes) → length cs % 2 ≡ 0 → even_text (c ∷ cs) ≡ b'0' ∷ c ∷ cs
even_text-odd c cs h = ground (arith, h)

-- A first byte with two digits, with one, and with none.
trim_zeros-two :
    (b : ℕ) (cs : Bytes)
    → 16 ≤ b
    → b < 256
    → trim_zeros (hex_digit (b / 16) ∷ hex_digit (b % 16) ∷ cs)
      ≡ hex_digit (b / 16) ∷ hex_digit (b % 16) ∷ cs
trim_zeros-two b cs h k = ground (arith, h, k)

trim_zeros-one :
    (b : ℕ) (cs : Bytes)
    → 0 < b
    → b < 16
    → trim_zeros (hex_digit (b / 16) ∷ hex_digit (b % 16) ∷ cs) ≡ hex_digit b ∷ cs
trim_zeros-one b cs h k = ground (arith, h, k)

decode_hex-trim_zeros :
    (bs : Bytes) → All IsByte bs → decode_hex (even_text (trim_zeros (encode_hex bs))) ≡ trimmed bs
unfolding decode_hex encode_hex
decode_hex-trim_zeros [] a = refl
decode_hex-trim_zeros (zero ∷ bs) a = decode_hex-trim_zeros bs a.1
decode_hex-trim_zeros (suc k ∷ bs) a = elim (Bool-cases (ltb (suc k) 16)) [
  | inl e ↦
      let few : suc k < 16 = ground (arith, e) in
      ap (λ (cs : Bytes). decode_hex (even_text cs))
        (trim_zeros-one (suc k) (encode_hex bs) (omega arith) few)
      ∙ ap decode_hex (even_text-odd (hex_digit (suc k)) (encode_hex bs) (length-encode_hex bs))
      ∙ ap₂ (λ (b : ℕ) (l : Bytes). b ∷ l) (byte-digit (suc k) few) (decode_hex-encode_hex bs a.1)
  | inr n ↦
      let many : 16 ≤ suc k = ground (arith, n) in
      ap (λ (cs : Bytes). decode_hex (even_text cs))
        (trim_zeros-two (suc k) (encode_hex bs) many a.0)
      ∙ ap decode_hex (even_text-even (encode_hex (suc k ∷ bs)) (length-encode_hex (suc k ∷ bs)))
      ∙ decode_hex-encode_hex (suc k ∷ bs) a
]

length-trimmed : (bs : Bytes) → length (trimmed bs) ≤ length bs
length-trimmed [] = omega arith
length-trimmed (zero ∷ bs) = omega (arith, length-trimmed bs)
length-trimmed (suc b ∷ bs) = omega arith

zeros-trimmed :
    (bs : Bytes) (k : ℕ) → k ≡ length bs - length (trimmed bs) → zeros k ++ trimmed bs ≡ bs
zeros-trimmed [] zero h = refl
zeros-trimmed [] (suc k) h = ground (arith, h)
zeros-trimmed (zero ∷ bs) zero h = ground (arith, h, length-trimmed bs)
zeros-trimmed (zero ∷ bs) (suc k) h =
    ap (λ (l : Bytes). 0 ∷ l) (zeros-trimmed bs k (omega (arith, h, length-trimmed bs)))
zeros-trimmed (suc b ∷ bs) zero h = refl
zeros-trimmed (suc b ∷ bs) (suc k) h = ground (arith, h)

-- An ID of 16 bytes that is printed as hexadecimal text, without its leading zeros, and read again
-- is the same ID.
pub hex_string_to_snapshot_id-snapshot_id_to_hex_string :
    (id : Bytes)
    → length id ≡ 16
    → All IsByte id
    → hex_string_to_snapshot_id (snapshot_id_to_hex_string id) ≡ some id
unfolding hex_string_to_snapshot_id snapshot_id_to_hex_string
hex_string_to_snapshot_id-snapshot_id_to_hex_string id n a =
    rw (all_hex-trim_zeros (encode_hex id) (all_hex-encode_hex id a), decode_hex-trim_zeros id a)
      (ground (
        arith,
        n,
        length-trimmed id,
        zeros-trimmed id (16 - length (trimmed id)) (omega (arith, n)),
      ))

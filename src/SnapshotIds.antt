-- ===== src/SnapshotIds.antt =====
-- pkg/util/snapshotid.go: the IDs of snapshots as 16 bytes and as hexadecimal text. The messages of
-- the errors are left out. A character outside ASCII is refused at its first byte.
pub mod Widths
pub mod RoundTrip
mod Examples
use deep.Prelude.{
  ℕ, zero, suc, ◌+◌, ◌-◌, ◌*◌, ◌/◌, ◌%◌, Bytes, bytes_beq, Bool, true, ◌&&◌, ◌||◌, List, [], ◌∷◌,
  ◌++◌, Option, none, some, length, drop, leb, ltb, nat_beq, if◌then◌else◌,
}

abbrev pub is_hex : ℕ → Bool
is_hex c = (leb b'a' c && leb c b'f') || ((leb b'A' c && leb c b'F') || (leb b'0' c && leb c b'9'))

abbrev pub all_hex : Bytes → Bool
all_hex [] = true
all_hex (c ∷ cs) = is_hex c && all_hex cs

abbrev pub hex_value : ℕ → ℕ
hex_value c = if leb b'a' c then c - b'a' + 10 else (if leb b'A' c then c - b'A' + 10 else c - b'0')

-- `hex.DecodeString` of hexadecimal characters; an odd one is dropped, which callers avoid.
unfoldable pub decode_hex : Bytes → Bytes
decode_hex [] = []
decode_hex (c ∷ []) = []
decode_hex (c ∷ d ∷ cs) = (hex_value c * 16 + hex_value d) ∷ decode_hex cs

abbrev pub zeros : ℕ → Bytes
zeros zero = []
zeros (suc n) = 0 ∷ zeros n

-- An odd number of characters gets a leading zero.
abbrev pub even_text : Bytes → Bytes
even_text id = if nat_beq (length id % 2) 1 then b'0' ∷ id else id

-- The bytes padded in front to 16; `none` where there are more.
abbrev pub fit : Bytes → Option Bytes
fit byte_id =
    if ltb 16 (length byte_id) then none else some (zeros (16 - length byte_id) ++ byte_id)

unfoldable pub hex_string_to_snapshot_id : Bytes → Option Bytes
unfolding decode_hex
hex_string_to_snapshot_id id = if all_hex id then fit (decode_hex (even_text id)) else none

abbrev pub hex_digit : ℕ → ℕ
hex_digit d = if ltb d 10 then b'0' + d else b'a' + (d - 10)

unfoldable pub encode_hex : Bytes → Bytes
encode_hex [] = []
encode_hex (b ∷ bs) = hex_digit (b / 16) ∷ hex_digit (b % 16) ∷ encode_hex bs

abbrev pub trim_zeros : Bytes → Bytes
trim_zeros [] = []
trim_zeros (c ∷ cs) = if nat_beq c b'0' then trim_zeros cs else c ∷ cs

unfoldable pub snapshot_id_to_hex_string : Bytes → Bytes
unfolding encode_hex
snapshot_id_to_hex_string byte_id = trim_zeros (encode_hex byte_id)

unfoldable pub equal_hex_string_snapshot_ids : Bytes → Bytes → Option Bool
unfolding hex_string_to_snapshot_id
equal_hex_string_snapshot_ids a b = elim (hex_string_to_snapshot_id a) [
  | none ↦ none
  | some x ↦ elim (hex_string_to_snapshot_id b) [ none ↦ none | some y ↦ some (bytes_beq x y) ]
]

unfoldable pub pad_snapshot_id_to_16_bytes : Bytes → Bytes
pad_snapshot_id_to_16_bytes snapshot_id =
    if ltb 16 (length snapshot_id)
    then drop (length snapshot_id - 16) snapshot_id
    else (if nat_beq (length snapshot_id) 16
        then snapshot_id
        else zeros (16 - length snapshot_id) ++ snapshot_id)

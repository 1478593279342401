-- ===== src/SnapshotIds/Widths.antt =====
-- The widths of the snapshot IDs that pkg/util/snapshotid.go reads or pads.
use deep.Prelude.{
  ℕ, zero, suc, ◌-◌, Bytes, [], ◌∷◌, ◌≡◌, refl, ap, length, length-append, drop, arith,
}
use deep.SnapshotIds.{zeros, pad_snapshot_id_to_16_bytes}

length-zeros : (n : ℕ) → length (zeros n) ≡ n
length-zeros zero = refl
length-zeros (suc n) = ap suc (length-zeros n)

length-drop : (n : ℕ) (xs : Bytes) → length (drop n xs) ≡ length xs - n
length-drop zero xs = omega arith
length-drop (suc n) [] = omega arith
length-drop (suc n) (x ∷ xs) = omega (arith, length-drop n xs)

-- A padded ID has 16 bytes, whatever the length before.
pub length-pad_snapshot_id_to_16_bytes : (id : Bytes) → length (pad_snapshot_id_to_16_bytes id) ≡ 16
unfolding pad_snapshot_id_to_16_bytes
length-pad_snapshot_id_to_16_bytes id = ground (
  arith,
  length-drop (length id - 16) id,
  length-append (zeros (16 - length id)) id,
  length-zeros (16 - length id),
)

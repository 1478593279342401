-- ===== src/SnapshotIds/Examples.antt =====
-- The round trip of an ID with leading zeros.
use deep.Prelude.{Bytes, [], ◌∷◌, some, ◌≡◌, refl, arith}
use deep.SnapshotIds.{hex_string_to_snapshot_id, snapshot_id_to_hex_string}
use deep.SnapshotIds.RoundTrip.{hex_string_to_snapshot_id-snapshot_id_to_hex_string}

abbrev low_id : Bytes
low_id = 0 ∷ 0 ∷ 0 ∷ 0 ∷ 0 ∷ 0 ∷ 0 ∷ 0 ∷ 0 ∷ 0 ∷ 0 ∷ 0 ∷ 0 ∷ 10 ∷ 0 ∷ 255 ∷ []

hex_string_to_snapshot_id-snapshot_id_to_hex_string_example :
    hex_string_to_snapshot_id (snapshot_id_to_hex_string low_id) ≡ some low_id
hex_string_to_snapshot_id-snapshot_id_to_hex_string_example =
    hex_string_to_snapshot_id-snapshot_id_to_hex_string low_id refl (omega arith)

-- ===== src/Tracepoints/Encoder.antt =====
-- modules/tracepoint/store/encoding/v1/tpEncoder.go: the block of a tenant as bytes. `marshal` and
-- `unmarshal` are the protobuf encoding of one tracepoint, `none` an error.
pub mod RoundTrip
use deep.Prelude.{
  ℕ, zero, suc, ◌%◌, ◌+◌, Bytes, Bool, List, [], ◌∷◌, ◌++◌, Option, none, some, length, take, drop,
  nat_beq, leb, if◌then◌else◌,
}
use deep.Tracepoints.Config.{TracePointConfig}
use deep.Tracepoints.Block.{TpBlock}

-- `byte(n)`.
abbrev pub byte : ℕ → ℕ
byte n = n % 256

-- `reader.Read` of `n` bytes from what is left: `none` at the end of the data, and zeros for what
-- is short of `n`. What is read, and what is left.
abbrev pub padded : ℕ → Bytes → Bytes
padded zero rest = []
padded (suc n) [] = 0 ∷ padded n []
padded (suc n) (b ∷ rest) = b ∷ padded n rest

unfoldable pub read : ℕ → Bytes → Option (Bytes × Bytes)
read n [] = none
read n (b ∷ rest) = some (padded n (b ∷ rest), drop n (b ∷ rest))

-- What the reader of the store finds for a tenant.
pub data Stored : Type 0 where
  does_not_exist : Stored
  failed : Stored
  stored : Bytes → Stored

module _ (marshal : TracePointConfig → Option Bytes) where
  -- The loop of `Flush`: the lengths, and the tracepoints one after the other.
  unfoldable pub encode_all : List TracePointConfig → Option (Bytes × Bytes)
  encode_all [] = some ([], [])
  encode_all (tp ∷ tps) = elim (marshal tp) [
    | none ↦ none
    | some m ↦ elim (encode_all tps) [
      | none ↦ none
      | some (positions, tp_bytes) ↦ some (byte (length m) ∷ positions, m ++ tp_bytes)
    ]
  ]

  -- The data that `Flush` hands to the writer.
  unfoldable pub flush : TpBlock → Option Bytes
  flush block = elim (encode_all block.tps) [
    | none ↦ none
    | some (positions, tp_bytes) ↦
        some (byte (length positions) ∷ byte (length tp_bytes) ∷ (positions ++ tp_bytes))
  ]

module _ (unmarshal : Bytes → Option TracePointConfig) where
  -- The loop of `LoadBlock`; its `start` is always 0.
  unfoldable pub decode_all : Bytes → Bytes → Option (List TracePointConfig)
  decode_all [] rest = some []
  decode_all (position ∷ positions) rest = elim (read position rest) [
    | none ↦ none
    | some (tp_bytes, rest') ↦ elim (unmarshal tp_bytes) [
      | none ↦ none
      | some tp ↦ elim (decode_all positions rest') [ none ↦ none | some tps ↦ some (tp ∷ tps) ]
    ]
  ]

  abbrev pub block_of : Bytes → List TracePointConfig → TpBlock
  block_of tenant_id tps = record { tps = tps; tenant_id = tenant_id }

  -- What is made of the positions and of what follows them.
  abbrev pub decoded : Bytes → Option (Bytes × Bytes) → Option TpBlock
  decoded tenant_id none = none
  decoded tenant_id (some (positions, rest)) = elim (decode_all positions rest) [
    | none ↦ none
    | some tps ↦ some (block_of tenant_id tps)
  ]

  -- An empty slice or one byte end the data too early.
  unfoldable pub decode : Bytes → Bytes → Option TpBlock
  decode tenant_id [] = none
  decode tenant_id (n ∷ []) = none
  decode tenant_id (n ∷ l ∷ rest) =
      if nat_beq n 0 then some (block_of tenant_id []) else decoded tenant_id (read n rest)

  unfoldable pub load_block : Bytes → Stored → Option TpBlock
  load_block tenant_id does_not_exist = some (block_of tenant_id [])
  load_block tenant_id failed = none
  load_block tenant_id (stored contents) = decode tenant_id contents

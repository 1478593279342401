-- ===== src/Tracepoints/Encoder/RoundTrip.antt =====
-- A block that is flushed and loaded again.
use deep.Prelude.{
  suc, ◌%◌, ◌<◌, ◌≡◌, refl, ap, Bytes, List, [], ◌∷◌, ◌++◌, Option, some, length, drop, All, arith,
  inl, inr, Option-cases,
}
use deep.Tracepoints.Config.{TracePointConfig}
use deep.Tracepoints.Block.{TpBlock}
use deep.Tracepoints.Encoder.{
  stored, byte, padded, read, encode_all, flush, decode_all, block_of, decode, load_block,
}

padded-append : (m rest : Bytes) → padded (length m) (m ++ rest) ≡ m
padded-append [] rest = refl
padded-append (b ∷ m) rest = ap (λ (l : Bytes). b ∷ l) (padded-append m rest)

drop-append : (m rest : Bytes) → drop (length m) (m ++ rest) ≡ rest
drop-append [] rest = refl
drop-append (b ∷ m) rest = drop-append m rest

read-append : (m rest : Bytes) → 0 < length m → read (length m) (m ++ rest) ≡ some (m, rest)
unfolding read
read-append [] rest h = ground (arith, h)
read-append (b ∷ m) rest h = rw (padded-append m rest, drop-append m rest) refl

module _ (marshal : TracePointConfig → Option Bytes)
    (unmarshal : Bytes → Option TracePointConfig) where
  -- A tracepoint is encoded in 1 to 255 bytes, from which it is decoded.
  pub record IsSmall (tp : TracePointConfig) : Type 0 where
    pub encoded : Bytes
    pub encodes : marshal tp ≡ some encoded
    pub decodes : unmarshal encoded ≡ some tp
    pub some_bytes : 0 < length encoded
    pub few_bytes : length encoded < 256

  -- What the lists of positions and of bytes are to each other.
  pub record Encodes (tps : List TracePointConfig) (positions tp_bytes : Bytes) : Type 0 where
    pub encoded : encode_all marshal tps ≡ some (positions, tp_bytes)
    pub as_many : length positions ≡ length tps
    pub decoded : decode_all unmarshal positions tp_bytes ≡ some tps

  encode_all-Encodes :
      (tps : List TracePointConfig)
      → All IsSmall tps
      → (positions : Bytes) × (tp_bytes : Bytes) × Encodes tps positions tp_bytes
  unfolding encode_all decode_all
  encode_all-Encodes [] a = ([], [], record { encoded = refl; as_many = refl; decoded = refl })
  encode_all-Encodes (tp ∷ tps) (s, a) =
      let (positions, tp_bytes, r) = encode_all-Encodes tps a in
      let len : byte (length s.encoded) ≡ length s.encoded = omega (arith, s.few_bytes) in
      (
        byte (length s.encoded) ∷ positions,
        s.encoded ++ tp_bytes,
        record {
          encoded = ground (arith, s.encodes, r.encoded);
          as_many = ap suc r.as_many;
          decoded =
              rw len
                (ground (arith, read-append s.encoded tp_bytes s.some_bytes, s.decodes, r.decoded));
        },
      )

  decode-Encodes :
      (tenant_id : Bytes) (tps : List TracePointConfig) (positions tp_bytes : Bytes)
      → length tps < 256
      → Encodes tps positions tp_bytes
      → decode unmarshal tenant_id
          (byte (length positions) ∷ byte (length tp_bytes) ∷ (positions ++ tp_bytes))
        ≡ some (block_of unmarshal tenant_id tps)
  unfolding decode
  decode-Encodes tenant_id [] [] tp_bytes few r = refl
  decode-Encodes tenant_id [] (p ∷ ps) tp_bytes few r = ground (arith, r.as_many)
  decode-Encodes tenant_id (tp ∷ tps) [] tp_bytes few r = ground (arith, r.as_many)
  decode-Encodes tenant_id (tp ∷ tps) (p ∷ ps) tp_bytes few r =
      let len : byte (length (p ∷ ps)) ≡ length (p ∷ ps) = omega (arith, few, r.as_many) in
      rw len (ground (arith, read-append (p ∷ ps) tp_bytes (omega arith), r.decoded))

  length-encode_all :
      (tps : List TracePointConfig) (positions tp_bytes : Bytes)
      → encode_all marshal tps ≡ some (positions, tp_bytes)
      → length positions ≡ length tps
  unfolding encode_all
  length-encode_all [] positions tp_bytes e = ground (arith, e)
  length-encode_all (tp ∷ tps) positions tp_bytes e = elim (Option-cases (marshal tp)) [
    | inl n ↦ ground (arith, n, e)
    | inr (m, n) ↦ elim (Option-cases (encode_all marshal tps)) [
      | inl k ↦ ground (arith, n, k, e)
      | inr ((ps, bs), k) ↦ ground (arith, n, k, e, length-encode_all tps ps bs k)
    ]
  ]

  -- A block of fewer than 256 tracepoints, each of which encodes to 1 to 255 bytes that decode to
  -- it, is flushed without error, and what is flushed loads as a block with the same tenant and
  -- tracepoints.
  pub load_block-flush :
      (block : TpBlock)
      → length block.tps < 256
      → All IsSmall block.tps
      → (contents : Bytes) × (flush marshal block ≡ some contents)
        × (load_block unmarshal block.tenant_id (stored contents) ≡ some block)
  unfolding flush load_block
  load_block-flush block few a =
      let (positions, tp_bytes, r) = encode_all-Encodes block.tps a in
      (
        byte (length positions) ∷ byte (length tp_bytes) ∷ (positions ++ tp_bytes),
        ground (arith, r.encoded),
        decode-Encodes block.tenant_id block.tps positions tp_bytes few r,
      )

  -- Where a multiple of 256 tracepoints is flushed, what is flushed loads as a block with none.
  pub load_block-flush_multiple :
      (block : TpBlock) (contents : Bytes)
      → length block.tps % 256 ≡ 0
      → flush marshal block ≡ some contents
      → load_block unmarshal block.tenant_id (stored contents) ≡ some (record block { tps = [] })
  unfolding flush load_block decode
  load_block-flush_multiple block contents h e =
      elim (Option-cases (encode_all marshal block.tps)) [
        | inl n ↦ ground (arith, n, e)
        | inr ((ps, bs), n) ↦
            let none_left : byte (length ps) ≡ 0 = rw (length-encode_all block.tps ps bs n) h in
            let same : contents ≡ byte (length ps) ∷ byte (length bs) ∷ (ps ++ bs) =
              ground (arith, n, e) in
            rw same (ground (arith, none_left))
      ]

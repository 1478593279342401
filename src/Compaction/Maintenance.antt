-- ===== src/Compaction/Maintenance.antt =====
-- pkg/deepdb/compactor.go and pkg/deepdb/retention.go: what compaction and retention do to the block
-- list of a tenant, in the presence of backend errors and cancellation. The clock, the backend, the
-- block encoding's compactor, the ring and the contexts are an environment that the operations step.
-- Durations are not negative. Metrics other than the outstanding blocks, logs and spans are left out.
pub mod Marking
pub mod Retention
use deep.Prelude.{
  ℕ, zero, suc, ◌+◌, ◌-◌, ◌%◌, Bytes, Bool, true, false, not, ◌&&◌, List, [], ◌∷◌, Option, none,
  some, Map, put, get_or, map, length, ltb, nat_beq, if◌then◌else◌,
}
use deep.Backend.{BlockMeta, CompactedBlockMeta, Time, Uuid}
use deep.BlockList.{BlockList, update, tenants, metas_of, compacted_metas_of}

-- `backend.ErrDoesNotExist` and every other error.
pub data Error : Type 0 where
  does_not_exist : Error
  marking_failed : ℕ → Error
  other : ℕ → Error

pub record Outside : Type 1 where
  pub World : Type 0
  pub now : World → Time × World
  pub cancelled : World → Bool
  -- `compactorSharder.Owns` of a block's or a group's hash.
  pub owns : Bytes → World → Bool
  pub uuid_string : Uuid → Bytes
  pub block_meta : Uuid → Bytes → World → Option Error × World
  -- `NewCompactor(opts).Compact` for the encoding of the first block.
  pub compact_blocks : List BlockMeta → World → (Option Error × List BlockMeta) × World
  pub known_version : Bytes → Option Error
  pub mark_block_compacted : Uuid → Bytes → World → Option Error × World
  pub clear_block : Uuid → Bytes → World → Option Error × World

pub record Config : Type 0 where
  pub block_retention : Time
  pub compacted_block_retention : Time
  -- `BlockRetentionForTenant`; 0 is no override.
  pub block_retention_for_tenant : Bytes → Time

unfoldable pub compaction_level_from : ℕ → List BlockMeta → ℕ
compaction_level_from compaction_level [] = compaction_level
compaction_level_from compaction_level (m ∷ ms) =
    compaction_level_from
      (if ltb compaction_level m.compaction_level then m.compaction_level else compaction_level) ms

abbrev pub compaction_level_for_blocks : List BlockMeta → ℕ
compaction_level_for_blocks = compaction_level_from 0

-- `BlockRetention`, unless the tenant has an override.
abbrev pub retention_for : Config → Bytes → Time
retention_for cfg t =
    if nat_beq (cfg.block_retention_for_tenant t) 0
    then cfg.block_retention
    else cfg.block_retention_for_tenant t

module _ (env : Outside) where
  open env use {World}

  -- Marks every block, counting the errors.
  unfoldable pub mark_all : Bytes → List BlockMeta → ℕ → World → ℕ × World
  mark_all t [] err_count w = (err_count, w)
  mark_all t (m ∷ ms) err_count w =
      let (e, w') = env.mark_block_compacted m.block_id t w in
      mark_all t ms (elim e [ none ↦ err_count | some x ↦ err_count + 1 ]) w'

  unfoldable pub new_compactions : List BlockMeta → World → List CompactedBlockMeta × World
  new_compactions [] w = ([], w)
  new_compactions (m ∷ ms) w =
      let (t, w') = env.now w in
      let (cs, w'') = new_compactions ms w' in (record { meta = m; compacted_time = t } ∷ cs, w'')

  unfoldable pub mark_compacted :
      Bytes
      → List BlockMeta
      → List BlockMeta
      → World × BlockList
      → Option Error × (World × BlockList)
  unfolding mark_all new_compactions
  mark_compacted t old_blocks new_blocks (w, l) =
      let (err_count, w') = mark_all t old_blocks 0 w in
      let (compactions, w'') = new_compactions old_blocks w' in
      let l' = update t new_blocks old_blocks compactions [] l in
      (if ltb 0 err_count then some (marking_failed err_count) else none, (w'', l'))

  -- The check that every block still exists stops at the first error.
  unfoldable pub check_blocks : Bytes → List BlockMeta → World → Option Error × World
  check_blocks t [] w = (none, w)
  check_blocks t (m ∷ ms) w =
      let (e, w') = env.block_meta m.block_id t w in
      elim e [ none ↦ check_blocks t ms w' | some x ↦ (some x, w') ]

  -- The rest of `compact`, after the existence check.
  abbrev pub compact_existing :
      Bytes → Bytes → List BlockMeta → World × BlockList → Option Error × (World × BlockList)
  compact_existing t version metas (w, l) = elim (env.known_version version) [
    | some x ↦ (some x, (w, l))
    | none ↦
        let ((e, new_blocks), w') = env.compact_blocks metas w in
        elim e [ some x ↦ (some x, (w', l)) | none ↦ mark_compacted t metas new_blocks (w', l) ]
  ]

  unfoldable pub compact :
      Bytes → List BlockMeta → World × BlockList → Option Error × (World × BlockList)
  compact t [] s = (none, s)
  compact t (m ∷ ms) (w, l) =
      let (e, w') = check_blocks t (m ∷ ms) w in
      elim e [ some x ↦ (some x, (w', l)) | none ↦ compact_existing t m.version (m ∷ ms) (w', l) ]

  abbrev past : Bytes → Time → Uuid → Time → World → Bool
  past t cutoff id time w = ltb time cutoff && env.owns (env.uuid_string id) w

  abbrev expired : Bytes → BlockMeta → World × BlockList → World × BlockList
  expired t b (w, l) =
      let (e, w') = env.mark_block_compacted b.block_id t w in
      let (time, w'') = env.now w' in
      elim e [
        | some x ↦ (w', l)
        | none ↦ (w'', update t [] (b ∷ []) (record { meta = b; compacted_time = time } ∷ []) [] l)
      ]

  -- The loop over the live blocks; the Boolean tells whether the context was cancelled.
  unfoldable pub expire :
      Bytes → Time → List BlockMeta → World × BlockList → Bool × (World × BlockList)
  expire t cutoff [] s = (false, s)
  expire t cutoff (b ∷ bs) (w, l) =
      let rest =
        expire t cutoff bs
          (if past t cutoff b.block_id b.end_time w then expired t b (w, l) else (w, l)) in
      if env.cancelled w then (true, (w, l)) else rest

  abbrev cleared : Bytes → CompactedBlockMeta → World × BlockList → World × BlockList
  cleared t c (w, l) =
      let (e, w') = env.clear_block c.meta.block_id t w in
      elim e [ some x ↦ (w', l) | none ↦ (w', update t [] [] [] (c ∷ []) l) ]

  -- The loop over the compacted blocks.
  unfoldable pub clear :
      Bytes → Time → List CompactedBlockMeta → World × BlockList → Bool × (World × BlockList)
  clear t cutoff [] s = (false, s)
  clear t cutoff (c ∷ cs) (w, l) =
      let rest =
        clear t cutoff cs (
          if past t cutoff c.meta.block_id c.compacted_time w
          then cleared t c (w, l)
          else (w, l)) in
      if env.cancelled w then (true, (w, l)) else rest

  -- The second half of `retainTenant`.
  unfoldable pub clear_compacted :
      Config → Bytes → Bool × (World × BlockList) → Bool × (World × BlockList)
  unfolding clear
  clear_compacted cfg t (true, s) = (true, s)
  clear_compacted cfg t (false, (w, l)) =
      let (time, w') = env.now w in
      clear t (time - cfg.compacted_block_retention) (compacted_metas_of t l) (w', l)

  unfoldable pub retain_tenant : Config → Bytes → World × BlockList → Bool × (World × BlockList)
  unfolding expire clear_compacted
  retain_tenant cfg t (w, l) =
      let (time, w') = env.now w in
      clear_compacted cfg t (expire t (time - retention_for cfg t) (metas_of t l) (w', l))

  -- `doRetention`: the tenants one after the other.
  unfoldable pub retain_all : Config → List Bytes → World × BlockList → World × BlockList
  unfolding retain_tenant
  retain_all cfg [] s = s
  retain_all cfg (t ∷ ts) s = retain_all cfg ts (retain_tenant cfg t s).1

  unfoldable pub do_retention : Config → World × BlockList → World × BlockList
  unfolding retain_all
  do_retention cfg (w, l) = retain_all cfg (tenants l) (w, l)

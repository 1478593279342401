-- ===== src/Compaction/Maintenance/Retention.antt =====
-- `retainTenant` of pkg/deepdb/retention.go.
use deep.Prelude.{
  ◌-◌, Bytes, Bool, true, false, ◌&&◌, List, [], ◌∷◌, none, ◌≡◌, ◌≢◌, refl, ◌∙◌, arith, nat_eq, ltb,
  nat_beq, All, any,
}
use deep.Backend.{BlockMeta, CompactedBlockMeta, Uuid, Time}
use deep.BlockList.{BlockList, update, metas_of, compacted_metas_of}
use deep.Compaction.Maintenance.{
  Outside, Config, expire, clear, clear_compacted, retain_tenant, retention_for,
}
use deep.Compaction.Maintenance.Marking.{live, live-update}

module _ (env : Outside) (t : Bytes) (named : t ≢ []) (u : Uuid) where
  open env use {World}

  live-clear :
      (cutoff : Time) (cs : List CompactedBlockMeta) (w : World) (l : BlockList)
      → live t u (clear env t cutoff cs (w, l)).1.1 ≡ live t u l
  unfolding clear
  live-clear cutoff [] w l = refl
  live-clear cutoff (c ∷ cs) w l =
      let (e, w') = env.clear_block c.meta.block_id t w in
      let l' = update t [] [] [] (c ∷ []) l in
      let ih = live-clear cutoff cs in
      ground (arith, ih w l, ih w' l, ih w' l', (live-update t [] [] [] (c ∷ []) l u named).0)

  live-clear_compacted :
      (cfg : Config) (stopped : Bool) (w : World) (l : BlockList)
      → live t u (clear_compacted env cfg t (stopped, (w, l))).1.1 ≡ live t u l
  unfolding clear_compacted
  live-clear_compacted cfg true w l = refl
  live-clear_compacted cfg false w l =
      let (time, w') = env.now w in
      live-clear (time - cfg.compacted_block_retention) (compacted_metas_of t l) w' l

  -- No block of this id is past the cutoff.
  abbrev pub Recent : Time → List BlockMeta → Type 0
  Recent cutoff bs = All (λ b. (nat_beq u b.block_id && ltb b.end_time cutoff) ≡ false) bs

  live-expire :
      (cutoff : Time) (bs : List BlockMeta) (w : World) (l : BlockList)
      → Recent cutoff bs
      → live t u (expire env t cutoff bs (w, l)).1.1 ≡ live t u l
  unfolding expire
  live-expire cutoff [] w l h = refl
  live-expire cutoff (b ∷ bs) w l h =
      let (e, w') = env.mark_block_compacted b.block_id t w in
      let (time, w'') = env.now w' in
      let c = record { meta = b; compacted_time = time } ∷ [] in
      let l' = update t [] (b ∷ []) c [] l in
      let ih = λ (x : World) (y : BlockList). live-expire cutoff bs x y h.1 in
      let step = (live-update t [] (b ∷ []) c [] l u named).0 in
      ground (arith, ih w l, ih w' l, ih w'' l', step, h.0)

  -- For a tenant whose id is not empty, retention keeps every live block of an id of which no listed
  -- block is older than the tenant's retention, and lists no live block that was not listed, whatever
  -- the backend, the ring and the context do.
  pub retain_tenant-keeps_young :
      (cfg : Config) (w : World) (l : BlockList)
      → Recent ((env.now w).0 - retention_for cfg t) (metas_of t l)
      → live t u (retain_tenant env cfg t (w, l)).1.1 ≡ live t u l
  unfolding retain_tenant
  retain_tenant-keeps_young cfg w l h =
      let (time, w') = env.now w in
      let r = expire env t (time - retention_for cfg t) (metas_of t l) (w', l) in
      live-clear_compacted cfg r.0 r.1.0 r.1.1
      ∙ live-expire (time - retention_for cfg t) (metas_of t l) w' l h

  -- Some block of this id is past the cutoff.
  abbrev pub expires : Time → List BlockMeta → Bool
  expires cutoff bs = any (λ b. nat_beq u b.block_id && ltb b.end_time cutoff) bs

  stays_gone :
      (cutoff : Time) (bs : List BlockMeta) (w : World) (l : BlockList)
      → live t u l ≡ false
      → live t u (expire env t cutoff bs (w, l)).1.1 ≡ false
  unfolding expire
  stays_gone cutoff [] w l h = h
  stays_gone cutoff (b ∷ bs) w l h =
      let (e, w') = env.mark_block_compacted b.block_id t w in
      let (time, w'') = env.now w' in
      let c = record { meta = b; compacted_time = time } ∷ [] in
      let l' = update t [] (b ∷ []) c [] l in
      let ih = stays_gone cutoff bs in
      let step = (live-update t [] (b ∷ []) c [] l u named).0 in
      ground (arith, ih w l, ih w' l, ih w'' l', step)

  module _ (running : (w : World) → env.cancelled w ≡ false)
      (owned : (hash : Bytes) (w : World) → env.owns hash w ≡ true)
      (marks : (id : Uuid) (w : World) → (env.mark_block_compacted id t w).0 ≡ none) where
    gone-expire :
        (cutoff : Time) (bs : List BlockMeta) (w : World) (l : BlockList)
        → expires cutoff bs ≡ true
        → live t u (expire env t cutoff bs (w, l)).1.1 ≡ false
    unfolding expire
    gone-expire cutoff [] w l h = ground arith
    gone-expire cutoff (b ∷ bs) w l h =
        let w' = (env.mark_block_compacted b.block_id t w).1 in
        let (time, w'') = env.now w' in
        let c = record { meta = b; compacted_time = time } ∷ [] in
        let l' = update t [] (b ∷ []) c [] l in
        let ih = gone-expire cutoff bs in
        let gone = stays_gone cutoff bs w'' l' in
        let step = (live-update t [] (b ∷ []) c [] l u named).0 in
        ground (
          arith,
          running w,
          owned (env.uuid_string b.block_id) w,
          marks b.block_id w,
          ih w l,
          ih w'' l',
          gone,
          step,
        )

    -- When the context is not cancelled, the compactor owns every block and the backend marks
    -- every block, retention leaves no live block of an id that was past the tenant's retention, for a tenant
    -- whose id is not empty.
    pub retain_tenant-expires :
        (cfg : Config) (w : World) (l : BlockList)
        → expires ((env.now w).0 - retention_for cfg t) (metas_of t l) ≡ true
        → live t u (retain_tenant env cfg t (w, l)).1.1 ≡ false
    unfolding retain_tenant
    retain_tenant-expires cfg w l h =
        let (time, w') = env.now w in
        let r = expire env t (time - retention_for cfg t) (metas_of t l) (w', l) in
        live-clear_compacted cfg r.0 r.1.0 r.1.1
        ∙ gone-expire (time - retention_for cfg t) (metas_of t l) w' l h

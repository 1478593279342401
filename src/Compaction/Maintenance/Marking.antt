-- ===== src/Compaction/Maintenance/Marking.antt =====
-- `markCompacted` of pkg/deepdb/compactor.go.
use deep.Prelude.{
  Bytes, Bool, not, ◌&&◌, ◌||◌, List, [], ◌∷◌, ◌≡◌, ◌≢◌, refl, ap, ◌∙◌, map, contains, arith,
  nat_eq, bytes_eq, beq_refl,
}
use deep.Backend.{BlockMeta, CompactedBlockMeta, Uuid}
use deep.BlockList.{BlockList, block_uuid, compacted_uuid, update, metas_of, compacted_metas_of}
use deep.BlockList.Blocks.{contains-update_blocks}
use deep.BlockList.Polling.{metas_of-update}
use deep.Compaction.Maintenance.{Outside, mark_all, new_compactions, mark_compacted}

-- A block of the tenant is listed as live, or as compacted.
abbrev pub live : Bytes → Uuid → BlockList → Bool
live t u l = contains u (map block_uuid (metas_of t l))

abbrev pub compacted : Bytes → Uuid → BlockList → Bool
compacted t u l = contains u (map compacted_uuid (compacted_metas_of t l))

pub live-update :
    (t : Bytes) (add remove : List BlockMeta) (cadd cremove : List CompactedBlockMeta)
    (l : BlockList) (u : Uuid)
    → t ≢ []
    → (live t u (update t add remove cadd cremove l) ≡ (
        (live t u l && not (contains u (map block_uuid remove)))
        || (contains u (map block_uuid add) && not (live t u l))))
      × (compacted t u (update t add remove cadd cremove l) ≡ (
          (compacted t u l && not (contains u (map compacted_uuid cremove)))
          || (contains u (map compacted_uuid cadd) && not (compacted t u l))))
live-update t add remove cadd cremove l u h =
    let (m, c) = metas_of-update t t add remove cadd cremove l h in
    let r = beq_refl bytes_eq t in
    (
      rw (m, r) (contains-update_blocks block_uuid u (metas_of t l) add remove),
      rw (c, r) (contains-update_blocks compacted_uuid u (compacted_metas_of t l) cadd cremove),
    )

module _ (env : Outside) where
  open env use {World}

  uuid-new_compactions :
      (ms : List BlockMeta) (w : World)
      → map compacted_uuid (new_compactions env ms w).0 ≡ map block_uuid ms
  unfolding new_compactions
  uuid-new_compactions [] w = refl
  uuid-new_compactions (m ∷ ms) w =
      ap (λ us. m.block_id ∷ us) (uuid-new_compactions ms (env.now w).1)

  -- After a compaction of `old_blocks` into `new_blocks`, whatever the backend answered, the list of a
  -- tenant whose id is not empty has as live blocks those that it had less the old ones, and those of
  -- the new ones whose ID was not live before; every old block is listed as compacted, next to those
  -- that were.
  pub mark_compacted_lem :
      (t : Bytes) (old_blocks new_blocks : List BlockMeta) (w : World) (l : BlockList) (u : Uuid)
      → t ≢ []
      → let l' = (mark_compacted env t old_blocks new_blocks (w, l)).1.1 in
        let old = contains u (map block_uuid old_blocks) in
        let fresh = contains u (map block_uuid new_blocks) in
        (live t u l' ≡ ((live t u l && not old) || (fresh && not (live t u l))))
        × (compacted t u l' ≡ (compacted t u l || old))
  unfolding mark_compacted
  mark_compacted_lem t old_blocks new_blocks w l u h =
      let w' = (mark_all env t old_blocks 0 w).1 in
      let s = live-update t new_blocks old_blocks (new_compactions env old_blocks w').0 [] l u h in
      let e = ap (λ us. contains u us) (uuid-new_compactions old_blocks w') in
      (s.0, s.1 ∙ ground (arith, e))

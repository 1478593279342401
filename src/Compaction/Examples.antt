-- ===== src/Compaction/Examples.antt =====
-- The theorems on compaction and retention at a concrete block list.
use deep.Prelude.{
  ℕ, ◌+◌, ◌*◌, Bytes, [], ◌∷◌, none, ◌≡◌, ◌≢◌, refl, true, false, not, ◌&&◌, ◌||◌, map, contains,
  nat_eq, arith,
}
use deep.Backend.{BlockMeta, new_block_meta, Uuid, nanos_per_second}
use deep.BlockList.{BlockList, new, update, update_internal, update_blocks, metas_of, block_uuid}
use deep.Compaction.Selector.{Entry, Selector, blocks_to_compact}
use deep.Compaction.Selector.Exhaustion.{HandsOut, blocks_to_compact-HandsOut}
use deep.Compaction.Maintenance.{Outside, Config, mark_compacted, retain_tenant}
use deep.Compaction.Maintenance.Marking.{live, compacted, mark_compacted_lem}
use deep.Compaction.Maintenance.Retention.{retain_tenant-keeps_young, retain_tenant-expires}
use deep.Compaction.Cycle.{cycle, rounds_enough}
use deep.Compaction.Cycle.Ending.{IsDone, cycle_lem}

abbrev acme : Bytes
acme = b'a' ∷ []

acme_named : acme ≢ []
acme_named = λ p. cc

-- The world is a clock that each reading advances; the backend and the ring agree to everything.
abbrev outside : Outside
outside = record {
  World = ℕ;
  now = λ w. (w, w + 1);
  cancelled = λ w. false;
  owns = λ h w. true;
  uuid_string = λ u. [];
  block_meta = λ u t w. (none, w);
  compact_blocks = λ ms w. ((none, []), w);
  known_version = λ v. none;
  mark_block_compacted = λ u t w. (none, w);
  clear_block = λ u t w. (none, w);
}

abbrev block : Uuid → ℕ → BlockMeta
block u end_time = record (new_block_meta acme u [] 0 []) { end_time = end_time }

abbrev listed : BlockList
listed = update acme (block 1 100 ∷ block 2 900 ∷ []) [] [] [] new

abbrev entry : Uuid → Entry
entry u = record { meta = block u 0; group = []; order = []; hash = [] }

abbrev selector : Selector
selector = record {
  min_input_blocks = 2;
  max_input_blocks = 4;
  max_compaction_range = 3600 * nanos_per_second;
  max_compaction_objects = 100;
  max_block_bytes = 100;
  entries = entry 1 ∷ entry 2 ∷ [];
}

abbrev config : Config
config = record {
  block_retention = 500;
  compacted_block_retention = 60;
  block_retention_for_tenant = λ t. 0;
}

blocks_to_compact-HandsOut_example :
    HandsOut selector selector.entries
      (blocks_to_compact selector).0
      (blocks_to_compact selector).1.entries
blocks_to_compact-HandsOut_example = blocks_to_compact-HandsOut selector

cycle_lem_example :
    IsDone outside
      (cycle outside acme 10 (rounds_enough outside selector) selector (1000, listed)).0
cycle_lem_example = cycle_lem outside acme 10 selector 1000 listed (omega arith)

mark_compacted_lem_example :
    let l' =
      (mark_compacted outside acme (block 1 100 ∷ []) (block 3 100 ∷ []) (1000, listed)).1.1 in
    let old = contains 1 (map block_uuid (block 1 100 ∷ [])) in
    let fresh = contains 1 (map block_uuid (block 3 100 ∷ [])) in
    (live acme 1 l' ≡ ((live acme 1 listed && not old) || (fresh && not (live acme 1 listed))))
    × (compacted acme 1 l' ≡ (compacted acme 1 listed || old))
mark_compacted_lem_example =
    mark_compacted_lem outside acme (block 1 100 ∷ []) (block 3 100 ∷ []) 1000 listed 1 acme_named

retain_tenant-keeps_young_example :
    live acme 2 (retain_tenant outside config acme (1000, listed)).1.1 ≡ live acme 2 listed
unfolding new_block_meta new metas_of update update_internal update_blocks
retain_tenant-keeps_young_example =
    retain_tenant-keeps_young outside acme acme_named 2 config 1000 listed (refl, (refl, tt))

retain_tenant-expires_example :
    live acme 1 (retain_tenant outside config acme (1000, listed)).1.1 ≡ false
unfolding new_block_meta new metas_of update update_internal update_blocks
retain_tenant-expires_example =
    retain_tenant-expires outside acme acme_named 1 (λ w. refl) (λ h w. refl) (λ u w. refl) config
      1000 listed refl

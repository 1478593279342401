-- ===== src/Ingester/Blocks.antt =====
-- Cut blocks are completed, flushed and cleared, and snapshots are searched.
use deep.Prelude.{
  ℕ, ◌+◌, ◌*◌, ◌/◌, Bytes, nat_eq, Bool, not, ◌&&◌, List, [], ◌∷◌, ◌++◌, Option, none, some, get,
  leb, ltb, nat_beq, if◌then◌else◌,
}
use deep.Backend.{Time, Uuid, nanos_per_second}
use deep.Ingester.Push.{
  LiveSnapshot, Entry, WalBlock, LocalBlock, Manager, Outcome, ok, failed, not_found, other,
}

unfoldable pub find_block : Uuid → List WalBlock → Option WalBlock
find_block id [] = none
find_block id (b ∷ bs) =
    let rest = find_block id bs in if nat_beq b.block_id id then some b else rest

-- `write_error` is the error of writing the block to the local backend, and `flushed` the flushed
-- time that `newLocalBlock` finds there.
abbrev pub completed : Option ℕ → Time → Option WalBlock → Manager → Manager × Outcome (Unit {0})
completed write_error flushed none m = (m, failed not_found)
completed (some e) flushed (some b) m = (m, failed (other e))
completed none flushed (some b) m = (
  record m {
    complete_blocks = m.complete_blocks ++ (record { block = b; flushed_time = flushed } ∷ []);
  },
  ok tt,
)

unfoldable pub complete_block : Option ℕ → Time → Uuid → Manager → Manager × Outcome (Unit {0})
complete_block write_error flushed id m =
    completed write_error flushed (find_block id m.completing_blocks) m

-- The blocks but the first with the UUID.
unfoldable pub without_block : Uuid → List WalBlock → List WalBlock
without_block id [] = []
without_block id (b ∷ bs) =
    let rest = without_block id bs in if nat_beq b.block_id id then bs else b ∷ rest

abbrev pub cleared : Option ℕ → Option WalBlock → Outcome (Unit {0})
cleared clear_error none = failed not_found
cleared none (some b) = ok tt
cleared (some e) (some b) = failed (other e)

unfoldable pub clear_completing_block : Option ℕ → Uuid → Manager → Manager × Outcome (Unit {0})
clear_completing_block clear_error id m = (
  record m { completing_blocks = without_block id m.completing_blocks },
  cleared clear_error (find_block id m.completing_blocks),
)

unfoldable pub get_block_to_be_flushed : Uuid → List LocalBlock → Option LocalBlock
get_block_to_be_flushed id [] = none
get_block_to_be_flushed id (c ∷ cs) =
    let rest = get_block_to_be_flushed id cs in
    if nat_beq c.block.block_id id && nat_beq c.flushed_time 0 then some c else rest

abbrev pub is_old : Time → Time → LocalBlock → Bool
is_old now timeout b = not (nat_beq b.flushed_time 0) && ltb (b.flushed_time + timeout) now

-- The blocks but the first that was flushed long enough ago.
unfoldable pub without_old : Time → Time → List LocalBlock → List LocalBlock
without_old now timeout [] = []
without_old now timeout (b ∷ bs) =
    let rest = without_old now timeout bs in if is_old now timeout b then bs else b ∷ rest

-- An error of the local backend in deleting the block is returned, and the block is off the list.
unfoldable pub clear_flushed_blocks : Time → Time → Manager → Manager
clear_flushed_blocks now timeout m = record m {
  complete_blocks = without_old now timeout m.complete_blocks;
}

unfoldable pub add_completing_block : WalBlock → Manager → Manager
add_completing_block b m = record m { completing_blocks = m.completing_blocks ++ (b ∷ []) }

-- What a search finds: a snapshot, nothing, or an error.
pub data Found : Type 0 where
  found : Bytes → Found
  absent : Found
  broken : ℕ → Found

-- `find` is the search of a block, `prepare` the decoder's, `none` an error.
module _ (find : List Entry → Bytes → Found) (prepare : Bytes → Option Bytes)
    (token : Bytes → ℕ) where
  abbrev pub or_next : Found → Found → Found
  or_next (found s) next = found s
  or_next absent next = next
  or_next (broken e) next = broken e

  unfoldable pub find_completing : Bytes → List WalBlock → Found
  find_completing id [] = absent
  find_completing id (b ∷ bs) = or_next (find b.entries id) (find_completing id bs)

  unfoldable pub find_complete : Bytes → List LocalBlock → Found
  find_complete id [] = absent
  find_complete id (b ∷ bs) = or_next (find b.block.entries id) (find_complete id bs)

  abbrev pub find_live : Option LiveSnapshot → Found
  find_live none = absent
  find_live (some s) = elim (prepare s.content) [ none ↦ broken 0 | some x ↦ found x ]

  unfoldable pub find_snapshot_by_id : Bytes → Manager → Found
  find_snapshot_by_id id m = or_next (find_live (get (token id) m.live_snapshots)) (
      or_next (find m.head_block.entries id)
        (or_next (find_completing id m.completing_blocks) (find_complete id m.complete_blocks)))

-- What the write of a block to the object store comes to: nothing is there, or the block is there
-- but its flushed time could not be written, or both are.
pub data Written : Type 0 where
  not_copied : ℕ → Written
  not_marked : ℕ → Written
  written : Written

-- The manager, and the entries of the object store.
pub record Ingest : Type 0 where
  pub manager : Manager
  pub stored : List Entry

-- `SetFlushed` keeps whole seconds.
abbrev pub flushed_at : Time → Time
flushed_at now = now / nanos_per_second * nanos_per_second

-- The block that `GetBlockToBeFlushed` finds, with its flushed time.
unfoldable pub set_flushed : Time → Uuid → List LocalBlock → List LocalBlock
set_flushed now id [] = []
set_flushed now id (c ∷ cs) =
    let rest = set_flushed now id cs in
    if nat_beq c.block.block_id id && nat_beq c.flushed_time 0
    then record c { flushed_time = flushed_at now } ∷ cs
    else c ∷ rest

abbrev pub flushed_block :
    Time → Uuid → Written → Option LocalBlock → Ingest → Ingest × Outcome (Unit {0})
flushed_block now id w none s = (s, failed not_found)
flushed_block now id (not_copied e) (some c) s = (s, failed (other e))
flushed_block now id (not_marked e) (some c) s =
    (record s { stored = s.stored ++ c.block.entries }, failed (other e))
flushed_block now id written (some c) s = (
  record s {
    stored = s.stored ++ c.block.entries;
    manager = record s.manager { complete_blocks = set_flushed now id s.manager.complete_blocks };
  },
  ok tt,
)

-- `handleFlush`.
unfoldable pub handle_flush : Time → Written → Uuid → Ingest → Ingest × Outcome (Unit {0})
handle_flush now w id s =
    flushed_block now id w (get_block_to_be_flushed id s.manager.complete_blocks) s

abbrev pub max_complete_attempts : ℕ
max_complete_attempts = 3

abbrev pub after_complete : Option ℕ → ℕ → Uuid → Manager × Outcome (Unit {0}) → Manager
after_complete clear_error attempts id (m, ok u) = (clear_completing_block clear_error id m).0
after_complete clear_error attempts id (m, failed e) =
    if leb max_complete_attempts attempts then (clear_completing_block clear_error id m).0 else m

-- `handleComplete` while the queues run: a block that cannot be completed is dropped at the last
-- attempt.
unfoldable pub handle_complete : Option ℕ → Time → Option ℕ → ℕ → Uuid → Manager → Manager
handle_complete write_error flushed clear_error attempts id m =
    after_complete clear_error attempts id (complete_block write_error flushed id m)

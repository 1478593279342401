-- ===== src/Ingester/Cut.antt =====
-- Live snapshots are cut into the head block, and the head block is cut.
use deep.Prelude.{
  ℕ, ◌+◌, Bytes, bytes_lt, nat_eq, Bool, ◌||◌, List, [], ◌∷◌, ◌++◌, Option, none, some, Map, keys,
  length, leb, ltb, nat_beq, if◌then◌else◌,
}
use deep.Backend.{Time, Uuid}
use deep.Ingester.Push.{LiveSnapshot, Entry, Manager, Outcome, ok, failed, other, new_block}

-- The two halves of `snapshotsToCut`: what stays live, and what is cut.
module _ (now cutoff : Time) (immediate : Bool) where
  abbrev pub is_cut : LiveSnapshot → Bool
  is_cut s = ltb s.last_append (now + cutoff) || immediate

  unfoldable pub kept_live : Map ℕ LiveSnapshot → Map ℕ LiveSnapshot
  kept_live [] = []
  kept_live ((k, s) ∷ live) = let rest = kept_live live in if is_cut s then rest else (k, s) ∷ rest

  unfoldable pub cut_live : Map ℕ LiveSnapshot → List LiveSnapshot
  cut_live [] = []
  cut_live ((k, s) ∷ live) = let rest = cut_live live in if is_cut s then s ∷ rest else rest

  unfoldable pub snapshots_to_cut : Manager → Manager × List LiveSnapshot
  snapshots_to_cut m = (
    record m {
      live_snapshots = kept_live m.live_snapshots;
      snapshot_count = length (keys (kept_live m.live_snapshots));
    },
    cut_live m.live_snapshots,
  )

-- `sort.Slice` by the ID, by insertion.
abbrev pub insert_by_id : LiveSnapshot → List LiveSnapshot → List LiveSnapshot
insert_by_id s [] = s ∷ []
insert_by_id s (t ∷ ts) =
    let rest = insert_by_id s ts in
    if bytes_lt t.snapshot_id s.snapshot_id then t ∷ rest else s ∷ t ∷ ts

abbrev pub sort_by_id : List LiveSnapshot → List LiveSnapshot
sort_by_id [] = []
sort_by_id (s ∷ ss) = insert_by_id s (sort_by_id ss)

-- `to_object` is the decoder's, and `append_error` says what the head block refuses.
module _ (to_object : Bytes → Option Bytes) (append_error : Entry → Option ℕ) where
  abbrev pub entry_of : LiveSnapshot → Bytes → Entry
  entry_of t out = record { id = t.snapshot_id; object = out; start = t.start }

  abbrev pub append_to_head : Entry → Manager → Manager
  append_to_head e m = record m {
    head_block = record m.head_block { entries = m.head_block.entries ++ (e ∷ []) };
  }

  -- The loop of `CutSnapshots`, which ends at the first error.
  unfoldable pub write_all : List LiveSnapshot → Manager → Manager × Outcome (Unit {0})
  write_all [] m = (m, ok tt)
  write_all (t ∷ ts) m = elim (to_object t.content) [
    | none ↦ (m, failed (other 0))
    | some out ↦ elim (append_error (entry_of t out)) [
      | some e ↦ (m, failed (other e))
      | none ↦ write_all ts (append_to_head (entry_of t out) m)
    ]
  ]

  -- What the last flush of the head block returns.
  abbrev pub then_flush : Option ℕ → Manager × Outcome (Unit {0}) → Manager × Outcome (Unit {0})
  then_flush flush_error (m, failed e) = (m, failed e)
  then_flush none (m, ok u) = (m, ok tt)
  then_flush (some e) (m, ok u) = (m, failed (other e))

  -- One step from the call to its return: the mutexes are let go between taking the snapshots, each
  -- write and the flush, and the states in between are not those of a manager.
  unfoldable pub cut_snapshots :
      Time → Time → Bool → Option ℕ → Manager → Manager × Outcome (Unit {0})
  cut_snapshots now cutoff immediate flush_error m = then_flush flush_error (
      write_all (sort_by_id (snapshots_to_cut now cutoff immediate m).1)
        (snapshots_to_cut now cutoff immediate m).0)

-- `resetHeadBlock`; `created` is the new block's UUID, or the error of the log.
unfoldable pub reset_head_block : Time → Outcome Uuid → Manager → Manager × Outcome (Unit {0})
reset_head_block now (failed e) m = (record m { snapshot_sizes = [] }, failed e)
reset_head_block now (ok id) m =
    (record m { snapshot_sizes = []; head_block = new_block id; last_block_cut = now }, ok tt)

-- `none` is the nil UUID of a block that was not cut.
abbrev pub cut_result : Uuid → Manager × Outcome (Unit {0}) → Manager × Outcome (Option Uuid)
cut_result id (m, failed e) = (m, failed e)
cut_result id (m, ok u) = (m, ok (some id))

abbrev pub is_ready : Time → Time → ℕ → Bool → ℕ → Manager → Bool
is_ready now max_block_lifetime max_block_bytes immediate size m =
    ltb (m.last_block_cut + max_block_lifetime) now || (leb max_block_bytes size || immediate)

-- `data_length` is the size of a block in the log. Where the new head block cannot be made, the source
-- has one block object both as the head block and as the last of the completing ones; here these are
-- two blocks with one ID and the same entries.
unfoldable pub cut_block_if_ready :
    (List Entry → ℕ)
    → Time
    → Time
    → ℕ
    → Bool
    → Option ℕ
    → Outcome Uuid
    → Manager
    → Manager × Outcome (Option Uuid)
cut_block_if_ready data_length now lifetime max_block_bytes immediate flush_error created m =
    if nat_beq (data_length m.head_block.entries) 0
    then (m, ok none)
    else (if is_ready now lifetime max_block_bytes immediate (data_length m.head_block.entries) m
        then elim flush_error [
          | some e ↦ (m, failed (other e))
          | none ↦ cut_result m.head_block.block_id (
              reset_head_block now created
                (record m { completing_blocks = m.completing_blocks ++ (m.head_block ∷ []) }))
        ]
        else (m, ok none))

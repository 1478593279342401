-- ===== src/Ingester/Histories.antt =====
-- Histories of the calls on a tenant's manager and the object store it flushes to.
use deep.Prelude.{
  ℕ, ◌<◌, ◌≡◌, sym, subst, Bytes, bytes_eq, nat_eq, Bool, true, List, Option, none, get, All, ◌⊎◌,
  arith,
}
use deep.Backend.{Time, Uuid}
use deep.Ingester.Push.{Entry, WalBlock, Outcome, ok, push_bytes}
use deep.Ingester.Cut.{cut_snapshots, cut_block_if_ready}
use deep.Ingester.Blocks.{
  clear_flushed_blocks, add_completing_block, Written, Ingest, handle_flush, handle_complete,
  max_complete_attempts,
}
use deep.Ingester.Visible.{owns}
use deep.Ingester.Owning.{push_bytes-SameBlocks, push_bytes-live}
use deep.Ingester.Kept.{Marked, is_kept, IsSafe}
use deep.Ingester.Safe.{push-IsSafe, cut-IsSafe, cut_block-IsSafe}
use deep.Ingester.Completing.{complete-IsSafe, flush-IsSafe, clear-IsSafe, replay-IsSafe}

module _ (token : Bytes → ℕ) (fast_range : Bytes → Option ℕ) (to_object : Bytes → Option Bytes)
    (data_length : List Entry → ℕ) where
  -- The calls on a tenant's manager. Cutting succeeds, and a block is not dropped because it could
  -- not be completed.
  pub data Step (s : Ingest) : Ingest → Type 0 where
    pushes :
        (now : Time) (max_bytes : ℕ) (admits : ℕ → Bool) (id snapshot : Bytes)
        → Step s (record s {
          manager = (push_bytes fast_range now token max_bytes admits id snapshot s.manager).0;
        })
    cuts :
        (append_error : Entry → Option ℕ) (now cutoff : Time) (immediate : Bool)
        (flush_error : Option ℕ)
        → (cut_snapshots to_object append_error now cutoff immediate flush_error s.manager).1
          ≡ ok tt
        → Step s (record s {
          manager =
              (cut_snapshots to_object append_error now cutoff immediate flush_error s.manager).0;
        })
    cuts_block :
        (now lifetime : Time) (max_block_bytes : ℕ) (immediate : Bool) (flush_error : Option ℕ)
        (created : Outcome Uuid)
        → Step s (record s {
          manager =
              (cut_block_if_ready data_length now lifetime max_block_bytes immediate flush_error
                created s.manager).0;
        })
    completes :
        (write_error clear_error : Option ℕ) (attempts : ℕ) (u : Uuid)
        → (write_error ≡ none) ⊎ (attempts < max_complete_attempts)
        → Step s
            (record s { manager = handle_complete write_error 0 clear_error attempts u s.manager })
    flushes : (now : Time) (w : Written) (u : Uuid) → Step s (handle_flush now w u s).0
    clears :
        (now timeout : Time)
        → Step s (record s { manager = clear_flushed_blocks now timeout s.manager })
    replays : (b : WalBlock) → Step s (record s { manager = add_completing_block b s.manager })

  pub data Steps (s : Ingest) : Ingest → Type 0 where
    start : Steps s s
    after : {s' s'' : Ingest} → Steps s s' → Step s' s'' → Steps s s''

  module _ (id : Bytes) where
    Step-IsSafe : {s s' : Ingest} → IsSafe token id s → Step s s' → IsSafe token id s'
    Step-IsSafe {s} h (pushes now max_bytes admits x snapshot) =
        push-IsSafe token fast_range to_object data_length id now max_bytes admits x snapshot s h
    Step-IsSafe {s} h (cuts append_error now cutoff immediate flush_error done) =
        cut-IsSafe token fast_range to_object data_length id append_error now cutoff immediate
          flush_error s done h
    Step-IsSafe {s} h (cuts_block now lifetime max_block_bytes immediate flush_error created) =
        cut_block-IsSafe token fast_range to_object data_length id now lifetime max_block_bytes
          immediate flush_error created s h
    Step-IsSafe {s} h (completes write_error clear_error attempts u c) =
        complete-IsSafe token id write_error clear_error attempts u s c h
    Step-IsSafe {s} h (flushes now w u) = flush-IsSafe token id now w u s h
    Step-IsSafe {s} h (clears now timeout) = clear-IsSafe token id now timeout s h
    Step-IsSafe {s} h (replays b) = replay-IsSafe token id b s h

    Steps-IsSafe : {s s' : Ingest} → IsSafe token id s → Steps s s' → IsSafe token id s'
    Steps-IsSafe h start = h
    Steps-IsSafe h (after r st) = Step-IsSafe (Steps-IsSafe h r) st

    -- Where the blocks flushed so far are in the object store, and a snapshot is accepted whose place
    -- among the live ones is free or its own, then whatever calls follow, its ID is live, in one of
    -- the ingester's blocks, or in the object store; among the calls that follow, every cut of the
    -- live snapshots succeeds, and no block is given up because it could not be completed.
    pub pushed-IsSafe :
        (now : Time) (max_bytes : ℕ) (admits : ℕ → Bool) (snapshot : Bytes) (s : Ingest)
        {s' : Ingest}
        → All (Marked id s.stored) s.manager.complete_blocks
        → (get (token id) s.manager.live_snapshots ≡ none)
          ⊎ (owns id (get (token id) s.manager.live_snapshots) ≡ true)
        → (push_bytes fast_range now token max_bytes admits id snapshot s.manager).1 ≡ ok tt
        → Steps
            (record s {
              manager = (push_bytes fast_range now token max_bytes admits id snapshot s.manager).0;
            })
            s'
        → IsSafe token id s'
    unfolding is_kept
    pushed-IsSafe now max_bytes admits snapshot s marked free accepted r =
        Steps-IsSafe
          (record {
            kept = ground (
              arith,
              push_bytes-live token fast_range now max_bytes admits id snapshot s.manager free
                  accepted,
            );
            marked =
                subst (All (Marked id s.stored))
                  (sym
                    (push_bytes-SameBlocks token fast_range now max_bytes admits id snapshot
                      s.manager).complete)
                  marked;
          })
          r

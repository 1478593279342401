-- ===== src/Ingester/Safe.antt =====
-- The calls that push snapshots and cut blocks, and what stays kept: modules/ingester/tenantBlockManager.go.
use deep.Prelude.{
  ℕ, ◌≡◌, refl, sym, subst, Bytes, bytes_eq, nat_eq, Bool, true, ◌||◌, List, [], ◌∷◌, Option, none,
  some, get, All, Bool-cases, inl, inr, arith,
}
use deep.Backend.{Time, Uuid}
use deep.Ingester.Push.{Entry, WalBlock, Manager, Outcome, ok, failed, push_bytes}
use deep.Ingester.Cut.{
  kept_live, cut_live, snapshots_to_cut, sort_by_id, write_all, then_flush, cut_snapshots,
  reset_head_block, cut_block_if_ready,
}
use deep.Ingester.Blocks.{Ingest}
use deep.Ingester.Visible.{
  has_entry, owns, any-append, has_snapshot, has_snapshot-sort, kept_or_cut, write_all-Wrote,
}
use deep.Ingester.Owning.{push_bytes-SameBlocks, push_bytes-owns}
use deep.Ingester.Kept.{Marked, is_kept, IsSafe}

module _ (token : Bytes → ℕ) (fast_range : Bytes → Option ℕ) (to_object : Bytes → Option Bytes)
    (data_length : List Entry → ℕ) where
  then_flush-ok :
      (append_error : Entry → Option ℕ) (flush_error : Option ℕ) (p : Manager × Outcome (Unit {0}))
      → (then_flush to_object append_error flush_error p).1 ≡ ok tt
      → (p.1 ≡ ok tt) × ((then_flush to_object append_error flush_error p).0 ≡ p.0)
  then_flush-ok append_error none (m, ok u) h = (refl, refl)
  then_flush-ok append_error (some e) (m, ok u) h = absurd (ground (arith, h))
  then_flush-ok append_error none (m, failed e) h = absurd (ground (arith, h))
  then_flush-ok append_error (some x) (m, failed e) h = absurd (ground (arith, h))

  module _ (id : Bytes) where
    pub push-IsSafe :
        (now : Time) (max_bytes : ℕ) (admits : ℕ → Bool) (x snapshot : Bytes) (s : Ingest)
        → IsSafe token id s
        → IsSafe token id (record s {
          manager = (push_bytes fast_range now token max_bytes admits x snapshot s.manager).0;
        })
    unfolding is_kept
    push-IsSafe now max_bytes admits x snapshot s h =
        let same =
          push_bytes-SameBlocks token fast_range now max_bytes admits x snapshot s.manager in
        record {
          kept = elim (Bool-cases (owns id (get (token id) s.manager.live_snapshots))) [
            | inl o ↦ ground (
              arith,
              push_bytes-owns token fast_range now max_bytes admits x id snapshot s.manager o,
            )
            | inr n ↦ ground (arith, h.kept, n, same.head, same.completing, same.complete)
          ];
          marked = subst (All (Marked id s.stored)) (sym same.complete) h.marked;
        }

    -- The manager `m` after the cut snapshots were written.
    cut_kept :
        (now cutoff : Time) (immediate : Bool) (s : Ingest) (m : Manager)
        → is_kept token id s ≡ true
        → m.live_snapshots ≡ kept_live now cutoff immediate s.manager.live_snapshots
        → has_entry id m.head_block.entries ≡ (
            has_entry id s.manager.head_block.entries
            || has_snapshot id
                (sort_by_id (cut_live now cutoff immediate s.manager.live_snapshots)))
        → m.completing_blocks ≡ s.manager.completing_blocks
        → m.complete_blocks ≡ s.manager.complete_blocks
        → is_kept token id (record s { manager = m }) ≡ true
    unfolding is_kept
    cut_kept now cutoff immediate s m h live head completing complete =
        elim (Bool-cases (owns id (get (token id) s.manager.live_snapshots))) [
          | inl o ↦ ground (
            arith,
            live,
            head,
            completing,
            complete,
            kept_or_cut now cutoff immediate id (token id) s.manager.live_snapshots o,
            has_snapshot-sort id (cut_live now cutoff immediate s.manager.live_snapshots),
          )
          | inr n ↦ ground (arith, h, n, live, head, completing, complete)
        ]

    pub cut-IsSafe :
        (append_error : Entry → Option ℕ) (now cutoff : Time) (immediate : Bool)
        (flush_error : Option ℕ) (s : Ingest)
        → (cut_snapshots to_object append_error now cutoff immediate flush_error s.manager).1
          ≡ ok tt
        → IsSafe token id s
        → IsSafe token id (record s {
          manager =
              (cut_snapshots to_object append_error now cutoff immediate flush_error s.manager).0;
        })
    unfolding cut_snapshots snapshots_to_cut
    cut-IsSafe append_error now cutoff immediate flush_error s done h =
        let m0 = (snapshots_to_cut now cutoff immediate s.manager).0 in
        let ts = sort_by_id (snapshots_to_cut now cutoff immediate s.manager).1 in
        let (fine, same) =
          then_flush-ok append_error flush_error (write_all to_object append_error ts m0) done in
        let w = write_all-Wrote to_object append_error id ts m0 fine in
        subst (λ (m : Manager). IsSafe token id (record s { manager = m })) (sym same)
          (record {
            kept =
                cut_kept now cutoff immediate s (write_all to_object append_error ts m0).0 h.kept
                  w.live w.head w.completing w.complete;
            marked = subst (All (Marked id s.stored)) (sym w.complete) h.marked;
          })

    cut_block_complete :
        (now lifetime : Time) (max_block_bytes : ℕ) (immediate : Bool) (flush_error : Option ℕ)
        (created : Outcome Uuid) (m : Manager)
        → (cut_block_if_ready data_length now lifetime max_block_bytes immediate flush_error created
            m).0.complete_blocks
          ≡ m.complete_blocks
    unfolding cut_block_if_ready reset_head_block
    cut_block_complete now lifetime max_block_bytes immediate (some e) created m = ground arith
    cut_block_complete now lifetime max_block_bytes immediate none (ok u) m = ground arith
    cut_block_complete now lifetime max_block_bytes immediate none (failed e) m = ground arith

    cut_block-kept :
        (now lifetime : Time) (max_block_bytes : ℕ) (immediate : Bool) (flush_error : Option ℕ)
        (created : Outcome Uuid) (s : Ingest)
        → is_kept token id s ≡ true
        → is_kept token id (record s {
          manager =
              (cut_block_if_ready data_length now lifetime max_block_bytes immediate flush_error
                created s.manager).0;
        })
          ≡ true
    unfolding is_kept cut_block_if_ready reset_head_block
    cut_block-kept now lifetime max_block_bytes immediate (some e) created s h = ground (arith, h)
    cut_block-kept now lifetime max_block_bytes immediate none (ok u) s h = ground (
      arith,
      h,
      any-append (λ (c : WalBlock). has_entry id c.entries) s.manager.completing_blocks
          (s.manager.head_block ∷ []),
    )
    cut_block-kept now lifetime max_block_bytes immediate none (failed e) s h = ground (
      arith,
      h,
      any-append (λ (c : WalBlock). has_entry id c.entries) s.manager.completing_blocks
          (s.manager.head_block ∷ []),
    )

    pub cut_block-IsSafe :
        (now lifetime : Time) (max_block_bytes : ℕ) (immediate : Bool) (flush_error : Option ℕ)
        (created : Outcome Uuid) (s : Ingest)
        → IsSafe token id s
        → IsSafe token id (record s {
          manager =
              (cut_block_if_ready data_length now lifetime max_block_bytes immediate flush_error
                created s.manager).0;
        })
    cut_block-IsSafe now lifetime max_block_bytes immediate flush_error created s h = record {
      kept = cut_block-kept now lifetime max_block_bytes immediate flush_error created s h.kept;
      marked =
          subst (All (Marked id s.stored))
            (sym (
              cut_block_complete now lifetime max_block_bytes immediate flush_error created
                s.manager))
            h.marked;
    }

-- ===== src/Ingester/Completing.antt =====
-- The calls that complete, flush, clear and replay blocks, and what stays kept: modules/ingester/flush.go.
use deep.Prelude.{
  ℕ, ◌<◌, ◌≡◌, refl, sym, subst, Bytes, bytes_eq, bytes_beq, nat_eq, false, [], ◌∷◌, ◌++◌, Option,
  none, some, Option-cases, leb, ◌⊎◌, inl, inr, arith,
}
use deep.Backend.{Time, Uuid}
use deep.Ingester.Push.{Entry, WalBlock, LocalBlock, Manager}
use deep.Ingester.Blocks.{
  find_block, complete_block, without_block, clear_completing_block, get_block_to_be_flushed,
  clear_flushed_blocks, add_completing_block, Written, not_copied, not_marked, written, Ingest,
  flushed_block, handle_flush, handle_complete, max_complete_attempts,
}
use deep.Ingester.Visible.{has_entry, any-append, find_block-in_wal, without_block-none}
use deep.Ingester.Kept.{
  is_kept, IsSafe, Marked-append, Marked-snoc, in_local-without_old, without_old-Marked,
  in_local-set_flushed, set_flushed-Marked,
}

module _ (token : Bytes → ℕ) (id : Bytes) where
  unfound :
      (clear_error : Option ℕ) (attempts : ℕ) (u : Uuid) (s : Ingest)
      → find_block u s.manager.completing_blocks ≡ none
      → IsSafe token id s
      → (write_error : Option ℕ)
      → IsSafe token id
          (record s { manager = handle_complete write_error 0 clear_error attempts u s.manager })
  unfolding handle_complete complete_block clear_completing_block
  unfound clear_error attempts u s n h write_error =
      let same : handle_complete write_error 0 clear_error attempts u s.manager ≡ s.manager =
        ground (arith, n, without_block-none u s.manager.completing_blocks n) in
      subst (λ (m : Manager). IsSafe token id (record s { manager = m })) (sym same) h

  completed_with :
      (write_error clear_error : Option ℕ) (attempts : ℕ) (u : Uuid) (b : WalBlock) (s : Ingest)
      → (write_error ≡ none) ⊎ (attempts < max_complete_attempts)
      → find_block u s.manager.completing_blocks ≡ some b
      → IsSafe token id s
      → IsSafe token id
          (record s { manager = handle_complete write_error 0 clear_error attempts u s.manager })
  unfolding is_kept handle_complete complete_block clear_completing_block
  completed_with none clear_error attempts u b s c e h =
      let done : handle_complete none 0 clear_error attempts u s.manager ≡ record s.manager {
        complete_blocks =
            s.manager.complete_blocks ++ (record { block = b; flushed_time = 0 } ∷ []);
        completing_blocks = without_block u s.manager.completing_blocks;
      } =
        ground (arith, e) in
      subst (λ (m : Manager). IsSafe token id (record s { manager = m })) (sym done)
        (record {
          kept = ground (
            arith,
            h.kept,
            find_block-in_wal id u b s.manager.completing_blocks e,
            any-append (λ (l : LocalBlock). has_entry id l.block.entries) s.manager.complete_blocks
                (record { block = b; flushed_time = 0 } ∷ []),
          );
          marked =
              Marked-snoc id s.stored s.manager.complete_blocks
                (record { block = b; flushed_time = 0 }) h.marked (inl refl);
        })
  completed_with (some x) clear_error attempts u b s c e h =
      let few : leb max_complete_attempts attempts ≡ false = ground (arith, c) in
      let same : handle_complete (some x) 0 clear_error attempts u s.manager ≡ s.manager =
        ground (arith, e, few) in
      subst (λ (m : Manager). IsSafe token id (record s { manager = m })) (sym same) h

  pub complete-IsSafe :
      (write_error clear_error : Option ℕ) (attempts : ℕ) (u : Uuid) (s : Ingest)
      → (write_error ≡ none) ⊎ (attempts < max_complete_attempts)
      → IsSafe token id s
      → IsSafe token id
          (record s { manager = handle_complete write_error 0 clear_error attempts u s.manager })
  complete-IsSafe write_error clear_error attempts u s c h =
      elim (Option-cases (find_block u s.manager.completing_blocks)) [
        | inl n ↦ unfound clear_error attempts u s n h write_error
        | inr (b, e) ↦ completed_with write_error clear_error attempts u b s c e h
      ]

  flushed_block-IsSafe :
      (now : Time) (u : Uuid) (b : LocalBlock) (w : Written) (s : Ingest)
      → get_block_to_be_flushed u s.manager.complete_blocks ≡ some b
      → IsSafe token id s
      → IsSafe token id (flushed_block now u w (some b) s).0
  unfolding is_kept
  flushed_block-IsSafe now u b (not_copied x) s e h = h
  flushed_block-IsSafe now u b (not_marked x) s e h = record {
    kept =
        ground
          (arith, h.kept, any-append (λ (c : Entry). bytes_beq c.id id) s.stored b.block.entries);
    marked = Marked-append id s.stored b.block.entries s.manager.complete_blocks h.marked;
  }
  flushed_block-IsSafe now u b written s e h = record {
    kept = ground (
      arith,
      h.kept,
      any-append (λ (c : Entry). bytes_beq c.id id) s.stored b.block.entries,
      in_local-set_flushed id now u s.manager.complete_blocks,
    );
    marked =
        set_flushed-Marked id now u b s.stored s.manager.complete_blocks e
          (Marked-append id s.stored b.block.entries s.manager.complete_blocks h.marked);
  }

  pub flush-IsSafe :
      (now : Time) (w : Written) (u : Uuid) (s : Ingest)
      → IsSafe token id s
      → IsSafe token id (handle_flush now w u s).0
  unfolding handle_flush
  flush-IsSafe now w u s h =
      elim (Option-cases (get_block_to_be_flushed u s.manager.complete_blocks)) [
        | inl n ↦
            subst (λ (o : Option LocalBlock). IsSafe token id (flushed_block now u w o s).0) (sym n)
              h
        | inr (b, e) ↦
            subst (λ (o : Option LocalBlock). IsSafe token id (flushed_block now u w o s).0) (sym e)
              (flushed_block-IsSafe now u b w s e h)
      ]

  pub clear-IsSafe :
      (now timeout : Time) (s : Ingest)
      → IsSafe token id s
      → IsSafe token id (record s { manager = clear_flushed_blocks now timeout s.manager })
  unfolding is_kept clear_flushed_blocks
  clear-IsSafe now timeout s h = record {
    kept = ground (
      arith,
      h.kept,
      in_local-without_old id now timeout s.stored s.manager.complete_blocks h.marked,
    );
    marked = without_old-Marked id now timeout s.stored s.manager.complete_blocks h.marked;
  }

  pub replay-IsSafe :
      (b : WalBlock) (s : Ingest)
      → IsSafe token id s
      → IsSafe token id (record s { manager = add_completing_block b s.manager })
  unfolding is_kept add_completing_block
  replay-IsSafe b s h = record {
    kept = ground (
      arith,
      h.kept,
      any-append (λ (c : WalBlock). has_entry id c.entries) s.manager.completing_blocks (b ∷ []),
    );
    marked = h.marked;
  }

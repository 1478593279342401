-- ===== src/Ingester/Kept.antt =====
-- A snapshot that is kept: live, in a block of the ingester, or in the object store.
use deep.Prelude.{
  ℕ, ◌≡◌, refl, ap, ◌∙◌, Bytes, bytes_eq, bytes_beq, nat_eq, nat_beq, Bool, true, false, ◌&&◌, ◌||◌,
  List, [], ◌∷◌, ◌++◌, some, get, All, Bool-cases, ◌⊎◌, inl, inr, arith,
}
use deep.Backend.{Time, Uuid}
use deep.Ingester.Push.{Entry, LocalBlock}
use deep.Ingester.Blocks.{get_block_to_be_flushed, is_old, without_old, Ingest, set_flushed}
use deep.Ingester.Visible.{has_entry, in_wal, in_local, owns, any-append}

-- A block of the local backend was not flushed, or does not have the ID, or the object store does.
abbrev pub Marked : Bytes → List Entry → LocalBlock → Type 0
Marked id stored b =
    (b.flushed_time ≡ 0) ⊎ ((has_entry id b.block.entries ≡ false) ⊎ (has_entry id stored ≡ true))

module _ (token : Bytes → ℕ) where
  -- The snapshot is live, in one of the ingester's blocks, or in the object store.
  unfoldable pub is_kept : Bytes → Ingest → Bool
  is_kept id s =
      owns id (get (token id) s.manager.live_snapshots)
      || (has_entry id s.manager.head_block.entries
          || (in_wal id s.manager.completing_blocks
              || (in_local id s.manager.complete_blocks || has_entry id s.stored)))

  -- And what was flushed from the ingester is in the object store.
  pub record IsSafe (id : Bytes) (s : Ingest) : Type 0 where
    pub kept : is_kept id s ≡ true
    pub marked : All (Marked id s.stored) s.manager.complete_blocks

-- Each operation, on the blocks.
module _ (id : Bytes) where
  pub Marked-append :
      (stored more : List Entry) (bs : List LocalBlock)
      → All (Marked id stored) bs
      → All (Marked id (stored ++ more)) bs
  Marked-append stored more [] a = tt
  Marked-append stored more (b ∷ bs) a = (
    elim a.0 [
      | inl z ↦ inl z
      | inr (inl f) ↦ inr (inl f)
      | inr (inr t) ↦
          inr (inr (ground (arith, t, any-append (λ (e : Entry). bytes_beq e.id id) stored more)))
    ],
    Marked-append stored more bs a.1,
  )

  pub Marked-snoc :
      (stored : List Entry) (bs : List LocalBlock) (b : LocalBlock)
      → All (Marked id stored) bs
      → Marked id stored b
      → All (Marked id stored) (bs ++ (b ∷ []))
  Marked-snoc stored [] b a h = (h, tt)
  Marked-snoc stored (c ∷ bs) b a h = (a.0, Marked-snoc stored bs b a.1 h)

  -- Clearing takes away no ID but one that the object store has.
  pub in_local-without_old :
      (now timeout : Time) (stored : List Entry) (bs : List LocalBlock)
      → All (Marked id stored) bs
      → (in_local id bs || has_entry id stored)
        ≡ (in_local id (without_old now timeout bs) || has_entry id stored)
  unfolding without_old
  in_local-without_old now timeout stored [] a = refl
  in_local-without_old now timeout stored (b ∷ bs) a = elim a.0 [
    | inl z ↦ ground (arith, z, in_local-without_old now timeout stored bs a.1)
    | inr (inl f) ↦ ground (arith, f, in_local-without_old now timeout stored bs a.1)
    | inr (inr t) ↦ ground (arith, t, in_local-without_old now timeout stored bs a.1)
  ]

  pub without_old-Marked :
      (now timeout : Time) (stored : List Entry) (bs : List LocalBlock)
      → All (Marked id stored) bs
      → All (Marked id stored) (without_old now timeout bs)
  unfolding without_old
  without_old-Marked now timeout stored [] a = tt
  without_old-Marked now timeout stored (b ∷ bs) a = elim (Bool-cases (is_old now timeout b)) [
    | inl e ↦ rw e a.1
    | inr n ↦ rw n (a.0, without_old-Marked now timeout stored bs a.1)
  ]

  pub in_local-set_flushed :
      (now : Time) (u : Uuid) (bs : List LocalBlock)
      → in_local id (set_flushed now u bs) ≡ in_local id bs
  unfolding set_flushed
  in_local-set_flushed now u [] = refl
  in_local-set_flushed now u (b ∷ bs) = ground (arith, in_local-set_flushed now u bs)

  -- The block that is flushed is in the object store then.
  pub set_flushed-Marked :
      (now : Time) (u : Uuid) (b : LocalBlock) (stored : List Entry) (bs : List LocalBlock)
      → get_block_to_be_flushed u bs ≡ some b
      → All (Marked id (stored ++ b.block.entries)) bs
      → All (Marked id (stored ++ b.block.entries)) (set_flushed now u bs)
  unfolding set_flushed get_block_to_be_flushed
  set_flushed-Marked now u b stored [] h a = tt
  set_flushed-Marked now u b stored (c ∷ bs) h a =
      elim (Bool-cases (nat_beq c.block.block_id u && nat_beq c.flushed_time 0)) [
        | inl e ↦
            let same : c ≡ b = ground (arith, e, h) in
            let entries = ap (λ (l : LocalBlock). has_entry id l.block.entries) same in
            rw e (
              elim (Bool-cases (has_entry id b.block.entries)) [
                | inl t ↦ inr (
                    inr (
                      any-append (λ (x : Entry). bytes_beq x.id id) stored b.block.entries
                      ∙ ground (arith, t)))
                | inr f ↦ inr (inl (entries ∙ f))
              ],
              a.1,
            )
        | inr n ↦ rw n (a.0, set_flushed-Marked now u b stored bs (ground (arith, n, h)) a.1)
      ]

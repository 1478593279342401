-- ===== src/Ingester/Owning.antt =====
-- Who owns the live snapshots after a push.
use deep.Prelude.{
  ℕ, ◌≡◌, sym, ◌∙◌, subst, Bytes, bytes_eq, bytes_beq, bytes_beq_iff, nat_eq, nat_beq, nat_beq_iff,
  Bool, true, Option, none, some, get, put, get-put, Bool-cases, Option-cases, ◌⊎◌, inl, inr,
  if◌then◌else◌, arith,
}
use deep.Backend.{Time}
use deep.Ingester.Push.{
  LiveSnapshot, Manager, ok, push_bytes, push, push_live, get_or_create_snapshot, new_live_snapshot,
}
use deep.Ingester.Visible.{owns}

module _ (token : Bytes → ℕ) where
  module _ (fast_range : Bytes → Option ℕ) (now : Time) (max_bytes : ℕ) where
    push_live-id :
        (snapshot : Bytes) (t : LiveSnapshot)
        → (push_live fast_range now snapshot t).0.snapshot_id ≡ t.snapshot_id
    unfolding push_live
    push_live-id snapshot t = elim (Option-cases (fast_range snapshot)) [
      | inl n ↦ ground (arith, n)
      | inr (r, e) ↦ ground (arith, e)
    ]

    abbrev got : Bytes → Manager → Manager × LiveSnapshot
    got id m = get_or_create_snapshot fast_range now token max_bytes id m

    got-live :
        (id : Bytes) (k : ℕ) (m : Manager)
        → get k (got id m).0.live_snapshots
          ≡ (if nat_beq (token id) k then some (got id m).1 else get k m.live_snapshots)
    unfolding get_or_create_snapshot
    got-live id k m = elim (Option-cases (get (token id) m.live_snapshots)) [
      | inl n ↦
          ground
            (arith, n, get-put (token id) k (new_live_snapshot now id max_bytes) m.live_snapshots)
      | inr (s, e) ↦ ground (arith, e, nat_beq_iff (token id) k)
    ]

    got-id :
        (id : Bytes) (m : Manager)
        → (get (token id) m.live_snapshots ≡ none)
          ⊎ (owns id (get (token id) m.live_snapshots) ≡ true)
        → bytes_beq (got id m).1.snapshot_id id ≡ true
    unfolding get_or_create_snapshot
    got-id id m (inl n) = ground (arith, n, bytes_beq_iff id id)
    got-id id m (inr h) = elim (Option-cases (get (token id) m.live_snapshots)) [
      | inl n ↦ absurd (ground (arith, n, h))
      | inr (s, e) ↦ ground (arith, e, h)
    ]

    got-other :
        (id x : Bytes) (m : Manager)
        → owns x (get (token id) m.live_snapshots) ≡ true
        → bytes_beq (got id m).1.snapshot_id x ≡ true
    unfolding get_or_create_snapshot
    got-other id x m h = elim (Option-cases (get (token id) m.live_snapshots)) [
      | inl n ↦ absurd (ground (arith, n, h))
      | inr (s, e) ↦ ground (arith, e, h)
    ]

    -- The blocks are as they were.
    pub record SameBlocks (m m' : Manager) : Type 0 where
      pub head : m'.head_block ≡ m.head_block
      pub completing : m'.completing_blocks ≡ m.completing_blocks
      pub complete : m'.complete_blocks ≡ m.complete_blocks

    got-SameBlocks : (id : Bytes) (m : Manager) → SameBlocks m (got id m).0
    unfolding get_or_create_snapshot
    got-SameBlocks id m = elim (Option-cases (get (token id) m.live_snapshots)) [
      | inl n ↦ ground (arith, n)
      | inr (s, e) ↦ ground (arith, e)
    ]

    pub push_bytes-SameBlocks :
        (admits : ℕ → Bool) (id snapshot : Bytes) (m : Manager)
        → SameBlocks m (push_bytes fast_range now token max_bytes admits id snapshot m).0
    unfolding push_bytes push
    push_bytes-SameBlocks admits id snapshot m = ground (arith, got-SameBlocks id m)

    stored-owns :
        (id x snapshot : Bytes) (m : Manager)
        → owns x (
            get (token x) (
              put
                (token id)
                (push_live fast_range now snapshot (got id m).1).0
                (got id m).0.live_snapshots))
          ≡ (if nat_beq (token id) (token x)
              then bytes_beq (got id m).1.snapshot_id x
              else owns x (get (token x) m.live_snapshots))
    stored-owns id x snapshot m = elim (Bool-cases (nat_beq (token id) (token x))) [
      | inl e ↦ ground (
        arith,
        e,
        push_live-id snapshot (got id m).1,
        get-put (token id) (token x) (push_live fast_range now snapshot (got id m).1).0
            (got id m).0.live_snapshots,
      )
      | inr n ↦ ground (
        arith,
        n,
        got-live id (token x) m,
        get-put (token id) (token x) (push_live fast_range now snapshot (got id m).1).0
            (got id m).0.live_snapshots,
      )
    ]

    same_place :
        (id x : Bytes) (m : Manager)
        → nat_beq (token id) (token x) ≡ true
        → owns x (get (token x) m.live_snapshots) ≡ true
        → bytes_beq (got id m).1.snapshot_id x ≡ true
    same_place id x m e h = got-other id x m (
        subst (λ (k : ℕ). owns x (get k m.live_snapshots) ≡ true)
          (sym ((nat_beq_iff (token id) (token x)).0 e)) h)

    still_owned :
        (id x snapshot : Bytes) (m : Manager)
        → owns x (get (token x) m.live_snapshots) ≡ true
        → owns x (
            get (token x) (
              put
                (token id)
                (push_live fast_range now snapshot (got id m).1).0
                (got id m).0.live_snapshots))
          ≡ true
    still_owned id x snapshot m h =
        stored-owns id x snapshot m ∙ elim (Bool-cases (nat_beq (token id) (token x))) [
          | inl e ↦ rw e (same_place id x m e h)
          | inr n ↦ rw n h
        ]

    -- A push leaves who owns a live snapshot.
    pub push_bytes-owns :
        (admits : ℕ → Bool) (id x snapshot : Bytes) (m : Manager)
        → owns x (get (token x) m.live_snapshots) ≡ true
        → owns x (
            get
              (token x)
              (push_bytes fast_range now token max_bytes admits id snapshot m).0.live_snapshots)
          ≡ true
    unfolding push_bytes push
    push_bytes-owns admits id x snapshot m h = ground (arith, h, still_owned id x snapshot m h)

    -- An accepted push where the place is free or its own makes the snapshot live.
    pub push_bytes-live :
        (admits : ℕ → Bool) (id snapshot : Bytes) (m : Manager)
        → (get (token id) m.live_snapshots ≡ none)
          ⊎ (owns id (get (token id) m.live_snapshots) ≡ true)
        → (push_bytes fast_range now token max_bytes admits id snapshot m).1 ≡ ok tt
        → owns id (
            get
              (token id)
              (push_bytes fast_range now token max_bytes admits id snapshot m).0.live_snapshots)
          ≡ true
    unfolding push_bytes push
    push_bytes-live admits id snapshot m free h = ground (
      arith,
      h,
      stored-owns id id snapshot m,
      got-id id m free,
      nat_beq_iff (token id) (token id),
    )

-- ===== src/Ingester/Bounds.antt =====
-- The sizes that limit what is pushed for one snapshot.
use deep.Prelude.{
  ℕ, ◌+◌, ◌%◌, ◌^◌, ◌≤◌, ◌<◌, ◌≡◌, refl, Bytes, nat_eq, nat_beq, nat_beq_iff, Bool, not, ◌&&◌,
  Option, Map, get, get-put, length, ltb, Bool-cases, Option-cases, inl, inr, if◌then◌else◌, arith,
}
use deep.Backend.{Time}
use deep.Ingester.Push.{
  Manager, Outcome, ok, failed, size_of, sizes_after, push_bytes, push, push_live,
  get_or_create_snapshot,
}

module _ (fast_range : Bytes → Option ℕ) (now : Time) (token : Bytes → ℕ) (max_bytes : ℕ) where
  got-sizes :
      (id : Bytes) (m : Manager)
      → (get_or_create_snapshot fast_range now token max_bytes id m).0.snapshot_sizes
        ≡ m.snapshot_sizes
  unfolding get_or_create_snapshot
  got-sizes id m = elim (Option-cases (get (token id) m.live_snapshots)) [
    | inl n ↦ ground (arith, n)
    | inr (s, e) ↦ ground (arith, e)
  ]

  -- The size that an accepted push writes, where no width is exceeded.
  width : (a n : ℕ) → a + n ≤ max_bytes → max_bytes < 2 ^ 32 → (a + n % 2 ^ 32) % 2 ^ 32 ≡ a + n
  width a n h k = omega (arith, h, k)

  -- What the outcome of a push of `n` bytes under the token `t` says of the size of `k`.
  abbrev pub Sized : ℕ → ℕ → ℕ → Map ℕ ℕ → Map ℕ ℕ → Outcome (Unit {0}) → Type 0
  Sized t n k before later (ok u) =
      (size_of (get k later)
        ≡ (if nat_beq t k then size_of (get k before) + n else size_of (get k before)))
      × (size_of (get t before) + n ≤ max_bytes)
  Sized t n k before later (failed e) = later ≡ before

  sizes_after-Sized :
      (id snapshot : Bytes) (k : ℕ) (sizes : Map ℕ ℕ) (r : Outcome (Unit {0}))
      → 0 < max_bytes
      → max_bytes < 2 ^ 32
      → size_of (get (token id) sizes) + length snapshot ≤ max_bytes
      → Sized
          (token id)
          (length snapshot)
          k
          sizes
          (sizes_after fast_range now token max_bytes id snapshot r sizes)
          r
  sizes_after-Sized id snapshot k sizes (ok u) h w few = (
    ground (
      arith,
      h,
      nat_beq_iff (token id) k,
      width (size_of (get (token id) sizes)) (length snapshot) few w,
      get-put (token id) k ((size_of (get (token id) sizes) + length snapshot % 2 ^ 32) % 2 ^ 32)
          sizes,
    ),
    few,
  )
  sizes_after-Sized id snapshot k sizes (failed e) h w few = refl

  push-Sized :
      (id snapshot : Bytes) (k : ℕ) (m : Manager)
      → 0 < max_bytes
      → max_bytes < 2 ^ 32
      → Sized
          (token id)
          (length snapshot)
          k
          m.snapshot_sizes
          (push fast_range now token max_bytes id snapshot m).0.snapshot_sizes
          (push fast_range now token max_bytes id snapshot m).1
  unfolding push
  push-Sized id snapshot k m h w =
      elim (Bool-cases (
        ltb 0 max_bytes
        && ltb max_bytes (size_of (get (token id) m.snapshot_sizes) + length snapshot))) [
          | inl big ↦ rw big refl
          | inr n ↦
              rw (n, got-sizes id m)
                (sizes_after-Sized id snapshot k m.snapshot_sizes
                  (push_live fast_range now snapshot
                    (get_or_create_snapshot fast_range now token max_bytes id m).1).1
                  h w (ground (arith, n, h)))
        ]

  -- Under a limit of fewer than 2 ^ 32 bytes, an accepted push adds the length of the snapshot to the
  -- size kept under its token, which then does not exceed the limit, and leaves every other size; a
  -- refused push leaves all sizes.
  pub push_bytes-Sized :
      (admits : ℕ → Bool) (id snapshot : Bytes) (k : ℕ) (m : Manager)
      → 0 < max_bytes
      → max_bytes < 2 ^ 32
      → Sized
          (token id)
          (length snapshot)
          k
          m.snapshot_sizes
          (push_bytes fast_range now token max_bytes admits id snapshot m).0.snapshot_sizes
          (push_bytes fast_range now token max_bytes admits id snapshot m).1
  unfolding push_bytes
  push_bytes-Sized admits id snapshot k m h w = elim (Bool-cases (not (nat_beq (length id) 16))) [
    | inl bad ↦ rw bad refl
    | inr good ↦ elim (Bool-cases (admits m.snapshot_count)) [
      | inl a ↦ rw (good, a) (push-Sized id snapshot k m h w)
      | inr n ↦ rw (good, n) refl
    ]
  ]

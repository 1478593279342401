-- ===== src/Ingester/Push.antt =====
-- What a tenant's manager keeps, and how a snapshot is pushed to it.
use deep.Prelude.{
  ℕ, ◌+◌, ◌%◌, ◌^◌, Bytes, nat_eq, Bool, not, ◌&&◌, List, [], Option, none, some, Map, get, put,
  length, ltb, nat_beq, if◌then◌else◌,
}
use deep.Backend.{Time, Uuid}

pub record LiveSnapshot : Type 0 where
  pub content : Bytes
  pub last_append : Time
  pub snapshot_id : Bytes
  pub start : ℕ
  pub max_bytes : ℕ
  pub current_bytes : ℕ

pub record Entry : Type 0 where
  pub id : Bytes
  pub object : Bytes
  pub start : ℕ

pub record WalBlock : Type 0 where
  pub block_id : Uuid
  pub entries : List Entry

-- A flushed time of 0 is a block that was not flushed.
pub record LocalBlock : Type 0 where
  pub block : WalBlock
  pub flushed_time : Time

pub record Manager : Type 0 where
  pub live_snapshots : Map ℕ LiveSnapshot
  pub snapshot_sizes : Map ℕ ℕ
  pub snapshot_count : ℕ
  pub head_block : WalBlock
  pub completing_blocks : List WalBlock
  pub complete_blocks : List LocalBlock
  pub last_block_cut : Time

pub data Error : Type 0 where
  invalid_id : Error
  too_many_live : Error
  too_large : Error
  not_found : Error
  other : ℕ → Error

pub data Outcome {ℓ} (A : Type ℓ) : Type ℓ where
  ok : A → Outcome A
  failed : Error → Outcome A

abbrev pub new_block : Uuid → WalBlock
new_block id = record { block_id = id; entries = [] }

-- `newTenantBlockManager`, with the UUID of the first head block.
unfoldable pub new_tenant_block_manager : Uuid → Time → Manager
new_tenant_block_manager id now = record {
  live_snapshots = [];
  snapshot_sizes = [];
  snapshot_count = 0;
  head_block = new_block id;
  completing_blocks = [];
  complete_blocks = [];
  last_block_cut = now;
}

abbrev pub new_live_snapshot : Time → Bytes → ℕ → LiveSnapshot
new_live_snapshot now id max_bytes = record {
  content = [];
  last_append = now;
  snapshot_id = id;
  start = 0;
  max_bytes = max_bytes;
  current_bytes = 0;
}

abbrev pub size_of : Option ℕ → ℕ
size_of none = 0
size_of (some n) = n

-- `fast_range` is the decoder's, `none` an error.
module _ (fast_range : Bytes → Option ℕ) (now : Time) where
  abbrev pub store_segment : Bytes → LiveSnapshot → Option ℕ → LiveSnapshot × Outcome (Unit {0})
  store_segment snapshot t none = (t, failed (other 0))
  store_segment snapshot t (some start) = (record t { content = snapshot; start = start }, ok tt)

  -- `liveSnapshot.Push`.
  unfoldable pub push_live : Bytes → LiveSnapshot → LiveSnapshot × Outcome (Unit {0})
  push_live snapshot t =
      if nat_beq t.max_bytes 0
      then store_segment snapshot (record t { last_append = now }) (fast_range snapshot)
      else (if ltb t.max_bytes (t.current_bytes + length snapshot)
          then (record t { last_append = now }, failed too_large)
          else store_segment snapshot
              (record t { last_append = now; current_bytes = t.current_bytes + length snapshot })
              (fast_range snapshot))

  -- `token` is `tokenForSnapshotID`.
  module _ (token : Bytes → ℕ) (max_bytes : ℕ) where
    abbrev pub live_or_new : Bytes → Option LiveSnapshot → LiveSnapshot
    live_or_new id (some s) = s
    live_or_new id none = new_live_snapshot now id max_bytes

    -- The created snapshot is in the map and counted.
    unfoldable pub get_or_create_snapshot : Bytes → Manager → Manager × LiveSnapshot
    get_or_create_snapshot id m = elim (get (token id) m.live_snapshots) [
      | some s ↦ (m, s)
      | none ↦ (
        record m {
          live_snapshots = put (token id) (new_live_snapshot now id max_bytes) m.live_snapshots;
          snapshot_count = m.snapshot_count + 1;
        },
        new_live_snapshot now id max_bytes,
      )
    ]

    -- The size is only kept under a limit, and where the push succeeded; it wraps at 32 bits.
    abbrev pub sizes_after : Bytes → Bytes → Outcome (Unit {0}) → Map ℕ ℕ → Map ℕ ℕ
    sizes_after id snapshot (failed e) sizes = sizes
    sizes_after id snapshot (ok u) sizes =
        if ltb 0 max_bytes
        then put (token id) ((size_of (get (token id) sizes) + length snapshot % 2 ^ 32) % 2 ^ 32)
            sizes
        else sizes

    abbrev pub pushed :
        Bytes → Bytes → Manager → LiveSnapshot × Outcome (Unit {0}) → Manager × Outcome (Unit {0})
    pushed id snapshot m (s, r) = (
      record m {
        live_snapshots = put (token id) s m.live_snapshots;
        snapshot_sizes = sizes_after id snapshot r m.snapshot_sizes;
      },
      r,
    )

    unfoldable pub push : Bytes → Bytes → Manager → Manager × Outcome (Unit {0})
    push id snapshot m =
        if ltb 0 max_bytes
          && ltb max_bytes (size_of (get (token id) m.snapshot_sizes) + length snapshot)
        then (m, failed too_large)
        else pushed id snapshot (get_or_create_snapshot id m).0
            (push_live snapshot (get_or_create_snapshot id m).1)

    -- `admits` is the limiter's check of the number of live snapshots.
    unfoldable pub push_bytes : (ℕ → Bool) → Bytes → Bytes → Manager → Manager × Outcome (Unit {0})
    push_bytes admits id snapshot m =
        if not (nat_beq (length id) 16)
        then (m, failed invalid_id)
        else (if admits m.snapshot_count then push id snapshot m else (m, failed too_many_live))

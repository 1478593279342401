-- ===== src/Frontend/ById.antt =====
-- modules/frontend/snapshotbyidsharding.go: a snapshot looked up by its ID, with `ResultHandler` of
-- pkg/model/snapshot/result_handler.go and the choice of blocks of pkg/deepdb/deepdb.go. Errors are
-- numbers; spans, logs and the objectives are left out.
pub mod Covering
pub mod Merging
mod Examples
use deep.Prelude.{
  ℕ, ℤ, zero, suc, ◌+◌, ◌-◌, ◌*◌, ◌/◌, ◌%◌, ◌^◌, Bytes, bytes_lt, Bool, true, false, not, ◌&&◌,
  ◌||◌, List, [], ◌∷◌, ◌++◌, Option, none, some, length, ltb, leb, nat_beq, if◌then◌else◌, map,
  filter, pos,
}
use deep.Backend.{BlockMeta, CompactedBlockMeta, Time, Uuid}
use deep.Compaction.Format.{unix, leb_ℤ, beq_ℤ}

-- `binary.LittleEndian`: `k` bytes of `v`.
abbrev pub little_endian : ℕ → ℕ → Bytes
little_endian zero v = []
little_endian (suc k) v = (v % 256) ∷ little_endian k (v / 256)

abbrev pub boundary : ℕ → ℕ → Bytes
boundary query_shards i = little_endian 8 (255 / query_shards * i) ++ little_endian 8 0

abbrev pub last_boundary : Bytes
last_boundary = little_endian 8 (2 ^ 64 - 1) ++ little_endian 8 (2 ^ 64 - 1)

-- The loop from `i` for `k` rounds.
abbrev pub boundaries_from : ℕ → ℕ → ℕ → List Bytes
boundaries_from query_shards i zero = []
boundaries_from query_shards i (suc k) =
    boundary query_shards i ∷ boundaries_from query_shards (suc i) k

unfoldable pub create_block_boundaries : ℕ → List Bytes
create_block_boundaries zero = []
create_block_boundaries (suc n) = boundaries_from (suc n) 0 (suc n) ++ (last_boundary ∷ [])

-- A request for one shard; `unset` is a nil request.
pub data ShardRequest : Type 0 where
  ingesters : ShardRequest
  blocks : Bytes → Bytes → ShardRequest
  unset : ShardRequest

abbrev pub block_queries : Bytes → List Bytes → List ShardRequest
block_queries start [] = []
block_queries start (end ∷ bounds) = blocks start end ∷ block_queries end bounds

abbrev pub queries : List Bytes → List ShardRequest
queries [] = []
queries (b ∷ bounds) = ingesters ∷ block_queries b bounds

abbrev pub unset_requests : ℕ → List ShardRequest
unset_requests zero = []
unset_requests (suc n) = unset ∷ unset_requests n

-- `none` is a panic on an index out of range.
unfoldable pub build_sharded_requests : ℕ → List Bytes → Option (List ShardRequest)
build_sharded_requests query_shards bounds =
    if ltb query_shards (length bounds)
    then none
    else some (queries bounds ++ unset_requests (query_shards - length bounds))

-- `MarshalBinary` of a UUID: `k` bytes, the highest first.
abbrev pub uuid_bytes : ℕ → Uuid → Bytes
uuid_bytes zero u = []
uuid_bytes (suc k) u = (u / 256 ^ k % 256) ∷ uuid_bytes k u

-- `blockIDBytes`.
unfoldable pub block_id_bytes : BlockMeta → Bytes
block_id_bytes b = uuid_bytes 16 b.block_id

abbrev pub in_time : ℤ → ℤ → BlockMeta → Bool
in_time time_start time_end b =
    if not (beq_ℤ time_start (pos 0)) && not (beq_ℤ time_end (pos 0))
    then not (leb_ℤ time_end (unix b.start_time) || leb_ℤ (unix b.end_time) time_start)
    else true

unfoldable pub include_block : BlockMeta → Bytes → Bytes → ℤ → ℤ → Bool
include_block b block_start block_end time_start time_end =
    in_time time_start time_end b
    && not (bytes_lt (block_id_bytes b) block_start || bytes_lt block_end (block_id_bytes b))

unfoldable pub include_compacted_block :
    Time → CompactedBlockMeta → Bytes → Bytes → Time → ℤ → ℤ → Bool
include_compacted_block now c block_start block_end poll time_start time_end =
    if ltb (c.compacted_time + 2 * poll) now
    then false
    else include_block c.meta block_start block_end time_start time_end

-- The blocks that `Find` goes through.
unfoldable pub blocks_to_search :
    Time → Time → List BlockMeta → List CompactedBlockMeta → Bytes → Bytes → ℤ → ℤ → List BlockMeta
blocks_to_search now poll metas compacted block_start block_end time_start time_end =
    filter (λ b. include_block b block_start block_end time_start time_end) metas
    ++ map (λ (c : CompactedBlockMeta). c.meta)
        (filter (λ c. include_compacted_block now c block_start block_end poll time_start time_end)
          compacted)

-- The answer to one shard's request. `read_error` is of reading the body, `message` what it decodes
-- to, `none` an error with the number `decode_error`.
pub record SnapshotByIdResponse {ℓ} (S : Type ℓ) : Type ℓ where
  pub snapshot : Option S
  -- `none` where there are no metrics.
  pub failed_blocks : Option ℕ

pub record HttpReply {ℓ} (S : Type ℓ) : Type ℓ where
  pub status_code : ℕ
  pub text : Bytes
  pub read_error : Option ℕ
  pub decode_error : ℕ
  pub message : Option (SnapshotByIdResponse S)

pub data Reply {ℓ} (S : Type ℓ) : Type ℓ where
  transport_error : ℕ → Reply S
  reply : HttpReply S → Reply S

-- What the goroutines share.
pub record Lookup {ℓ} (S : Type ℓ) : Type ℓ where
  pub overall_error : Option ℕ
  pub total_failed_blocks : ℕ
  pub status_code : ℕ
  pub status_msg : Bytes
  pub result : Option S

-- "too many failed block queries" and "too many results found".
abbrev pub too_many_failed : ℕ
too_many_failed = 1

abbrev pub too_many_results : ℕ
too_many_results = 2

-- "snapshot not found".
abbrev pub not_found_msg : Bytes
not_found_msg =
    b's' ∷ b'n' ∷ b'a' ∷ b'p' ∷ b's' ∷ b'h' ∷ b'o' ∷ b't' ∷ b' ' ∷ b'n' ∷ b'o' ∷ b't' ∷ b' ' ∷ b'f'
    ∷ b'o' ∷ b'u' ∷ b'n' ∷ b'd' ∷ []

unfoldable pub should_quit : Bool → ℕ → Option ℕ → Bool
should_quit context_done status_code (some e) = true
should_quit context_done status_code none = context_done || nat_beq (status_code / 100) 5

abbrev pub unhappy_status : ℕ → ℕ
unhappy_status status_code = if nat_beq status_code 404 then status_code else 500

module _ {ℓ} {S : Type ℓ} where
  abbrev pub start_lookup : Lookup S
  start_lookup = record {
    overall_error = none;
    total_failed_blocks = 0;
    status_code = 404;
    status_msg = not_found_msg;
    result = none;
  }

  unfoldable pub is_complete : Lookup S → Bool
  is_complete l = elim l.result [ none ↦ false | some s ↦ true ]

  -- `Complete` of the result handler, and what is done with its error.
  unfoldable pub complete : Option S → Lookup S → Lookup S
  complete result l = elim l.result [
    | none ↦ record l { result = result }
    | some s ↦ record l { overall_error = some too_many_results }
  ]

  -- The end of the function, where the status is 200 or 404 and the failed blocks are few enough.
  abbrev pub take_found : ℕ → Option S → Lookup S → Lookup S
  take_found status_code result l =
      if nat_beq status_code 404 then l else complete result (record l { status_code = 200 })

  abbrev pub add_failed : Option ℕ → Lookup S → Lookup S
  add_failed none l = l
  add_failed (some n) l = record l { total_failed_blocks = (l.total_failed_blocks + n) % 2 ^ 32 }

  abbrev pub too_many : ℕ → Option ℕ → Lookup S → Bool
  too_many max_failed_blocks none l = false
  too_many max_failed_blocks (some n) l = ltb max_failed_blocks l.total_failed_blocks

  unfoldable pub take_message : ℕ → ℕ → SnapshotByIdResponse S → Lookup S → Lookup S
  take_message max_failed_blocks status_code m l =
      if too_many max_failed_blocks m.failed_blocks (add_failed m.failed_blocks l)
      then record (add_failed m.failed_blocks l) { overall_error = some too_many_failed }
      else take_found status_code m.snapshot (add_failed m.failed_blocks l)

  abbrev pub take_body :
      ℕ → HttpReply S → Option ℕ → Option (SnapshotByIdResponse S) → Lookup S → Lookup S
  take_body max_failed_blocks r (some e) m l = record l { overall_error = some e }
  take_body max_failed_blocks r none none l = record l { overall_error = some r.decode_error }
  take_body max_failed_blocks r none (some m) l = take_message max_failed_blocks r.status_code m l

  unfoldable pub take_http : ℕ → HttpReply S → Lookup S → Lookup S
  take_http max_failed_blocks r l =
      if not (nat_beq r.status_code 200) && not (nat_beq r.status_code 404)
      then record l { status_code = r.status_code; status_msg = r.text }
      else take_body max_failed_blocks r r.read_error r.message l

  -- What one goroutine does under the mutex.
  unfoldable pub take_reply : ℕ → Bool → Reply S → Lookup S → Lookup S
  take_reply max_failed_blocks context_done (transport_error e) l = record l {
    overall_error = some e;
  }
  take_reply max_failed_blocks context_done (reply r) l =
      if is_complete l || should_quit context_done l.status_code l.overall_error
      then l
      else take_http max_failed_blocks r l

  -- The goroutines in the order in which they take the mutex, each with the state of the context.
  unfoldable pub take_replies : ℕ → List (Bool × Reply S) → Lookup S → Lookup S
  take_replies max_failed_blocks [] l = l
  take_replies max_failed_blocks ((done, r) ∷ rs) l =
      take_replies max_failed_blocks rs (take_reply max_failed_blocks done r l)

pub data Outcome {ℓ} (S : Type ℓ) : Type ℓ where
  failure : ℕ → Outcome S
  unhappy : ℕ → Bytes → Outcome S
  success : S → ℕ → Outcome S

module _ {ℓ} {S : Type ℓ} where
  abbrev pub without_snapshot : Option ℕ → Lookup S → Outcome S
  without_snapshot none l = unhappy (unhappy_status l.status_code) l.status_msg
  without_snapshot (some e) l = failure e

  -- The answer of `RoundTrip` once all goroutines have ended.
  unfoldable pub outcome : Lookup S → Outcome S
  outcome l = elim l.result [
    | none ↦ without_snapshot l.overall_error l
    | some s ↦
        if nat_beq l.status_code 200
        then success s l.total_failed_blocks
        else unhappy (unhappy_status l.status_code) l.status_msg
  ]

-- ===== src/BlockList/Poller.antt =====
-- pkg/deepdb/blocklist/poller.go: what one poll of the object store finds, and `pollBlocklist` of
-- pkg/deepdb/deepdb.go. The object store, the ring and the clock are parameters, fixed for one poll
-- but for the indexes that it writes; errors are numbers. Metrics other than the totals are left out.
pub mod Contents
pub mod Index
mod Examples
use deep.Prelude.{
  ℕ, zero, suc, ◌+◌, ◌-◌, ◌%◌, ◌^◌, Bytes, bytes_eq, Bool, true, false, not, ◌&&◌, ◌||◌, List, [],
  ◌∷◌, ◌++◌, Option, none, some, Map, get, put, ltb, nat_beq, if◌then◌else◌,
}
use deep.Compaction.Format.{decimal}
use deep.Backend.{BlockMeta, CompactedBlockMeta, Time, Uuid}
use deep.BlockList.{BlockList, apply_poll_results}

pub record TenantIndex : Type 0 where
  pub created_at : Time
  pub meta : List BlockMeta
  pub compacted_meta : List CompactedBlockMeta

-- What a read gives: `missing` is `backend.ErrDoesNotExist`.
pub data Read (A : Type 0) : Type 0 where
  ok : A → Read A
  missing : Read A
  failed : ℕ → Read A

-- `blocks` gives the block IDs in the order in which their goroutines end.
pub record Store : Type 0 where
  pub tenants : Read (List Bytes)
  pub blocks : Bytes → Read (List Uuid)
  pub block_meta : Bytes → Uuid → Read BlockMeta
  pub compacted_block_meta : Bytes → Uuid → Read CompactedBlockMeta
  pub tenant_index : Bytes → Read TenantIndex

pub record PollerConfig : Type 0 where
  pub poll_fallback : Bool
  pub tenant_index_builders : ℕ
  pub stale_tenant_index : Time

-- The result of a function that may return an error.
pub data Result (A : Type 0) : Type 0 where
  done : A → Result A
  error : ℕ → Result A

-- The number of an `ErrDoesNotExist` that is passed on, and of the error of a stale index.
abbrev pub err_does_not_exist : ℕ
err_does_not_exist = 0

abbrev pub err_stale : ℕ
err_stale = 1

pub data PolledBlock : Type 0 where
  live : BlockMeta → PolledBlock
  compacted : CompactedBlockMeta → PolledBlock
  neither : PolledBlock
  poll_error : ℕ → PolledBlock

abbrev pub poll_compacted : Read CompactedBlockMeta → PolledBlock
poll_compacted (ok c) = compacted c
poll_compacted missing = neither
poll_compacted (failed e) = poll_error e

abbrev pub poll_meta : Read BlockMeta → Read CompactedBlockMeta → PolledBlock
poll_meta (ok m) c = live m
poll_meta missing c = poll_compacted c
poll_meta (failed e) c = poll_error e

unfoldable pub poll_block : Store → Bytes → Uuid → PolledBlock
poll_block store tenant_id id =
    poll_meta (store.block_meta tenant_id id) (store.compacted_block_meta tenant_id id)

-- `sort.Slice` by the start time, by insertion.
module _ {A : Type 0} (start : A → Time) where
  abbrev pub insert_by_start : A → List A → List A
  insert_by_start x [] = x ∷ []
  insert_by_start x (y ∷ ys) =
      let rest = insert_by_start x ys in if ltb (start y) (start x) then y ∷ rest else x ∷ y ∷ ys

  abbrev pub sort_by_start : List A → List A
  sort_by_start [] = []
  sort_by_start (x ∷ xs) = insert_by_start x (sort_by_start xs)

abbrev pub meta_start : BlockMeta → Time
meta_start m = m.start_time

abbrev pub compacted_start : CompactedBlockMeta → Time
compacted_start c = c.meta.start_time

-- What the goroutines leave: the two channels, and the error stored last.
pub record Gathered : Type 0 where
  pub metas : List BlockMeta
  pub compacted_metas : List CompactedBlockMeta
  pub any_error : Option ℕ

abbrev pub or_else : Option ℕ → ℕ → Option ℕ
or_else none e = some e
or_else (some later) e = some later

abbrev pub gather_block : PolledBlock → Gathered → Gathered
gather_block (live m) g = record g { metas = m ∷ g.metas }
gather_block (compacted c) g = record g { compacted_metas = c ∷ g.compacted_metas }
gather_block neither g = g
gather_block (poll_error e) g = record g { any_error = or_else g.any_error e }

unfoldable pub gather : Store → Bytes → List Uuid → Gathered
gather store tenant_id [] = record { metas = []; compacted_metas = []; any_error = none }
gather store tenant_id (id ∷ ids) =
    gather_block (poll_block store tenant_id id) (gather store tenant_id ids)

abbrev pub Lists : Type 0
Lists = List BlockMeta × List CompactedBlockMeta

abbrev pub sorted_lists : Gathered → Option ℕ → Result Lists
sorted_lists g (some e) = error e
sorted_lists g none =
    done (sort_by_start meta_start g.metas, sort_by_start compacted_start g.compacted_metas)

abbrev pub poll_ids : Store → Bytes → Read (List Uuid) → Result Lists
poll_ids store tenant_id (ok ids) =
    sorted_lists (gather store tenant_id ids) (gather store tenant_id ids).any_error
poll_ids store tenant_id missing = error err_does_not_exist
poll_ids store tenant_id (failed e) = error e

unfoldable pub poll_tenant_blocks : Store → Bytes → Result Lists
poll_tenant_blocks store tenant_id = poll_ids store tenant_id (store.blocks tenant_id)

-- "build-tenant-index-".
abbrev pub job_prefix : Bytes
job_prefix =
    b'b' ∷ b'u' ∷ b'i' ∷ b'l' ∷ b'd' ∷ b'-' ∷ b't' ∷ b'e' ∷ b'n' ∷ b'a' ∷ b'n' ∷ b't' ∷ b'-' ∷ b'i'
    ∷ b'n' ∷ b'd' ∷ b'e' ∷ b'x' ∷ b'-' ∷ []

abbrev pub job : ℕ → Bytes → Bytes
job i tenant = job_prefix ++ (decimal i ++ (b'-' ∷ tenant))

abbrev pub index_error : PollerConfig → Time → TenantIndex → Option ℕ
index_error cfg now i =
    if not (nat_beq cfg.stale_tenant_index 0) && ltb cfg.stale_tenant_index (now - i.created_at)
    then some err_stale
    else none

-- `tenantIndexPollError`: the index, or the error.
unfoldable pub tenant_index_poll_error : PollerConfig → Time → Read TenantIndex → Result TenantIndex
tenant_index_poll_error cfg now missing = error err_does_not_exist
tenant_index_poll_error cfg now (failed e) = error e
tenant_index_poll_error cfg now (ok i) = elim (index_error cfg now i) [
  | none ↦ done i
  | some e ↦ error e
]

module _ (cfg : PollerConfig) (owns : Bytes → Bool) (now : Time) (store : Store) where
  -- The loop from `i` for `k` rounds.
  unfoldable pub builds_from : Bytes → ℕ → ℕ → Bool
  builds_from tenant i zero = false
  builds_from tenant i (suc k) =
      let rest = builds_from tenant (suc i) k in if owns (job i tenant) then true else rest

  unfoldable pub build_tenant_index : Bytes → Bool
  build_tenant_index tenant = builds_from tenant 0 cfg.tenant_index_builders

  -- The indexes written, and the lists. The writer's error is only logged.
  abbrev pub written : Bytes → Map Bytes Lists → Result Lists → Map Bytes Lists × Result Lists
  written tenant_id indexes (error e) = (indexes, error e)
  written tenant_id indexes (done lists) = (put tenant_id lists indexes, done lists)

  abbrev pub from_index :
      Bytes → Map Bytes Lists → Result TenantIndex → Map Bytes Lists × Result Lists
  from_index tenant_id indexes (done i) = (indexes, done (i.meta, i.compacted_meta))
  from_index tenant_id indexes (error e) =
      if cfg.poll_fallback
      then written tenant_id indexes (poll_tenant_blocks store tenant_id)
      else (indexes, error e)

  unfoldable pub poll_tenant_and_create_index :
      Bytes → Map Bytes Lists → Map Bytes Lists × Result Lists
  poll_tenant_and_create_index tenant_id indexes =
      if build_tenant_index tenant_id
      then written tenant_id indexes (poll_tenant_blocks store tenant_id)
      else from_index tenant_id indexes
          (tenant_index_poll_error cfg now (store.tenant_index tenant_id))

  -- The loop of `Do`; `found` is what it has so far.
  unfoldable pub poll_tenants :
      List Bytes → Map Bytes Lists → Map Bytes Lists → Map Bytes Lists × Result (Map Bytes Lists)
  poll_tenants [] found indexes = (indexes, done found)
  poll_tenants (t ∷ ts) found indexes = elim (poll_tenant_and_create_index t indexes).1 [
    | error e ↦ ((poll_tenant_and_create_index t indexes).0, error e)
    | done lists ↦ poll_tenants ts (put t lists found) (poll_tenant_and_create_index t indexes).0
  ]

  abbrev pub poll_from :
      Read (List Bytes) → Map Bytes Lists → Map Bytes Lists × Result (Map Bytes Lists)
  poll_from (ok ts) indexes = poll_tenants ts [] indexes
  poll_from missing indexes = (indexes, error err_does_not_exist)
  poll_from (failed e) indexes = (indexes, error e)

  -- `Do`, with the two maps as one.
  unfoldable pub do_poll : Map Bytes Lists → Map Bytes Lists × Result (Map Bytes Lists)
  do_poll indexes = poll_from store.tenants indexes

  abbrev pub lives_of : Map Bytes Lists → Map Bytes (List BlockMeta)
  lives_of [] = []
  lives_of ((t, lists) ∷ m) = (t, lists.0) ∷ lives_of m

  abbrev pub compacteds_of : Map Bytes Lists → Map Bytes (List CompactedBlockMeta)
  compacteds_of [] = []
  compacteds_of ((t, lists) ∷ m) = (t, lists.1) ∷ compacteds_of m

  unfoldable pub poll_blocklist : Map Bytes Lists → BlockList → BlockList
  poll_blocklist indexes l = elim (do_poll indexes).1 [
    | error e ↦ l
    | done m ↦ apply_poll_results (lives_of m) (compacteds_of m) l
  ]

-- `sumTotalBackendMetaMetrics`. Sums of bytes wrap at 64 bits.
pub record BackendMetaMetrics : Type 0 where
  pub block_meta_total_objects : ℕ
  pub compacted_block_meta_total_objects : ℕ
  pub block_meta_total_bytes : ℕ
  pub compacted_block_meta_total_bytes : ℕ

unfoldable pub sum_objects : {A : Type 0} → (A → BlockMeta) → List A → ℕ → ℕ
sum_objects meta_of [] sum = sum
sum_objects meta_of (b ∷ bs) sum = sum_objects meta_of bs (sum + (meta_of b).total_objects)

unfoldable pub sum_bytes : {A : Type 0} → (A → BlockMeta) → List A → ℕ → ℕ
sum_bytes meta_of [] sum = sum
sum_bytes meta_of (b ∷ bs) sum = sum_bytes meta_of bs ((sum + (meta_of b).size) % 2 ^ 64)

unfoldable pub sum_total_backend_meta_metrics :
    List BlockMeta → List CompactedBlockMeta → BackendMetaMetrics
sum_total_backend_meta_metrics ms cs = record {
  block_meta_total_objects = sum_objects (λ (m : BlockMeta). m) ms 0;
  compacted_block_meta_total_objects = sum_objects (λ (c : CompactedBlockMeta). c.meta) cs 0;
  block_meta_total_bytes = sum_bytes (λ (m : BlockMeta). m) ms 0;
  compacted_block_meta_total_bytes = sum_bytes (λ (c : CompactedBlockMeta). c.meta) cs 0;
}

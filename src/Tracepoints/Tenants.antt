-- ===== src/Tracepoints/Tenants.antt =====
-- `TPStore` of modules/tracepoint/store/tracepointStore.go: the tenants' stores over the object
-- store. `hash` is hash/fnv, `marshal` and `unmarshal` the protobuf encoding, and `accepts` says
-- of which tenants the writer takes the block.
pub mod Reloading
use deep.Prelude.{
  ℕ, Bytes, bytes_eq, Bool, true, false, List, [], ◌∷◌, Option, none, some, Map, get, put,
  if◌then◌else◌,
}
use deep.Tracepoints.Config.{KeyValue, TracePointConfig}
use deep.Tracepoints.Block.{TpBlock}
use deep.Tracepoints.Encoder.{Stored, does_not_exist, failed, stored, flush, load_block}
use deep.Tracepoints.Store.{OrgStore, PollResponse, ResourceStore, for_resource, process_request}

pub record TpStore : Type 0 where
  pub org_stores : Map Bytes OrgStore

-- The blocks in the object store; a reader that works finds what is there.
abbrev pub stored_for : Map Bytes Bytes → Bytes → Stored
stored_for objects id = elim (get id objects) [ none ↦ does_not_exist | some b ↦ stored b ]

abbrev pub new_org_store : Bytes → TpBlock → OrgStore
new_org_store id block = record { tenant_id = id; user_stores = []; block = block }

module _ (unmarshal : Bytes → Option TracePointConfig) where
  -- What `ForOrg` does where it has no store yet.
  abbrev pub loaded_org : Bytes → Option TpBlock → TpStore → TpStore × Option OrgStore
  loaded_org id none s = (s, none)
  loaded_org id (some block) s = (
    record { org_stores = put id (new_org_store id block) s.org_stores },
    some (new_org_store id block),
  )

  -- `found` is what the reader finds; an error is `none`.
  unfoldable pub for_org : Stored → Bytes → TpStore → TpStore × Option OrgStore
  for_org found id s = elim (get id s.org_stores) [
    | some os ↦ (s, some os)
    | none ↦ loaded_org id (load_block unmarshal id found) s
  ]

  module _ (hash : Bytes → ℕ) where
    -- `ForResource` and the poll of its list; the tenant's store is updated in place.
    abbrev pub polled_org :
        Bytes → List KeyValue → Bytes → TpStore × Option OrgStore → TpStore × Option PollResponse
    polled_org id resource client_hash (s, none) = (s, none)
    polled_org id resource client_hash (s, some os) = (
      record { org_stores = put id (for_resource hash resource os).0 s.org_stores },
      some (process_request client_hash (for_resource hash resource os).1),
    )

    unfoldable pub load_tracepoints :
        Stored → Bytes → List KeyValue → Bytes → TpStore → TpStore × Option PollResponse
    load_tracepoints found id resource client_hash s =
        polled_org id resource client_hash (for_org found id s)

module _ (marshal : TracePointConfig → Option Bytes) (accepts : Bytes → Bool) where
  -- `Flush`: the objects after it, `none` an error.
  unfoldable pub flush_org : OrgStore → Map Bytes Bytes → Option (Map Bytes Bytes)
  flush_org store objects = elim (flush marshal store.block) [
    | none ↦ none
    | some contents ↦
        if accepts store.block.tenant_id
        then some (put store.block.tenant_id contents objects)
        else none
  ]

  -- `FlushAll`, which ends at the first error: the objects then, and whether all were written.
  unfoldable pub flush_all : Map Bytes OrgStore → Map Bytes Bytes → Map Bytes Bytes × Bool
  flush_all [] objects = (objects, true)
  flush_all ((id, store) ∷ stores) objects = elim (flush_org store objects) [
    | none ↦ (objects, false)
    | some objects' ↦ flush_all stores objects'
  ]

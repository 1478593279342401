-- ===== src/Tracepoints/Store.antt =====
-- modules/tracepoint/store/tracepointStore.go: the store of a tenant, with a list of tracepoints
-- for each kind of client that has polled. A panic is `none`. `hash` is the 32 bit hash of hash/fnv,
-- of which the code only needs that it is a function.
pub mod Hits
pub mod Cached
pub mod Refines
use deep.Prelude.{
  ℕ, zero, suc, Bytes, bytes_eq, bytes_beq, Bool, true, false, not, ◌&&◌, List, [], ◌∷◌, ◌++◌,
  Option, none, some, Map, get, put, length, nat_beq, if◌then◌else◌,
}
use deep.Compaction.Format.{decimal}
use deep.Scheduler.QuerierOps.{sort_strings}
use deep.Tracepoints.Config.{
  KeyValue, TracePointConfig, attributes_from, get_string_value, resource_matches,
}
use deep.Tracepoints.Slices.{remove_all}
use deep.Tracepoints.Block.{TpBlock}
use deep.Tracepoints.Block

pub record ResourceStore : Type 0 where
  pub tps : List TracePointConfig
  pub current_hash : Bytes
  pub resource : List KeyValue

-- `user_stores` are keyed by `key_for_resource`.
pub record OrgStore : Type 0 where
  pub tenant_id : Bytes
  pub user_stores : Map Bytes ResourceStore
  pub block : TpBlock

-- What a client is sent, less the time.
pub data ResponseType : Type 0 where
  update no_change : ResponseType

pub record PollResponse : Type 0 where
  pub current_hash : Bytes
  pub response : List TracePointConfig
  pub response_type : ResponseType

unfoldable pub process_request : Bytes → ResourceStore → PollResponse
process_request client_hash us = record {
  current_hash = us.current_hash;
  response = us.tps;
  response_type =
      if not (nat_beq (length client_hash) 0) && bytes_beq client_hash us.current_hash
      then no_change
      else update;
}

-- The indexes appended for one tracepoint: one for each of the IDs that is its own.
abbrev pub hits : List Bytes → ℕ → Bytes → List ℕ
hits [] i id = []
hits (x ∷ ids) i id = let rest = hits ids i id in if bytes_beq id x then i ∷ rest else rest

abbrev pub hit_indexes : List Bytes → ℕ → List TracePointConfig → List ℕ
hit_indexes ids i [] = []
hit_indexes ids i (config ∷ tps) = hits ids i config.id ++ hit_indexes ids (suc i) tps

-- What `rehash` writes to the hash.
abbrev pub ids_text : List TracePointConfig → Bytes
ids_text [] = []
ids_text (config ∷ tps) = config.id ++ ids_text tps

abbrev pub attribute_keys : List KeyValue → List Bytes
attribute_keys [] = []
attribute_keys (a ∷ resource) = a.key ∷ attribute_keys resource

abbrev pub value_or_empty : Option Bytes → Bytes
value_or_empty none = []
value_or_empty (some v) = v

-- The keys, each with its value.
abbrev pub attributes_text : Map Bytes Bytes → List Bytes → Bytes
attributes_text values [] = []
attributes_text values (key ∷ keys) =
    key ++ (value_or_empty (get key values) ++ attributes_text values keys)

module _ (hash : Bytes → ℕ) where
  unfoldable pub rehash : ResourceStore → ResourceStore
  rehash us = record us { current_hash = decimal (hash (ids_text us.tps)) }

  unfoldable pub add_to_resource : TracePointConfig → ResourceStore → ResourceStore
  add_to_resource tp us = rehash (record us { tps = us.tps ++ (tp ∷ []) })

  unfoldable pub delete_from_resource : List Bytes → ResourceStore → Option ResourceStore
  delete_from_resource ids us =
      if nat_beq (length (hit_indexes ids 0 us.tps)) 0
      then some us
      else elim (remove_all us.tps (hit_indexes ids 0 us.tps)) [
        | none ↦ none
        | some tps ↦ some (rehash (record us { tps = tps }))
      ]

  -- The loop of `AddTracepoint`.
  unfoldable pub add_to_matching :
      TracePointConfig → Map Bytes ResourceStore → Map Bytes ResourceStore
  add_to_matching tp [] = []
  add_to_matching tp ((k, us) ∷ stores) =
      (k, if resource_matches tp us.resource then add_to_resource tp us else us)
      ∷ add_to_matching tp stores

  unfoldable pub add_tracepoint : TracePointConfig → OrgStore → OrgStore
  add_tracepoint tp os = record os {
    block = Block.add_tracepoint tp os.block;
    user_stores = add_to_matching tp os.user_stores;
  }

  -- The loop of `DeleteTracepoints`.
  unfoldable pub delete_from_stores :
      List Bytes → Map Bytes ResourceStore → Option (Map Bytes ResourceStore)
  delete_from_stores ids [] = some []
  delete_from_stores ids ((k, us) ∷ stores) = elim (delete_from_resource ids us) [
    | none ↦ none
    | some us' ↦ elim (delete_from_stores ids stores) [
      | none ↦ none
      | some stores' ↦ some ((k, us') ∷ stores')
    ]
  ]

  unfoldable pub delete_tracepoints : List Bytes → OrgStore → Option OrgStore
  delete_tracepoints ids os = elim (delete_from_stores ids os.user_stores) [
    | none ↦ none
    | some stores ↦ elim (Block.delete_tracepoints ids os.block) [
      | none ↦ none
      | some block ↦ some (record os { block = block; user_stores = stores })
    ]
  ]

  unfoldable pub key_for_resource : Bytes → List KeyValue → Bytes
  key_for_resource id resource = decimal (
      hash (
        id
        ++ attributes_text (attributes_from [] resource) (sort_strings (attribute_keys resource))))

  unfoldable pub new_resource_store : List KeyValue → OrgStore → ResourceStore
  new_resource_store resource os = rehash (record {
    tps = Block.for_resource resource os.block;
    current_hash = [];
    resource = resource;
  })

  unfoldable pub for_resource : List KeyValue → OrgStore → OrgStore × ResourceStore
  for_resource resource os = elim (get (key_for_resource os.tenant_id resource) os.user_stores) [
    | some us ↦ (os, us)
    | none ↦ (
      record os {
        user_stores =
            put (key_for_resource os.tenant_id resource) (new_resource_store resource os)
              os.user_stores;
      },
      new_resource_store resource os,
    )
  ]

-- ===== src/Tracepoints/Store/Refines.antt =====
-- The tenant's store of modules/tracepoint/store/tracepointStore.go against its abstract view,
-- the list of the tenant's tracepoints.
use deep.Prelude.{
  ℕ, suc, contains, get, get-put, ◌≢◌, ◌↔◌, append-nil, ◌≡◌, refl, sym, ap, ◌∙◌, Bytes, bytes_eq,
  bytes_beq_iff, false, List, [], ◌∷◌, ◌++◌, Option, none, some, Option-cases, All, Distinct, arith,
  inl, inr,
}
use deep.Scheduler.QuerierOps.{sort_strings}
use deep.Tracepoints.Config.{
  KeyValue, TracePointConfig, string_value, attributes_from, get_string_value,
}
use deep.Tracepoints.Slices.{remove, remove_each, remove_all}
use deep.Tracepoints.Block
use deep.Tracepoints.Block.{TpBlock, matching}
use deep.Tracepoints.Block.Deleting.{without}
use deep.Tracepoints.Store.{
  new_resource_store, attributes_text, attribute_keys, ResourceStore, OrgStore, PollResponse,
  no_change, process_request, rehash, hit_indexes, key_for_resource, for_resource, add_tracepoint,
  delete_from_resource, delete_tracepoints,
}
use deep.Tracepoints.Store.Hits.{hits-absent}
use deep.Tracepoints.Store.Cached.{
  IsCached, add_tracepoint-IsCached, delete_tracepoints-Answer, delete_tracepoints-IsCached,
  for_resource-IsCached,
}

-- A resource of one attribute.
abbrev pub attribute : Bytes → Bytes → List KeyValue
attribute k v = record { key = k; value = string_value v } ∷ []

attribute_text :
    (k v : Bytes)
    → attributes_text
        (attributes_from [] (attribute k v))
        (sort_strings (attribute_keys (attribute k v)))
      ≡ k ++ v
unfolding attributes_from get_string_value
attribute_text k v = ground (arith, bytes_beq_iff k k, append-nil v)

module _ (hash : Bytes → ℕ) where
  -- `History b os tps`: calls since the block `b` was loaded lead to the store `os`, and the same
  -- additions and deletions on a list lead from the block's tracepoints to `tps`.
  pub data History (b : TpBlock) : OrgStore → List TracePointConfig → Type 0 where
    loaded : History b (record { tenant_id = b.tenant_id; user_stores = []; block = b }) b.tps
    created :
        {os : OrgStore} {tps : List TracePointConfig} (tp : TracePointConfig)
        → History b os tps
        → History b (add_tracepoint hash tp os) (tps ++ (tp ∷ []))
    deleted :
        {os os' : OrgStore} {tps : List TracePointConfig} (ids : List Bytes)
        → History b os tps
        → Distinct ids
        → delete_tracepoints hash ids os ≡ some os'
        → History b os' (without ids tps)
    polled :
        {os : OrgStore} {tps : List TracePointConfig} (resource : List KeyValue)
        → History b os tps
        → History b (for_resource hash resource os).0 tps

  pub History-Refines :
      {b : TpBlock} {os : OrgStore} {tps : List TracePointConfig}
      → History b os tps
      → (os.block.tps ≡ tps) × IsCached hash os
  unfolding add_tracepoint Block.add_tracepoint
  History-Refines loaded = (refl, tt)
  History-Refines (created {os} tp h) =
      let ih = History-Refines h in
      (
        ap (λ (l : List TracePointConfig). l ++ (tp ∷ [])) ih.0,
        add_tracepoint-IsCached hash tp os ih.1,
      )
  History-Refines (deleted {os} {os'} ids h d e) =
      let ih = History-Refines h in
      let step = delete_tracepoints-IsCached hash ids os os' d ih.1 e in
      (step.0 ∙ ap (without ids) ih.0, step.1)
  History-Refines (polled {os} resource h) =
      let ih = History-Refines h in
      let step = for_resource-IsCached hash resource os ih.1 in
      (ap (λ (t : TpBlock). t.tps) step.2 ∙ ih.0, step.0)

  -- What a poll is answered: the tracepoints of `tps` that match a resource of the same key, with
  -- their hash; `no_change` exactly where the client sent that hash.
  pub record IsAnswer (tenant : Bytes) (tps : List TracePointConfig) (resource : List KeyValue)
      (client_hash : Bytes) (us : ResourceStore) (r : PollResponse) : Type 0 where
    pub same_key : key_for_resource hash tenant us.resource ≡ key_for_resource hash tenant resource
    pub lists : r.response ≡ matching us.resource tps
    pub hashed : r.current_hash ≡ (rehash hash us).current_hash
    pub unchanged :
        (r.response_type ≡ no_change) ↔ ((client_hash ≢ []) × (client_hash ≡ r.current_hash))

  process_request-unchanged :
      (client_hash : Bytes) (us : ResourceStore)
      → ((process_request client_hash us).response_type ≡ no_change)
        ↔ ((client_hash ≢ []) × (client_hash ≡ us.current_hash))
  unfolding process_request
  process_request-unchanged [] us = ground arith
  process_request-unchanged (c ∷ cs) us = ground (arith, bytes_beq_iff (c ∷ cs) us.current_hash)

  -- Whatever was created, deleted (in calls that list no ID twice) and polled since the block was
  -- loaded, a poll is answered with those of the tenant's tracepoints that match the resource kept
  -- under the key of the client's resource, and with their hash; it says that there is no change
  -- exactly where the client sent that hash and it is not empty.
  pub poll-Refines :
      {b : TpBlock} {os : OrgStore} {tps : List TracePointConfig} (h : History b os tps)
      (resource : List KeyValue) (client_hash : Bytes)
      → IsAnswer os.tenant_id tps resource client_hash
          (for_resource hash resource os).1
          (process_request client_hash (for_resource hash resource os).1)
  unfolding process_request
  poll-Refines {os = os} h resource client_hash =
      let held = History-Refines h in
      let step = for_resource-IsCached hash resource os held.1 in
      record {
        same_key = sym step.3;
        lists = step.1.lists ∙ ap (matching (for_resource hash resource os).1.resource) held.0;
        hashed = step.1.hashed;
        unchanged = process_request-unchanged client_hash (for_resource hash resource os).1;
      }

  pub delete_tracepoints-History :
      {b : TpBlock} {os : OrgStore} {tps : List TracePointConfig} (ids : List Bytes)
      → History b os tps
      → Distinct ids
      → (os' : OrgStore) × (delete_tracepoints hash ids os ≡ some os')
        × History b os' (without ids tps)
  delete_tracepoints-History {os = os} ids h d =
      let e = delete_tracepoints-Answer hash ids os d (History-Refines h).1 in
      (_, e, deleted ids h d e)

  -- What a deletion of `ids` comes to where the tenant had the tracepoints `tps`: no panic, a block of
  -- the others, and an answer from them for whoever polls next.
  abbrev pub Deletes :
      List Bytes → List TracePointConfig → List KeyValue → Bytes → Option OrgStore → Type 0
  Deletes ids tps resource client_hash none = ⊥
  Deletes ids tps resource client_hash (some os') =
      (os'.block.tps ≡ without ids tps)
      × IsAnswer os'.tenant_id (without ids tps) resource client_hash
          (for_resource hash resource os').1
          (process_request client_hash (for_resource hash resource os').1)

  -- Whatever was created, deleted (in calls that list no ID twice) and polled since the block was
  -- loaded, a deletion that lists no ID twice does not panic, leaves in the block the tracepoints
  -- whose IDs it does not list, in their order, and the next poll is answered with those of them that
  -- match the resource kept under the key of the client's.
  pub delete_tracepoints-Refines :
      {b : TpBlock} {os : OrgStore} {tps : List TracePointConfig} (ids : List Bytes)
      (resource : List KeyValue) (client_hash : Bytes)
      → History b os tps
      → Distinct ids
      → Deletes ids tps resource client_hash (delete_tracepoints hash ids os)
  delete_tracepoints-Refines {os = os} ids resource client_hash h d =
      let (os', e, next) = delete_tracepoints-History ids h d in
      rw (e, Deletes) ((History-Refines next).0, poll-Refines next resource client_hash)

  hit_indexes-none :
      (ids : List Bytes) (i : ℕ) (tps : List TracePointConfig)
      → All (λ (tp : TracePointConfig). contains tp.id ids ≡ false) tps
      → hit_indexes ids i tps ≡ []
  hit_indexes-none ids i [] a = refl
  hit_indexes-none ids i (tp ∷ tps) a =
      rw (hits-absent ids i tp.id a.0) (hit_indexes-none ids (suc i) tps a.1)

  hit_indexes-twice :
      (tp : TracePointConfig) (rest : List TracePointConfig)
      → All (λ (t : TracePointConfig). contains t.id (tp.id ∷ tp.id ∷ []) ≡ false) rest
      → hit_indexes (tp.id ∷ tp.id ∷ []) 0 (tp ∷ rest) ≡ 0 ∷ 0 ∷ []
  hit_indexes-twice tp rest a =
      ground (arith, bytes_beq_iff tp.id tp.id, hit_indexes-none (tp.id ∷ tp.id ∷ []) 1 rest a)

  -- Where the ID of the first tracepoint of a resource, which no other there has, is listed twice,
  -- the second is removed with it, and where there is no second the call panics.
  pub delete_from_resource-twice :
      (tp : TracePointConfig) (rest : List TracePointConfig) (us : ResourceStore)
      → All (λ (t : TracePointConfig). contains t.id (tp.id ∷ tp.id ∷ []) ≡ false) rest
      → delete_from_resource hash (tp.id ∷ tp.id ∷ []) (record us { tps = tp ∷ rest })
        ≡ (elim rest [
          | [] ↦ none
          | second ∷ others ↦ some (rehash hash (record us { tps = others }))
        ])
  unfolding delete_from_resource remove_all remove_each remove
  delete_from_resource-twice tp [] us a = rw (hit_indexes-twice tp [] a) refl
  delete_from_resource-twice tp (second ∷ others) us a =
      rw (hit_indexes-twice tp (second ∷ others) a) (ground arith)

  for_resource-again :
      (r₁ r₂ : List KeyValue) (os : OrgStore)
      → key_for_resource hash os.tenant_id r₁ ≡ key_for_resource hash os.tenant_id r₂
      → (for_resource hash r₂ (for_resource hash r₁ os).0).1 ≡ (for_resource hash r₁ os).1
  unfolding for_resource
  for_resource-again r₁ r₂ os e =
      (elim (Option-cases (get (key_for_resource hash os.tenant_id r₁) os.user_stores)) [
        | inl n ↦ ground (
          arith,
          n,
          e,
          get-put (key_for_resource hash os.tenant_id r₁) (key_for_resource hash os.tenant_id r₁)
              (new_resource_store hash r₁ os) os.user_stores,
          bytes_beq_iff (key_for_resource hash os.tenant_id r₁)
              (key_for_resource hash os.tenant_id r₁),
        )
        | inr (us, n) ↦ ground (arith, n, e)
      ])

  -- Two resources of one attribute each whose key and value give the same text one after the
  -- other share a list: whoever polls second is answered with the list of the first.
  pub for_resource-shared :
      (k₁ v₁ k₂ v₂ : Bytes) (os : OrgStore)
      → k₁ ++ v₁ ≡ k₂ ++ v₂
      → (for_resource hash (attribute k₂ v₂) (for_resource hash (attribute k₁ v₁) os).0).1
        ≡ (for_resource hash (attribute k₁ v₁) os).1
  unfolding key_for_resource
  for_resource-shared k₁ v₁ k₂ v₂ os e =
      for_resource-again (attribute k₁ v₁) (attribute k₂ v₂) os
        (rw (attribute_text k₁ v₁, attribute_text k₂ v₂, e) refl)

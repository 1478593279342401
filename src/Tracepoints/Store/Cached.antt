-- ===== src/Tracepoints/Store/Cached.antt =====
-- modules/tracepoint/store/tracepointStore.go: the lists kept for resources against the block.
use deep.Prelude.{
  ℕ, ◌≡◌, refl, sym, ap, ◌∙◌, Bytes, bytes_eq, bytes_beq, bytes_beq_iff, List, [], ◌∷◌, ◌++◌,
  Option, some, Bool-cases, Option-cases, Map, get, put, Distinct, if◌then◌else◌, arith, inl, inr,
}
use deep.Tracepoints.Config.{KeyValue, TracePointConfig, resource_matches}
use deep.Tracepoints.Block
use deep.Tracepoints.Block.{TpBlock, matching}
use deep.Tracepoints.Block.Deleting.{
  without, delete_tracepoints_lem, matching-append, matching-without,
}
use deep.Tracepoints.Store.{
  ResourceStore, OrgStore, rehash, key_for_resource, new_resource_store, for_resource,
  add_to_resource, add_to_matching, add_tracepoint, delete_from_stores, delete_tracepoints,
}
use deep.Tracepoints.Store.Hits.{delete_from_resource_lem}

module _ (hash : Bytes → ℕ) where
  -- The list for a resource.
  pub record IsCurrent (tps : List TracePointConfig) (us : ResourceStore) : Type 0 where
    pub lists : us.tps ≡ matching us.resource tps
    pub hashed : us.current_hash ≡ (rehash hash us).current_hash

  -- The lists of a tenant, by their keys.
  abbrev pub AreCurrent : Bytes → List TracePointConfig → Map Bytes ResourceStore → Type 0
  AreCurrent tenant tps [] = Unit
  AreCurrent tenant tps ((k, us) ∷ stores) =
      (k ≡ key_for_resource hash tenant us.resource)
      × IsCurrent tps us
      × AreCurrent tenant tps stores

  abbrev pub IsCached : OrgStore → Type 0
  IsCached os = AreCurrent os.tenant_id os.block.tps os.user_stores

  add_to_resource-IsCurrent :
      (tps : List TracePointConfig) (tp : TracePointConfig) (us : ResourceStore)
      → IsCurrent tps us
      → IsCurrent
          (tps ++ (tp ∷ []))
          (if resource_matches tp us.resource then add_to_resource hash tp us else us)
  unfolding add_to_resource rehash
  add_to_resource-IsCurrent tps tp us c = elim (Bool-cases (resource_matches tp us.resource)) [
    | inl e ↦ rw e (record {
      lists =
          rw (matching-append us.resource tps tp, e)
            (ap (λ (l : List TracePointConfig). l ++ (tp ∷ [])) c.lists);
      hashed = refl;
    })
    | inr n ↦
        rw n
          (record { lists = rw (matching-append us.resource tps tp, n) c.lists; hashed = c.hashed })
  ]

  add_to_resource-resource :
      (tp : TracePointConfig) (us : ResourceStore)
      → (if resource_matches tp us.resource then add_to_resource hash tp us else us).resource
        ≡ us.resource
  unfolding add_to_resource rehash
  add_to_resource-resource tp us = ground arith

  pub add_to_matching-AreCurrent :
      (tenant : Bytes) (tps : List TracePointConfig) (tp : TracePointConfig)
      (stores : Map Bytes ResourceStore)
      → AreCurrent tenant tps stores
      → AreCurrent tenant (tps ++ (tp ∷ [])) (add_to_matching hash tp stores)
  unfolding add_to_matching
  add_to_matching-AreCurrent tenant tps tp [] a = tt
  add_to_matching-AreCurrent tenant tps tp ((k, us) ∷ stores) a = (
    a.0 ∙ ap (key_for_resource hash tenant) (sym (add_to_resource-resource tp us)),
    add_to_resource-IsCurrent tps tp us a.1,
    add_to_matching-AreCurrent tenant tps tp stores a.2,
  )

  delete_from_resource-IsCurrent :
      (ids : List Bytes) (tps : List TracePointConfig) (us : ResourceStore)
      → IsCurrent tps us
      → IsCurrent (without ids tps) (rehash hash (record us { tps = without ids us.tps }))
  unfolding rehash
  delete_from_resource-IsCurrent ids tps us c = record {
    lists = ap (without ids) c.lists ∙ sym (matching-without us.resource ids tps);
    hashed = refl;
  }

  -- What a deletion leaves for every resource.
  abbrev pub stores_without : List Bytes → Map Bytes ResourceStore → Map Bytes ResourceStore
  stores_without ids [] = []
  stores_without ids ((k, us) ∷ stores) =
      (k, rehash hash (record us { tps = without ids us.tps })) ∷ stores_without ids stores

  delete_from_stores_lem :
      (ids : List Bytes) (tenant : Bytes) (tps : List TracePointConfig)
      (stores : Map Bytes ResourceStore)
      → Distinct ids
      → AreCurrent tenant tps stores
      → delete_from_stores hash ids stores ≡ some (stores_without ids stores)
  unfolding delete_from_stores
  delete_from_stores_lem ids tenant tps [] d a = refl
  delete_from_stores_lem ids tenant tps ((k, us) ∷ stores) d a = ground (
    arith,
    delete_from_resource_lem hash ids us d a.1.hashed,
    delete_from_stores_lem ids tenant tps stores d a.2,
  )

  stores_without-AreCurrent :
      (ids : List Bytes) (tenant : Bytes) (tps : List TracePointConfig)
      (stores : Map Bytes ResourceStore)
      → AreCurrent tenant tps stores
      → AreCurrent tenant (without ids tps) (stores_without ids stores)
  unfolding rehash
  stores_without-AreCurrent ids tenant tps [] a = tt
  stores_without-AreCurrent ids tenant tps ((k, us) ∷ stores) a = (
    a.0,
    delete_from_resource-IsCurrent ids tps us a.1,
    stores_without-AreCurrent ids tenant tps stores a.2,
  )

  pub add_tracepoint-IsCached :
      (tp : TracePointConfig) (os : OrgStore) → IsCached os → IsCached (add_tracepoint hash tp os)
  unfolding add_tracepoint Block.add_tracepoint
  add_tracepoint-IsCached tp os a =
      add_to_matching-AreCurrent os.tenant_id os.block.tps tp os.user_stores a

  -- A deletion of IDs none of which is listed twice does not panic, and deletes from the block and
  -- from every list.
  pub delete_tracepoints-Answer :
      (ids : List Bytes) (os : OrgStore)
      → Distinct ids
      → IsCached os
      → delete_tracepoints hash ids os
        ≡ some (record os {
          block = record os.block { tps = without ids os.block.tps };
          user_stores = stores_without ids os.user_stores;
        })
  unfolding delete_tracepoints
  delete_tracepoints-Answer ids os d a = ground (
    arith,
    delete_from_stores_lem ids os.tenant_id os.block.tps os.user_stores d a,
    delete_tracepoints_lem ids os.block,
  )

  pub delete_tracepoints-IsCached :
      (ids : List Bytes) (os os' : OrgStore)
      → Distinct ids
      → IsCached os
      → delete_tracepoints hash ids os ≡ some os'
      → (os'.block.tps ≡ without ids os.block.tps) × IsCached os'
  delete_tracepoints-IsCached ids os os' d a h =
      let e = delete_tracepoints-Answer ids os d a in answered (delete_tracepoints hash ids os) e h
    where
      answered :
          (o : Option OrgStore)
          → o
            ≡ some (record os {
              block = record os.block { tps = without ids os.block.tps };
              user_stores = stores_without ids os.user_stores;
            })
          → o ≡ some os'
          → (os'.block.tps ≡ without ids os.block.tps) × IsCached os'
      answered o e h =
          let same : record os {
            block = record os.block { tps = without ids os.block.tps };
            user_stores = stores_without ids os.user_stores;
          }
              ≡ os' =
            cc in
          rw (sym same)
            (refl, stores_without-AreCurrent ids os.tenant_id os.block.tps os.user_stores a)

  new_resource_store-IsCurrent :
      (resource : List KeyValue) (os : OrgStore)
      → IsCurrent os.block.tps (new_resource_store hash resource os)
  unfolding new_resource_store rehash Block.for_resource
  new_resource_store-IsCurrent resource os = record { lists = refl; hashed = refl }

  new_resource_store-resource :
      (resource : List KeyValue) (os : OrgStore)
      → (new_resource_store hash resource os).resource ≡ resource
  unfolding new_resource_store rehash
  new_resource_store-resource resource os = refl

  put-AreCurrent :
      (tenant k : Bytes) (tps : List TracePointConfig) (us : ResourceStore)
      (stores : Map Bytes ResourceStore)
      → k ≡ key_for_resource hash tenant us.resource
      → IsCurrent tps us
      → AreCurrent tenant tps stores
      → AreCurrent tenant tps (put k us stores)
  put-AreCurrent tenant k tps us [] e c a = (e, c, tt)
  put-AreCurrent tenant k tps us ((j, v) ∷ stores) e c a = elim (Bool-cases (bytes_beq j k)) [
    | inl b ↦ rw b (e, c, a.2)
    | inr n ↦ rw n (a.0, a.1, put-AreCurrent tenant k tps us stores e c a.2)
  ]

  get-AreCurrent :
      (tenant k : Bytes) (tps : List TracePointConfig) (us : ResourceStore)
      (stores : Map Bytes ResourceStore)
      → AreCurrent tenant tps stores
      → get k stores ≡ some us
      → (k ≡ key_for_resource hash tenant us.resource) × IsCurrent tps us
  get-AreCurrent tenant k tps us [] a h = cc
  get-AreCurrent tenant k tps us ((j, v) ∷ stores) a h = elim (Bool-cases (bytes_beq j k)) [
    | inl b ↦
        let same : v ≡ us = ground (arith, b, h) in
        let key : j ≡ k = (bytes_beq_iff j k).0 b in rw (sym key, sym same) (a.0, a.1)
    | inr n ↦ get-AreCurrent tenant k tps us stores a.2 (ground (arith, n, h))
  ]

  -- The list that a client gets, and what stays.
  pub for_resource-IsCached :
      (resource : List KeyValue) (os : OrgStore)
      → IsCached os
      → IsCached (for_resource hash resource os).0
        × IsCurrent os.block.tps (for_resource hash resource os).1
        × ((for_resource hash resource os).0.block ≡ os.block)
        × (key_for_resource hash os.tenant_id resource
            ≡ key_for_resource hash os.tenant_id (for_resource hash resource os).1.resource)
  unfolding for_resource key_for_resource
  for_resource-IsCached resource os a =
      elim (Option-cases (get (key_for_resource hash os.tenant_id resource) os.user_stores)) [
        | inl e ↦
            let key =
              ap (key_for_resource hash os.tenant_id)
                (sym (new_resource_store-resource resource os)) in
            rw (for_resource, e)
              (
                put-AreCurrent os.tenant_id (key_for_resource hash os.tenant_id resource)
                    os.block.tps (new_resource_store hash resource os) os.user_stores key
                    (new_resource_store-IsCurrent resource os) a,
                new_resource_store-IsCurrent resource os,
                refl,
                key,
              )
        | inr (us, e) ↦
            let got =
              get-AreCurrent os.tenant_id (key_for_resource hash os.tenant_id resource) os.block.tps
                us os.user_stores a e in
            rw (for_resource, e) (a, got.1, refl, got.0)
      ]

-- ===== src/Tracepoints/Tenants/Reloading.antt =====
-- What `FlushAll` writes and a store that starts anew reads:
-- modules/tracepoint/store/tracepointStore.go.
use deep.Prelude.{
  ◌<◌, ◌≡◌, refl, subst, Bytes, bytes_eq, bytes_beq, bytes_beq_iff, Bool, true, false, [], ◌∷◌,
  Option, some, Bool-cases, All, Distinct, Map, get, put, keys, get-put, contains, length, arith,
  inl, inr,
}
use deep.Tracepoints.Config.{TracePointConfig}
use deep.Tracepoints.Encoder.{stored, load_block}
use deep.Tracepoints.Encoder.RoundTrip.{IsSmall, load_block-flush}
use deep.Tracepoints.Store.{OrgStore}
use deep.Tracepoints.Tenants.{TpStore, stored_for, new_org_store, for_org, flush_org, flush_all}

module _ (marshal : TracePointConfig → Option Bytes) (unmarshal : Bytes → Option TracePointConfig)
    (accepts : Bytes → Bool) where
  -- A tenant's store whose block can be written and read: it stands under the tenant of its block,
  -- the writer takes it, and it has fewer than 256 tracepoints, each of 1 to 255 bytes.
  pub record IsStorable (id : Bytes) (store : OrgStore) : Type 0 where
    pub named : store.block.tenant_id ≡ id
    pub accepted : accepts id ≡ true
    pub few : length store.block.tps < 256
    pub small : All (IsSmall marshal unmarshal) store.block.tps

  abbrev pub AreStorable : Map Bytes OrgStore → Type 0
  AreStorable [] = Unit
  AreStorable ((id, store) ∷ stores) = IsStorable id store × AreStorable stores

  flush_org-stored :
      (id : Bytes) (store : OrgStore) (objects : Map Bytes Bytes)
      → IsStorable id store
      → (contents : Bytes) × (flush_org marshal accepts store objects
          ≡ some (put id contents objects))
        × (load_block unmarshal id (stored contents) ≡ some store.block)
  unfolding flush_org
  flush_org-stored id store objects s =
      let (contents, flushed, loads) =
        load_block-flush marshal unmarshal store.block s.few s.small in
      (
        contents,
        ground (arith, flushed, s.named, s.accepted),
        subst (λ (t : Bytes). load_block unmarshal t (stored contents) ≡ some store.block) s.named
            loads,
      )

  -- What a later flush of other tenants leaves.
  flush_all-keeps :
      (id : Bytes) (stores : Map Bytes OrgStore) (objects : Map Bytes Bytes)
      → AreStorable stores
      → contains id (keys stores) ≡ false
      → get id (flush_all marshal accepts stores objects).0 ≡ get id objects
  unfolding flush_all
  flush_all-keeps id [] objects a h = refl
  flush_all-keeps id ((j, store) ∷ stores) objects a h =
      let (contents, e, loads) = flush_org-stored j store objects a.0 in
      ground (
        arith,
        e,
        h,
        flush_all-keeps id stores (put j contents objects) a.1,
        get-put j id contents objects,
        bytes_beq_iff id j,
        bytes_beq_iff j id,
      )

  flush_all_complete :
      (stores : Map Bytes OrgStore) (objects : Map Bytes Bytes)
      → AreStorable stores
      → (flush_all marshal accepts stores objects).1 ≡ true
  unfolding flush_all
  flush_all_complete [] objects a = refl
  flush_all_complete ((j, store) ∷ stores) objects a =
      let (contents, e, loads) = flush_org-stored j store objects a.0 in
      ground (arith, e, flush_all_complete stores (put j contents objects) a.1)

  flush_all-gets :
      (id : Bytes) (os : OrgStore) (stores : Map Bytes OrgStore) (objects : Map Bytes Bytes)
      → AreStorable stores
      → Distinct (keys stores)
      → get id stores ≡ some os
      → (contents : Bytes) × (get id (flush_all marshal accepts stores objects).0 ≡ some contents)
        × (load_block unmarshal id (stored contents) ≡ some os.block)
  unfolding flush_all
  flush_all-gets id os [] objects a d g = cc
  flush_all-gets id os ((j, store) ∷ stores) objects a d g =
      let (contents, e, loads) = flush_org-stored j store objects a.0 in
      elim (Bool-cases (bytes_beq j id)) [
        | inl b ↦
            let same : j ≡ id = (bytes_beq_iff j id).0 b in
            let own : store ≡ os = ground (arith, b, g) in
            (
              contents,
              ground (
                arith,
                e,
                b,
                get-put j id contents objects,
                flush_all-keeps id stores (put j contents objects) a.1
                    (subst (λ (k : Bytes). contains k (keys stores) ≡ false) same d.0),
              ),
              subst (λ (t : OrgStore). load_block unmarshal id (stored contents) ≡ some t.block) own
                  (subst
                    (λ (k : Bytes). load_block unmarshal k (stored contents) ≡ some store.block)
                    same loads),
            )
        | inr n ↦
            let (later, got, loads') =
              flush_all-gets id os stores (put j contents objects) a.1 d.1 (ground (arith, n, g)) in
            (later, ground (arith, e, got), loads')
      ]

  -- Where every tenant's block can be written and read, `FlushAll` writes them all, and a store
  -- that starts anew then finds for each tenant the tracepoints that it had.
  pub for_org-flush_all :
      (s : TpStore) (objects : Map Bytes Bytes) (id : Bytes) (os : OrgStore)
      → AreStorable s.org_stores
      → Distinct (keys s.org_stores)
      → get id s.org_stores ≡ some os
      → ((flush_all marshal accepts s.org_stores objects).1 ≡ true)
        × ((for_org unmarshal
              (stored_for (flush_all marshal accepts s.org_stores objects).0 id)
              id
              (record { org_stores = [] })).1
            ≡ some (new_org_store id os.block))
  unfolding for_org
  for_org-flush_all s objects id os a d g =
      let (contents, got, loads) = flush_all-gets id os s.org_stores objects a d g in
      (flush_all_complete s.org_stores objects a, ground (arith, got, loads))

-- ===== src/Tracepoints/Store/Hits.antt =====
-- The indexes that `DeleteTracepoints` of a resource store in
-- modules/tracepoint/store/tracepointStore.go collects, where an ID may be listed twice.
use deep.Prelude.{
  ℕ, suc, ◌≡◌, refl, ap, Bytes, bytes_eq, bytes_beq_iff, false, List, [], ◌∷◌, some, Bool-cases,
  Distinct, contains, nat_beq, length, if◌then◌else◌, arith, inl, inr,
}
use deep.Tracepoints.Config.{TracePointConfig}
use deep.Tracepoints.Block.{indexes_of}
use deep.Tracepoints.Block.Deleting.{without, remove_all-indexes_of, without-none}
use deep.Tracepoints.Store.{ResourceStore, hits, hit_indexes, rehash, delete_from_resource}

pub hits-absent :
    (ids : List Bytes) (i : ℕ) (id : Bytes) → contains id ids ≡ false → hits ids i id ≡ []
hits-absent [] i id h = refl
hits-absent (x ∷ ids) i id h = ground (arith, h, hits-absent ids i id)

hits-once :
    (ids : List Bytes) (i : ℕ) (id : Bytes)
    → Distinct ids
    → hits ids i id ≡ (if contains id ids then i ∷ [] else [])
hits-once [] i id d = refl
hits-once (x ∷ ids) i id d =
    ground (arith, d.0, hits-once ids i id d.1, hits-absent ids i id, bytes_beq_iff id x)

pub hit_indexes-once :
    (ids : List Bytes) (i : ℕ) (tps : List TracePointConfig)
    → Distinct ids
    → hit_indexes ids i tps ≡ indexes_of ids i tps
hit_indexes-once ids i [] d = refl
hit_indexes-once ids i (tp ∷ tps) d =
    rw (hits-once ids i tp.id d) (ground (arith, hit_indexes-once ids (suc i) tps d))

module _ (hash : Bytes → ℕ) where
  pub delete_from_resource_lem :
      (ids : List Bytes) (us : ResourceStore)
      → Distinct ids
      → us.current_hash ≡ (rehash hash us).current_hash
      → delete_from_resource hash ids us
        ≡ some (rehash hash (record us { tps = without ids us.tps }))
  unfolding delete_from_resource rehash
  delete_from_resource_lem ids us d h =
      rw (hit_indexes-once ids 0 us.tps d)
        (elim (Bool-cases (nat_beq (length (indexes_of ids 0 us.tps)) 0)) [
          | inl e ↦
              rw (e, without-none ids us.tps e)
                (ap (λ (k : Bytes). some (record us { current_hash = k })) h)
          | inr e ↦ rw (e, remove_all-indexes_of ids us.tps) refl
        ])

-- ===== src/Tracepoints/Block/Deleting.antt =====
-- What a deletion leaves of the block, and how it meets the lists for resources.
use deep.Prelude.{
  ℕ, suc, ◌≡◌, refl, Bytes, bytes_eq, true, not, List, [], ◌∷◌, ◌++◌, some, Bool-cases, contains,
  filter, nat_beq, length, if◌then◌else◌, arith, inl, inr,
}
use deep.Tracepoints.Config.{KeyValue, TracePointConfig, resource_matches}
use deep.Tracepoints.Slices.{remove_all, remove_each}
use deep.Tracepoints.Slices.Removing.{picked, remove_all-picked}
use deep.Tracepoints.Block.{TpBlock, matching, indexes_of, delete_tracepoints}

-- The tracepoints that a deletion of `ids` leaves.
abbrev pub without : List Bytes → List TracePointConfig → List TracePointConfig
without ids tps = filter (λ (tp : TracePointConfig). not (contains tp.id ids)) tps

indexes_of-picked :
    (ids : List Bytes) (i : ℕ) (tps : List TracePointConfig)
    → indexes_of ids i tps ≡ picked (λ (tp : TracePointConfig). contains tp.id ids) i tps
indexes_of-picked ids i [] = refl
indexes_of-picked ids i (tp ∷ tps) = rw (indexes_of-picked ids (suc i) tps) refl

pub remove_all-indexes_of :
    (ids : List Bytes) (tps : List TracePointConfig)
    → remove_all tps (indexes_of ids 0 tps) ≡ some (without ids tps)
remove_all-indexes_of ids tps =
    rw (indexes_of-picked ids 0 tps)
      (remove_all-picked (λ (tp : TracePointConfig). contains tp.id ids) tps)

-- Nothing to remove.
pub without-none :
    (ids : List Bytes) (tps : List TracePointConfig)
    → nat_beq (length (indexes_of ids 0 tps)) 0 ≡ true
    → without ids tps ≡ tps
unfolding remove_all remove_each
without-none ids tps h = nothing (indexes_of ids 0 tps) h (remove_all-indexes_of ids tps)
  where
    nothing :
        (is : List ℕ)
        → nat_beq (length is) 0 ≡ true
        → remove_all tps is ≡ some (without ids tps)
        → without ids tps ≡ tps
    nothing [] h e = ground (arith, e)
    nothing (i ∷ is) h e = ground (arith, h)

-- A deletion does not panic, and leaves the tracepoints whose IDs are not listed, in their order.
pub delete_tracepoints_lem :
    (ids : List Bytes) (t : TpBlock)
    → delete_tracepoints ids t ≡ some (record t { tps = without ids t.tps })
unfolding delete_tracepoints
delete_tracepoints_lem ids t = elim (Bool-cases (nat_beq (length (indexes_of ids 0 t.tps)) 0)) [
  | inl e ↦ rw (e, without-none ids t.tps e) refl
  | inr e ↦ rw (e, remove_all-indexes_of ids t.tps) refl
]

pub matching-append :
    (resource : List KeyValue) (tps : List TracePointConfig) (tp : TracePointConfig)
    → matching resource (tps ++ (tp ∷ [])) ≡ (
        if resource_matches tp resource
        then matching resource tps ++ (tp ∷ [])
        else matching resource tps)
matching-append resource [] tp = ground arith
matching-append resource (t ∷ tps) tp = ground (arith, matching-append resource tps tp)

pub matching-without :
    (resource : List KeyValue) (ids : List Bytes) (tps : List TracePointConfig)
    → matching resource (without ids tps) ≡ without ids (matching resource tps)
matching-without resource ids [] = refl
matching-without resource ids (t ∷ tps) = ground (arith, matching-without resource ids tps)

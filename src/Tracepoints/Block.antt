-- ===== src/Tracepoints/Block.antt =====
-- modules/tracepoint/store/encoding/v1/tpBlock.go: the tracepoints of a tenant as they are stored. A
-- panic is `none`. The time of the last flush, which nothing reads, is left out.
pub mod Deleting
use deep.Prelude.{
  ℕ, zero, suc, Bytes, bytes_eq, Bool, true, false, List, [], ◌∷◌, ◌++◌, Option, none, some, length,
  contains, filter, nat_beq, if◌then◌else◌,
}
use deep.Tracepoints.Config.{KeyValue, TracePointConfig, resource_matches}
use deep.Tracepoints.Slices.{remove_all}

pub record TpBlock : Type 0 where
  pub tps : List TracePointConfig
  pub tenant_id : Bytes

-- The loop of `ForResource`.
abbrev pub matching : List KeyValue → List TracePointConfig → List TracePointConfig
matching resource [] = []
matching resource (tp ∷ tps) =
    let rest = matching resource tps in if resource_matches tp resource then tp ∷ rest else rest

unfoldable pub for_resource : List KeyValue → TpBlock → List TracePointConfig
for_resource resource t = matching resource t.tps

unfoldable pub add_tracepoint : TracePointConfig → TpBlock → TpBlock
add_tracepoint tp t = record t { tps = t.tps ++ (tp ∷ []) }

-- The indexes from `i` of the tracepoints to delete, each once.
abbrev pub indexes_of : List Bytes → ℕ → List TracePointConfig → List ℕ
indexes_of ids i [] = []
indexes_of ids i (config ∷ tps) =
    let rest = indexes_of ids (suc i) tps in if contains config.id ids then i ∷ rest else rest

unfoldable pub delete_tracepoints : List Bytes → TpBlock → Option TpBlock
delete_tracepoints ids t =
    if nat_beq (length (indexes_of ids 0 t.tps)) 0
    then some t
    else elim (remove_all t.tps (indexes_of ids 0 t.tps)) [
      | none ↦ none
      | some tps ↦ some (record t { tps = tps })
    ]

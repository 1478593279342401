-- ===== src/Tracepoints/Examples.antt =====
-- The tracepoints' theorems at concrete states.
use deep.Prelude.{
  ℕ, Bytes, bytes_eq, List, [], ◌∷◌, Option, none, some, length, Bool, true, ◌≡◌, refl, zero, suc,
  pos, arith,
}
use deep.Tracepoints.Config.{KeyValue, TracePointConfig}
use deep.Tracepoints.Block.{TpBlock}
use deep.Tracepoints.Encoder.{stored, flush, encode_all, load_block}
use deep.Tracepoints.Encoder.RoundTrip.{IsSmall, load_block-flush, load_block-flush_multiple}
use deep.Tracepoints.Store.{
  OrgStore, add_tracepoint, ResourceStore, rehash, for_resource, process_request,
  delete_tracepoints, delete_from_resource,
}
use deep.Tracepoints.Store.Refines.{
  History, loaded, created, polled, attribute, IsAnswer, Deletes, poll-Refines,
  delete_tracepoints-Refines, delete_from_resource-twice, for_resource-shared,
}
use deep.Tracepoints.Query.{CommandRequest, QueryResult, op_equal, delete_type, id_name, run_query}
use deep.Tracepoints.Query.Deletion.{Commanded, run_query-Commanded}
use deep.Tracepoints.Tenants.{stored_for, new_org_store, for_org, flush_all}
use deep.Tracepoints.Tenants.Reloading.{for_org-flush_all}

abbrev tracepoint : ℕ → TracePointConfig
tracepoint n = record {
  id = n ∷ [];
  path = [];
  line_number = 0;
  args = [];
  watches = [];
  targeting = [];
  metrics = [];
}

abbrev acme : Bytes
acme = b'a' ∷ []

abbrev one_block : TpBlock
one_block = record { tps = tracepoint 1 ∷ []; tenant_id = acme }

abbrev web : List KeyValue
web = attribute (b'w' ∷ []) (b'x' ∷ [])

-- A tracepoint is created, and a client polls.
abbrev after_create : OrgStore
after_create =
    add_tracepoint length (tracepoint 2)
      (record { tenant_id = acme; user_stores = []; block = one_block })

abbrev two_tracepoints : List TracePointConfig
two_tracepoints = tracepoint 1 ∷ tracepoint 2 ∷ []

two_created : History length one_block (for_resource length web after_create).0 two_tracepoints
two_created = polled web (created (tracepoint 2) loaded)

poll-Refines_example :
    IsAnswer length
      (for_resource length web after_create).0.tenant_id
      two_tracepoints
      web
      []
      (for_resource length web (for_resource length web after_create).0).1
      (process_request [] (for_resource length web (for_resource length web after_create).0).1)
poll-Refines_example = poll-Refines length two_created web []

delete_tracepoints-Refines_example :
    Deletes length
      ((1 ∷ []) ∷ [])
      two_tracepoints
      web
      []
      (delete_tracepoints length ((1 ∷ []) ∷ []) (for_resource length web after_create).0)
delete_tracepoints-Refines_example =
    delete_tracepoints-Refines length ((1 ∷ []) ∷ []) web [] two_created (refl, tt)

abbrev some_resource : ResourceStore
some_resource = record { tps = []; current_hash = []; resource = web }

delete_from_resource-twice_example :
    delete_from_resource length
      ((1 ∷ []) ∷ (1 ∷ []) ∷ [])
      (record some_resource { tps = tracepoint 1 ∷ tracepoint 2 ∷ tracepoint 3 ∷ [] })
    ≡ some (rehash length (record some_resource { tps = tracepoint 3 ∷ [] }))
delete_from_resource-twice_example =
    delete_from_resource-twice length (tracepoint 1) (tracepoint 2 ∷ tracepoint 3 ∷ [])
      some_resource (refl, (refl, tt))

abbrev acme_store : OrgStore
acme_store = new_org_store acme one_block

for_resource-shared_example :
    (for_resource length
      (attribute (b'a' ∷ b'b' ∷ []) (b'c' ∷ []))
      (for_resource length (attribute (b'a' ∷ []) (b'b' ∷ b'c' ∷ [])) acme_store).0).1
    ≡ (for_resource length (attribute (b'a' ∷ []) (b'b' ∷ b'c' ∷ [])) acme_store).1
for_resource-shared_example =
    for_resource-shared length (b'a' ∷ []) (b'b' ∷ b'c' ∷ []) (b'a' ∷ b'b' ∷ []) (b'c' ∷ [])
      acme_store refl

abbrev no_regex : Bytes → Bytes → Option Bool
no_regex pattern value = none

abbrev delete_first : CommandRequest
delete_first = record {
  command = delete_type;
  conditions =
      record {
        attribute = id_name;
        op = op_equal;
        operands = record { n = pos 0; s = 1 ∷ [] } ∷ [];
      }
      ∷ [];
}

run_query-Commanded_example :
    (r : QueryResult) × (run_query length no_regex delete_first
        (for_resource length web after_create).0
      ≡ some r)
    × Commanded no_regex length one_block delete_first two_tracepoints r
run_query-Commanded_example =
    run_query-Commanded no_regex length delete_first two_created (refl, (refl, tt))

-- An encoding of tracepoints that have but an ID, by the ID.
abbrev encode_id : TracePointConfig → Option Bytes
encode_id tp = some tp.id

abbrev decode_id : Bytes → Option TracePointConfig
decode_id bs = some (record {
  id = bs;
  path = [];
  line_number = 0;
  args = [];
  watches = [];
  targeting = [];
  metrics = [];
})

abbrev small : (n : ℕ) → IsSmall encode_id decode_id (tracepoint n)
small n = record {
  encoded = n ∷ [];
  encodes = refl;
  decodes = refl;
  some_bytes = omega arith;
  few_bytes = omega arith;
}

load_block-flush_example :
    (contents : Bytes) × (flush encode_id one_block ≡ some contents)
    × (load_block decode_id acme (stored contents) ≡ some one_block)
load_block-flush_example =
    load_block-flush encode_id decode_id one_block (omega arith) (small 1, tt)

abbrev copies : ℕ → List TracePointConfig
copies zero = []
copies (suc n) = tracepoint 7 ∷ copies n

abbrev many_block : TpBlock
many_block = record { tps = copies 256; tenant_id = acme }

abbrev or_empty : Option Bytes → Bytes
or_empty none = []
or_empty (some bs) = bs

flush_many : flush encode_id many_block ≡ some (or_empty (flush encode_id many_block))
unfolding flush encode_all
flush_many = refl

load_block-flush_multiple_example :
    load_block decode_id acme (stored (or_empty (flush encode_id many_block)))
    ≡ some (record many_block { tps = [] })
load_block-flush_multiple_example =
    load_block-flush_multiple encode_id decode_id many_block (or_empty (flush encode_id many_block))
      (omega arith) flush_many

abbrev accepts_all : Bytes → Bool
accepts_all t = true

for_org-flush_all_example :
    ((flush_all encode_id accepts_all ((acme, acme_store) ∷ []) []).1 ≡ true)
    × ((for_org decode_id
          (stored_for (flush_all encode_id accepts_all ((acme, acme_store) ∷ []) []).0 acme)
          acme
          (record { org_stores = [] })).1
        ≡ some (new_org_store acme one_block))
for_org-flush_all_example =
    for_org-flush_all encode_id decode_id accepts_all
      (record { org_stores = (acme, acme_store) ∷ [] }) [] acme acme_store
      (record { named = refl; accepted = refl; few = omega arith; small = (small 1, tt) }, tt)
      (refl, tt) refl

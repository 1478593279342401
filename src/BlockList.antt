-- ===== src/BlockList.antt =====
-- pkg/deepdb/blocklist/list.go: the in-memory list of a tenant's live and compacted blocks, with
-- the local changes that survive one poll of the backend. Every operation holds the list's mutex,
-- so each is one step on the state. A nil slice and an empty one are both `[]`.
pub mod Blocks
pub mod Polling
pub mod Poller
mod Examples
use deep.Prelude.{
  Bytes, Bool, List, [], ◌∷◌, ◌++◌, Option, none, some, Map, get, put, keys, Eq, bytes_eq, nat_eq,
  if◌then◌else◌, contains, map, filter, not, any,
}
use deep.Backend.{BlockMeta, CompactedBlockMeta, Uuid}

pub record BlockList : Type 0 where
  pub metas : Map Bytes (List BlockMeta)
  pub compacted_metas : Map Bytes (List CompactedBlockMeta)
  pub added : Map Bytes (List BlockMeta)
  pub removed : Map Bytes (List BlockMeta)
  pub compacted_added : Map Bytes (List CompactedBlockMeta)
  pub compacted_removed : Map Bytes (List CompactedBlockMeta)

unfoldable pub new : BlockList
new = record {
  metas = [];
  compacted_metas = [];
  added = [];
  removed = [];
  compacted_added = [];
  compacted_removed = [];
}

-- `m[tenantID]` of a map of slices: nil where the key is missing.
abbrev pub slice_of {ℓ} : {B : Type ℓ} → Option (List B) → List B
slice_of none = []
slice_of (some bs) = bs

abbrev pub at {ℓ} : {B : Type ℓ} → Bytes → Map Bytes (List B) → List B
at t m = slice_of (get t m)

abbrev pub block_uuid : BlockMeta → Uuid
block_uuid b = b.block_id

abbrev pub compacted_uuid : CompactedBlockMeta → Uuid
compacted_uuid c = c.meta.block_id

-- The two halves of `updateInternal` run the same three loops, over live and over compacted blocks.
module _ {ℓ} {B : Type ℓ} (uuid : B → Uuid) where
  -- The keys of `matchedRemovals`.
  abbrev pub matched_removals : List B → List B → List Uuid
  matched_removals blocklist remove =
      filter (λ u. contains u (map uuid remove)) (map uuid blocklist)

  unfoldable pub update_blocks : List B → List B → List B → List B
  update_blocks blocklist add remove =
      filter (λ b. not (contains (uuid b) (matched_removals blocklist remove))) blocklist
      ++ filter (λ b. not (contains (uuid b) (map uuid blocklist))) add

unfoldable pub update_internal :
    Bytes
    → List BlockMeta
    → List BlockMeta
    → List CompactedBlockMeta
    → List CompactedBlockMeta
    → BlockList
    → BlockList
update_internal t add remove compacted_add compacted_remove l = record l {
  metas = put t (update_blocks block_uuid (at t l.metas) add remove) l.metas;
  compacted_metas =
      put t (update_blocks compacted_uuid (at t l.compacted_metas) compacted_add compacted_remove)
        l.compacted_metas;
}

-- Remembers a local change for the next poll.
abbrev remember {ℓ} : {B : Type ℓ} → Bytes → List B → Map Bytes (List B) → Map Bytes (List B)
remember t bs m = put t (at t m ++ bs) m

save_off :
    Bytes
    → List BlockMeta
    → List BlockMeta
    → List CompactedBlockMeta
    → List CompactedBlockMeta
    → BlockList
    → BlockList
save_off t add remove compacted_add compacted_remove l = record l {
  added = remember t add l.added;
  removed = remember t remove l.removed;
  compacted_added = remember t compacted_add l.compacted_added;
  compacted_removed = remember t compacted_remove l.compacted_removed;
}

unfoldable pub update :
    Bytes
    → List BlockMeta
    → List BlockMeta
    → List CompactedBlockMeta
    → List CompactedBlockMeta
    → BlockList
    → BlockList
unfolding update_internal save_off
update [] add remove compacted_add compacted_remove l = l
update (c ∷ cs) add remove compacted_add compacted_remove l =
    save_off (c ∷ cs) add remove compacted_add compacted_remove
      (update_internal (c ∷ cs) add remove compacted_add compacted_remove l)

-- `for tenantID := range l.added`.
reapply : List Bytes → BlockList → BlockList
reapply [] l = l
reapply (t ∷ ts) l = reapply ts (
    update_internal t (at t l.added) (at t l.removed) (at t l.compacted_added)
      (at t l.compacted_removed) l)

clear_local : BlockList → BlockList
clear_local l = record l { added = []; removed = []; compacted_added = []; compacted_removed = [] }

unfoldable pub apply_poll_results :
    Map Bytes (List BlockMeta) → Map Bytes (List CompactedBlockMeta) → BlockList → BlockList
unfolding clear_local reapply
apply_poll_results m c l =
    clear_local (reapply (keys l.added) (record l { metas = m; compacted_metas = c }))

unfoldable pub tenants : BlockList → List Bytes
tenants l = keys l.metas

unfoldable pub metas_of : Bytes → BlockList → List BlockMeta
metas_of [] l = []
metas_of (c ∷ cs) l = at (c ∷ cs) l.metas

unfoldable pub compacted_metas_of : Bytes → BlockList → List CompactedBlockMeta
compacted_metas_of [] l = []
compacted_metas_of (c ∷ cs) l = at (c ∷ cs) l.compacted_metas

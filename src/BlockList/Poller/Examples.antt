-- ===== src/BlockList/Poller/Examples.antt =====
-- A poll of one tenant at concrete states.
use deep.Prelude.{ℕ, Bytes, bytes_eq, Bool, true, [], ◌∷◌, contains, ◌≡◌, ◌≢◌, ◌⊎◌, refl}
use deep.Backend.{new_block_meta}
use deep.BlockList.{new}
use deep.BlockList.Polling.{new-IsValid}
use deep.BlockList.Poller.{
  Store, ok, missing, failed, error, PollerConfig, poll_tenant_blocks, poll_blocklist,
}
use deep.BlockList.Poller.Contents.{Contents, poll_tenant_blocks-Contents}
use deep.BlockList.Poller.Index.{found_for, Refreshed, poll_blocklist-Refreshed}

abbrev acme : Bytes
acme = b'a' ∷ []

abbrev store : Store
store = record {
  tenants = ok (acme ∷ []);
  blocks = λ t. ok (1 ∷ 2 ∷ []);
  block_meta = λ t id. ok (new_block_meta t id [] 0 []);
  compacted_block_meta = λ t id. missing;
  tenant_index = λ t. failed 7;
}

abbrev cfg : PollerConfig
cfg = record { poll_fallback = true; tenant_index_builders = 2; stale_tenant_index = 0 }

abbrev owns_all : Bytes → Bool
owns_all j = true

poll_tenant_blocks-Contents_example : Contents store acme (poll_tenant_blocks store acme)
poll_tenant_blocks-Contents_example = poll_tenant_blocks-Contents store acme

poll_blocklist-Refreshed_example :
    (((t : Bytes) × (e : ℕ) × (contains t (acme ∷ []) ≡ true)
        × (found_for cfg owns_all 5 store t ≡ error e))
      × (poll_blocklist cfg owns_all 5 store [] new ≡ new))
    ⊎ ((t : Bytes)
        → t ≢ []
        → contains t (acme ∷ []) ≡ true
        → Refreshed cfg owns_all 5 store t new (poll_blocklist cfg owns_all 5 store [] new))
poll_blocklist-Refreshed_example =
    poll_blocklist-Refreshed cfg owns_all 5 store (acme ∷ []) [] new refl new-IsValid

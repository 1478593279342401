-- ===== src/BlockList/Examples.antt =====
-- The block list's theorems at concrete states.
use deep.Prelude.{
  Bytes, true, false, List, [], ◌∷◌, Map, contains, map, ◌≡◌, ◌≢◌, refl, bytes_eq, nat_eq,
}
use deep.Backend.{BlockMeta, Uuid, new_block_meta}
use deep.BlockList.{new, block_uuid, update, apply_poll_results, metas_of}
use deep.BlockList.Polling.{new-IsValid, removed_stays_hidden, added_stays_listed}

abbrev acme : Bytes
acme = b'a' ∷ []

acme_named : acme ≢ []
acme_named = λ p. cc

abbrev block : Uuid → BlockMeta
block u = new_block_meta acme u [] 0 []

abbrev old_blocks : List BlockMeta
old_blocks = block 1 ∷ block 2 ∷ []

abbrev new_blocks : List BlockMeta
new_blocks = block 3 ∷ []

abbrev polled : Map Bytes (List BlockMeta)
polled = (acme, old_blocks) ∷ []

abbrev polled_later : Map Bytes (List BlockMeta)
polled_later = (acme, new_blocks) ∷ []

removed_stays_hidden_example :
    contains 1 (
      map block_uuid (
        metas_of acme (apply_poll_results polled [] (update acme new_blocks old_blocks [] [] new))))
    ≡ false
unfolding new_block_meta
removed_stays_hidden_example =
    removed_stays_hidden polled [] acme new_blocks old_blocks [] [] new 1 new-IsValid acme_named
      refl refl

added_stays_listed_example :
    contains 3 (
      map block_uuid (
        metas_of acme (apply_poll_results polled [] (update acme new_blocks old_blocks [] [] new))))
    ≡ true
unfolding new_block_meta
added_stays_listed_example =
    added_stays_listed polled [] acme new_blocks old_blocks [] [] new 3 new-IsValid acme_named refl
      refl

-- ===== src/Frontend/ById/Examples.antt =====
-- A lookup of a snapshot at concrete replies.
use deep.Prelude.{
  ℕ, suc, ◌-◌, Bool, true, false, List, [], ◌∷◌, ◌++◌, Option, none, some, length, any, All, ◌≡◌,
  refl, arith,
}
use deep.Backend.{BlockMeta}
use deep.Frontend.ById.{
  ShardRequest, ingesters, build_sharded_requests, create_block_boundaries, HttpReply, Reply, reply,
  start_lookup, take_replies, take_reply, take_http, take_message, is_complete, should_quit,
  complete, add_failed, outcome, success,
}
use deep.Frontend.ById.Covering.{searches, is_set, build_sharded_requests-searches}
use deep.Frontend.ById.Merging.{IsGood, SomeHeld, outcome-found, outcome-Held}

build_sharded_requests-searches_example :
    (reqs : List ShardRequest) × (build_sharded_requests 3 (create_block_boundaries (3 - 1))
      ≡ some (ingesters ∷ reqs))
    × (suc (length reqs) ≡ 3)
    × All (λ r. is_set r ≡ true) reqs
    × ((b : BlockMeta) → any (searches b) reqs ≡ true)
build_sharded_requests-searches_example = build_sharded_requests-searches 3 (omega arith)

abbrev with_snapshot : ℕ → Option ℕ → HttpReply ℕ
with_snapshot status snapshot = record {
  status_code = status;
  text = [];
  read_error = none;
  decode_error = 9;
  message = some (record { snapshot = snapshot; failed_blocks = some 1 });
}

abbrev absent_reply : Bool × Reply ℕ
absent_reply = (false, reply (with_snapshot 404 none))

abbrev good : HttpReply ℕ
good = with_snapshot 200 (some 5)

open_before : is_complete (take_replies 3 (absent_reply ∷ []) start_lookup) ≡ false
unfolding take_replies take_reply take_http take_message is_complete should_quit complete
open_before = refl

goes_on :
    should_quit false
      (take_replies 3 (absent_reply ∷ []) start_lookup).status_code
      (take_replies 3 (absent_reply ∷ []) start_lookup).overall_error
    ≡ false
unfolding take_replies take_reply take_http take_message is_complete should_quit complete
goes_on = refl

good-IsGood :
    IsGood 3
      (take_replies 3 (absent_reply ∷ []) start_lookup)
      5
      good
      (record { snapshot = some 5; failed_blocks = some 1 })
unfolding take_replies take_reply take_http take_message is_complete should_quit complete
good-IsGood = record { ok = refl; readable = refl; decodes = refl; holds = refl; few = refl }

outcome-found_example :
    outcome (
      take_replies 3
        ((absent_reply ∷ []) ++ ((false, reply good) ∷ absent_reply ∷ []))
        start_lookup)
    ≡ success 5
        (add_failed (some 1) (take_replies 3 (absent_reply ∷ []) start_lookup)).total_failed_blocks
outcome-found_example =
    outcome-found 3 (absent_reply ∷ []) (absent_reply ∷ []) false 5 good
      (record { snapshot = some 5; failed_blocks = some 1 }) open_before goes_on good-IsGood

succeeds :
    outcome (take_replies 3 (absent_reply ∷ (false, reply good) ∷ []) start_lookup) ≡ success 5 2
unfolding outcome take_replies take_reply take_http take_message is_complete should_quit complete
succeeds = refl

outcome-Held_example : SomeHeld 5 (absent_reply ∷ (false, reply good) ∷ [])
outcome-Held_example = outcome-Held 3 2 (absent_reply ∷ (false, reply good) ∷ []) 5 succeeds

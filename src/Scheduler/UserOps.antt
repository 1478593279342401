-- ===== src/Scheduler/UserOps.antt =====
-- The operations of pkg/scheduler/queue/user_queues.go on the users and their queues.
pub mod Slots
pub mod Rotation
use deep.Prelude.{
  ℕ, zero, suc, ◌+◌, ◌-◌, Bytes, bytes_eq, bytes_beq, Bool, true, List, [], ◌∷◌, ◌++◌, Option, none,
  some, Map, get, put, delete, length, get_or, set, take, contains, leb, nat_beq, if◌then◌else◌, ℤ,
  pos, negsuc,
}
use deep.Scheduler.State.{Env, UserQueue, Queues}
use deep.Scheduler.Shuffle.{shuffle_queriers_for_user}

-- The loop of `deleteQueue` that drops the free places at the end; `n` is `ix + 1`.
unfoldable pub shrink : ℕ → List Bytes → List Bytes
shrink zero users = users
shrink (suc ix) users =
    let shorter = shrink ix (take ix users) in
    if bytes_beq (get_or users ix []) [] then shorter else users

-- The first free place.
unfoldable pub free_spot : List Bytes → Option ℕ
free_spot [] = none
free_spot (u ∷ users) = elim (bytes_beq u []) [
  | true ↦ some 0
  | _ ↦ elim (free_spot users) [ none ↦ none | some ix ↦ some (suc ix) ]
]

-- The place that a new user gets, and the users with the user put there.
abbrev pub spot : List Bytes → Option ℕ → ℕ
spot users none = length users
spot users (some ix) = ix

abbrev pub place : Bytes → List Bytes → Option ℕ → List Bytes
place user_id users none = users ++ user_id ∷ []
place user_id users (some ix) = set users ix user_id

-- `if maxQueriers < 0 { maxQueriers = 0 }`.
abbrev pub non_negative : ℤ → ℕ
non_negative (pos n) = n
non_negative (negsuc n) = 0

module _ {ℓ} {R : Type ℓ} where
  unfoldable pub delete_queue : Bytes → Queues R → Queues R
  unfolding shrink
  delete_queue user_id q = elim (get user_id q.user_queues) [
    | none ↦ q
    | some uq ↦
        let users = set q.users uq.index [] in
        record q { user_queues = delete user_id q.user_queues; users = shrink (length users) users }
  ]

  -- `if uq.maxQueriers != maxQueriers`.
  abbrev pub resized : Env → ℕ → List Bytes → UserQueue R → UserQueue R
  resized env max_queriers sorted_queriers uq =
      if nat_beq uq.max_queriers max_queriers then uq else record uq {
        max_queriers = max_queriers;
        queriers = shuffle_queriers_for_user env uq.seed max_queriers sorted_queriers;
      }

  abbrev pub new_queue : Env → Bytes → ℕ → UserQueue R
  new_queue env user_id index = record {
    ch = [];
    queriers = none;
    max_queriers = 0;
    seed = env.shuffle_shard_seed user_id;
    index = index;
  }

  unfoldable pub add_queue : Env → Bytes → ℕ → Queues R → Option (UserQueue R) → Queues R
  add_queue env user_id max_queriers q (some uq) = record q {
    user_queues = put user_id (resized env max_queriers q.sorted_queriers uq) q.user_queues;
  }
  add_queue env user_id max_queriers q none =
      let free = free_spot q.users in
      let uq = new_queue env user_id (spot q.users free) in
      record q {
        user_queues = put user_id (resized env max_queriers q.sorted_queriers uq) q.user_queues;
        users = place user_id q.users free;
      }

  -- The channel that the code returns is the `ch` of the user's queue; `none` is its nil.
  unfoldable pub get_or_add_queue : Env → Bytes → ℤ → Queues R → Option (Queues R)
  unfolding add_queue
  get_or_add_queue env [] max_queriers q = none
  get_or_add_queue env (c ∷ cs) max_queriers q =
      some (add_queue env (c ∷ cs) (non_negative max_queriers) q (get (c ∷ cs) q.user_queues))

-- `uid = uid + 1`, back to the first place at the end. The callers pass no index below -1.
abbrev pub next_index : ℕ → ℤ → ℕ
next_index count (pos uid) = if leb count (uid + 1) then 0 else uid + 1
next_index count (negsuc _) = 0

-- `nil_queue` is the panic where a user of the list has no queue.
pub data NextQueue : Type 0 where
  next_queue : Bytes → ℕ → NextQueue
  no_queue : ℤ → NextQueue
  nil_queue : NextQueue

-- What the loop does with the user in one place.
pub data Visit : Type 0 where
  skip serve fault : Visit

-- `q.queriers != nil` and not among them.
abbrev pub may_serve : Bytes → Option (List Bytes) → Bool
may_serve querier_id none = true
may_serve querier_id (some chosen) = contains querier_id chosen

module _ {ℓ} {R : Type ℓ} (q : Queues R) (querier_id : Bytes) where
  unfoldable pub visit : Bytes → Visit
  visit [] = skip
  visit (c ∷ cs) = elim (get (c ∷ cs) q.user_queues) [
    | none ↦ fault
    | some uq ↦ if may_serve querier_id uq.queriers then serve else skip
  ]

  -- The loop with the rounds that are left.
  unfoldable pub rotate : ℕ → ℤ → NextQueue
  unfolding visit
  rotate zero uid = no_queue uid
  rotate (suc iters) uid =
      let ix = next_index (length q.users) uid in
      let rest = rotate iters (pos ix) in
      elim (visit (get_or q.users ix [])) [
        | skip ↦ rest
        | serve ↦ next_queue (get_or q.users ix []) ix
        | fault ↦ nil_queue
      ]

  unfoldable pub get_next_queue_for_querier : ℤ → NextQueue
  unfolding rotate
  get_next_queue_for_querier last_user_index = rotate (length q.users) last_user_index

-- ===== src/Scheduler/RequestQueue.antt =====
-- pkg/scheduler/queue/queue.go: requests wait per user and are handed to queriers in turn. Every
-- method holds the mutex, so a step is one method, or one pass of a method that waits: where the
-- code calls `cond.Wait` the step says so, and the next wake-up is a new step from the same code.
-- The gauges and counters are not modelled.
pub mod Channels
pub mod Service
pub mod Serving
pub mod Fifo
pub mod Work
pub mod Histories
use deep.Prelude.{
  ℕ, zero, suc, ◌+◌, ◌-◌, Bytes, bytes_eq, Bool, true, false, ◌&&◌, not, List, [], ◌∷◌, ◌++◌,
  Option, none, some, Map, get, put, length, ltb, nat_beq, if◌then◌else◌, ℤ, pos, negsuc,
}
use deep.Backend.{Time}
use deep.Scheduler.State.{Env, UserQueue, Queues, new_user_queues, len}
use deep.Scheduler.UserOps.{
  delete_queue, get_or_add_queue, NextQueue, next_queue, no_queue, nil_queue,
  get_next_queue_for_querier,
}
use deep.Scheduler.QuerierOps.{
  add_querier_connection, remove_querier_connection, notify_querier_shutdown,
  forget_disconnected_queriers,
}

pub record RequestQueue {ℓ} (R : Type ℓ) : Type ℓ where
  pub connected_querier_workers : ℤ
  pub queues : Queues R
  pub stopped : Bool

-- `UserIndex` and its methods: the `last` of the code.
abbrev pub UserIndex : Type 0
UserIndex = ℤ

abbrev pub first_user : UserIndex
first_user = negsuc 0

unfoldable pub reuse_last_user : UserIndex → UserIndex
reuse_last_user (pos zero) = negsuc 0
reuse_last_user (pos (suc n)) = pos n
reuse_last_user (negsuc n) = negsuc n

-- `Inc` and `Dec` of the atomic counter.
abbrev pub inc : ℤ → ℤ
inc (pos n) = pos (n + 1)
inc (negsuc zero) = pos 0
inc (negsuc (suc n)) = negsuc n

abbrev pub dec : ℤ → ℤ
dec (pos zero) = negsuc 0
dec (pos (suc n)) = pos n
dec (negsuc n) = negsuc (n + 1)

abbrev pub is_positive : ℤ → Bool
is_positive (pos n) = ltb 0 n
is_positive (negsuc n) = false

-- `enqueued` includes the call of `successFn`.
pub data EnqueueResult : Type 0 where
  enqueued err_stopped no_queue_found err_too_many_requests : EnqueueResult

-- `blocked` is a receive from an empty channel, made with the mutex held; `panicked` a nil queue.
pub data NextRequest {ℓ} (R : Type ℓ) : Type ℓ where
  request : R → UserIndex → NextRequest R
  waiting : UserIndex → NextRequest R
  stopped_error : UserIndex → NextRequest R
  context_error : UserIndex → NextRequest R
  blocked panicked : NextRequest R

module _ {ℓ} {R : Type ℓ} where
  unfoldable pub new_request_queue : ℕ → ℕ → RequestQueue R
  new_request_queue max_outstanding forget_delay = record {
    connected_querier_workers = pos 0;
    queues = new_user_queues max_outstanding forget_delay;
    stopped = false;
  }

  -- `select { case queue <- req: … default: … }` on the user's channel.
  pub send :
      Bytes → R → RequestQueue R → Queues R → Option (UserQueue R) → RequestQueue R × EnqueueResult
  send user_id req rq q none = (record rq { queues = q }, no_queue_found)
  send user_id req rq q (some uq) =
      if ltb (length uq.ch) q.max_user_queue_size
      then (
        record rq {
          queues = record q {
            user_queues = put user_id (record uq { ch = uq.ch ++ req ∷ [] }) q.user_queues;
          };
        },
        enqueued,
      )
      else (record rq { queues = q }, err_too_many_requests)

  unfoldable pub enqueue_request :
      Env → Bytes → R → ℤ → RequestQueue R → RequestQueue R × EnqueueResult
  unfolding send
  enqueue_request env user_id req max_queriers rq =
      if rq.stopped
      then (rq, err_stopped)
      else elim (get_or_add_queue env user_id max_queriers rq.queues) [
        | none ↦ (rq, no_queue_found)
        | some q ↦ send user_id req rq q (get user_id q.user_queues)
      ]

  -- `request := <-queue; if len(queue) == 0 { deleteQueue(userID) }`.
  pub received :
      Bytes → UserIndex → RequestQueue R → UserQueue R → List R → RequestQueue R × NextRequest R
  received user_id last rq uq [] = (rq, blocked)
  received user_id last rq uq (r ∷ rest) =
      let q = record rq.queues {
        user_queues = put user_id (record uq { ch = rest }) rq.queues.user_queues;
      } in
      (
        record rq { queues = if nat_beq (length rest) 0 then delete_queue user_id q else q },
        request r last,
      )

  pub take_request :
      Bytes → UserIndex → RequestQueue R → Option (UserQueue R) → RequestQueue R × NextRequest R
  unfolding received
  take_request user_id last rq none = (rq, panicked)
  take_request user_id last rq (some uq) = received user_id last rq uq uq.ch

  pub serve_next : RequestQueue R → NextQueue → RequestQueue R × NextRequest R
  unfolding take_request
  serve_next rq (next_queue user_id ix) =
      take_request user_id (pos ix) rq (get user_id rq.queues.user_queues)
  serve_next rq (no_queue last) = (rq, waiting last)
  serve_next rq nil_queue = (rq, panicked)

  -- One pass of `GetNextRequestForQuerier`, from where it takes the lock or is woken, to where it
  -- returns or waits. `done` says whether the querier's context has ended.
  unfoldable pub get_next_request_for_querier :
      Bool → UserIndex → Bytes → RequestQueue R → RequestQueue R × NextRequest R
  unfolding serve_next
  get_next_request_for_querier done last querier_id rq =
      if nat_beq (len rq.queues) 0 && (not done && not rq.stopped)
      then (rq, waiting last)
      else if rq.stopped
      then (rq, stopped_error last)
      else if done
      then (rq, context_error last)
      else serve_next rq (get_next_queue_for_querier rq.queues querier_id last)

  -- One pass of `stopping`; `false` means that it waits.
  unfoldable pub stopping : RequestQueue R → RequestQueue R × Bool
  stopping rq =
      if ltb 0 (len rq.queues) && is_positive rq.connected_querier_workers
      then (rq, false)
      else (record rq { stopped = true }, true)

  abbrev pub with_queues : RequestQueue R → Option (Queues R) → Option (RequestQueue R)
  with_queues rq none = none
  with_queues rq (some q) = some (record rq { queues = q })

  unfoldable pub register_querier_connection : Env → Bytes → RequestQueue R → RequestQueue R
  register_querier_connection env querier rq = record rq {
    connected_querier_workers = inc rq.connected_querier_workers;
    queues = add_querier_connection env querier rq.queues;
  }

  -- `none` is a panic, here and below.
  unfoldable pub unregister_querier_connection :
      Env → Bytes → Time → RequestQueue R → Option (RequestQueue R)
  unregister_querier_connection env querier now rq =
      with_queues (record rq { connected_querier_workers = dec rq.connected_querier_workers })
        (remove_querier_connection env querier now rq.queues)

  unfoldable pub notify_shutdown : Env → Bytes → RequestQueue R → Option (RequestQueue R)
  notify_shutdown env querier_id rq =
      with_queues rq (notify_querier_shutdown env querier_id rq.queues)

  -- The periodic `forgetDisconnectedQueriers`; a number above 0 wakes the waiting queriers.
  unfoldable pub forget_disconnected : Env → Time → RequestQueue R → Option (RequestQueue R)
  forget_disconnected env now rq = elim (forget_disconnected_queriers env now rq.queues) [
    | none ↦ none
    | some (q, forgotten) ↦ some (record rq { queues = q })
  ]

-- ===== src/Scheduler/Examples.antt =====
-- The scheduler's theorems at concrete states.
use deep.Prelude.{ℕ, ◌%◌, ◌+◌, Bytes, false, [], ◌∷◌, none, length, refl, pos, arith}
use native.Mathlib.Nat.{mod-lt}
use deep.Scheduler.State.{Env, Queues}
use deep.Scheduler.Shuffle.{shuffle_queriers_for_user}
use deep.Scheduler.Shuffle.Selection.{Chosen, shuffle_queriers_for_user-Chosen}
use deep.Scheduler.UserOps.{add_queue, get_next_queue_for_querier}
use deep.Scheduler.UserOps.Rotation.{Answer, get_next_queue_for_querier-Answer}
use deep.Scheduler.RequestQueue.{
  RequestQueue, first_user, new_request_queue, enqueue_request, get_next_request_for_querier,
  register_querier_connection,
}
use deep.Scheduler.RequestQueue.Serving.{Served}
use deep.Scheduler.RequestQueue.Service.{IsServing}
use deep.Scheduler.RequestQueue.Fifo.{
  Dispatched, Accepted, get_next_request_for_querier-Dispatched, enqueue_request-Accepted,
}
use deep.Scheduler.RequestQueue.Histories.{
  History, start, after, enqueues, registers, Call-IsServing, History-Served, zero_size-blocked,
  new-IsServing, LeavesEmpty,
}

-- A generator that counts up, and the length of the name for a seed.
abbrev lottery : Env
lottery = record {
  Source = ℕ;
  new_source = λ s. s;
  intn = λ n s. (s % n, s + 1);
  intn_lt = λ n s h. mod-lt s h;
  shuffle_shard_seed = length;
}

abbrev alice : Bytes
alice = b'a' ∷ []

abbrev bob : Bytes
bob = b'b' ∷ []

abbrev q1 : Bytes
q1 = b'q' ∷ b'1' ∷ []

abbrev q2 : Bytes
q2 = b'q' ∷ b'2' ∷ []

-- A queue with room for two requests of a user, one querier, and a request of a user who may have
-- one querier.
abbrev empty : RequestQueue ℕ
empty = new_request_queue 2 10

abbrev joined : RequestQueue ℕ
joined = register_querier_connection lottery q1 empty

abbrev busy : RequestQueue ℕ
busy = (enqueue_request lottery alice 7 (pos 1) joined).0

busy-History : History lottery empty busy
busy-History = after (after start (registers q1 refl)) (enqueues alice 7 (pos 1) refl)

empty-IsServing : IsServing lottery empty.queues
empty-IsServing = new-IsServing lottery 2 10 (omega arith)

joined-IsServing : IsServing lottery joined.queues
joined-IsServing = Call-IsServing lottery empty joined (registers q1 refl) empty-IsServing

busy-IsServing : IsServing lottery busy.queues
busy-IsServing = Call-IsServing lottery joined busy (enqueues alice 7 (pos 1) refl) joined-IsServing

History-Served_example : Served lottery (get_next_request_for_querier false first_user q1 busy)
History-Served_example =
    History-Served lottery 2 10 busy false first_user q1 (omega arith) busy-History

Call-IsServing_example : IsServing lottery busy.queues
Call-IsServing_example =
    Call-IsServing lottery joined busy (enqueues alice 7 (pos 1) refl) joined-IsServing

get_next_queue_for_querier-Answer_example :
    Answer busy.queues q1 (get_next_queue_for_querier busy.queues q1 first_user)
get_next_queue_for_querier-Answer_example =
    get_next_queue_for_querier-Answer busy.queues q1 busy-IsServing.indexed first_user

get_next_request_for_querier-Dispatched_example :
    Dispatched q1 busy (get_next_request_for_querier false first_user q1 busy)
get_next_request_for_querier-Dispatched_example =
    get_next_request_for_querier-Dispatched false first_user q1 busy busy-IsServing.indexed

enqueue_request-Accepted_example : Accepted bob 9 busy (enqueue_request lottery bob 9 (pos 0) busy)
enqueue_request-Accepted_example = enqueue_request-Accepted lottery bob 9 (pos 0) busy

shuffle_queriers_for_user-Chosen_example :
    Chosen 1 (q1 ∷ q2 ∷ []) (shuffle_queriers_for_user lottery 3 1 (q1 ∷ q2 ∷ []))
shuffle_queriers_for_user-Chosen_example =
    shuffle_queriers_for_user-Chosen lottery 3 1 (q1 ∷ q2 ∷ []) (refl, (refl, tt))

abbrev two_users : Queues ℕ
two_users = add_queue lottery bob 1 busy.queues none

zero_size-blocked_example :
    LeavesEmpty {R = ℕ} lottery alice q1
      (enqueue_request lottery alice 7 (pos 0) (new_request_queue 0 10))
zero_size-blocked_example = zero_size-blocked lottery 10 b'a' [] 7 (pos 0) q1

-- ===== src/Scheduler/RequestQueue/Histories.antt =====
-- Every history of calls on a request queue.
use mathlib.Core.Option.{some-injective}
use deep.Prelude.{
  ltb, ◌&&◌, bytes_beq_iff, [], ◌∷◌, ℕ, ◌-◌, ◌<◌, ◌≡◌, refl, sym, ap, subst, inl, inr, Bytes,
  bytes_eq, Bool, false, Option, none, some, get, keys, nat_beq, ℤ, arith, Bool-cases, Option-cases,
}
use deep.Backend.{Time}
use deep.Scheduler.State.{Env, Querier, Queues, new_user_queues, len}
use deep.Scheduler.Shuffle.{shuffle_queriers_for_user}
use deep.Scheduler.UserOps.{get_or_add_queue, free_spot, get_next_queue_for_querier}
use deep.Scheduler.UserOps.Slots.{new_user_queues-IsIndexed}
use deep.Scheduler.QuerierOps.{
  remove_querier_connection, notify_querier_shutdown, forget_disconnected_queriers,
}
use deep.Scheduler.QuerierOps.Current.{
  IsCurrent, Keeps, new_user_queues-IsCurrent, add_querier_connection-IsCurrent,
  remove_querier_connection-Keeps, notify_querier_shutdown-Keeps,
}
use deep.Scheduler.QuerierOps.Forget.{Remain, forget_disconnected_queriers-Remain}
use deep.Scheduler.RequestQueue.{
  RequestQueue, new_request_queue, enqueue_request, get_next_request_for_querier, stopping,
  register_querier_connection, unregister_querier_connection, notify_shutdown, forget_disconnected,
  EnqueueResult, err_too_many_requests, is_positive, dec, first_user, with_queues, NextRequest,
  request, waiting, stopped_error, context_error, blocked, panicked,
}
use deep.Scheduler.RequestQueue.Channels.{pending}
use deep.Scheduler.RequestQueue.Service.{IsServing}
use deep.Scheduler.RequestQueue.Serving.{
  Served, enqueue_request-IsServing, get_next_request_for_querier-Served,
}
use deep.Scheduler.RequestQueue.Work.{
  SameWork-IsServing, add_querier_connection-SameWork, remove_querier_connection-Work,
  notify_querier_shutdown-Work, forget_loop-Work,
}

module _ {R : Type 0} (env : Env) where
  -- One call. A connection is closed only for a querier that has one.
  pub data Call (rq rq' : RequestQueue R) : Type 0 where
    enqueues :
        (u : Bytes) (req : R) (k : ℤ) → rq' ≡ (enqueue_request env u req k rq).0 → Call rq rq'
    asks :
        (done : Bool) (last : ℤ) (querier_id : Bytes)
        → rq' ≡ (get_next_request_for_querier done last querier_id rq).0
        → Call rq rq'
    registers : (k : Bytes) → rq' ≡ register_querier_connection env k rq → Call rq rq'
    unregisters :
        (k : Bytes) (now : Time) (info : Querier)
        → get k rq.queues.queriers ≡ some info
        → 0 < info.connections
        → unregister_querier_connection env k now rq ≡ some rq'
        → Call rq rq'
    notifies : (k : Bytes) → notify_shutdown env k rq ≡ some rq' → Call rq rq'
    forgets : (now : Time) → forget_disconnected env now rq ≡ some rq' → Call rq rq'
    stops : rq' ≡ (stopping rq).0 → Call rq rq'

  pub data History (first : RequestQueue R) : RequestQueue R → Type 0 where
    start : History first first
    after : {rq rq' : RequestQueue R} → History first rq → Call rq rq' → History first rq'

  Served-IsServing : (p : RequestQueue R × NextRequest R) → Served env p → IsServing env p.0.queues
  Served-IsServing (rq, request r i) h = h
  Served-IsServing (rq, waiting i) h = h
  Served-IsServing (rq, stopped_error i) h = h
  Served-IsServing (rq, context_error i) h = h
  Served-IsServing (rq, blocked) h = absurd h
  Served-IsServing (rq, panicked) h = absurd h

  with_queues-IsServing :
      (rq rq' : RequestQueue R) (o : Option (Queues R))
      → with_queues rq o ≡ some rq'
      → ((q : Queues R) → o ≡ some q → IsServing env q)
      → IsServing env rq'.queues
  with_queues-IsServing rq rq' none e h = cc
  with_queues-IsServing rq rq' (some q) e h =
      subst (IsServing env) (ap (λ (r : RequestQueue R). r.queues) (some-injective _ _ e))
        (h q refl)

  forgotten-IsServing :
      (now : Time) (q q' : Queues R) (n : ℕ)
      → IsServing env q
      → forget_disconnected_queriers env now q ≡ some (q', n)
      → IsServing env q'
  unfolding forget_disconnected_queriers
  forgotten-IsServing now q q' n v e = elim (Bool-cases (nat_beq q.forget_delay 0)) [
    | inl y ↦ subst (IsServing env) (ap (λ p. p.0) (some-injective _ _ (rw y at e))) v
    | inr on ↦
        SameWork-IsServing env q q'
          (forget_loop-Work env (now - q.forget_delay) (keys q.queriers) q 0 q' n (rw on at e)) v
          (current (forget_disconnected_queriers-Remain env now q v.current on))
  ]
    where
      current : Remain env now q (forget_disconnected_queriers env now q) → IsCurrent env q'
      current h = (subst (Remain env now q) e h).0

  queues-stopping : (rq : RequestQueue R) → (stopping rq).0.queues ≡ rq.queues
  unfolding stopping
  queues-stopping rq =
      elim (Bool-cases (ltb 0 (len rq.queues) && is_positive rq.connected_querier_workers)) [
        | inl y ↦ rw y
        | inr n ↦ rw n
      ]

  -- Every call keeps the state valid.
  pub Call-IsServing :
      (rq rq' : RequestQueue R) → Call rq rq' → IsServing env rq.queues → IsServing env rq'.queues
  unfolding register_querier_connection unregister_querier_connection notify_shutdown
      forget_disconnected
  Call-IsServing rq rq' (enqueues u req k e) v = rw e (enqueue_request-IsServing env u req k rq v)
  Call-IsServing rq rq' (asks done last querier_id e) v = rw e (
      Served-IsServing (get_next_request_for_querier done last querier_id rq)
        (get_next_request_for_querier-Served env done last querier_id rq v))
  Call-IsServing rq rq' (registers k e) v = rw e (
      SameWork-IsServing env rq.queues _ (add_querier_connection-SameWork env k rq.queues) v
        (add_querier_connection-IsCurrent env k rq.queues v.current))
  Call-IsServing rq rq' (unregisters k now info there some_left e) v =
      with_queues-IsServing
        (record rq { connected_querier_workers = dec rq.connected_querier_workers }) rq'
        (remove_querier_connection env k now rq.queues) e
        λ q r.
          SameWork-IsServing env rq.queues q
            ((remove_querier_connection-Work env k now rq.queues).at q r) v
            (subst (Keeps env) r
              (remove_querier_connection-Keeps env k now rq.queues info v.current there some_left))
  Call-IsServing rq rq' (notifies k e) v =
      with_queues-IsServing rq rq' (notify_querier_shutdown env k rq.queues) e λ q r.
        SameWork-IsServing env rq.queues q ((notify_querier_shutdown-Work env k rq.queues).at q r) v
          (subst (Keeps env) r (notify_querier_shutdown-Keeps env k rq.queues v.current))
  Call-IsServing rq rq' (forgets now e) v =
      elim (Option-cases (forget_disconnected_queriers env now rq.queues)) [
        | inl gone ↦ cc (rw (gone, forget_disconnected) at e)
        | inr ((q, n), r) ↦
            subst (IsServing env)
              (ap (λ (p : RequestQueue R). p.queues)
                (some-injective _ _ (rw (r, forget_disconnected) at e)))
              (forgotten-IsServing now rq.queues q n v r)
      ]
  Call-IsServing rq rq' (stops e) v = rw e (subst (IsServing env) (sym (queues-stopping rq)) v)

  History-IsServing :
      {first rq : RequestQueue R}
      → IsServing env first.queues
      → History first rq
      → IsServing env rq.queues
  History-IsServing v start = v
  History-IsServing v (after {rq = rq0} {rq' = rq1} h c) =
      Call-IsServing rq0 rq1 c (History-IsServing v h)

  pub new-IsServing :
      (size delay : ℕ) → 0 < size → IsServing env (new_request_queue {R = R} size delay).queues
  unfolding new_request_queue new_user_queues
  new-IsServing size delay h = record {
    indexed = new_user_queues-IsIndexed size delay;
    current = new_user_queues-IsCurrent env size delay;
    room = h;
    filled = λ u. tt;
  }

  -- Where the channels have room for a request, no history of calls leads to a state in which a
  -- querier that asks for work is blocked with the lock held or meets a missing queue.
  pub History-Served :
      (size delay : ℕ) (rq : RequestQueue R) (done : Bool) (last : ℤ) (querier_id : Bytes)
      → 0 < size
      → History (new_request_queue size delay) rq
      → Served env (get_next_request_for_querier done last querier_id rq)
  History-Served size delay rq done last querier_id h past =
      get_next_request_for_querier-Served env done last querier_id rq
        (History-IsServing (new-IsServing size delay h) past)

  -- What an enqueue of the user's request comes to where the channel had no room for it and was left
  -- behind empty, for a querier that asks next.
  pub record LeavesEmpty (user_id querier_id : Bytes) (p : RequestQueue R × EnqueueResult)
      : Type 0 where
    pub turned_away : p.1 ≡ err_too_many_requests
    pub there : keys p.0.queues.user_queues ≡ user_id ∷ []
    pub empty : pending user_id p.0.queues ≡ []
    pub blocks : (get_next_request_for_querier false first_user querier_id p.0).1 ≡ blocked

  -- Where the channels are made without room, the first request of any user is turned away as one
  -- too many but leaves an empty channel behind, and the next querier to ask blocks on it with the
  -- lock held.
  pub zero_size-blocked :
      (delay : ℕ) (c : ℕ) (cs : Bytes) (req : R) (k : ℤ) (querier_id : Bytes)
      → LeavesEmpty
          (c ∷ cs)
          querier_id
          (enqueue_request env (c ∷ cs) req k (new_request_queue 0 delay))
  unfolding get_next_request_for_querier enqueue_request new_request_queue new_user_queues
      get_or_add_queue free_spot len get_next_queue_for_querier shuffle_queriers_for_user
  zero_size-blocked delay c cs req k querier_id = record {
    turned_away = ground (arith, bytes_beq_iff cs cs);
    there = ground (arith, bytes_beq_iff cs cs);
    empty = ground (arith, bytes_beq_iff cs cs);
    blocks = ground (arith, bytes_beq_iff cs cs);
  }

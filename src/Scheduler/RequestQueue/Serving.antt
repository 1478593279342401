-- ===== src/Scheduler/RequestQueue/Serving.antt =====
-- What `GetNextRequestForQuerier` and `EnqueueRequest` promise.
use deep.Prelude.{
  beq_refl, ℕ, ◌≤◌, ◌<◌, ◌≡◌, refl, ◌∙◌, ap, subst, inl, inr, Bytes, bytes_eq, bytes_beq,
  bytes_beq_iff, Bool, true, false, not, ◌&&◌, List, [], ◌∷◌, ◌++◌, Option, none, some, Map, get,
  put, get-put, length, length-append, ltb, nat_beq, if◌then◌else◌, ℤ, pos, arith, Bool-cases,
  Option-cases,
}
use deep.Scheduler.State.{Env, UserQueue, Queues, len}
use deep.Scheduler.UserOps.{
  get_or_add_queue, add_queue, non_negative, NextQueue, next_queue, no_queue, nil_queue,
  get_next_queue_for_querier,
}
use deep.Scheduler.UserOps.Slots.{IsIndexed, add_queue-IsIndexed}
use deep.Scheduler.UserOps.Rotation.{Answer, get_next_queue_for_querier-Answer}
use deep.Scheduler.QuerierOps.Current.{IsCurrent}
use deep.Scheduler.RequestQueue.{
  RequestQueue, EnqueueResult, err_stopped, NextRequest, blocked, panicked, waiting, stopped_error,
  context_error, send, enqueue_request, received, take_request, serve_next,
  get_next_request_for_querier,
}
use deep.Scheduler.RequestQueue.Channels.{waiting_in, add_queue-others, add_queue_self}
use deep.Scheduler.RequestQueue.Service.{
  Filled, IsServing, received-IsServing, put_chan-IsServing, add_queue-IsCurrent,
}

module _ {ℓ} {R : Type ℓ} (env : Env) where
  -- Never blocked with the lock held, never at a missing queue, and the state valid afterwards.
  abbrev pub Served : RequestQueue R × NextRequest R → Type 0
  Served (rq, blocked) = ⊥
  Served (rq, panicked) = ⊥
  Served (rq, _) = IsServing env rq.queues

  received-Served :
      (u : Bytes) (last : ℤ) (rq : RequestQueue R) (uq : UserQueue R) (ch : List R)
      → IsServing env rq.queues
      → get u rq.queues.user_queues ≡ some uq
      → uq.ch ≡ ch
      → Served (received u last rq uq ch)
  unfolding received
  received-Served u last rq uq [] v e c =
      let (some_left, below) = rw e at (v.filled u) in
      absurd (omega (arith, some_left, ap length c))
  received-Served u last rq uq (r ∷ rest) v e c = received-IsServing env u last rq uq r rest v e c

  serve_next-Served :
      (querier_id : Bytes) (rq : RequestQueue R) (next : NextQueue)
      → IsServing env rq.queues
      → Answer rq.queues querier_id next
      → Served (serve_next rq next)
  unfolding serve_next
  serve_next-Served querier_id rq (no_queue last) v a = v
  serve_next-Served querier_id rq nil_queue v a = a
  serve_next-Served querier_id rq (next_queue u ix) v (i, s) =
      elim (Option-cases (get u rq.queues.user_queues)) [
        | inl e ↦ cc (i, e)
        | inr (uq, e) ↦
            rw (e, serve_next, take_request) (received-Served u (pos ix) rq uq uq.ch v e refl)
      ]

  pass-Served :
      (w s d : Bool) (last : ℤ) (rq : RequestQueue R) (r : RequestQueue R × NextRequest R)
      → IsServing env rq.queues
      → Served r
      → Served (
          if w
          then (rq, waiting last)
          else if s
          then (rq, stopped_error last)
          else if d
          then (rq, context_error last)
          else r)
  pass-Served true s d last rq r v h = v
  pass-Served false true d last rq r v h = v
  pass-Served false false true last rq r v h = v
  pass-Served false false false last rq r v h = h

  -- With a valid state, a querier that asks for work is never blocked on an empty channel with the
  -- lock held and meets no missing queue; and the state stays valid, whether it gets a request, has
  -- to wait or is told that the queue is stopped or its context done.
  pub get_next_request_for_querier-Served :
      (done : Bool) (last : ℤ) (querier_id : Bytes) (rq : RequestQueue R)
      → IsServing env rq.queues
      → Served (get_next_request_for_querier done last querier_id rq)
  unfolding get_next_request_for_querier
  get_next_request_for_querier-Served done last querier_id rq v =
      pass-Served (nat_beq (len rq.queues) 0 && (not done && not rq.stopped)) rq.stopped done last
        rq (serve_next rq (get_next_queue_for_querier rq.queues querier_id last)) v
        (serve_next-Served querier_id rq (get_next_queue_for_querier rq.queues querier_id last) v
          (get_next_queue_for_querier-Answer rq.queues querier_id v.indexed last))

  Filled-all :
      (u : Bytes) (size : ℕ) (m : Map Bytes (UserQueue R)) (uq : UserQueue R)
      → get u m ≡ some uq
      → 0 < length uq.ch
      → length uq.ch ≤ size
      → ((w : Bytes) → bytes_beq u w ≡ false → Filled size (get w m))
      → (w : Bytes) → Filled size (get w m)
  Filled-all u size m uq e p r others w = elim (Bool-cases (bytes_beq u w)) [
    | inl y ↦ subst (λ (x : Bytes). Filled size (get x m)) ((bytes_beq_iff u w).0 y) (rw e (p, r))
    | inr n ↦ others w n
  ]

  send-IsServing :
      (u : Bytes) (req : R) (rq : RequestQueue R) (q : Queues R) (uq : UserQueue R)
      → IsIndexed q.user_queues q.users
      → IsCurrent env q
      → 0 < q.max_user_queue_size
      → get u q.user_queues ≡ some uq
      → ((w : Bytes) → bytes_beq u w ≡ false → Filled q.max_user_queue_size (get w q.user_queues))
      → length uq.ch ≤ q.max_user_queue_size
      → IsServing env (send u req rq q (some uq)).0.queues
  unfolding send
  send-IsServing u req rq q uq i k room e others fits =
      elim (Bool-cases (ltb (length uq.ch) q.max_user_queue_size)) [
        | inl y ↦
            let uq' : UserQueue R = record uq { ch = uq.ch ++ req ∷ [] } in
            let (i', k') = put_chan-IsServing env u uq (uq.ch ++ req ∷ []) q e i k in
            rw y (record {
              indexed = i';
              current = k';
              room = room;
              filled =
                  Filled-all u q.max_user_queue_size (put u uq' q.user_queues) uq'
                    (get-put u u uq' q.user_queues ∙ rw (beq_refl bytes_eq u))
                    (omega (arith, length-append uq.ch (req ∷ [])))
                    (ground (arith, y, length-append uq.ch (req ∷ [])))
                    (λ w n. rw (get-put u w uq' q.user_queues, n) (others w n));
            })
        | inr n ↦ rw n (record {
          indexed = i;
          current = k;
          room = room;
          filled =
              Filled-all u q.max_user_queue_size q.user_queues uq e (ground (arith, n)) fits others;
        })
      ]

  stopped-IsServing :
      (b : Bool) (rq : RequestQueue R) (r : RequestQueue R × EnqueueResult)
      → IsServing env rq.queues
      → IsServing env r.0.queues
      → IsServing env (if b then (rq, err_stopped) else r).0.queues
  stopped-IsServing true rq r v h = v
  stopped-IsServing false rq r v h = h

  fits_before : (size : ℕ) (o : Option (UserQueue R)) → Filled size o → length (waiting_in o) ≤ size
  fits_before size none h = omega arith
  fits_before size (some uq) h = h.1

  -- Whatever comes of an enqueue, the state stays valid: the users and the queues point at each
  -- other, the assignment of queriers is up to date, and no channel is left empty or too full.
  pub enqueue_request-IsServing :
      (u : Bytes) (req : R) (k : ℤ) (rq : RequestQueue R)
      → IsServing env rq.queues
      → IsServing env (enqueue_request env u req k rq).0.queues
  unfolding enqueue_request get_or_add_queue
  enqueue_request-IsServing [] req k rq v = stopped-IsServing rq.stopped rq _ v v
  enqueue_request-IsServing (c ∷ cs) req k rq v =
      let old = get (c ∷ cs) rq.queues.user_queues in
      let q = add_queue env (c ∷ cs) (non_negative k) rq.queues old in
      let (uq, there, same, size) =
        add_queue_self env (c ∷ cs) (non_negative k) rq.queues old refl in
      stopped-IsServing rq.stopped rq _ v (
        rw there (
          send-IsServing (c ∷ cs) req rq q uq
            (add_queue-IsIndexed env (c ∷ cs) (non_negative k) rq.queues old (λ p. cc) v.indexed
              refl)
            (add_queue-IsCurrent env (c ∷ cs) (non_negative k) rq.queues old refl v.current)
            (rw size v.room) there
            (λ w n.
              rw (size, add_queue-others env (c ∷ cs) w (non_negative k) rq.queues old n)
                (v.filled w))
            (rw (size, same) (fits_before rq.queues.max_user_queue_size old (v.filled (c ∷ cs))))))

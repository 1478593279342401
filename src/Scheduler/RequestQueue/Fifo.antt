-- ===== src/Scheduler/RequestQueue/Fifo.antt =====
-- The order in which requests leave the channels of pkg/scheduler/queue/queue.go.
use deep.Prelude.{
  beq_refl, suc, ◌≤◌, ◌≡◌, refl, ◌∙◌, ap, subst, inl, inr, Bytes, bytes_eq, bytes_beq,
  bytes_beq_iff, Bool, true, false, not, ◌&&◌, List, [], ◌∷◌, ◌++◌, some, get, put, get-put, length,
  ltb, nat_beq, if◌then◌else◌, ℤ, pos, arith, Bool-cases, Option-cases,
}
use deep.Scheduler.State.{Env, UserQueue, Queues, len}
use deep.Scheduler.UserOps.{
  get_or_add_queue, add_queue, non_negative, NextQueue, next_queue, no_queue, nil_queue,
  get_next_queue_for_querier,
}
use deep.Scheduler.UserOps.Slots.{IsIndexed}
use deep.Scheduler.UserOps.Rotation.{servable, Answer, get_next_queue_for_querier-Answer}
use deep.Scheduler.RequestQueue.{
  RequestQueue, EnqueueResult, enqueued, no_queue_found, err_stopped, err_too_many_requests,
  NextRequest, request, waiting, stopped_error, context_error, send, enqueue_request, received,
  take_request, serve_next, get_next_request_for_querier,
}
use deep.Scheduler.RequestQueue.Channels.{
  waiting_in, pending, get-delete_queue, add_queue-others, add_queue_self,
}

module _ {ℓ} {R : Type ℓ} where
  -- What a pass of `GetNextRequestForQuerier` does to the waiting requests: where it returns one,
  -- that is the oldest of some user that the querier may serve, and every other request stays where
  -- it was; where it returns none, nothing changes.
  abbrev pub Dispatched : Bytes → RequestQueue R → RequestQueue R × NextRequest R → Type ℓ
  Dispatched querier_id rq (rq', request r i) =
      (u : Bytes) × (servable rq.queues querier_id (get u rq.queues.user_queues) ≡ true)
      × (pending u rq.queues ≡ r ∷ pending u rq'.queues)
      × ((w : Bytes) → bytes_beq u w ≡ false → pending w rq'.queues ≡ pending w rq.queues)
  Dispatched querier_id rq (rq', _) = rq' ≡ rq

  received-Dispatched :
      (querier_id u : Bytes) (last : ℤ) (rq : RequestQueue R) (uq : UserQueue R) (ch : List R)
      → get u rq.queues.user_queues ≡ some uq
      → uq.ch ≡ ch
      → servable rq.queues querier_id (get u rq.queues.user_queues) ≡ true
      → Dispatched querier_id rq (received u last rq uq ch)
  unfolding received
  received-Dispatched querier_id u last rq uq [] e c s = refl
  received-Dispatched querier_id u last rq uq (r ∷ []) e c s = (
    u,
    s,
    rw (e, get-delete_queue u u drained, beq_refl bytes_eq u) c,
    λ w n. rw (
      get-delete_queue u w drained,
      n,
      get-put u w (record uq { ch = [] }) rq.queues.user_queues,
      n,
    ),
  )
    where
      drained : Queues R
      drained = record rq.queues {
        user_queues = put u (record uq { ch = [] }) rq.queues.user_queues;
      }
  received-Dispatched querier_id u last rq uq (r ∷ s' ∷ rest) e c s =
      let more : nat_beq (suc (length rest)) 0 ≡ false = ground arith in
      let uq' : UserQueue R = record uq { ch = s' ∷ rest } in
      rw more (
        u,
        s,
        rw (e, get-put u u uq' rq.queues.user_queues, beq_refl bytes_eq u) c,
        λ w n. rw (get-put u w uq' rq.queues.user_queues, n),
      )

  serve_next-Dispatched :
      (querier_id : Bytes) (rq : RequestQueue R) (next : NextQueue)
      → Answer rq.queues querier_id next
      → Dispatched querier_id rq (serve_next rq next)
  unfolding serve_next
  serve_next-Dispatched querier_id rq (no_queue last) a = refl
  serve_next-Dispatched querier_id rq nil_queue a = refl
  serve_next-Dispatched querier_id rq (next_queue u ix) (i, s) =
      elim (Option-cases (get u rq.queues.user_queues)) [
        | inl e ↦ cc (i, e)
        | inr (uq, e) ↦
            rw (e, serve_next, take_request)
              (received-Dispatched querier_id u (pos ix) rq uq uq.ch e refl s)
      ]

  pass-Dispatched :
      (querier_id : Bytes) (w s d : Bool) (last : ℤ) (rq : RequestQueue R)
      (r : RequestQueue R × NextRequest R)
      → Dispatched querier_id rq r
      → Dispatched querier_id rq (
          if w
          then (rq, waiting last)
          else if s
          then (rq, stopped_error last)
          else if d
          then (rq, context_error last)
          else r)
  pass-Dispatched querier_id true s d last rq r h = refl
  pass-Dispatched querier_id false true d last rq r h = refl
  pass-Dispatched querier_id false false true last rq r h = refl
  pass-Dispatched querier_id false false false last rq r h = h

  -- Where the users and their queues point at each other, a pass of `GetNextRequestForQuerier` that
  -- returns a request takes the oldest one of a user that the querier may serve and moves no other
  -- request, and a pass that returns none changes nothing.
  pub get_next_request_for_querier-Dispatched :
      (done : Bool) (last : ℤ) (querier_id : Bytes) (rq : RequestQueue R)
      → IsIndexed rq.queues.user_queues rq.queues.users
      → Dispatched querier_id rq (get_next_request_for_querier done last querier_id rq)
  unfolding get_next_request_for_querier
  get_next_request_for_querier-Dispatched done last querier_id rq v =
      pass-Dispatched querier_id (nat_beq (len rq.queues) 0 && (not done && not rq.stopped))
        rq.stopped done last rq
        (serve_next rq (get_next_queue_for_querier rq.queues querier_id last))
        (serve_next-Dispatched querier_id rq (get_next_queue_for_querier rq.queues querier_id last)
          (get_next_queue_for_querier-Answer rq.queues querier_id v last))

  -- What `EnqueueRequest` does to the waiting requests: an accepted request goes to the end of its
  -- user's channel; one is turned away as too many only where the channel is full, and then no
  -- request moves; the other errors change nothing.
  abbrev pub Accepted : Bytes → R → RequestQueue R → RequestQueue R × EnqueueResult → Type ℓ
  Accepted u req rq (rq', enqueued) =
      (pending u rq'.queues ≡ pending u rq.queues ++ req ∷ [])
      × ((w : Bytes) → bytes_beq u w ≡ false → pending w rq'.queues ≡ pending w rq.queues)
  Accepted u req rq (rq', err_too_many_requests) =
      (rq.queues.max_user_queue_size ≤ length (pending u rq.queues))
      × ((w : Bytes) → pending w rq'.queues ≡ pending w rq.queues)
  Accepted u req rq (rq', err_stopped) = (rq' ≡ rq) × (rq.stopped ≡ true)
  Accepted u req rq (rq', no_queue_found) = (rq' ≡ rq) × (u ≡ [])

  send-Accepted :
      (u : Bytes) (req : R) (rq : RequestQueue R) (q : Queues R) (uq : UserQueue R)
      → get u q.user_queues ≡ some uq
      → uq.ch ≡ pending u rq.queues
      → q.max_user_queue_size ≡ rq.queues.max_user_queue_size
      → ((w : Bytes) → bytes_beq u w ≡ false → get w q.user_queues ≡ get w rq.queues.user_queues)
      → Accepted u req rq (send u req rq q (some uq))
  unfolding send
  send-Accepted u req rq q uq e c m others =
      elim (Bool-cases (ltb (length uq.ch) q.max_user_queue_size)) [
        | inl y ↦ rw y (
          rw (get-put u u (record uq { ch = uq.ch ++ req ∷ [] }) q.user_queues, beq_refl bytes_eq u)
              (ap (λ l. l ++ req ∷ []) c),
          λ w d.
              rw (get-put u w (record uq { ch = uq.ch ++ req ∷ [] }) q.user_queues, d)
                (ap waiting_in (others w d)),
        )
        | inr n ↦ rw n (
          ground (arith, n, m, ap length c),
          λ w. elim (Bool-cases (bytes_beq u w)) [
            | inl same ↦
                subst (λ (x : Bytes). pending x q ≡ pending x rq.queues)
                  ((bytes_beq_iff u w).0 same) (ap waiting_in e ∙ c)
            | inr d ↦ ap waiting_in (others w d)
          ],
        )
      ]

  stopped-Accepted :
      (u : Bytes) (req : R) (rq : RequestQueue R) (b : Bool) (r : RequestQueue R × EnqueueResult)
      → rq.stopped ≡ b
      → Accepted u req rq r
      → Accepted u req rq (if b then (rq, err_stopped) else r)
  stopped-Accepted u req rq true r e h = (refl, e)
  stopped-Accepted u req rq false r e h = h

  -- Whether a request is accepted or turned away, the others stay in order.
  pub enqueue_request-Accepted :
      (env : Env) (u : Bytes) (req : R) (k : ℤ) (rq : RequestQueue R)
      → Accepted u req rq (enqueue_request env u req k rq)
  unfolding enqueue_request get_or_add_queue
  enqueue_request-Accepted env [] req k rq =
      stopped-Accepted [] req rq rq.stopped _ refl (refl, refl)
  enqueue_request-Accepted env (c ∷ cs) req k rq =
      let old = get (c ∷ cs) rq.queues.user_queues in
      let q = add_queue env (c ∷ cs) (non_negative k) rq.queues old in
      let (uq, there, same, size) =
        add_queue_self env (c ∷ cs) (non_negative k) rq.queues old refl in
      stopped-Accepted (c ∷ cs) req rq rq.stopped _ refl (
        rw there (
          send-Accepted (c ∷ cs) req rq q uq there same size
            (λ w d. add_queue-others env (c ∷ cs) w (non_negative k) rq.queues old d)))

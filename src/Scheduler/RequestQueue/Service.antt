-- ===== src/Scheduler/RequestQueue/Service.antt =====
-- The request queue as a service: its invariant, and that a querier is never stuck.
use deep.Prelude.{
  ℕ, suc, ◌≤◌, ◌<◌, ◌≡◌, refl, sym, ap, subst, inl, inr, Bytes, bytes_eq, bytes_beq, bytes_beq_iff,
  false, List, [], ◌∷◌, Option, none, some, Map, get, put, get-put, get-delete, length, nat_beq,
  if◌then◌else◌, ℤ, arith, Bool-cases, Option-cases,
}
use deep.Scheduler.State.{Env, UserQueue, Queues}
use deep.Scheduler.Shuffle.{shuffle_queriers_for_user}
use deep.Scheduler.UserOps.{delete_queue, add_queue, resized, new_queue}
use deep.Scheduler.UserOps.Slots.{IsIndexed, put_again, delete_queue-IsIndexed}
use deep.Scheduler.QuerierOps.Current.{IsCurrent, Shuffled}
use deep.Scheduler.RequestQueue.{RequestQueue, received}
use deep.Scheduler.RequestQueue.Channels.{get-delete_queue, size-delete_queue}

-- Every channel holds a request, and no more than its capacity.
abbrev pub Filled {ℓ} : {R : Type ℓ} → ℕ → Option (UserQueue R) → Type 0
Filled size none = Unit
Filled size (some uq) = (0 < length uq.ch) × (length uq.ch ≤ size)

-- The invariant of the queues between two calls.
pub record IsServing {ℓ} {R : Type ℓ} (env : Env) (q : Queues R) : Type 0 where
  pub indexed : IsIndexed q.user_queues q.users
  pub current : IsCurrent env q
  pub room : 0 < q.max_user_queue_size
  pub filled : (u : Bytes) → Filled q.max_user_queue_size (get u q.user_queues)

shuffle-zero :
    (env : Env) (seed : ℕ) (sorted : List Bytes)
    → shuffle_queriers_for_user env seed 0 sorted ≡ none
unfolding shuffle_queriers_for_user
shuffle-zero env seed sorted = refl

module _ {ℓ} {R : Type ℓ} (env : Env) where
  resized-Shuffled :
      (u : Bytes) (k : ℕ) (sorted : List Bytes) (uq : UserQueue R)
      → Shuffled env sorted u (some uq)
      → Shuffled env sorted u (some (resized env k sorted uq))
  resized-Shuffled u k sorted uq (s, h) = elim (Bool-cases (nat_beq uq.max_queriers k)) [
    | inl y ↦ rw y (s, h)
    | inr n ↦ rw n (s, refl)
  ]

  put-IsCurrent :
      (u : Bytes) (uq : UserQueue R) (users : List Bytes) (q : Queues R)
      → IsCurrent env q
      → Shuffled env q.sorted_queriers u (some uq)
      → IsCurrent env (record q { user_queues = put u uq q.user_queues; users = users })
  put-IsCurrent u uq users q v h = record {
    sorted = v.sorted;
    same = v.same;
    shuffled = λ w. elim (Bool-cases (bytes_beq u w)) [
      | inl y ↦
          rw (get-put u w uq q.user_queues, y)
            (subst (λ (x : Bytes). Shuffled env q.sorted_queriers x (some uq))
              ((bytes_beq_iff u w).0 y) h)
      | inr n ↦ rw (get-put u w uq q.user_queues, n) (v.shuffled w)
    ];
  }

  -- Finding or adding a user's queue keeps the assignment of queriers up to date.
  pub add_queue-IsCurrent :
      (u : Bytes) (k : ℕ) (q : Queues R) (o : Option (UserQueue R))
      → get u q.user_queues ≡ o
      → IsCurrent env q
      → IsCurrent env (add_queue env u k q o)
  unfolding add_queue
  add_queue-IsCurrent u k q none e v = put-IsCurrent u _ _ q v (
      resized-Shuffled u k q.sorted_queriers (new_queue env u _)
        (refl, sym (shuffle-zero env _ q.sorted_queriers)))
  add_queue-IsCurrent u k q (some uq) e v =
      put-IsCurrent u _ q.users q v
        (resized-Shuffled u k q.sorted_queriers uq (rw e at (v.shuffled u)))

  pub delete_queue-IsCurrent :
      (u : Bytes) (q : Queues R) → IsCurrent env q → IsCurrent env (delete_queue u q)
  unfolding delete_queue
  delete_queue-IsCurrent u q v = elim (Option-cases (get u q.user_queues)) [
    | inl e ↦ rw (e, delete_queue) v
    | inr (uq, e) ↦
        rw (e, delete_queue)
          (record {
            sorted = v.sorted;
            same = v.same;
            shuffled = λ w. elim (Bool-cases (bytes_beq u w)) [
              | inl y ↦ rw (get-delete u w q.user_queues, y) tt
              | inr n ↦ rw (get-delete u w q.user_queues, n) (v.shuffled w)
            ];
          })
  ]

  pub put_chan-IsServing :
      (u : Bytes) (uq : UserQueue R) (ch : List R) (q : Queues R)
      → get u q.user_queues ≡ some uq
      → IsIndexed q.user_queues q.users
      → IsCurrent env q
      → IsIndexed (put u (record uq { ch = ch }) q.user_queues) q.users
        × IsCurrent env (record q { user_queues = put u (record uq { ch = ch }) q.user_queues })
  put_chan-IsServing u uq ch q e v c = (
    put_again u q.user_queues q.users uq (record uq { ch = ch }) v e refl,
    put-IsCurrent u (record uq { ch = ch }) q.users q c (rw e at (c.shuffled u)),
  )

  -- Queues with a channel replaced by one that holds between one request and the capacity.
  pub put_chan-Filled :
      (u w : Bytes) (uq : UserQueue R) (size : ℕ) (m : Map Bytes (UserQueue R))
      → 0 < length uq.ch
      → length uq.ch ≤ size
      → Filled size (get w m)
      → Filled size (get w (put u uq m))
  put_chan-Filled u w uq size m p r h = elim (Bool-cases (bytes_beq u w)) [
    | inl y ↦ rw (get-put u w uq m, y) (p, r)
    | inr n ↦ rw (get-put u w uq m, n) h
  ]

  -- A queue that gives up its oldest request: the channel is shortened, or deleted when empty.
  pub received-IsServing :
      (u : Bytes) (last : ℤ) (rq : RequestQueue R) (uq : UserQueue R) (r : R) (rest : List R)
      → IsServing env rq.queues
      → get u rq.queues.user_queues ≡ some uq
      → uq.ch ≡ r ∷ rest
      → IsServing env (received u last rq uq (r ∷ rest)).0.queues
  unfolding received
  received-IsServing u last rq uq r [] v e c =
      let (i, k) = put_chan-IsServing u uq [] rq.queues e v.indexed v.current in
      record {
        indexed = delete_queue-IsIndexed u _ i;
        current = delete_queue-IsCurrent u _ k;
        room = rw (size-delete_queue u drained) v.room;
        filled = λ w.
            rw
              (
                size-delete_queue u drained,
                get-delete_queue u w drained,
                get-put u w (record uq { ch = [] }) rq.queues.user_queues,
              )
              (drained_others w);
      }
    where
      drained : Queues R
      drained = record rq.queues {
        user_queues = put u (record uq { ch = [] }) rq.queues.user_queues;
      }

      drained_others :
          (w : Bytes)
          → Filled rq.queues.max_user_queue_size (
              if bytes_beq u w
              then none
              else if bytes_beq u w
              then some (record uq { ch = [] })
              else get w rq.queues.user_queues)
      drained_others w = elim (Bool-cases (bytes_beq u w)) [
        | inl y ↦ rw y tt
        | inr n ↦ rw n (v.filled w)
      ]
  received-IsServing u last rq uq r (s ∷ rest) v e c =
      let (some_left, below) = rw e at (v.filled u) in
      let fits : suc (length rest) ≤ rq.queues.max_user_queue_size =
        omega (arith, below, ap length c) in
      let (i, k) = put_chan-IsServing u uq (s ∷ rest) rq.queues e v.indexed v.current in
      let more : nat_beq (suc (length rest)) 0 ≡ false = ground arith in
      rw more (record {
        indexed = i;
        current = k;
        room = v.room;
        filled = λ w.
            put_chan-Filled u w (record uq { ch = s ∷ rest }) rq.queues.max_user_queue_size
              rq.queues.user_queues (omega arith) fits (v.filled w);
      })

-- ===== src/Scheduler/RequestQueue/Work.antt =====
-- The operations on queriers of pkg/scheduler/queue, and the requests that wait.
use mathlib.Core.Option.{some-injective}
use deep.Prelude.{
  ℕ, ◌+◌, ◌≡◌, refl, sym, ◌∙◌, ap, subst, inl, inr, Bytes, bytes_eq, bytes_beq, Bool, true, false,
  List, [], ◌∷◌, Option, none, some, Map, get, if◌then◌else◌, Bool-cases, Option-cases,
}
use deep.Backend.{Time}
use deep.Scheduler.State.{Env, Querier, UserQueue, Queues}
use deep.Scheduler.UserOps.Slots.{index_of}
use deep.Scheduler.QuerierOps.{
  reshuffle, recompute_user_queriers, add_connection, add_querier_connection, remove_querier,
  drop_connection, remove_querier_connection, notify_querier_shutdown, is_forgettable, forget_loop,
}
use deep.Scheduler.QuerierOps.Current.{IsCurrent}
use deep.Scheduler.RequestQueue.Service.{Filled, IsServing}

module _ {ℓ} {R : Type ℓ} (env : Env) where
  -- What the operations on queriers leave alone: where the users stand and what waits for them.
  pub record SameWork (q q' : Queues R) : Type 0 where
    pub users : q'.users ≡ q.users
    pub size : q'.max_user_queue_size ≡ q.max_user_queue_size
    pub places : (u : Bytes) → index_of (get u q'.user_queues) ≡ index_of (get u q.user_queues)
    pub filled :
        (u : Bytes) (n : ℕ) → Filled n (get u q.user_queues) → Filled n (get u q'.user_queues)

  SameWork-refl : (q : Queues R) → SameWork q q
  SameWork-refl q = record { users = refl; size = refl; places = λ u. refl; filled = λ u n h. h }

  SameWork-trans : (p q r : Queues R) → SameWork p q → SameWork q r → SameWork p r
  SameWork-trans p q r a b = record {
    users = b.users ∙ a.users;
    size = b.size ∙ a.size;
    places = λ u. b.places u ∙ a.places u;
    filled = λ u n h. b.filled u n (a.filled u n h);
  }

  pub SameWork-IsServing :
      (q q' : Queues R) → SameWork q q' → IsServing env q → IsCurrent env q' → IsServing env q'
  SameWork-IsServing q q' w v c = record {
    indexed = record {
      unnamed = w.places [] ∙ v.indexed.unnamed;
      forth = λ u i e. rw w.users (v.indexed.forth u i (sym (w.places u) ∙ e));
      back = λ u i e n. w.places u ∙ v.indexed.back u i (rw w.users at e) n;
    };
    current = c;
    room = rw w.size v.room;
    filled = λ u. rw w.size (w.filled u q.max_user_queue_size (v.filled u));
  }

  index_of-reshuffle :
      (sorted : List Bytes) (u : Bytes) (m : Map Bytes (UserQueue R))
      → index_of (get u (reshuffle env sorted m)) ≡ index_of (get u m)
  index_of-reshuffle sorted u [] = refl
  index_of-reshuffle sorted u ((w, uq) ∷ m) = elim (Bool-cases (bytes_beq w u)) [
    | inl y ↦ rw y
    | inr n ↦ rw n (index_of-reshuffle sorted u m)
  ]

  reshuffle-Filled :
      (sorted : List Bytes) (u : Bytes) (n : ℕ) (m : Map Bytes (UserQueue R))
      → Filled n (get u m)
      → Filled n (get u (reshuffle env sorted m))
  reshuffle-Filled sorted u n [] h = tt
  reshuffle-Filled sorted u n ((w, uq) ∷ m) h = elim (Bool-cases (bytes_beq w u)) [
    | inl y ↦ rw y (rw y at h)
    | inr o ↦ rw o (reshuffle-Filled sorted u n m (rw o at h))
  ]

  recompute-SameWork :
      (q : Queues R) (known : Map Bytes Querier) (sorted : List Bytes)
      → SameWork q
          (recompute_user_queriers env (record q { queriers = known; sorted_queriers = sorted }))
  unfolding recompute_user_queriers
  recompute-SameWork q known sorted = record {
    users = refl;
    size = refl;
    places = λ u. index_of-reshuffle sorted u q.user_queues;
    filled = λ u n h. reshuffle-Filled sorted u n q.user_queues h;
  }

  put-SameWork :
      (q : Queues R) (known : Map Bytes Querier) → SameWork q (record q { queriers = known })
  put-SameWork q known = record {
    users = refl;
    size = refl;
    places = λ u. refl;
    filled = λ u n h. h;
  }

  pub add_querier_connection-SameWork :
      (k : Bytes) (q : Queues R) → SameWork q (add_querier_connection env k q)
  unfolding add_querier_connection
  add_querier_connection-SameWork k q = elim (Option-cases (get k q.queriers)) [
    | inl e ↦ rw (e, add_connection) (recompute-SameWork q _ _)
    | inr (info, e) ↦ rw (e, add_connection) (put-SameWork q _)
  ]

  -- Where a call on queriers gives a state, that state has the same work.
  pub record Work (q : Queues R) (r : Option (Queues R)) : Type ℓ where
    pub at : (q' : Queues R) → r ≡ some q' → SameWork q q'

  Work-none : (q : Queues R) → Work q none
  Work-none q = record { at = λ q' e. cc }

  Work-some : (q q' : Queues R) → SameWork q q' → Work q (some q')
  Work-some q q' w = record { at = λ q'' e. subst (SameWork q) (some-injective _ _ e) w }

  Work-if :
      (b : Bool) (q : Queues R) (r s : Option (Queues R))
      → Work q r
      → Work q s
      → Work q (if b then r else s)
  Work-if true q r s a c = a
  Work-if false q r s a c = c

  remove_querier-Work : (k : Bytes) (q : Queues R) → Work q (remove_querier env k q)
  unfolding remove_querier
  remove_querier-Work k q =
      Work-if _ q none _ (Work-none q) (Work-some q _ (recompute-SameWork q _ _))

  Work-trans : (p q : Queues R) (r : Option (Queues R)) → SameWork p q → Work q r → Work p r
  Work-trans p q r a b = record { at = λ q' e. SameWork-trans p q q' a (b.at q' e) }

  pub remove_querier_connection-Work :
      (k : Bytes) (now : Time) (q : Queues R) → Work q (remove_querier_connection env k now q)
  unfolding remove_querier_connection
  remove_querier_connection-Work k now q = elim (Option-cases (get k q.queriers)) [
    | inl e ↦ rw (e, drop_connection) (Work-none q)
    | inr (info, e) ↦
        rw (e, drop_connection)
          (Work-if _ q none _ (Work-none q) (
            Work-if _ q _ _ (Work-some q _ (put-SameWork q _)) (
              Work-if _ q _ _ (Work-trans q _ _ (put-SameWork q _) (remove_querier-Work k _))
                (Work-some q _ (put-SameWork q _)))))
  ]

  pub notify_querier_shutdown-Work :
      (k : Bytes) (q : Queues R) → Work q (notify_querier_shutdown env k q)
  unfolding notify_querier_shutdown
  notify_querier_shutdown-Work k q = elim (Option-cases (get k q.queriers)) [
    | inl e ↦ rw (e, notify_querier_shutdown) (Work-some q q (SameWork-refl q))
    | inr (info, e) ↦
        rw (e, notify_querier_shutdown)
          (Work-if _ q _ _ (remove_querier-Work k q) (Work-some q _ (put-SameWork q _)))
  ]

  pub forget_loop-Work :
      (threshold : Time) (ks : List Bytes) (q : Queues R) (n : ℕ) (q' : Queues R) (m : ℕ)
      → forget_loop env threshold ks q n ≡ some (q', m)
      → SameWork q q'
  unfolding forget_loop
  forget_loop-Work threshold [] q n q' m e =
      subst (SameWork q) (ap (λ p. p.0) (some-injective _ _ e)) (SameWork-refl q)
  forget_loop-Work threshold (k ∷ ks) q n q' m e =
      elim (Bool-cases (is_forgettable threshold (get k q.queriers))) [
        | inl f ↦ elim (Option-cases (remove_querier env k q)) [
          | inl gone ↦ cc (rw (f, forget_loop, gone) at e)
          | inr (q1, r) ↦
              SameWork-trans q q1 q' ((remove_querier-Work k q).at q1 r)
                (forget_loop-Work threshold ks q1 (n + 1) q' m (rw (f, forget_loop, r) at e))
        ]
        | inr f ↦ forget_loop-Work threshold ks q n q' m (rw (f, forget_loop) at e)
      ]

-- ===== src/Scheduler/QuerierOps/Current.antt =====
-- The queriers that serve a user against those that are connected:
-- pkg/scheduler/queue/user_queues.go.
use deep.Prelude.{
  ℕ, ◌-◌, ◌<◌, ◌≡◌, refl, ◌∙◌, inl, inr, Bytes, bytes_eq, bytes_beq, bytes_beq_iff, true, false,
  ◌||◌, not, List, [], ◌∷◌, ◌++◌, Option, none, some, Map, get, put, keys, contains-keys,
  contains-keys-put, contains-keys-delete, length, get_or, contains, contains-append,
  Distinct-append, leb, arith, Bool-cases, Option-cases, beq_refl,
}
use deep.Backend.{Time}
use deep.Scheduler.State.{Env, Querier, UserQueue, Queues, new_user_queues}
use deep.Scheduler.Shuffle.{shuffle_queriers_for_user}
use deep.Scheduler.QuerierOps.{
  search_strings, reshuffle, recompute_user_queriers, add_connection, add_querier_connection,
  remove_querier, drop_connection, remove_querier_connection, notify_querier_shutdown,
}
use deep.Scheduler.QuerierOps.Sorting.{
  IsSorted, contains-sort_strings, sort_strings-IsSorted, IsSorted-Distinct, search_strings-found,
  contains-remove_found, remove_at-IsSorted,
}

module _ {ℓ} {R : Type ℓ} (env : Env) where
  -- A user's seed comes from the user alone, and its queriers from the seed, its limit and the
  -- sorted queriers.
  abbrev pub Shuffled : List Bytes → Bytes → Option (UserQueue R) → Type 0
  Shuffled sorted u none = Unit
  Shuffled sorted u (some uq) =
      (uq.seed ≡ env.shuffle_shard_seed u)
      × (uq.queriers ≡ shuffle_queriers_for_user env uq.seed uq.max_queriers sorted)

  pub record IsCurrent (q : Queues R) : Type 0 where
    pub sorted : IsSorted q.sorted_queriers
    pub same : (a : Bytes) → contains a q.sorted_queriers ≡ contains a (keys q.queriers)
    pub shuffled : (u : Bytes) → Shuffled q.sorted_queriers u (get u q.user_queues)

  -- A call that must not panic, and leaves the assignment up to date.
  abbrev pub Keeps : Option (Queues R) → Type 0
  Keeps none = ⊥
  Keeps (some q) = IsCurrent q

  pub new_user_queues-IsCurrent : (size delay : ℕ) → IsCurrent (new_user_queues size delay)
  unfolding new_user_queues
  new_user_queues-IsCurrent size delay = record {
    sorted = tt;
    same = λ a. refl;
    shuffled = λ u. tt;
  }

  reshuffle-Shuffled :
      (old sorted : List Bytes) (u : Bytes) (m : Map Bytes (UserQueue R))
      → Shuffled old u (get u m)
      → Shuffled sorted u (get u (reshuffle env sorted m))
  reshuffle-Shuffled old sorted u [] h = tt
  reshuffle-Shuffled old sorted u ((w, uq) ∷ m) h = elim (Bool-cases (bytes_beq w u)) [
    | inl y ↦ rw y ((rw y at h).0, refl)
    | inr n ↦ rw n (reshuffle-Shuffled old sorted u m (rw n at h))
  ]

  recompute-IsCurrent :
      (q q' : Queues R)
      → IsCurrent q
      → q'.user_queues ≡ q.user_queues
      → IsSorted q'.sorted_queriers
      → ((a : Bytes) → contains a q'.sorted_queriers ≡ contains a (keys q'.queriers))
      → IsCurrent (recompute_user_queriers env q')
  unfolding recompute_user_queriers
  recompute-IsCurrent q q' v e s m = record {
    sorted = s;
    same = m;
    shuffled = λ u.
        reshuffle-Shuffled q.sorted_queriers q'.sorted_queriers u q'.user_queues
          (rw e (v.shuffled u));
  }

  -- A change to what is known of a querier leaves the set of queriers as it is.
  put-IsCurrent :
      (k : Bytes) (info info' : Querier) (q : Queues R)
      → get k q.queriers ≡ some info
      → IsCurrent q
      → IsCurrent (record q { queriers = put k info' q.queriers })
  put-IsCurrent k info info' q e v = record {
    sorted = v.sorted;
    same = λ a. ground (
      arith,
      e,
      v.same a,
      contains-keys k q.queriers,
      contains-keys-put a k info' q.queriers,
      bytes_beq_iff k a,
    );
    shuffled = v.shuffled;
  }

  -- Connecting a querier, for the first time or again, keeps the assignment up to date.
  pub add_querier_connection-IsCurrent :
      (k : Bytes) (q : Queues R) → IsCurrent q → IsCurrent (add_querier_connection env k q)
  unfolding add_querier_connection
  add_querier_connection-IsCurrent k q v = elim (Option-cases (get k q.queriers)) [
    | inl e ↦
        rw (e, add_connection)
          (recompute-IsCurrent q _ v refl
            (sort_strings-IsSorted (q.sorted_queriers ++ k ∷ []) (
              Distinct-append q.sorted_queriers (k ∷ []) (IsSorted-Distinct _ v.sorted) (refl, tt)
                (λ a m.
                  ground (arith, m, e, v.same a, contains-keys k q.queriers, bytes_beq_iff a k))))
            (λ a. ground (
              arith,
              v.same a,
              contains-sort_strings a (q.sorted_queriers ++ k ∷ []),
              contains-append a q.sorted_queriers (k ∷ []),
              contains-keys-put a k
                  (record { connections = 1; shutting_down = false; disconnected_at = 0 })
                  q.queriers,
              bytes_beq_iff a k,
              bytes_beq_iff k a,
            )))
    | inr (info, e) ↦ rw (e, add_connection) (put-IsCurrent k info _ q e v)
  ]

  -- Removing a querier that is known does not panic and keeps the assignment up to date.
  pub remove_querier-Keeps :
      (k : Bytes) (q : Queues R)
      → IsCurrent q
      → contains k (keys q.queriers) ≡ true
      → Keeps (remove_querier env k q)
  unfolding remove_querier
  remove_querier-Keeps k q v known =
      let held : contains k q.sorted_queriers ≡ true = v.same k ∙ known in
      let (short, there) = search_strings-found k q.sorted_queriers v.sorted held in
      let fine : (leb (length q.sorted_queriers) (search_strings q.sorted_queriers k)
            || not (bytes_beq (get_or q.sorted_queriers (search_strings q.sorted_queriers k) []) k))
          ≡ false =
        ground (
          arith,
          short,
          there,
          bytes_beq_iff (get_or q.sorted_queriers (search_strings q.sorted_queriers k) []) k,
        ) in
      rw fine (
        recompute-IsCurrent q _ v refl
          (remove_at-IsSorted (search_strings q.sorted_queriers k) q.sorted_queriers v.sorted)
          (λ a.
            contains-remove_found a k q.sorted_queriers v.sorted held
            ∙ ground (
              arith,
              v.same a,
              contains-keys-delete a k q.queriers,
              bytes_beq_iff a k,
              bytes_beq_iff k a,
            )))

  known_by_get :
      (k : Bytes) (q : Queues R) (info : Querier)
      → get k q.queriers ≡ some info
      → contains k (keys q.queriers) ≡ true
  known_by_get k q info e = contains-keys k q.queriers ∙ rw e

  -- Closing a connection of a querier that has one never panics, and keeps the assignment up to
  -- date, whether the querier stays, is forgotten at once or waits for the forget delay.
  pub remove_querier_connection-Keeps :
      (k : Bytes) (now : Time) (q : Queues R) (info : Querier)
      → IsCurrent q
      → get k q.queriers ≡ some info
      → 0 < info.connections
      → Keeps (remove_querier_connection env k now q)
  unfolding remove_querier_connection
  remove_querier_connection-Keeps k now q info v e h =
      rw (e, drop_connection)
        (ground (
          arith,
          put-IsCurrent k info fewer q e v,
          put-IsCurrent k info (record fewer { disconnected_at = now }) q e v,
          remove_querier-Keeps k after (put-IsCurrent k info fewer q e v)
              (contains-keys-put k k fewer q.queriers ∙ rw (beq_refl bytes_eq k)),
        ))
    where
      fewer : Querier
      fewer = record info { connections = info.connections - 1 }

      after : Queues R
      after = record q { queriers = put k fewer q.queriers }

  -- A shutdown notice never panics, and keeps the assignment up to date.
  pub notify_querier_shutdown-Keeps :
      (k : Bytes) (q : Queues R) → IsCurrent q → Keeps (notify_querier_shutdown env k q)
  unfolding notify_querier_shutdown
  notify_querier_shutdown-Keeps k q v = elim (Option-cases (get k q.queriers)) [
    | inl e ↦ rw (e, notify_querier_shutdown) v
    | inr (info, e) ↦
        rw (e, notify_querier_shutdown)
          (ground (
            arith,
            remove_querier-Keeps k q v (known_by_get k q info e),
            put-IsCurrent k info (record info { shutting_down = true }) q e v,
          ))
  ]

-- ===== src/Scheduler/QuerierOps/Forget.antt =====
-- `forgetDisconnectedQueriers`: which queriers are forgotten.
use deep.Prelude.{
  ℕ, ◌+◌, ◌-◌, ◌≡◌, refl, ap, ◌∙◌, inl, inr, Bytes, bytes_beq, bytes_eq, bytes_beq_iff,
  contains-keys-delete, Bool, true, false, ◌&&◌, List, [], ◌∷◌, Option, none, some, get, delete,
  keys, get-delete, contains-keys, contains, nat_beq, if◌then◌else◌, arith, Bool-cases,
  Option-cases,
}
use deep.Backend.{Time}
use deep.Scheduler.State.{Env, Querier, Queues}
use deep.Scheduler.QuerierOps.{
  remove_querier, is_forgettable, forget_loop, forget_disconnected_queriers,
}
use deep.Scheduler.QuerierOps.Current.{IsCurrent, remove_querier-Keeps}

-- What the loop leaves of one querier: it forgets those that it visits and that qualify.
abbrev left_over : Time → Bool → Option Querier → Option Querier
left_over threshold visited o = if visited && is_forgettable threshold o then none else o

module _ {ℓ} {R : Type ℓ} (env : Env) where
  queriers-remove_querier :
      (k : Bytes) (q q' : Queues R)
      → remove_querier env k q ≡ some q'
      → q'.queriers ≡ delete k q.queriers
  unfolding remove_querier
  queriers-remove_querier k q q' e = ground arith

  -- A removal that did not panic: the assignment is up to date and just the querier `k` is gone.
  abbrev pub Removed : Bytes → Queues R → Option (Queues R) → Type 0
  Removed k q none = ⊥
  Removed k q (some q') =
      IsCurrent env q'
      × ((j : Bytes)
          → contains j (keys q'.queriers)
            ≡ (if bytes_beq k j then false else contains j (keys q.queriers)))

  -- Removing a querier that is known, from an assignment that is up to date, does not panic, forgets
  -- exactly that querier and keeps the assignment up to date.
  pub remove_querier-Removed :
      (k : Bytes) (q : Queues R)
      → IsCurrent env q
      → contains k (keys q.queriers) ≡ true
      → Removed k q (remove_querier env k q)
  remove_querier-Removed k q v known = elim (Option-cases (remove_querier env k q)) [
    | inl e ↦ absurd (rw e at (remove_querier-Keeps env k q v known))
    | inr (q', e) ↦
        rw (e, Removed)
          (
            rw e at (remove_querier-Keeps env k q v known),
            λ j.
                ap (λ m. contains j (keys m)) (queriers-remove_querier k q q' e)
                ∙ contains-keys-delete j k q.queriers,
          )
  ]

  abbrev Forgotten : Time → List Bytes → Queues R → Option (Queues R × ℕ) → Type 0
  Forgotten threshold ks q none = ⊥
  Forgotten threshold ks q (some (q', n)) =
      IsCurrent env q'
      × ((j : Bytes) → get j q'.queriers ≡ left_over threshold (contains j ks) (get j q.queriers))

  Forgotten-on :
      (threshold : Time) (k : Bytes) (ks : List Bytes) (q q' : Queues R) (r : Option (Queues R × ℕ))
      → is_forgettable threshold (get k q.queriers) ≡ true
      → q'.queriers ≡ delete k q.queriers
      → Forgotten threshold ks q' r
      → Forgotten threshold (k ∷ ks) q r
  Forgotten-on threshold k ks q q' none f d h = h
  Forgotten-on threshold k ks q q' (some (q'', n)) f d (v, h) = (
    v,
    λ j.
        h j
        ∙ rw (d, get-delete k j q.queriers)
            (ground (arith, f, bytes_beq_iff k j, bytes_beq_iff j k)),
  )

  Forgotten-kept :
      (threshold : Time) (k : Bytes) (ks : List Bytes) (q : Queues R) (r : Option (Queues R × ℕ))
      → is_forgettable threshold (get k q.queriers) ≡ false
      → Forgotten threshold ks q r
      → Forgotten threshold (k ∷ ks) q r
  Forgotten-kept threshold k ks q none f h = h
  Forgotten-kept threshold k ks q (some (q', n)) f (v, h) =
      (v, λ j. h j ∙ ground (arith, f, bytes_beq_iff j k))

  known_forgettable :
      (threshold : Time) (k : Bytes) (q : Queues R)
      → is_forgettable threshold (get k q.queriers) ≡ true
      → contains k (keys q.queriers) ≡ true
  known_forgettable threshold k q f = ground (arith, f, contains-keys k q.queriers)

  forget_loop-Forgotten :
      (threshold : Time) (ks : List Bytes) (q : Queues R) (n : ℕ)
      → IsCurrent env q
      → Forgotten threshold ks q (forget_loop env threshold ks q n)
  unfolding forget_loop
  forget_loop-Forgotten threshold [] q n v = (v, λ j. refl)
  forget_loop-Forgotten threshold (k ∷ ks) q n v =
      elim (Bool-cases (is_forgettable threshold (get k q.queriers))) [
        | inl f ↦ elim (Option-cases (remove_querier env k q)) [
          | inl e ↦
              absurd (rw e at (remove_querier-Keeps env k q v (known_forgettable threshold k q f)))
          | inr (q', e) ↦
              rw (f, forget_loop, e)
                (Forgotten-on threshold k ks q q' _ f (queriers-remove_querier k q q' e) (
                  forget_loop-Forgotten threshold ks q' (n + 1)
                    (rw e at (remove_querier-Keeps env k q v (known_forgettable threshold k q f)))))
        ]
        | inr f ↦
            rw (f, forget_loop)
              (Forgotten-kept threshold k ks q _ f (forget_loop-Forgotten threshold ks q n v))
      ]

  -- What the check for disconnected queriers leaves, where the forget delay is not zero: exactly
  -- the queriers that are connected or have not been gone for longer than the delay.
  abbrev pub Remain : Time → Queues R → Option (Queues R × ℕ) → Type 0
  Remain now q none = ⊥
  Remain now q (some (q', n)) =
      IsCurrent env q'
      × ((j : Bytes)
          → get j q'.queriers ≡ (
              if is_forgettable (now - q.forget_delay) (get j q.queriers)
              then none
              else get j q.queriers))

  Forgotten-Remain :
      (now : Time) (q : Queues R) (r : Option (Queues R × ℕ))
      → Forgotten (now - q.forget_delay) (keys q.queriers) q r
      → Remain now q r
  Forgotten-Remain now q none h = h
  Forgotten-Remain now q (some (q', n)) (v, h) =
      (v, λ j. h j ∙ ground (arith, contains-keys j q.queriers))

  -- With a forget delay, the periodic check never panics, keeps the assignment up to date and
  -- forgets exactly the queriers with no connection that left before the delay began.
  pub forget_disconnected_queriers-Remain :
      (now : Time) (q : Queues R)
      → IsCurrent env q
      → nat_beq q.forget_delay 0 ≡ false
      → Remain now q (forget_disconnected_queriers env now q)
  unfolding forget_disconnected_queriers
  forget_disconnected_queriers-Remain now q v on = rw on (
      Forgotten-Remain now q _
        (forget_loop-Forgotten (now - q.forget_delay) (keys q.queriers) q 0 v))

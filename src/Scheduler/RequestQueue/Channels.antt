-- ===== src/Scheduler/RequestQueue/Channels.antt =====
-- How the operations change the users' queues, as seen from outside: lookups and channels.
use deep.Prelude.{
  beq_refl, ℕ, ◌≡◌, refl, ◌∙◌, inl, inr, Bytes, bytes_eq, bytes_beq, bytes_beq_iff, false, List, [],
  Option, none, some, get, get-put, get-delete, if◌then◌else◌, arith, Option-cases,
}
use deep.Scheduler.State.{Env, UserQueue, Queues}
use deep.Scheduler.UserOps.{delete_queue, add_queue, spot, free_spot, resized, new_queue}

-- The requests that wait for a user.
abbrev pub waiting_in {ℓ} : {R : Type ℓ} → Option (UserQueue R) → List R
waiting_in none = []
waiting_in (some uq) = uq.ch

abbrev pub pending {ℓ} : {R : Type ℓ} → Bytes → Queues R → List R
pending u q = waiting_in (get u q.user_queues)

module _ {ℓ} {R : Type ℓ} where
  pub get-delete_queue :
      (u w : Bytes) (q : Queues R)
      → get w (delete_queue u q).user_queues ≡ (if bytes_beq u w then none else get w q.user_queues)
  unfolding delete_queue
  get-delete_queue u w q = elim (Option-cases (get u q.user_queues)) [
    | inl e ↦ rw (e, delete_queue) (ground (arith, e, bytes_beq_iff u w))
    | inr (uq, e) ↦ rw (e, delete_queue) (get-delete u w q.user_queues)
  ]

  -- Finding or adding a user's queue leaves every other user's queue alone, and takes nothing from
  -- any channel.
  pub add_queue-others :
      (env : Env) (u w : Bytes) (k : ℕ) (q : Queues R) (o : Option (UserQueue R))
      → bytes_beq u w ≡ false
      → get w (add_queue env u k q o).user_queues ≡ get w q.user_queues
  unfolding add_queue
  add_queue-others env u w k q none n = get-put u w _ q.user_queues ∙ rw n
  add_queue-others env u w k q (some uq) n = get-put u w _ q.user_queues ∙ rw n

  pub add_queue_self :
      (env : Env) (u : Bytes) (k : ℕ) (q : Queues R) (o : Option (UserQueue R))
      → get u q.user_queues ≡ o
      → (uq : UserQueue R) × (get u (add_queue env u k q o).user_queues ≡ some uq)
        × (uq.ch ≡ waiting_in o)
        × ((add_queue env u k q o).max_user_queue_size ≡ q.max_user_queue_size)
  unfolding add_queue
  add_queue_self env u k q none e =
      let uq =
        resized env k q.sorted_queriers (new_queue env u (spot q.users (free_spot q.users))) in
      (uq, get-put u u uq q.user_queues ∙ rw (beq_refl bytes_eq u), ground arith, refl)
  add_queue_self env u k q (some old) e =
      let uq = resized env k q.sorted_queriers old in
      (uq, get-put u u uq q.user_queues ∙ rw (beq_refl bytes_eq u), ground arith, refl)

  pub size-delete_queue :
      (u : Bytes) (q : Queues R) → (delete_queue u q).max_user_queue_size ≡ q.max_user_queue_size
  unfolding delete_queue
  size-delete_queue u q = elim (Option-cases (get u q.user_queues)) [
    | inl e ↦ rw (e, delete_queue)
    | inr (uq, e) ↦ rw (e, delete_queue)
  ]

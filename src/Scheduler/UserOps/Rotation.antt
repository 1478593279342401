-- ===== src/Scheduler/UserOps/Rotation.antt =====
-- `getNextQueueForQuerier`: which user is served next.
use native.Mathlib.Nat.{add-zero, mod-eq_of_lt, mod-add-mod, mod-lt, add-mod_right}
use mathlib.Core.Option.{some-injective}
use native.Mathlib.Decide.{dec_lt}
use deep.Prelude.{
  ℕ, zero, suc, ◌+◌, ◌-◌, ◌%◌, ◌<◌, ◌≡◌, ◌≢◌, ◌⊎◌, refl, sym, subst, ◌∙◌, ap, inl, inr, Bytes,
  bytes_eq, Bool, true, false, [], ◌∷◌, Option, none, some, get, length, get_or, leb, ℤ, pos,
  negsuc, if◌then◌else◌, arith, Bool-cases, Option-cases,
}
use deep.Scheduler.State.{UserQueue, Queues}
use deep.Scheduler.UserOps.{
  NextQueue, next_queue, no_queue, nil_queue, Visit, skip, serve, fault, may_serve, next_index,
  visit, rotate, get_next_queue_for_querier,
}
use deep.Scheduler.UserOps.Slots.{IsIndexed, index_of, get_elem?-get_or, get_elem?-lt}

Visit-cases : (v : Visit) → (v ≡ skip) ⊎ ((v ≡ serve) ⊎ (v ≡ fault))
Visit-cases skip = inl refl
Visit-cases serve = inr (inl refl)
Visit-cases fault = inr (inr refl)

module _ {ℓ} {R : Type ℓ} (q : Queues R) (querier_id : Bytes) where
  abbrev pub count : ℕ
  count = length q.users

  abbrev pub at : ℕ → Bytes
  at ix = get_or q.users ix []

  -- The places in the order of the walk that starts at `s`.
  abbrev pub walk : ℕ → ℕ → ℕ
  walk s k = (s + k) % count

  -- The outcome of a walk of `n` places from `s`: the first place whose user the querier may serve,
  -- or no place where there is none.
  abbrev pub Outcome : ℕ → ℕ → NextQueue → Type 0
  Outcome s n (next_queue u ix) =
      (k : ℕ) × (k < n)
      × (ix ≡ walk s k)
      × (u ≡ at ix)
      × (visit q querier_id u ≡ serve)
      × ((j : ℕ) → j < k → visit q querier_id (at (walk s j)) ≡ skip)
  Outcome s n (no_queue last) = (j : ℕ) → j < n → visit q querier_id (at (walk s j)) ≡ skip
  Outcome s n nil_queue = (k : ℕ) × (k < n) × (visit q querier_id (at (walk s k)) ≡ fault)

  next_index-pos : (ix : ℕ) → ix < count → next_index count (pos ix) ≡ (ix + 1) % count
  next_index-pos ix h = grind (arith)

  next_index-lt : (last : ℤ) → 0 < count → next_index count last < count
  next_index-lt (pos uid) h = ground arith
  next_index-lt (negsuc n) h = h

  walk_on : (s k : ℕ) → s < count → walk ((s + 1) % count) k ≡ walk s (k + 1)
  walk_on s k h = mod-add-mod (s + 1) count k ∙ ap (λ (t : ℕ). t % count) (omega arith)

  walk_start : (s : ℕ) → s < count → walk s 0 ≡ s
  walk_start s h = rw add-zero (mod-eq_of_lt h)

  skips_on :
      (s n : ℕ)
      → s < count
      → visit q querier_id (at s) ≡ skip
      → ((j : ℕ) → j < n → visit q querier_id (at (walk ((s + 1) % count) j)) ≡ skip)
      → (j : ℕ) → j < suc n
      → visit q querier_id (at (walk s j)) ≡ skip
  skips_on s n h e rest zero p = rw (walk_start s h) e
  skips_on s n h e rest (suc j) p =
      let moved : walk ((s + 1) % count) j ≡ walk s (suc j) =
        walk_on s j h ∙ ap (walk s) (omega arith) in
      rw moved at (rest j (omega arith))

  -- A walk that skips its first place goes on from the next one.
  Outcome_on :
      (s n : ℕ) (r : NextQueue)
      → s < count
      → visit q querier_id (at s) ≡ skip
      → Outcome ((s + 1) % count) n r
      → Outcome s (suc n) r
  Outcome_on s n (next_queue u ix) h e (k, p, here, name, good, before) = (
    suc k,
    omega arith,
    here ∙ walk_on s k h ∙ ap (walk s) (omega arith),
    name,
    good,
    skips_on s k h e before,
  )
  Outcome_on s n (no_queue last) h e rest = skips_on s n h e rest
  Outcome_on s n nil_queue h e (k, p, bad) =
      let moved : walk ((s + 1) % count) k ≡ walk s (suc k) =
        walk_on s k h ∙ ap (walk s) (omega arith) in
      (suc k, omega arith, rw moved at bad)

  rotate-Outcome :
      (n : ℕ) (uid : ℤ)
      → next_index count uid < count
      → Outcome (next_index count uid) n (rotate q querier_id n uid)
  unfolding rotate
  rotate-Outcome zero uid h = λ j p. absurd (omega arith)
  rotate-Outcome (suc n) uid h = elim (Visit-cases (visit q querier_id (at s))) [
    | inl e ↦
        rw (e, rotate)
          (Outcome_on s n (rotate q querier_id n (pos s)) h e (
            rw (next_index-pos s h) at
              (rotate-Outcome n (pos s) (rw (next_index-pos s h) (mod-lt (s + 1) (omega arith))))))
    | inr (inl e) ↦
        rw (e, rotate) (0, omega arith, sym (walk_start s h), refl, e, λ j p. absurd (omega arith))
    | inr (inr e) ↦ rw (e, rotate) (0, omega arith, rw (walk_start s h) e)
  ]
    where
      s : ℕ
      s = next_index count uid

  -- The loop serves the first place after the last index, going round once, whose user has a queue
  -- that the querier may serve; it gives up only after it has skipped every place.
  pub get_next_queue_for_querier-Outcome :
      (last : ℤ)
      → Outcome (next_index count last) count (get_next_queue_for_querier q querier_id last)
  unfolding get_next_queue_for_querier
  get_next_queue_for_querier-Outcome last = elim (dec_lt 0 count) [
    | yes h ↦ rotate-Outcome count last (next_index-lt last h)
    | no h ↦
        let none_left : count ≡ 0 = omega arith in
        rw (none_left, rotate) (λ j p. absurd (omega (arith, p)))
  ]

  abbrev pub servable : Option (UserQueue R) → Bool
  servable none = false
  servable (some uq) = may_serve querier_id uq.queriers

  -- What a querier is told: a user whose queue stands at that place and may be served by it; or
  -- nothing, and then it may serve no user; never the panic.
  abbrev pub Answer : NextQueue → Type 0
  Answer (next_queue u ix) =
      (index_of (get u q.user_queues) ≡ some ix) × (servable (get u q.user_queues) ≡ true)
  Answer (no_queue last) = (u : Bytes) → servable (get u q.user_queues) ≡ false
  Answer nil_queue = ⊥

  visit-serve :
      (u : Bytes)
      → visit q querier_id u ≡ serve
      → (u ≢ []) × (servable (get u q.user_queues) ≡ true)
  unfolding visit
  visit-serve [] h = ground arith
  visit-serve (c ∷ cs) h = ((λ p. cc), ground arith)

  visit-skip :
      (u : Bytes) → u ≢ [] → visit q querier_id u ≡ skip → servable (get u q.user_queues) ≡ false
  unfolding visit
  visit-skip [] ne h = absurd (ne refl)
  visit-skip (c ∷ cs) ne h = ground arith

  visit-fault :
      (u : Bytes)
      → visit q querier_id u ≡ fault
      → (u ≢ []) × (index_of (get u q.user_queues) ≡ none)
  unfolding visit
  visit-fault [] h = ground arith
  visit-fault (c ∷ cs) h = ((λ p. cc), ground arith)

  -- Every place is reached by the walk.
  steps_to : ℕ → ℕ → ℕ
  steps_to s i = if leb s i then i - s else i + count - s

  walk-steps_to :
      (s i : ℕ) → s < count → i < count → (steps_to s i < count) × (walk s (steps_to s i) ≡ i)
  unfolding steps_to
  walk-steps_to s i h p = elim (Bool-cases (leb s i)) [
    | inl y ↦ rw y (ground arith, ap (λ (t : ℕ). t % count) (ground arith) ∙ mod-eq_of_lt p)
    | inr n ↦ rw n (
      ground arith,
      ap (λ (t : ℕ). t % count) (ground arith) ∙ add-mod_right i count ∙ mod-eq_of_lt p,
    )
  ]

  module _ (v : IsIndexed q.user_queues q.users) where
    Outcome-Answer : (s : ℕ) (r : NextQueue) → s < count → Outcome s count r → Answer r
    Outcome-Answer s (next_queue u ix) h (k, p, here, name, good, before) =
        let (ne, ok) = visit-serve u good in
        let in_range : ix < count = rw here (mod-lt (s + k) (omega arith)) in
        (v.back u ix (get_elem?-get_or q.users ix in_range ∙ ap some (sym name)) ne, ok)
    Outcome-Answer s (no_queue last) h skips = λ u. unserved u (get u q.user_queues) refl
      where
        unserved :
            (u : Bytes) (o : Option (UserQueue R)) → get u q.user_queues ≡ o → servable o ≡ false
        unserved u none e = refl
        unserved u (some uq) e =
            let stands = v.forth u uq.index (ap index_of e) in
            let in_range = get_elem?-lt q.users uq.index u stands in
            let (short, there) = walk-steps_to s uq.index h in_range in
            let named : u ≢ [] = ground (arith, e, v.unnamed) in
            rw e at (
              visit-skip u named (
                subst (λ (w : Bytes). visit q querier_id w ≡ skip)
                  (ap at there
                    ∙ some-injective _ _
                        (sym (get_elem?-get_or q.users uq.index in_range) ∙ stands))
                  (skips (steps_to s uq.index) short)))
    Outcome-Answer s nil_queue h (k, p, bad) =
        let (ne, gone) = visit-fault _ bad in
        let in_range : walk s k < count = mod-lt (s + k) (omega arith) in
        cc (
          gone,
          v.back (at (walk s k)) (walk s k) (get_elem?-get_or q.users (walk s k) in_range) ne,
        )

    unserved_of_empty : length q.users ≡ 0 → (u : Bytes) → servable (get u q.user_queues) ≡ false
    unserved_of_empty e u = elim (Option-cases (get u q.user_queues)) [
      | inl gone ↦ rw gone
      | inr (uq, there) ↦
          absurd (
            omega (arith, get_elem?-lt q.users uq.index u (v.forth u uq.index (ap index_of there))))
    ]

    -- Where the users and their queues point at each other, every call answers the querier truly: a
    -- user that it may serve where there is one, and nothing only where there is none; and no user
    -- of the list lacks a queue.
    pub get_next_queue_for_querier-Answer :
        (last : ℤ) → Answer (get_next_queue_for_querier q querier_id last)
    unfolding get_next_queue_for_querier
    get_next_queue_for_querier-Answer last = elim (dec_lt 0 count) [
      | yes h ↦
          Outcome-Answer (next_index count last) (get_next_queue_for_querier q querier_id last)
            (next_index-lt last h) (get_next_queue_for_querier-Outcome last)
      | no h ↦
          let none_left : length q.users ≡ 0 = omega arith in
          rw (none_left, get_next_queue_for_querier, rotate) (unserved_of_empty none_left)
    ]

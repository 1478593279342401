-- ===== src/Scheduler/UserOps/Slots.antt =====
-- The places of the users list of pkg/scheduler/queue/user_queues.go and the queues they point
-- to.
use mathlib.Core.Option.{some-injective}
use deep.Prelude.{
  subst, ℕ, zero, suc, ◌≤◌, ◌<◌, ◌≡◌, ◌≢◌, ◌↔◌, refl, inl, inr, Bytes, bytes_eq, bytes_beq,
  bytes_beq_iff, List, [], ◌∷◌, ◌++◌, Option, none, some, Map, get, put, delete, get-put,
  get-delete, length, get_elem?, get_or, set, take, ℤ, if◌then◌else◌, nat_beq, arith, Bool-cases,
  Option-cases,
}
use deep.Scheduler.State.{Env, UserQueue, Queues, new_user_queues}
use deep.Scheduler.UserOps.{
  shrink, free_spot, spot, place, delete_queue, resized, get_or_add_queue, add_queue, non_negative,
}

-- Where the queue of a user says that the user stands.
abbrev pub index_of {ℓ} : {R : Type ℓ} → Option (UserQueue R) → Option ℕ
index_of none = none
index_of (some uq) = some uq.index

-- Each user with a queue stands at the queue's index, each name in the list has a queue that points
-- back, and the list does not end in a free place.
pub record IsIndexed {ℓ} {R : Type ℓ} (m : Map Bytes (UserQueue R)) (users : List Bytes)
    : Type 0 where
  pub unnamed : index_of (get [] m) ≡ none
  pub forth : (u : Bytes) (i : ℕ) → index_of (get u m) ≡ some i → get_elem? users i ≡ some u
  pub back : (u : Bytes) (i : ℕ) → get_elem? users i ≡ some u → u ≢ [] → index_of (get u m) ≡ some i

pub record IsTrimmed (users : List Bytes) : Type 0 where
  pub ends : (i : ℕ) → length users ≡ suc i → get_elem? users i ≢ some []

pub get_elem?-lt : (xs : List Bytes) (i : ℕ) (u : Bytes) → get_elem? xs i ≡ some u → i < length xs
get_elem?-lt [] i u h = cc
get_elem?-lt (x ∷ xs) zero u h = omega arith
get_elem?-lt (x ∷ xs) (suc i) u h = omega (arith, get_elem?-lt xs i u h)

pub get_elem?-get_or :
    (xs : List Bytes) (i : ℕ) → i < length xs → get_elem? xs i ≡ some (get_or xs i [])
get_elem?-get_or [] i h = elim h [ ]
get_elem?-get_or (x ∷ xs) zero h = refl
get_elem?-get_or (x ∷ xs) (suc i) h = get_elem?-get_or xs i (omega arith)

get_elem?-take : (n i : ℕ) (xs : List Bytes) → i < n → get_elem? (take n xs) i ≡ get_elem? xs i
get_elem?-take zero i xs h = elim h [ ]
get_elem?-take (suc n) i [] h = refl
get_elem?-take (suc n) zero (x ∷ xs) h = refl
get_elem?-take (suc n) (suc i) (x ∷ xs) h = get_elem?-take n i xs (omega arith)

length-take_le : (n : ℕ) (xs : List Bytes) → n ≤ length xs → length (take n xs) ≡ n
length-take_le zero xs h = refl
length-take_le (suc n) [] h = elim h [ ]
length-take_le (suc n) (x ∷ xs) h = omega (arith, length-take_le n xs (omega arith))

get_elem?-set :
    (xs : List Bytes) (i j : ℕ) (v : Bytes)
    → i < length xs
    → get_elem? (set xs i v) j ≡ (if nat_beq i j then some v else get_elem? xs j)
get_elem?-set [] i j v h = elim h [ ]
get_elem?-set (x ∷ xs) zero zero v h = refl
get_elem?-set (x ∷ xs) zero (suc j) v h = ground arith
get_elem?-set (x ∷ xs) (suc i) zero v h = ground arith
get_elem?-set (x ∷ xs) (suc i) (suc j) v h = ground (arith, get_elem?-set xs i j v (omega arith))

get_elem?-append_one :
    (xs : List Bytes) (v : Bytes) (j : ℕ)
    → get_elem? (xs ++ v ∷ []) j ≡ (if nat_beq (length xs) j then some v else get_elem? xs j)
get_elem?-append_one [] v zero = refl
get_elem?-append_one [] v (suc j) = ground arith
get_elem?-append_one (x ∷ xs) v zero = ground arith
get_elem?-append_one (x ∷ xs) v (suc j) = ground (arith, get_elem?-append_one xs v j)

-- Dropping free places at the end moves no name.
get_elem?-shrink :
    (n : ℕ) (users : List Bytes) (i : ℕ) (u : Bytes)
    → length users ≡ n
    → u ≢ []
    → (get_elem? (shrink n users) i ≡ some u) ↔ (get_elem? users i ≡ some u)
unfolding shrink
get_elem?-shrink zero users i u h ne = (λ p. p, λ p. p)
get_elem?-shrink (suc n) users i u h ne = elim (Bool-cases (bytes_beq (get_or users n []) [])) [
  | inl y ↦
      let (fewer, more) =
        get_elem?-shrink n (take n users) i u (length-take_le n users (omega arith)) ne in
      rw y (
        λ p. ground (
          arith,
          fewer p,
          get_elem?-take n i users,
          get_elem?-lt (take n users) i u (fewer p),
          length-take_le n users,
        ),
        λ p. more (
            ground (
              arith,
              p,
              y,
              ne,
              get_elem?-lt users i u p,
              get_elem?-take n i users,
              get_elem?-get_or users i,
              bytes_beq_iff (get_or users n []) [],
            )),
      )
  | inr k ↦ rw k (λ p. p, λ p. p)
]

shrink-IsTrimmed : (n : ℕ) (users : List Bytes) → length users ≡ n → IsTrimmed (shrink n users)
unfolding shrink
shrink-IsTrimmed zero users h = record { ends = λ i e. absurd (omega arith) }
shrink-IsTrimmed (suc n) users h = elim (Bool-cases (bytes_beq (get_or users n []) [])) [
  | inl y ↦ rw y (shrink-IsTrimmed n (take n users) (length-take_le n users (omega arith)))
  | inr k ↦ rw k (record {
    ends = λ i e.
        ground
          (arith, k, get_elem?-get_or users n (omega arith), bytes_beq_iff (get_or users n []) []);
  })
]

-- A free place is where `freeSpot` says, and without one every place is taken.
abbrev IsSpot : List Bytes → Option ℕ → Type 0
IsSpot users none = Unit
IsSpot users (some i) = get_elem? users i ≡ some []

free_spot-IsSpot : (users : List Bytes) → IsSpot users (free_spot users)
unfolding free_spot
free_spot-IsSpot [] = tt
free_spot-IsSpot (u ∷ users) = ground (arith, free_spot-IsSpot users, bytes_beq_iff u [])

module _ {ℓ} {R : Type ℓ} where
  pub new_user_queues-IsIndexed :
      (size delay : ℕ)
      → IsIndexed {R = R}
          (new_user_queues size delay).user_queues
          (new_user_queues {R = R} size delay).users
  unfolding new_user_queues
  new_user_queues-IsIndexed size delay = record {
    unnamed = refl;
    forth = λ u i e. cc;
    back = λ u i e ne. cc;
  }

  taken_out :
      (u : Bytes) (m : Map Bytes (UserQueue R)) (users : List Bytes) (uq : UserQueue R)
      → IsIndexed m users
      → get u m ≡ some uq
      → let cleared = set users uq.index [] in
        IsIndexed (delete u m) (shrink (length cleared) cleared)
  taken_out u m users uq v e = record {
    unnamed = ground (arith, get-delete u [] m, v.unnamed);
    forth = λ w i h. (get_elem?-shrink (length cleared) cleared i w refl (named w i h)).1 (
        ground
          (arith, h, e, get-delete u w m, bytes_beq_iff u w, v.forth w i, stands, cleared_at i));
    back = λ w i h ne.
        let kept = (get_elem?-shrink (length cleared) cleared i w refl ne).0 h in
        ground (
          arith,
          kept,
          ne,
          e,
          get-delete u w m,
          bytes_beq_iff u w,
          v.back w i,
          stands,
          cleared_at i,
        );
  }
    where
      cleared : List Bytes
      cleared = set users uq.index []

      stands : get_elem? users uq.index ≡ some u
      stands = v.forth u uq.index (ground (arith, e))

      cleared_at :
          (i : ℕ)
          → get_elem? cleared i ≡ (if nat_beq uq.index i then some [] else get_elem? users i)
      cleared_at i = get_elem?-set users uq.index i [] (get_elem?-lt users uq.index u stands)

      named : (w : Bytes) (i : ℕ) → index_of (get w (delete u m)) ≡ some i → w ≢ []
      named [] i h = ground (arith, h, get-delete u [] m, v.unnamed)
      named (c ∷ cs) i h = λ p. cc

  -- Deleting a queue keeps the list and the queues pointing at each other.
  pub delete_queue-IsIndexed :
      (u : Bytes) (q : Queues R)
      → IsIndexed q.user_queues q.users
      → IsIndexed (delete_queue u q).user_queues (delete_queue u q).users
  unfolding delete_queue
  delete_queue-IsIndexed u q v = elim (Option-cases (get u q.user_queues)) [
    | inl e ↦ rw (e, delete_queue) v
    | inr (uq, e) ↦ rw (e, delete_queue) (taken_out u q.user_queues q.users uq v e)
  ]

  pub put_again :
      (u : Bytes) (m : Map Bytes (UserQueue R)) (users : List Bytes) (uq uq' : UserQueue R)
      → IsIndexed m users
      → get u m ≡ some uq
      → uq'.index ≡ uq.index
      → IsIndexed (put u uq' m) users
  put_again u m users uq uq' v e same = record {
    unnamed = ground (arith, e, get-put u [] uq' m, v.unnamed, bytes_beq_iff u []);
    forth = λ w i h. ground (arith, h, e, same, get-put u w uq' m, bytes_beq_iff u w, v.forth w i);
    back = λ w i h ne.
        ground (arith, h, ne, e, same, get-put u w uq' m, bytes_beq_iff u w, v.back w i);
  }

  put_new :
      (u : Bytes) (m : Map Bytes (UserQueue R)) (users : List Bytes) (free : Option ℕ)
      (uq : UserQueue R)
      → IsIndexed m users
      → get u m ≡ none
      → u ≢ []
      → IsSpot users free
      → uq.index ≡ spot users free
      → IsIndexed (put u uq m) (place u users free)
  put_new u m users none uq v e ne s at = record {
    unnamed = ground (arith, get-put u [] uq m, v.unnamed, bytes_beq_iff u []);
    forth = λ w i h. ground (
      arith,
      h,
      at,
      get-put u w uq m,
      bytes_beq_iff u w,
      v.forth w i,
      get_elem?-append_one users u i,
      get_elem?-lt users i w,
    );
    back = λ w i h n. ground (
      arith,
      h,
      n,
      at,
      e,
      get-put u w uq m,
      bytes_beq_iff u w,
      v.back w i,
      get_elem?-append_one users u i,
    );
  }
  put_new u m users (some ix) uq v e ne s at = record {
    unnamed = ground (arith, get-put u [] uq m, v.unnamed, bytes_beq_iff u []);
    forth = λ w i h. ground (
      arith,
      h,
      at,
      s,
      get-put u w uq m,
      bytes_beq_iff u w,
      v.forth w i,
      v.unnamed,
      get_elem?-set users ix i u (get_elem?-lt users ix [] s),
    );
    back = λ w i h n. ground (
      arith,
      h,
      n,
      at,
      s,
      e,
      get-put u w uq m,
      bytes_beq_iff u w,
      v.back w i,
      get_elem?-set users ix i u (get_elem?-lt users ix [] s),
    );
  }

  pub index-resized :
      (env : Env) (k : ℕ) (sorted : List Bytes) (uq : UserQueue R)
      → (resized env k sorted uq).index ≡ uq.index
  index-resized env k sorted uq = ground arith

  pub add_queue-IsIndexed :
      (env : Env) (u : Bytes) (k : ℕ) (q : Queues R) (o : Option (UserQueue R))
      → u ≢ []
      → IsIndexed q.user_queues q.users
      → get u q.user_queues ≡ o
      → IsIndexed (add_queue env u k q o).user_queues (add_queue env u k q o).users
  unfolding add_queue
  add_queue-IsIndexed env u k q none ne v e =
      put_new u q.user_queues q.users (free_spot q.users) _ v e ne (free_spot-IsSpot q.users)
        (index-resized env k q.sorted_queriers _)
  add_queue-IsIndexed env u k q (some uq) ne v e =
      put_again u q.user_queues q.users uq _ v e (index-resized env k q.sorted_queriers uq)

  -- Adding a queue keeps the list and the queues pointing at each other, whether the user is put in
  -- a free place, at the end, or was there before.
  pub get_or_add_queue-IsIndexed :
      (env : Env) (u : Bytes) (k : ℤ) (q : Queues R) {q' : Queues R}
      → IsIndexed q.user_queues q.users
      → get_or_add_queue env u k q ≡ some q'
      → IsIndexed q'.user_queues q'.users
  unfolding get_or_add_queue
  get_or_add_queue-IsIndexed env [] k q v h = cc
  get_or_add_queue-IsIndexed env (c ∷ cs) k q v h =
      subst (λ r. IsIndexed r.user_queues r.users) (some-injective _ _ h)
        (add_queue-IsIndexed env (c ∷ cs) (non_negative k) q _ (λ p. cc) v refl)

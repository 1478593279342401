-- ===== src/FlushQueues/Counting.antt =====
-- How many operations of a key the queues of pkg/flushqueues hold, before and after each action.
use deep.Prelude.{
  ℕ, zero, suc, ◌+◌, ◌≤◌, Bytes, bytes_beq, bytes_eq, ◌||◌, List, [], ◌∷◌, Option, none, some, ◌≡◌,
  refl, ap, get_elem?, set, if◌then◌else◌, arith, subst, ◌++◌, Bool-cases, Option-cases, inl, inr,
  ℤ, pos, negsuc,
}
use mathlib.Core.Option.{some-injective}
use deep.Compaction.Format.{leb_ℤ}
use deep.FlushQueues.{
  Op, PriorityQueue, ExclusiveQueues, push, larger, pop_max, pop, Pushed, Popped, op, nil, waits,
  push_at, dequeue,
}

-- How many operations of a list have the key.
abbrev pub with_key : Bytes → List Op → ℕ
with_key k [] = 0
with_key k (o ∷ os) = (if bytes_beq o.key k then 1 else 0) + with_key k os

abbrev pub queued : Bytes → List PriorityQueue → ℕ
queued k [] = 0
queued k (pq ∷ pqs) = with_key k pq.queue + queued k pqs

pub with_key-append :
    (k : Bytes) (xs ys : List Op) → with_key k (xs ++ ys) ≡ with_key k xs + with_key k ys
with_key-append k [] ys = omega arith
with_key-append k (x ∷ xs) ys = omega (arith, with_key-append k xs ys)

-- What an extraction leaves, and what it takes, are what there was.
abbrev Splits : Bytes → List Op → Option (Op × List Op) → Type 0
Splits k os none = with_key k os ≡ 0
Splits k os (some (m, rest)) = with_key k os ≡ with_key k (m ∷ rest)

Splits-larger :
    (k : Bytes) (o : Op) (os : List Op) (r : Option (Op × List Op))
    → Splits k os r
    → Splits k (o ∷ os) (larger o os r)
Splits-larger k o os none h = refl
Splits-larger k o os (some (m, rest)) h = elim (Bool-cases (leb_ℤ m.priority o.priority)) [
  | inl y ↦ rw y refl
  | inr n ↦ rw n (omega (arith, h))
]

Splits-pop_max : (k : Bytes) (os : List Op) → Splits k os (pop_max os)
unfolding pop_max
Splits-pop_max k [] = refl
Splits-pop_max k (o ∷ os) = Splits-larger k o os (pop_max os) (Splits-pop_max k os)

with_key-push :
    (k : Bytes) (o : Op) (pq : PriorityQueue)
    → with_key k (push o pq).1.queue ≤ with_key k (o ∷ pq.queue)
unfolding push
with_key-push k o pq = ground arith

pub queued-set :
    (k : Bytes) (pqs : List PriorityQueue) (i : ℕ) (pq pq' : PriorityQueue)
    → get_elem? pqs i ≡ some pq
    → queued k (set pqs i pq') + with_key k pq.queue ≡ queued k pqs + with_key k pq'.queue
queued-set k [] i pq pq' e = cc
queued-set k (q ∷ qs) zero pq pq' e =
    let p = some-injective _ _ e in omega (arith, ap (λ (x : PriorityQueue). with_key k x.queue) p)
queued-set k (q ∷ qs) (suc i) pq pq' e = omega (arith, queued-set k qs i pq pq' e)

abbrev pub is_key : Op → Bytes → ℕ
is_key o k = if bytes_beq o.key k then 1 else 0

-- A push adds at most the operation, and leaves the active keys.
abbrev pub Adds : Bytes → Op → ExclusiveQueues → Option (Pushed × ExclusiveQueues) → Type 0
Adds k o f none = Unit
Adds k o f (some (r, f')) =
    (queued k f'.queues ≤ queued k f.queues + is_key o k) × (f'.active_keys ≡ f.active_keys)

pub Adds-push_at : (k : Bytes) (o : Op) (i : ℤ) (f : ExclusiveQueues) → Adds k o f (push_at o i f)
unfolding push_at
Adds-push_at k o (negsuc i) f = tt
Adds-push_at k o (pos i) f = elim (Option-cases (get_elem? f.queues i)) [
  | inl n ↦ rw (n, Adds) tt
  | inr (pq, e) ↦
      rw (e, Adds)
        (omega (arith, queued-set k f.queues i pq (push o pq).1 e, with_key-push k o pq), refl)
]

abbrev pub taken : Popped → Bytes → ℕ
taken (op o) k = is_key o k
taken nil k = 0
taken waits k = 0

-- A dequeue takes just the operation that it returns, and leaves the active keys.
abbrev pub Takes : Bytes → ExclusiveQueues → Option (Popped × ExclusiveQueues) → Type 0
Takes k f none = Unit
Takes k f (some (r, f')) =
    (queued k f'.queues + taken r k ≡ queued k f.queues) × (f'.active_keys ≡ f.active_keys)

popped_count :
    (k : Bytes) (pq : PriorityQueue)
    → with_key k (pop pq).1.queue + taken (pop pq).0 k ≡ with_key k pq.queue
unfolding pop
popped_count k pq = elim (Option-cases (pop_max pq.queue)) [
  | inl n ↦ elim (Bool-cases (pq.closing || pq.closed)) [
    | inl y ↦ ground (arith, n, y)
    | inr m ↦ ground (arith, n, m)
  ]
  | inr ((m, rest), e) ↦
      let s = subst (Splits k pq.queue) e (Splits-pop_max k pq.queue) in ground (arith, e, s)
]

pub Takes-dequeue : (k : Bytes) (q : ℕ) (f : ExclusiveQueues) → Takes k f (dequeue q f)
unfolding dequeue
Takes-dequeue k q f = elim (Option-cases (get_elem? f.queues q)) [
  | inl n ↦ rw (n, Takes) tt
  | inr (pq, e) ↦
      rw (e, Takes)
        (omega (arith, queued-set k f.queues q pq (pop pq).1 e, popped_count k pq), refl)
]

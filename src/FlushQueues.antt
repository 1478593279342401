-- ===== src/FlushQueues.antt =====
-- pkg/flushqueues: the ingester's queues of flush operations. Each queue's operations hold its mutex
-- and are one step. `Enqueue` and `Requeue` of the set of queues hold none: a call of them is a
-- sequence of actions, between which other calls act. The length gauge is left out.
pub mod Counting
pub mod Calls
pub mod Exclusive
pub mod Index
mod Examples
use deep.Prelude.{
  ℕ, zero, suc, ◌+◌, ◌-◌, ◌%◌, ◌^◌, Bytes, bytes_beq, bytes_eq, Bool, true, false, not, ◌&&◌, ◌||◌,
  List, [], ◌∷◌, Option, none, some, contains, filter, length, get_elem?, set, ltb, nat_beq,
  if◌then◌else◌, ℤ, pos, negsuc, sub_ℕ,
}
use deep.Compaction.Format.{leb_ℤ}

pub record Op : Type 0 where
  pub key : Bytes
  pub priority : ℤ

pub record PriorityQueue : Type 0 where
  pub closing : Bool
  pub closed : Bool
  pub hit : List Bytes
  pub queue : List Op

abbrev pub new_priority_queue : PriorityQueue
new_priority_queue = record { closing = false; closed = false; hit = []; queue = [] }

unfoldable pub close : PriorityQueue → PriorityQueue
close pq = record pq { closing = true }

unfoldable pub discard_and_close : PriorityQueue → PriorityQueue
discard_and_close pq = record pq { closed = true; hit = []; queue = [] }

pub data Pushed : Type 0 where
  closed_error : Pushed
  already : Pushed
  added : Pushed

-- `PriorityQueue.Enqueue`. The heap is a list of which `pop_max` takes the largest entry.
unfoldable pub push : Op → PriorityQueue → Pushed × PriorityQueue
push op pq =
    if pq.closed
    then (closed_error, pq)
    else (if contains op.key pq.hit
        then (already, pq)
        else (added, record pq { hit = op.key ∷ pq.hit; queue = op ∷ pq.queue }))

-- The larger of an entry and the largest of the others, `os`.
abbrev pub larger : Op → List Op → Option (Op × List Op) → Option (Op × List Op)
larger o os none = some (o, os)
larger o os (some (m, rest)) =
    if leb_ℤ m.priority o.priority then some (o, os) else some (m, o ∷ rest)

-- The entry of the highest priority and the others; which of several such is open in the source.
unfoldable pub pop_max : List Op → Option (Op × List Op)
pop_max [] = none
pop_max (o ∷ os) = larger o os (pop_max os)

pub data Popped : Type 0 where
  op : Op → Popped
  nil : Popped
  waits : Popped

-- `PriorityQueue.Dequeue`; `waits` is the wait for an entry or for the end.
unfoldable pub pop : PriorityQueue → Popped × PriorityQueue
unfolding pop_max
pop pq = elim (pop_max pq.queue) [
  | none ↦ if pq.closing || pq.closed then (nil, record pq { closed = true }) else (waits, pq)
  | some (o, rest) ↦
      (op o, record pq { hit = filter (λ k. not (bytes_beq k o.key)) pq.hit; queue = rest })
]

-- `index` holds the bits of the `int32` counter.
pub record ExclusiveQueues : Type 0 where
  pub queues : List PriorityQueue
  pub index : ℕ
  pub active_keys : List Bytes
  pub stopped : Bool

abbrev pub fresh_queues : ℕ → List PriorityQueue
fresh_queues zero = []
fresh_queues (suc n) = new_priority_queue ∷ fresh_queues n

unfoldable pub new : ℕ → ExclusiveQueues
new queues = record { queues = fresh_queues queues; index = 0; active_keys = []; stopped = false }

-- `int(i)` for the `int32` of bits `i`.
abbrev pub to_int : ℕ → ℤ
to_int i = if ltb i (2 ^ 31) then pos i else negsuc (2 ^ 32 - i - 1)

-- `x % n` of Go, which has the sign of `x`.
unfoldable pub remainder : ℤ → ℕ → ℤ
remainder (pos a) n = pos (a % n)
remainder (negsuc a) n = sub_ℕ 0 ((a + 1) % n)

-- `int(f.index.Inc()) % len(f.queues)`; `none` is a division by no queues.
unfoldable pub next_index : ExclusiveQueues → Option (ℤ × ExclusiveQueues)
unfolding remainder
next_index f =
    let next = (f.index + 1) % 2 ^ 32 in
    if nat_beq (length f.queues) 0
    then none
    else some (remainder (to_int next) (length f.queues), record f { index = next })

-- `f.queues[i].Enqueue(op)`; `none` is an index out of range.
unfoldable pub push_at : Op → ℤ → ExclusiveQueues → Option (Pushed × ExclusiveQueues)
unfolding push
push_at o (negsuc i) f = none
push_at o (pos i) f = elim (get_elem? f.queues i) [
  | none ↦ none
  | some pq ↦ let (r, pq') = push o pq in some (r, record f { queues = set f.queues i pq' })
]

-- `Requeue`, with no other call between its two actions; `none` is a panic.
unfoldable pub requeue : Op → ExclusiveQueues → Option (Pushed × ExclusiveQueues)
unfolding next_index push_at
requeue o f = elim (next_index f) [ none ↦ none | some (i, f') ↦ push_at o i f' ]

-- Where a call of `Enqueue` or `Requeue` stands: before `Load`, `Store`, `Inc`, or the push.
pub data Point : Type 0 where
  loads : Point
  stores : Point
  increments : Point
  pushes : ℤ → Point

-- The next action of a call: where it stands then, `none` at its end, and the queues.
unfoldable pub advance : Op → Point → ExclusiveQueues → Option (Option Point × ExclusiveQueues)
unfolding next_index push_at
advance o loads f = some (if contains o.key f.active_keys then none else some stores, f)
advance o stores f = some (some increments, record f { active_keys = o.key ∷ f.active_keys })
advance o increments f = elim (next_index f) [
  | none ↦ none
  | some (i, f') ↦ some (some (pushes i), f')
]
advance o (pushes i) f = elim (push_at o i f) [ none ↦ none | some (r, f') ↦ some (none, f') ]

unfoldable pub dequeue : ℕ → ExclusiveQueues → Option (Popped × ExclusiveQueues)
unfolding pop
dequeue q f = elim (get_elem? f.queues q) [
  | none ↦ none
  | some pq ↦ let (r, pq') = pop pq in some (r, record f { queues = set f.queues q pq' })
]

-- `Clear`.
unfoldable pub clear : Op → ExclusiveQueues → ExclusiveQueues
clear o f = record f { active_keys = filter (λ k. not (bytes_beq k o.key)) f.active_keys }

unfoldable pub is_empty : ExclusiveQueues → Bool
is_empty f = nat_beq (length f.active_keys) 0

abbrev close_all : List PriorityQueue → List PriorityQueue
close_all [] = []
close_all (pq ∷ pqs) = close pq ∷ close_all pqs

unfoldable pub stop : ExclusiveQueues → ExclusiveQueues
unfolding close
stop f = record f { stopped = true; queues = close_all f.queues }

-- ===== src/FlushQueues/Calls.antt =====
-- Calls of pkg/flushqueues that are under way at once: what each of them has yet to do, and the steps
-- that goroutines take.
use deep.Prelude.{
  ℕ, ◌+◌, ◌≤◌, Bytes, bytes_beq, bytes_eq, true, List, [], ◌∷◌, Option, none, some, ◌≡◌, contains,
  get_elem?, set, if◌then◌else◌, ◌++◌,
}
use deep.FlushQueues.{
  Op, ExclusiveQueues, op, Point, loads, stores, increments, advance, dequeue, clear, close,
  PriorityQueue,
}
use deep.FlushQueues.Counting.{with_key, queued}

-- A call of `Enqueue` or `Requeue` that is under way.
pub record Caller : Type 0 where
  pub op : Op
  pub at : Point

-- Of a call: whether it has found its key missing and not stored it, whether it is in `Enqueue` up to
-- there, and whether its operation is to be queued under a stored key.
abbrev pub is_storing : Point → ℕ
is_storing stores = 1
is_storing p = 0

abbrev pub is_entering : Point → ℕ
is_entering loads = 1
is_entering stores = 1
is_entering p = 0

abbrev pub is_owning : Point → ℕ
is_owning loads = 0
is_owning stores = 0
is_owning p = 1

abbrev pub weight : (Point → ℕ) → Bytes → Op → Point → ℕ
weight w k o p = if bytes_beq o.key k then w p else 0

-- How many callers with the key are where `w` says.
abbrev pub callers_at : (Point → ℕ) → Bytes → List Caller → ℕ
callers_at w k [] = 0
callers_at w k (c ∷ cs) = weight w k c.op c.at + callers_at w k cs

-- The queues, the calls under way, and the operations that were dequeued and neither requeued nor
-- cleared.
pub record State : Type 0 where
  pub queues : ExclusiveQueues
  pub callers : List Caller
  pub held : List Op

-- How many operations with the key are queued, about to be queued, or held.
abbrev pub under_way : Bytes → State → ℕ
under_way k s = queued k s.queues.queues + callers_at is_owning k s.callers + with_key k s.held

-- Of each key at most one operation is under way, and none unless the key is active; and none is
-- while a call is about to store the key.
pub record IsExclusive (s : State) : Type 0 where
  pub one : (k : Bytes) → under_way k s ≤ (if contains k s.queues.active_keys then 1 else 0)
  pub alone : (k : Bytes) → under_way k s + callers_at is_storing k s.callers ≤ 1

-- Of each key at most one call of `Enqueue` is between its start and its store of the key.
pub record InTurn (s : State) : Type 0 where
  pub turn : (k : Bytes) → callers_at is_entering k s.callers ≤ 1

-- The calls after an action of one of them.
abbrev pub continues : Op → Option Point → List Caller → List Caller
continues o none cs = cs
continues o (some p) cs = record { op = o; at = p } ∷ cs

-- What the goroutines do, one action at a time; a caller requeues and clears what it holds, and `Stop`
-- closes the queues one by one.
pub data Step : State → State → Type 0 where
  enqueues :
      {f : ExclusiveQueues} {cs : List Caller} {held : List Op} (o : Op)
      → Step
          (record { queues = f; callers = cs; held = held })
          (record { queues = f; callers = record { op = o; at = loads } ∷ cs; held = held })
  advances :
      {f f' : ExclusiveQueues} {held : List Op} (before after : List Caller) (o : Op) (p : Point)
      (p' : Option Point)
      → advance o p f ≡ some (p', f')
      → Step
          (record {
            queues = f;
            callers = before ++ (record { op = o; at = p } ∷ after);
            held = held;
          })
          (record { queues = f'; callers = before ++ continues o p' after; held = held })
  dequeues :
      {f f' : ExclusiveQueues} {cs : List Caller} {held : List Op} (q : ℕ) (o : Op)
      → dequeue q f ≡ some (op o, f')
      → Step
          (record { queues = f; callers = cs; held = held })
          (record { queues = f'; callers = cs; held = o ∷ held })
  closes :
      {f : ExclusiveQueues} {cs : List Caller} {held : List Op} (q : ℕ) (pq : PriorityQueue)
      → get_elem? f.queues q ≡ some pq
      → Step
          (record { queues = f; callers = cs; held = held })
          (record {
            queues = record f { stopped = true; queues = set f.queues q (close pq) };
            callers = cs;
            held = held;
          })
  requeues :
      {f : ExclusiveQueues} {cs : List Caller} (before after : List Op) (o : Op)
      → Step
          (record { queues = f; callers = cs; held = before ++ (o ∷ after) })
          (record {
            queues = f;
            callers = record { op = o; at = increments } ∷ cs;
            held = before ++ after;
          })
  clears :
      {f : ExclusiveQueues} {cs : List Caller} (before after : List Op) (o : Op)
      → Step
          (record { queues = f; callers = cs; held = before ++ (o ∷ after) })
          (record { queues = clear o f; callers = cs; held = before ++ after })

-- ===== src/FlushQueues/Exclusive.antt =====
-- How many operations of a key are under way in pkg/flushqueues after each step of the goroutines.
use deep.Prelude.{
  ℕ, ◌+◌, ◌≤◌, Bytes, bytes_beq, bytes_beq_iff, bytes_eq, false, not, List, [], ◌∷◌, Option, none,
  some, ◌≡◌, refl, contains, filter, if◌then◌else◌, nat_beq, length, arith, subst, ◌++◌, Bool-cases,
  inl, inr, ℤ,
}
use deep.FlushQueues.{
  Op, ExclusiveQueues, Point, loads, stores, increments, pushes, advance, next_index, push_at,
  clear, close, Pushed,
}
use deep.FlushQueues.Counting.{
  with_key, queued, queued-set, with_key-append, Adds, Adds-push_at, Takes, Takes-dequeue,
}
use deep.FlushQueues.Calls.{
  Caller, is_storing, is_entering, is_owning, weight, callers_at, State, IsExclusive, InTurn,
  continues, Step, enqueues, advances, dequeues, closes, requeues, clears,
}

callers_at-append :
    (w : Point → ℕ) (k : Bytes) (cs ds : List Caller)
    → callers_at w k (cs ++ ds) ≡ callers_at w k cs + callers_at w k ds
callers_at-append w k [] ds = omega arith
callers_at-append w k (c ∷ cs) ds = omega (arith, callers_at-append w k cs ds)

-- `n` operations under way with `s` calls about to store the key, besides those queued.
abbrev Bound : Bytes → ExclusiveQueues → ℕ → ℕ → Type 0
Bound k f s n =
    (queued k f.queues + n ≤ (if contains k f.active_keys then 1 else 0))
    × (queued k f.queues + n + s ≤ 1)

-- The same after an action of a call, `s` and `n` being those of the others.
abbrev weight_after : (Point → ℕ) → Bytes → Op → Option Point → ℕ
weight_after w k o none = 0
weight_after w k o (some p) = weight w k o p

abbrev After : Bytes → Op → ℕ → ℕ → Option (Option Point × ExclusiveQueues) → Type 0
After k o s n none = Unit
After k o s n (some (p', f')) =
    Bound k f' (weight_after is_storing k o p' + s) (weight_after is_owning k o p' + n)

pushed-After :
    (k : Bytes) (o : Op) (i : ℤ) (s n : ℕ) (f : ExclusiveQueues)
    (x : Option (Pushed × ExclusiveQueues))
    → Adds k o f x
    → Bound k f (weight is_storing k o (pushes i) + s) (weight is_owning k o (pushes i) + n)
    → After k o s n (elim x [ none ↦ none | some (r, f') ↦ some (none, f') ])
pushed-After k o i s n f none a h = tt
pushed-After k o i s n f (some (r, f')) a h = ground (arith, a, h)

advance-After :
    (k : Bytes) (o : Op) (p : Point) (s n e : ℕ) (f : ExclusiveQueues)
    → s ≤ e
    → weight is_entering k o p + e ≤ 1
    → Bound k f (weight is_storing k o p + s) (weight is_owning k o p + n)
    → After k o s n (advance o p f)
unfolding advance next_index
advance-After k o loads s n e f l t h = elim (Bool-cases (contains o.key f.active_keys)) [
  | inl y ↦ ground (arith, h, y)
  | inr c ↦ ground (arith, h, t, l, c, bytes_beq_iff o.key k)
]
advance-After k o stores s n e f l t h =
    ground (arith, h, t, l, bytes_beq_iff o.key k, bytes_beq_iff k o.key)
advance-After k o increments s n e f l t h = elim (Bool-cases (nat_beq (length f.queues) 0)) [
  | inl y ↦ rw (y, After) tt
  | inr m ↦ rw (m, After) h
]
advance-After k o (pushes i) s n e f l t h =
    pushed-After k o i s n f (push_at o i f) (Adds-push_at k o i f) h

storing_weight_le :
    (k : Bytes) (o : Op) (p : Point) → weight is_storing k o p ≤ weight is_entering k o p
storing_weight_le k o loads = ground arith
storing_weight_le k o stores = ground arith
storing_weight_le k o increments = ground arith
storing_weight_le k o (pushes i) = ground arith

storing_le :
    (k : Bytes) (cs : List Caller) → callers_at is_storing k cs ≤ callers_at is_entering k cs
storing_le k [] = omega arith
storing_le k (c ∷ cs) = omega (arith, storing_weight_le k c.op c.at, storing_le k cs)

callers_at-continues :
    (w : Point → ℕ) (k : Bytes) (o : Op) (p' : Option Point) (cs : List Caller)
    → callers_at w k (continues o p' cs) ≡ weight_after w k o p' + callers_at w k cs
callers_at-continues w k o none cs = omega arith
callers_at-continues w k o (some p) cs = refl

contains-drop :
    (k j : Bytes) (ks : List Bytes)
    → contains k (filter (λ i. not (bytes_beq i j)) ks)
      ≡ (if bytes_beq j k then false else contains k ks)
contains-drop k j [] = ground arith
contains-drop k j (i ∷ ks) =
    ground (arith, contains-drop k j ks, bytes_beq_iff i j, bytes_beq_iff k i, bytes_beq_iff j k)

State-Bound :
    (k : Bytes) (s : State)
    → IsExclusive s
    → Bound k s.queues
        (callers_at is_storing k s.callers)
        (callers_at is_owning k s.callers + with_key k s.held)
State-Bound k s h = (omega (arith, h.one k), omega (arith, h.alone k))

Bound-IsExclusive :
    (s : State)
    → ((k : Bytes)
        → Bound k s.queues
            (callers_at is_storing k s.callers)
            (callers_at is_owning k s.callers + with_key k s.held))
    → IsExclusive s
Bound-IsExclusive s h = record {
  one = λ k. omega (arith, (h k).0);
  alone = λ k. omega (arith, (h k).1);
}

module _ (k : Bytes) (before after : List Caller) (o : Op) where
  advanced :
      (p : Point) (p' : Option Point) (f f' : ExclusiveQueues) (held : List Op)
      → callers_at is_entering k (before ++ (record { op = o; at = p } ∷ after)) ≤ 1
      → Bound k f
          (callers_at is_storing k (before ++ (record { op = o; at = p } ∷ after)))
          (callers_at is_owning k (before ++ (record { op = o; at = p } ∷ after)) + with_key k held)
      → advance o p f ≡ some (p', f')
      → Bound k f'
          (callers_at is_storing k (before ++ continues o p' after))
          (callers_at is_owning k (before ++ continues o p' after) + with_key k held)
  advanced p p' f f' held t h e =
      let others = λ (w : Point → ℕ). callers_at w k before + callers_at w k after in
      let at_start =
        λ (w : Point → ℕ). callers_at-append w k before (record { op = o; at = p } ∷ after) in
      let at_end = λ (w : Point → ℕ). callers_at-append w k before (continues o p' after) in
      let a = subst (After k o (others is_storing) (others is_owning + with_key k held)) e (
        advance-After k o p (others is_storing) (others is_owning + with_key k held)
          (others is_entering) f (omega (arith, storing_le k before, storing_le k after))
          (omega (arith, t, at_start is_entering))
          (
            omega (arith, h.0, at_start is_owning),
            omega (arith, h.1, at_start is_owning, at_start is_storing),
          )) in
      (
        omega (arith, a.0, at_end is_owning, callers_at-continues is_owning k o p' after),
        omega (
          arith,
          a.1,
          at_end is_owning,
          at_end is_storing,
          callers_at-continues is_owning k o p' after,
          callers_at-continues is_storing k o p' after,
        ),
      )

-- Where no two calls of `Enqueue` with one key are at once between their start and their store of the
-- key, every action of the goroutines keeps this: of each key at most one operation is queued, about
-- to be queued or held, none of them unless the key is active, and none of them while a call is about
-- to store the key. A caller requeues and clears only what it has dequeued.
pub Step-IsExclusive : (s s' : State) → Step s s' → InTurn s → IsExclusive s → IsExclusive s'
unfolding clear close
Step-IsExclusive s s' (enqueues {f} {cs} {held} o) t h =
    Bound-IsExclusive s' (λ k. let b = State-Bound k s h in ground (arith, b))
Step-IsExclusive s s' (advances {f} {f'} {held} before after o p p' e) t h =
    Bound-IsExclusive s'
      λ k. advanced k before after o p p' f f' held (t.turn k) (State-Bound k s h) e
Step-IsExclusive s s' (dequeues {f} {f'} {cs} {held} q o e) t h = Bound-IsExclusive s' λ k.
    let d = subst (Takes k f) e (Takes-dequeue k q f) in
    let b = State-Bound k s h in ground (arith, d, b)
Step-IsExclusive s s' (closes {f} {cs} {held} q pq e) t h =
    Bound-IsExclusive s'
      λ k. let b = State-Bound k s h in ground (arith, b, queued-set k f.queues q pq (close pq) e)
Step-IsExclusive s s' (requeues {f} {cs} before after o) t h = Bound-IsExclusive s' λ k.
    let b = State-Bound k s h in
    ground (arith, b, with_key-append k before (o ∷ after), with_key-append k before after)
Step-IsExclusive s s' (clears {f} {cs} before after o) t h = Bound-IsExclusive s' λ k.
    let b = State-Bound k s h in
    ground (
      arith,
      b,
      with_key-append k before (o ∷ after),
      with_key-append k before after,
      contains-drop k o.key f.active_keys,
    )

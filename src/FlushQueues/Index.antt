-- ===== src/FlushQueues/Index.antt =====
-- The counter by which `Requeue` of pkg/flushqueues/exclusivequeues.go picks a queue.
use deep.Prelude.{
  ℕ, zero, suc, ◌+◌, ◌%◌, ◌^◌, ◌≤◌, ◌<◌, false, true, List, [], ◌∷◌, Option, none, some, ◌≡◌, ◌≢◌,
  ◌↔◌, refl, subst, length, get_elem?, set, ltb, leb, nat_beq, arith, Option-cases, Bool-cases, inl,
  inr, pos,
}
use native.Mathlib.Nat.{mod-lt}
use deep.FlushQueues.{
  Op, PriorityQueue, ExclusiveQueues, Pushed, push, remainder, to_int, next_index, push_at, requeue,
}

get_elem?-lt : (pqs : List PriorityQueue) (i : ℕ) → i < length pqs → get_elem? pqs i ≢ none
get_elem?-lt [] i l = ground arith
get_elem?-lt (q ∷ qs) zero l = λ e. cc
get_elem?-lt (q ∷ qs) (suc i) l = get_elem?-lt qs i (omega arith)

length-set :
    (pqs : List PriorityQueue) (i : ℕ) (pq : PriorityQueue) → length (set pqs i pq) ≡ length pqs
length-set [] i pq = ground arith
length-set (q ∷ qs) zero pq = ground arith
length-set (q ∷ qs) (suc i) pq = ground (arith, length-set qs i pq)

-- The queues after each of the operations has been requeued; `none` where one of the calls panics.
abbrev pub requeue_all : List Op → ExclusiveQueues → Option ExclusiveQueues
requeue_all [] f = some f
requeue_all (o ∷ os) f = elim (requeue o f) [ none ↦ none | some (r, f') ↦ requeue_all os f' ]

-- A requeue that went well on `n` queues whose counter was `i`.
abbrev Went : ℕ → ℕ → Option (Pushed × ExclusiveQueues) → Type 0
Went n i none = ⊥
Went n i (some (r, f')) = (f'.index ≡ i + 1) × (length f'.queues ≡ n)

push_at-Went :
    (o : Op) (i : ℕ) (f : ExclusiveQueues)
    → i < length f.queues
    → (x : ℕ) → f.index ≡ x + 1
    → Went (length f.queues) x (push_at o (pos i) f)
unfolding push_at
push_at-Went o i f l x h = elim (Option-cases (get_elem? f.queues i)) [
  | inl n ↦ absurd (get_elem?-lt f.queues i l n)
  | inr (pq, e) ↦ rw (e, Went) (h, length-set f.queues i (push o pq).1)
]

next_index-some :
    (f : ExclusiveQueues)
    → 0 < length f.queues
    → f.index < 2 ^ 31
    → next_index f
      ≡ some (remainder (to_int (f.index + 1)) (length f.queues), record f { index = f.index + 1 })
unfolding next_index
next_index-some f n i =
    let e : (f.index + 1) % 2 ^ 32 ≡ f.index + 1 = omega arith in
    let q : nat_beq (length f.queues) 0 ≡ false = ground arith in rw (q, e) refl

requeue-Went :
    (o : Op) (f : ExclusiveQueues)
    → 0 < length f.queues
    → f.index + 1 < 2 ^ 31
    → Went (length f.queues) f.index (requeue o f)
unfolding requeue remainder
requeue-Went o f n i =
    let l : ltb (f.index + 1) (2 ^ 31) ≡ true = ground arith in
    rw (next_index-some f n (omega arith), requeue)
      (rw l (
        push_at-Went o ((f.index + 1) % length f.queues) (record f { index = f.index + 1 })
          (mod-lt (f.index + 1) n) f.index refl))

-- The counter wraps to the smallest `int32`.
requeue-wrapped :
    (o : Op) (f : ExclusiveQueues)
    → 0 < length f.queues
    → f.index + 1 ≡ 2 ^ 31
    → 2 ^ 31 % length f.queues ≢ 0
    → requeue o f ≡ none
unfolding requeue remainder push_at
requeue-wrapped o f n i c =
    let l : leb (2 ^ 31 % length f.queues) 0 ≡ false = ground (arith, c) in
    rw (next_index-some f n (omega arith), requeue) (rw i (rw l refl))

-- On one queue or more, whose number does not divide 2 ^ 31, and from a counter that is not negative,
-- a sequence of requeues panics exactly where it takes the counter past the largest `int32`.
pub requeue-panics :
    (os : List Op) (f : ExclusiveQueues)
    → 0 < length f.queues
    → f.index < 2 ^ 31
    → 2 ^ 31 % length f.queues ≢ 0
    → (requeue_all os f ≡ none) ↔ (2 ^ 31 ≤ f.index + length os)
requeue-panics [] f n i c = ((λ e. cc), λ l. ground arith)
requeue-panics (o ∷ os) f n i c = elim (Bool-cases (ltb (f.index + 1) (2 ^ 31))) [
  | inl y ↦ elim (Option-cases (requeue o f)) [
    | inl e ↦
        absurd (subst (Went (length f.queues) f.index) e (requeue-Went o f n (ground (arith, y))))
    | inr ((r, f'), e) ↦
        let (ix, ln) =
          subst (Went (length f.queues) f.index) e (requeue-Went o f n (ground (arith, y))) in
        let ih = requeue-panics os f' (omega (arith, ln)) (ground (arith, ix, y)) (rw ln c) in
        rw (e, requeue_all) ((λ p. omega (arith, ih.0 p, ix)), λ l. ih.1 (omega (arith, ix)))
  ]
  | inr m ↦
      rw (requeue-wrapped o f n (ground (arith, m)) c, requeue_all)
        ((λ e. ground (arith, m)), λ l. refl)
]

-- ===== src/FlushQueues/Examples.antt =====
-- The flush queues' theorems at concrete states, and two calls of `Enqueue` at once.
use deep.Prelude.{
  ℕ, ◌-◌, ◌^◌, List, [], ◌∷◌, Option, none, some, Bool, true, false, ◌≡◌, ◌↔◌, ◌≤◌, ◌+◌, refl, pos,
  arith,
}
use deep.FlushQueues.{Op, ExclusiveQueues, Point, loads, stores, advance, fresh_queues}
use deep.FlushQueues.Counting.{queued}
use deep.FlushQueues.Calls.{State, IsExclusive, InTurn, advances}
use deep.FlushQueues.Exclusive.{Step-IsExclusive}
use deep.FlushQueues.Index.{requeue_all, requeue-panics}

abbrev flush : Op
flush = record { key = b'f' ∷ []; priority = pos 3 }

abbrev two_queues : ExclusiveQueues
two_queues = record { queues = fresh_queues 2; index = 0; active_keys = []; stopped = false }

abbrev entering : State
entering = record {
  queues = two_queues;
  callers = record { op = flush; at = loads } ∷ [];
  held = [];
}

abbrev about_to_store : State
about_to_store = record {
  queues = two_queues;
  callers = record { op = flush; at = stores } ∷ [];
  held = [];
}

entering-IsExclusive : IsExclusive entering
entering-IsExclusive = record { one = λ k. ground arith; alone = λ k. ground arith }

entering-InTurn : InTurn entering
entering-InTurn = record { turn = λ k. ground arith }

Step-IsExclusive_example : IsExclusive about_to_store
unfolding advance
Step-IsExclusive_example =
    Step-IsExclusive entering about_to_store (advances [] [] flush loads (some stores) refl)
      entering-InTurn entering-IsExclusive

-- Two calls of `Enqueue` for one operation, of which the first or the second acts.
abbrev Calls : Type 0
Calls = Option Point × Option Point × ExclusiveQueues

abbrev first : Calls → Option Calls
first (none, b, f) = none
first (some p, b, f) = elim (advance flush p f) [ none ↦ none | some (p', f') ↦ some (p', b, f') ]

abbrev second : Calls → Option Calls
second (a, none, f) = none
second (a, some p, f) = elim (advance flush p f) [ none ↦ none | some (p', f') ↦ some (a, p', f') ]

abbrev run : List Bool → Calls → Option Calls
run [] c = some c
run (true ∷ turns) c = elim (first c) [ none ↦ none | some c' ↦ run turns c' ]
run (false ∷ turns) c = elim (second c) [ none ↦ none | some c' ↦ run turns c' ]

-- How often the operation is queued once both calls have ended.
abbrev times_queued : Option Calls → Option ℕ
times_queued (some (none, none, f)) = some (queued flush.key f.queues)
times_queued c = none

one_after_the_other :
    times_queued (run (true ∷ true ∷ true ∷ true ∷ false ∷ []) (some loads, some loads, two_queues))
    ≡ some 1
unfolding advance
one_after_the_other = refl

both_at_once :
    times_queued (
      run
        (true ∷ false ∷ true ∷ false ∷ true ∷ false ∷ true ∷ false ∷ [])
        (some loads, some loads, two_queues))
    ≡ some 2
unfolding advance
both_at_once = refl

-- Three queues, after 2^31 - 1 requeues.
abbrev worn : ExclusiveQueues
worn = record { queues = fresh_queues 3; index = 2 ^ 31 - 1; active_keys = []; stopped = false }

requeue-panics_example : (requeue_all (flush ∷ []) worn ≡ none) ↔ (2 ^ 31 ≤ 2 ^ 31 - 1 + 1)
requeue-panics_example = requeue-panics (flush ∷ []) worn (omega arith) (omega arith) (ground arith)

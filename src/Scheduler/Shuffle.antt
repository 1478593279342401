-- ===== src/Scheduler/Shuffle.antt =====
-- `shuffleQueriersForUser` of pkg/scheduler/queue/user_queues.go.
pub mod Selection
use deep.Prelude.{
  ℕ, zero, suc, ◌+◌, ◌-◌, Bytes, bytes_eq, Bool, ◌||◌, List, [], ◌∷◌, Option, none, some, length,
  get_or, set, contains, leb, nat_beq, if◌then◌else◌,
}
use deep.Scheduler.State.{Env}

-- `result[x] = struct{}{}`.
abbrev pub set_insert : Bytes → List Bytes → List Bytes
set_insert x xs = if contains x xs then xs else x ∷ xs

-- `a[i], a[j] = a[j], a[i]`.
abbrev pub swap : List Bytes → ℕ → ℕ → List Bytes
swap xs i j = set (set xs i (get_or xs j [])) j (get_or xs i [])

module _ (env : Env) where
  open env use {Source, new_source, intn}

  -- The loop, with the rounds that are left. `last` stays an index, since fewer queriers are
  -- selected than there are.
  unfoldable pub select : ℕ → Source → List Bytes → ℕ → List Bytes → List Bytes
  select zero rnd scratchpad last result = result
  select (suc rounds) rnd scratchpad last result =
      let (r, rnd') = intn (last + 1) rnd in
      select rounds rnd' (swap scratchpad r last) (last - 1)
        (set_insert (get_or scratchpad r []) result)

  unfoldable pub shuffle_queriers_for_user : ℕ → ℕ → List Bytes → Option (List Bytes)
  unfolding select
  shuffle_queriers_for_user user_seed queriers_to_select all_sorted_queriers =
      if nat_beq queriers_to_select 0 || leb (length all_sorted_queriers) queriers_to_select
      then none
      else some (
          select queriers_to_select (new_source user_seed) all_sorted_queriers
            (length all_sorted_queriers - 1) [])

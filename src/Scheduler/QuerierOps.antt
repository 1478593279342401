-- ===== src/Scheduler/QuerierOps.antt =====
-- The operations of pkg/scheduler/queue/user_queues.go on the queriers. A panic is `none`.
pub mod Sorting
pub mod Current
pub mod Forget
use deep.Prelude.{
  ℕ, zero, suc, ◌+◌, ◌-◌, Bytes, bytes_eq, bytes_beq, bytes_lt, Bool, true, false, ◌&&◌, ◌||◌, not,
  List, [], ◌∷◌, ◌++◌, Option, none, some, Map, get, put, delete, keys, length, get_or, take, drop,
  ltb, leb, nat_beq, if◌then◌else◌,
}
use deep.Backend.{Time}
use deep.Scheduler.State.{Env, Querier, UserQueue, Queues}
use deep.Scheduler.Shuffle.{shuffle_queriers_for_user}

-- `sort.Strings`, by insertion.
abbrev pub insert_string : Bytes → List Bytes → List Bytes
insert_string x [] = x ∷ []
insert_string x (y ∷ ys) = if bytes_lt y x then y ∷ insert_string x ys else x ∷ y ∷ ys

abbrev pub sort_strings : List Bytes → List Bytes
sort_strings [] = []
sort_strings (x ∷ xs) = insert_string x (sort_strings xs)

-- `sort.SearchStrings`: the first index whose entry is not below `x`.
abbrev pub search_strings : List Bytes → Bytes → ℕ
search_strings [] x = 0
search_strings (y ∷ ys) x = if bytes_lt y x then suc (search_strings ys x) else 0

-- `append(xs[:ix], xs[ix+1:]...)`.
abbrev pub remove_at : ℕ → List Bytes → List Bytes
remove_at ix xs = take ix xs ++ drop (suc ix) xs

-- No connection, and gone since before the threshold.
abbrev pub is_forgettable : Time → Option Querier → Bool
is_forgettable threshold none = false
is_forgettable threshold (some info) =
    nat_beq info.connections 0 && ltb info.disconnected_at threshold

module _ {ℓ} {R : Type ℓ} (env : Env) where
  abbrev pub reshuffle : List Bytes → Map Bytes (UserQueue R) → Map Bytes (UserQueue R)
  reshuffle sorted_queriers [] = []
  reshuffle sorted_queriers ((u, uq) ∷ m) =
      (
        u,
        record uq {
          queriers = shuffle_queriers_for_user env uq.seed uq.max_queriers sorted_queriers;
        },
      )
      ∷ reshuffle sorted_queriers m

  unfoldable pub recompute_user_queriers : Queues R → Queues R
  recompute_user_queriers q = record q { user_queues = reshuffle q.sorted_queriers q.user_queues }

  -- What `addQuerierConnection` does with the querier it finds.
  pub add_connection : Bytes → Queues R → Option Querier → Queues R
  unfolding recompute_user_queriers
  add_connection querier_id q (some info) = record q {
    queriers =
        put querier_id
          (record {
            connections = info.connections + 1;
            shutting_down = false;
            disconnected_at = 0;
          })
          q.queriers;
  }
  add_connection querier_id q none = recompute_user_queriers (record q {
    queriers =
        put querier_id (record { connections = 1; shutting_down = false; disconnected_at = 0 })
          q.queriers;
    sorted_queriers = sort_strings (q.sorted_queriers ++ querier_id ∷ []);
  })

  unfoldable pub add_querier_connection : Bytes → Queues R → Queues R
  unfolding add_connection
  add_querier_connection querier_id q = add_connection querier_id q (get querier_id q.queriers)

  unfoldable pub remove_querier : Bytes → Queues R → Option (Queues R)
  unfolding recompute_user_queriers
  remove_querier querier_id q =
      let ix = search_strings q.sorted_queriers querier_id in
      if leb (length q.sorted_queriers) ix
        || not (bytes_beq (get_or q.sorted_queriers ix []) querier_id)
      then none
      else some (
          recompute_user_queriers (record q {
            queriers = delete querier_id q.queriers;
            sorted_queriers = remove_at ix q.sorted_queriers;
          }))

  -- The rest of `removeQuerierConnection`, with the querier it finds.
  pub drop_connection : Bytes → Time → Queues R → Option Querier → Option (Queues R)
  drop_connection querier_id now q none = none
  drop_connection querier_id now q (some info) =
      if nat_beq info.connections 0
      then none
      else let fewer = record info { connections = info.connections - 1 } in
        if ltb 0 fewer.connections
        then some (record q { queriers = put querier_id fewer q.queriers })
        else if info.shutting_down || nat_beq q.forget_delay 0
        then remove_querier querier_id (record q { queriers = put querier_id fewer q.queriers })
        else some (record q {
          queriers = put querier_id (record fewer { disconnected_at = now }) q.queriers;
        })

  unfoldable pub remove_querier_connection : Bytes → Time → Queues R → Option (Queues R)
  unfolding drop_connection
  remove_querier_connection querier_id now q =
      drop_connection querier_id now q (get querier_id q.queriers)

  unfoldable pub notify_querier_shutdown : Bytes → Queues R → Option (Queues R)
  notify_querier_shutdown querier_id q = elim (get querier_id q.queriers) [
    | none ↦ some q
    | some info ↦
        if nat_beq info.connections 0
        then remove_querier querier_id q
        else some (record q {
          queriers = put querier_id (record info { shutting_down = true }) q.queriers;
        })
  ]

  -- The loop over the keys that the map had at its start; only the visited key is deleted on the
  -- way. The number counts the queriers forgotten.
  unfoldable pub forget_loop : Time → List Bytes → Queues R → ℕ → Option (Queues R × ℕ)
  forget_loop threshold [] q forgotten = some (q, forgotten)
  forget_loop threshold (k ∷ ks) q forgotten = elim (is_forgettable threshold (get k q.queriers)) [
    | false ↦ forget_loop threshold ks q forgotten
    | true ↦ elim (remove_querier k q) [
      | none ↦ none
      | some q' ↦ forget_loop threshold ks q' (forgotten + 1)
    ]
  ]

  unfoldable pub forget_disconnected_queriers : Time → Queues R → Option (Queues R × ℕ)
  unfolding forget_loop
  forget_disconnected_queriers now q =
      if nat_beq q.forget_delay 0
      then some (q, 0)
      else forget_loop (now - q.forget_delay) (keys q.queriers) q 0

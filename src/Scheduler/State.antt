-- ===== src/Scheduler/State.antt =====
-- The state of pkg/scheduler/queue/user_queues.go. `""` marks a free place among the users.
use deep.Prelude.{ℕ, ◌<◌, Bytes, Bool, List, [], Option, Map, length}
use deep.Backend.{Time}

pub record Querier : Type 0 where
  pub connections : ℕ
  pub shutting_down : Bool
  pub disconnected_at : Time

-- `ch` holds what is in the buffered channel, oldest first. `queriers` is nil (`none`) where every
-- querier may serve the user.
pub record UserQueue {ℓ} (R : Type ℓ) : Type ℓ where
  pub ch : List R
  pub queriers : Option (List Bytes)
  pub max_queriers : ℕ
  pub seed : ℕ
  pub index : ℕ

pub record Queues {ℓ} (R : Type ℓ) : Type ℓ where
  pub user_queues : Map Bytes (UserQueue R)
  pub users : List Bytes
  pub max_user_queue_size : ℕ
  pub forget_delay : ℕ
  pub queriers : Map Bytes Querier
  pub sorted_queriers : List Bytes

-- What the code takes from outside: `math/rand`, seeded, whose `Intn(n)` lies below `n`, and
-- `ShuffleShardSeed(userID, "")` of grafana/dskit.
pub record Env : Type 1 where
  pub Source : Type 0
  pub new_source : ℕ → Source
  pub intn : ℕ → Source → ℕ × Source
  pub intn_lt : (n : ℕ) (s : Source) → 0 < n → (intn n s).0 < n
  pub shuffle_shard_seed : Bytes → ℕ

unfoldable pub new_user_queues {ℓ} : {R : Type ℓ} → ℕ → ℕ → Queues R
new_user_queues max_user_queue_size forget_delay = record {
  user_queues = [];
  users = [];
  max_user_queue_size = max_user_queue_size;
  forget_delay = forget_delay;
  queriers = [];
  sorted_queriers = [];
}

-- `len` of the code: how many users have a queue.
unfoldable pub len {ℓ} : {R : Type ℓ} → Queues R → ℕ
len q = length q.user_queues

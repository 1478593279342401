-- ===== src/Frontend/Response.antt =====
-- modules/frontend/search_response.go, and `CombineSearchResults` of pkg/search/util.go: the answers
-- of the queriers put together. Every operation holds the mutex, so each is one step. Errors are
-- numbers; the metrics that a sharder sets itself are left out. Sums wrap at the width of their
-- fields.
pub mod Combining
pub mod Quitting
use deep.Prelude.{
  ℕ, suc, ◌+◌, ◌/◌, ◌%◌, ◌^◌, Bytes, bytes_beq, bytes_eq, Bool, true, false, not, ◌&&◌, ◌||◌, List,
  [], ◌∷◌, Option, none, some, Map, get, put, length, ltb, leb, nat_beq, if◌then◌else◌,
}

pub record SnapshotSearchMetadata : Type 0 where
  pub snapshot_id : Bytes
  pub service_name : Bytes
  pub file_path : Bytes
  pub line_no : ℕ
  pub start_time_unix_nano : ℕ
  pub duration_nano : ℕ

pub record SearchMetrics : Type 0 where
  pub inspected_bytes : ℕ
  pub inspected_snapshots : ℕ
  pub skipped_blocks : ℕ
  pub skipped_snapshots : ℕ

pub record Answer : Type 0 where
  pub snapshots : List SnapshotSearchMetadata
  pub metrics : SearchMetrics

pub record SearchResponse : Type 0 where
  pub err : Option ℕ
  pub status_code : ℕ
  pub status_msg : Bytes
  -- The caller's context is done.
  pub context_done : Bool
  pub results_map : Map Bytes SnapshotSearchMetadata
  pub results_metrics : SearchMetrics
  -- `cancelFunc` was called.
  pub cancelled : Bool
  pub finished_requests : ℕ
  pub limit : ℕ

unfoldable pub new_search_response : ℕ → SearchResponse
new_search_response limit = record {
  err = none;
  status_code = 200;
  status_msg = [];
  context_done = false;
  results_map = [];
  results_metrics = record {
    inspected_bytes = 0;
    inspected_snapshots = 0;
    skipped_blocks = 0;
    skipped_snapshots = 0;
  };
  cancelled = false;
  finished_requests = 0;
  limit = limit;
}

unfoldable pub combine_search_results :
    SnapshotSearchMetadata → SnapshotSearchMetadata → SnapshotSearchMetadata
combine_search_results existing incoming = record {
  snapshot_id =
      if bytes_beq existing.snapshot_id [] then incoming.snapshot_id else existing.snapshot_id;
  service_name =
      if bytes_beq existing.service_name [] then incoming.service_name else existing.service_name;
  file_path = if bytes_beq existing.file_path [] then incoming.file_path else existing.file_path;
  line_no = if nat_beq existing.line_no 0 then incoming.line_no else existing.line_no;
  start_time_unix_nano =
      if ltb incoming.start_time_unix_nano existing.start_time_unix_nano
      then incoming.start_time_unix_nano
      else existing.start_time_unix_nano;
  duration_nano =
      if ltb existing.duration_nano incoming.duration_nano
      then incoming.duration_nano
      else existing.duration_nano;
}

unfoldable pub internal_should_quit : SearchResponse → Bool
internal_should_quit r = elim r.err [
  | some e ↦ true
  | none ↦
      r.context_done
      || (not (nat_beq (r.status_code / 100) 2) || ltb r.limit (length r.results_map))
]

-- What every operation ends with: running requests are cancelled when the search should quit.
unfoldable pub cancel_if_quit : SearchResponse → SearchResponse
unfolding internal_should_quit
cancel_if_quit r = record r { cancelled = r.cancelled || internal_should_quit r }

unfoldable pub set_status : ℕ → Bytes → SearchResponse → SearchResponse
unfolding cancel_if_quit
set_status status_code status_msg r =
    cancel_if_quit (record r { status_code = status_code; status_msg = status_msg })

unfoldable pub set_error : ℕ → SearchResponse → SearchResponse
unfolding cancel_if_quit
set_error e r = cancel_if_quit (record r { err = some e })

abbrev pub merged : SnapshotSearchMetadata → Option SnapshotSearchMetadata → SnapshotSearchMetadata
merged t none = t
merged t (some existing) = combine_search_results existing t

-- One entry of the loop over `res.Snapshots`.
unfoldable pub add_snapshot :
    SnapshotSearchMetadata → Map Bytes SnapshotSearchMetadata → Map Bytes SnapshotSearchMetadata
add_snapshot t m = put t.snapshot_id (merged t (get t.snapshot_id m)) m

unfoldable pub add_snapshots :
    List SnapshotSearchMetadata
    → Map Bytes SnapshotSearchMetadata
    → Map Bytes SnapshotSearchMetadata
unfolding add_snapshot
add_snapshots [] m = m
add_snapshots (t ∷ ts) m = add_snapshots ts (add_snapshot t m)

abbrev pub add_metrics : SearchMetrics → SearchMetrics → SearchMetrics
add_metrics a b = record {
  inspected_bytes = (a.inspected_bytes + b.inspected_bytes) % 2 ^ 64;
  inspected_snapshots = (a.inspected_snapshots + b.inspected_snapshots) % 2 ^ 32;
  skipped_blocks = (a.skipped_blocks + b.skipped_blocks) % 2 ^ 32;
  skipped_snapshots = (a.skipped_snapshots + b.skipped_snapshots) % 2 ^ 32;
}

unfoldable pub add_response : Answer → SearchResponse → SearchResponse
unfolding cancel_if_quit add_snapshots
add_response res r = cancel_if_quit (record r {
  results_map = add_snapshots res.snapshots r.results_map;
  results_metrics = add_metrics r.results_metrics res.metrics;
  finished_requests = r.finished_requests + 1;
})

unfoldable pub should_quit : SearchResponse → Bool × SearchResponse
unfolding cancel_if_quit internal_should_quit
should_quit r = (internal_should_quit r, cancel_if_quit r)

-- `sort.Slice`, later starts first. Entries of one start time stay in the order of the map, where
-- Go leaves their order open.
unfoldable pub insert_later :
    SnapshotSearchMetadata → List SnapshotSearchMetadata → List SnapshotSearchMetadata
insert_later t [] = t ∷ []
insert_later t (s ∷ ss) =
    if ltb t.start_time_unix_nano s.start_time_unix_nano then s ∷ insert_later t ss else t ∷ s ∷ ss

unfoldable pub sorted_results : Map Bytes SnapshotSearchMetadata → List SnapshotSearchMetadata
unfolding insert_later
sorted_results [] = []
sorted_results ((k, t) ∷ m) = insert_later t (sorted_results m)

unfoldable pub result : SearchResponse → Answer
unfolding sorted_results
result r = record { snapshots = sorted_results r.results_map; metrics = r.results_metrics }

-- How `RoundTrip` of searchsharding.go answers when all requests are done.
pub data Outcome : Type 0 where
  failed : ℕ → Outcome
  internal_error : Bytes → Outcome
  ok : Answer → Outcome

unfoldable pub outcome : SearchResponse → Outcome
unfolding result
outcome r = elim r.err [
  | some e ↦ failed e
  | none ↦ if nat_beq r.status_code 200 then ok (result r) else internal_error r.status_msg
]

-- ===== src/Frontend/Examples.antt =====
-- The frontend's theorems at concrete searches.
use deep.Prelude.{
  ℕ, ◌+◌, ◌*◌, [], ◌∷◌, some, List, ◌≡◌, ◌⊎◌, false, get, bytes_eq, ltb, if◌then◌else◌, ◌-◌, arith,
}
use deep.Backend.{BlockMeta, new_block_meta, unix_epoch, nanos_per_second}
use deep.Frontend.Sharding.{
  SearchSharderConfig, SearchRequest, SearchBlockRequest, block_requests, ingester_request,
  backend_range,
}
use deep.Frontend.Sharding.Pages.{readers, block_requests-cover}
use deep.Frontend.Sharding.Ranges.{In, Asked, requests-cover}
use deep.Frontend.Response.{
  SnapshotSearchMetadata, failed, add_snapshots, new_search_response, outcome,
}
use deep.Frontend.Response.Combining.{span_of, add_snapshots_comm}
use deep.Frontend.Response.Quitting.{status, error, take_report, take_reports, outcome-error}
use deep.Frontend.Retry.{Reply, response, round_trip, Ended, round_trip_lem}

-- Five pages of three bytes.
abbrev big_block : BlockMeta
big_block = record (new_block_meta [] 1 [] 0 []) { size = 15; total_records = 5 }

block_requests-cover_example :
    (reqs : List SearchBlockRequest) × (block_requests 6 big_block ≡ some reqs)
    × (readers 4 reqs ≡ 1)
block_requests-cover_example =
    block_requests-cover 6 big_block 4 (omega arith) (omega arith) (omega arith) (omega arith)

abbrev config : SearchSharderConfig
config = record {
  target_bytes_per_request = 6;
  default_limit = 20;
  max_limit = 0;
  max_duration = 0;
  query_backend_after = 15 * nanos_per_second;
  query_ingesters_until = 60 * nanos_per_second;
}

abbrev midnight : ℕ
midnight = (unix_epoch + 1000) * nanos_per_second

abbrev last_minutes : SearchRequest
last_minutes = record { start = 900; end = 1000; limit = 20 }

requests-cover_example :
    Asked 950 (ingester_request config midnight last_minutes)
    ⊎ In 950 (backend_range config midnight last_minutes)
requests-cover_example =
    requests-cover config midnight midnight last_minutes 950 (omega arith) (omega arith)
      (omega arith) (omega arith) (omega arith, omega arith)

abbrev early : SnapshotSearchMetadata
early = record {
  snapshot_id = b's' ∷ [];
  service_name = [];
  file_path = [];
  line_no = 0;
  start_time_unix_nano = 10;
  duration_nano = 5;
}

abbrev late : SnapshotSearchMetadata
late = record early { start_time_unix_nano = 12; duration_nano = 9 }

add_snapshots_comm_example :
    span_of (get (b's' ∷ []) (add_snapshots (early ∷ []) (add_snapshots (late ∷ []) [])))
    ≡ span_of (get (b's' ∷ []) (add_snapshots (late ∷ []) (add_snapshots (early ∷ []) [])))
add_snapshots_comm_example = add_snapshots_comm (b's' ∷ []) (early ∷ []) (late ∷ []) []

outcome-error_example :
    (x : ℕ) × (outcome (
        take_reports
          (status 500 [] ∷ [])
          (take_report (error 3) (take_reports [] (new_search_response 20))))
      ≡ failed x)
outcome-error_example = outcome-error [] (status 500 [] ∷ []) 3 (new_search_response 20)

-- Answers 503 to the first three tries, and 200 after them.
abbrev flaky : ℕ → Reply × ℕ
flaky n = (if ltb 0 n then response 503 else response 200, n - 1)

round_trip_lem_example :
    Ended
      (λ (w : ℕ). false)
      flaky
      2
      (round_trip (λ (w : ℕ). false) flaky 2 2 0 3).0.0
      (round_trip (λ (w : ℕ). false) flaky 2 2 0 3).0.1
round_trip_lem_example = round_trip_lem (λ (w : ℕ). false) flaky 2 3

-- ===== src/Frontend/Sharding/Ranges.antt =====
-- The seconds that the requests of modules/frontend/searchsharding.go cover together.
use deep.Prelude.{ℕ, ◌+◌, ◌-◌, ◌*◌, ◌^◌, ◌≤◌, ◌<◌, Option, none, some, ◌⊎◌, arith}
use deep.Backend.{Time, nanos_per_second, unix_epoch}
use deep.Compaction.Format.{unix}
use deep.Frontend.Sharding.{
  SearchSharderConfig, SearchRequest, seconds_before, ingester_request, backend_range,
}

-- The second `x` lies in a range.
abbrev pub In : ℕ → ℕ × ℕ → Type 0
In x (a, b) = (a ≤ x) × (x < b)

abbrev pub Asked : ℕ → Option (ℕ × ℕ) → Type 0
Asked x none = ⊥
Asked x (some r) = In x r

-- Of two moments between the years 1970 and 2106 the later one has no fewer seconds.
seconds_before-le :
    (n n' d d' : ℕ)
    → unix_epoch * nanos_per_second ≤ n - d
    → n - d ≤ n' - d'
    → n' - d' < (unix_epoch + 2 ^ 32) * nanos_per_second
    → seconds_before n d ≤ seconds_before n' d'
unfolding seconds_before unix
seconds_before-le n n' d d' a b c = ground arith

-- Each second of the search's range is asked of the ingesters or of the backend, when the ingesters
-- are asked back to at least where the backend ends, the clock does not run backwards between its
-- two readings, and the times lie between the years 1970 and 2106.
pub requests-cover :
    (cfg : SearchSharderConfig) (now later : Time) (req : SearchRequest) (x : ℕ)
    → cfg.query_backend_after ≤ cfg.query_ingesters_until
    → now ≤ later
    → unix_epoch * nanos_per_second ≤ now - cfg.query_ingesters_until
    → later - cfg.query_backend_after < (unix_epoch + 2 ^ 32) * nanos_per_second
    → In x (req.start, req.end)
    → Asked x (ingester_request cfg now req) ⊎ In x (backend_range cfg later req)
unfolding ingester_request backend_range
requests-cover cfg now later req x c n lo hi h =
    let le =
      seconds_before-le now later cfg.query_ingesters_until cfg.query_backend_after lo (omega arith)
        hi in
    ground (arith, le)

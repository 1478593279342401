-- ===== src/Frontend/Sharding.antt =====
-- modules/frontend/searchsharding.go: the requests that one search is cut into. A request is the
-- record that its URL encodes; building that URL does not fail. Numbers of Go's `int` do not
-- overflow: `TargetBytesPerRequest` is not negative and a page is below 2^63 bytes.
pub mod Pages
pub mod Ranges
use deep.Prelude.{
  ℕ, zero, suc, ◌+◌, ◌-◌, ◌*◌, ◌/◌, ◌%◌, ◌^◌, Bytes, Bool, true, false, not, ◌&&◌, ◌||◌, List, [],
  ◌∷◌, ◌++◌, Option, none, some, filter, ltb, leb, nat_beq, if◌then◌else◌, ℤ, pos, negsuc,
}
use deep.Backend.{BlockMeta, Time, Uuid, nanos_per_second}
use deep.Compaction.Format.{unix, leb_ℤ}

pub record SearchSharderConfig : Type 0 where
  pub target_bytes_per_request : ℕ
  pub default_limit : ℕ
  pub max_limit : ℕ
  -- In nanoseconds.
  pub max_duration : ℕ
  pub query_backend_after : ℕ
  pub query_ingesters_until : ℕ

-- The bounds of a `SearchRequest`, in Unix seconds.
pub record SearchRequest : Type 0 where
  pub start : ℕ
  pub end : ℕ
  pub limit : ℕ

pub record SearchBlockRequest : Type 0 where
  pub block_id : Uuid
  pub start_page : ℕ
  pub pages_to_search : ℕ
  pub encoding : ℕ
  pub index_page_size : ℕ
  pub total_records : ℕ
  pub data_encoding : Bytes
  pub version : Bytes
  pub size : ℕ
  pub footer_size : ℕ

unfoldable pub adjust_limit : ℕ → ℕ → ℕ → ℕ
adjust_limit limit default_limit max_limit =
    if nat_beq limit 0
    then default_limit
    else (if not (nat_beq max_limit 0) && ltb max_limit limit then max_limit else limit)

-- The override of the tenant is 0 where there is none.
abbrev pub max_duration : SearchSharderConfig → ℕ → ℕ
max_duration cfg override = if not (nat_beq override 0) then override else cfg.max_duration

-- The range check of `RoundTrip`; the subtraction is that of `uint32`.
unfoldable pub exceeds_max_duration : ℕ → SearchRequest → Bool
exceeds_max_duration max_duration req =
    not (nat_beq max_duration 0)
    && ltb max_duration (((req.end + 2 ^ 32 - req.start) % 2 ^ 32) * nanos_per_second)

-- `uint32(x)`.
abbrev pub to_uint32 : ℤ → ℕ
to_uint32 (pos n) = n % 2 ^ 32
to_uint32 (negsuc n) = 2 ^ 32 - 1 - n % 2 ^ 32

-- `uint32(now.Add(-d).Unix())`.
unfoldable pub seconds_before : Time → ℕ → ℕ
unfolding unix
seconds_before now d = to_uint32 (unix (now - d))

-- The range of the request to the ingesters, where there is one.
unfoldable pub ingester_request : SearchSharderConfig → Time → SearchRequest → Option (ℕ × ℕ)
ingester_request cfg now req =
    let ingester_until = seconds_before now cfg.query_ingesters_until in
    let ingester_start = if ltb req.start ingester_until then ingester_until else req.start in
    if ltb req.end ingester_until || nat_beq ingester_start req.end
    then none
    else some (ingester_start, req.end)

unfoldable pub backend_range : SearchSharderConfig → Time → SearchRequest → ℕ × ℕ
backend_range cfg now req =
    let backend_after = seconds_before now cfg.query_backend_after in
    (
      if ltb backend_after req.start then backend_after else req.start,
      if ltb backend_after req.end then backend_after else req.end,
    )

unfoldable pub block_metas : ℤ → ℤ → List BlockMeta → List BlockMeta
unfolding unix
block_metas start end metas =
    filter (λ m. leb_ℤ (unix m.start_time) end && leb_ℤ start (unix m.end_time)) metas

abbrev pub request_of : BlockMeta → ℕ → ℕ → SearchBlockRequest
request_of m start_page pages_per_query = record {
  block_id = m.block_id;
  start_page = start_page % 2 ^ 32;
  pages_to_search = pages_per_query % 2 ^ 32;
  encoding = m.encoding;
  index_page_size = m.index_page_size;
  total_records = m.total_records;
  data_encoding = m.data_encoding;
  version = m.version;
  size = m.size;
  footer_size = m.footer_size;
}

-- `for startPage < TotalRecords`. A step is at least one page, so `TotalRecords` rounds are enough.
unfoldable pub pages_from : BlockMeta → ℕ → ℕ → ℕ → List SearchBlockRequest
pages_from m pages_per_query zero start_page = []
pages_from m pages_per_query (suc fuel) start_page =
    let rest = pages_from m pages_per_query fuel (start_page + pages_per_query) in
    if ltb start_page m.total_records then request_of m start_page pages_per_query ∷ rest else []

unfoldable pub pages_per_query : ℕ → BlockMeta → ℕ
pages_per_query target m =
    let pages = target / (m.size / m.total_records) in if nat_beq pages 0 then 1 else pages

-- The requests for one block; `none` is the error of a page of no bytes.
unfoldable pub block_requests : ℕ → BlockMeta → Option (List SearchBlockRequest)
unfolding pages_from pages_per_query
block_requests target m =
    if nat_beq m.size 0 || nat_beq m.total_records 0
    then some []
    else (if nat_beq (m.size / m.total_records) 0
        then none
        else some (pages_from m (pages_per_query target m) m.total_records 0))

unfoldable pub backend_requests : ℕ → List BlockMeta → Option (List SearchBlockRequest)
unfolding block_requests
backend_requests target [] = some []
backend_requests target (m ∷ ms) = elim (block_requests target m) [
  | none ↦ none
  | some reqs ↦ elim (backend_requests target ms) [ none ↦ none | some more ↦ some (reqs ++ more) ]
]

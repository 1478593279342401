-- ===== src/Backend.antt =====
-- pkg/deepdb/backend/block_meta.go: the description of one block in the object store.
-- A time is a number of nanoseconds since Go's zero time (1 January of year 1, UTC), so that
-- `IsZero` is a test for 0; a UUID is a 128-bit number.
mod Added
use deep.Prelude.{ℕ, ◌+◌, ◌*◌, Bytes, bytes_lt, ◌||◌, [], if◌then◌else◌, ltb, nat_beq, length}

abbrev pub Time : Type 0
Time = ℕ

abbrev pub Uuid : Type 0
Uuid = ℕ

pub record BlockMeta : Type 0 where
  pub version : Bytes
  pub block_id : Uuid
  pub min_id : Bytes
  pub max_id : Bytes
  pub tenant_id : Bytes
  pub start_time : Time
  pub end_time : Time
  pub total_objects : ℕ
  pub size : ℕ
  pub compaction_level : ℕ
  pub encoding : ℕ
  pub index_page_size : ℕ
  pub total_records : ℕ
  pub data_encoding : Bytes
  pub bloom_shard_count : ℕ
  pub footer_size : ℕ

pub record CompactedBlockMeta : Type 0 where
  pub meta : BlockMeta
  pub compacted_time : Time

unfoldable pub new_block_meta : Bytes → Uuid → Bytes → ℕ → Bytes → BlockMeta
new_block_meta tenant_id block_id version encoding data_encoding = record {
  version = version;
  block_id = block_id;
  min_id = [];
  max_id = [];
  tenant_id = tenant_id;
  start_time = 0;
  end_time = 0;
  total_objects = 0;
  size = 0;
  compaction_level = 0;
  encoding = encoding;
  index_page_size = 0;
  total_records = 0;
  data_encoding = data_encoding;
  bloom_shard_count = 0;
  footer_size = 0;
}

abbrev pub nanos_per_second : ℕ
nanos_per_second = 1_000_000_000

-- Seconds from Go's zero time to the Unix epoch.
abbrev pub unix_epoch : ℕ
unix_epoch = 62_135_596_800

-- `time.Unix(seconds, 0)` for a `uint32`.
abbrev pub time_unix : ℕ → Time
time_unix seconds = (unix_epoch + seconds) * nanos_per_second

-- A `start` of 0 leaves the times as they are.
unfoldable pub object_added : Bytes → ℕ → BlockMeta → BlockMeta
object_added id start b = record b {
  start_time =
      if ltb 0 start
      then (if nat_beq b.start_time 0 || ltb (time_unix start) b.start_time
          then time_unix start
          else b.start_time)
      else b.start_time;
  end_time =
      if ltb 0 start
      then (if nat_beq b.end_time 0 || ltb b.end_time (time_unix start)
          then time_unix start
          else b.end_time)
      else b.end_time;
  min_id = if nat_beq (length b.min_id) 0 || bytes_lt id b.min_id then id else b.min_id;
  max_id = if nat_beq (length b.max_id) 0 || bytes_lt b.max_id id then id else b.max_id;
  total_objects = b.total_objects + 1;
}

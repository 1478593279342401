-- ===== src/Collector.antt =====
-- pkg/util/distinct_string_collector.go: distinct strings up to a total size.
pub mod Sizes
use deep.Prelude.{
  ℕ, ◌+◌, Bytes, bytes_eq, Bool, ◌&&◌, List, [], ◌∷◌, length, contains, ltb, if◌then◌else◌,
}
use deep.Scheduler.QuerierOps.{sort_strings}

-- `values` are the keys of the map, the latest first.
pub record DistinctStringCollector : Type 0 where
  pub values : List Bytes
  pub max_len : ℕ
  pub curr_len : ℕ
  pub total_len : ℕ

unfoldable pub new_distinct_string_collector : ℕ → DistinctStringCollector
new_distinct_string_collector max_data_size = record {
  values = [];
  max_len = max_data_size;
  curr_len = 0;
  total_len = 0;
}

unfoldable pub collect : Bytes → DistinctStringCollector → DistinctStringCollector
collect s d =
    if contains s d.values
    then d
    else (if ltb 0 d.max_len && ltb d.max_len (d.curr_len + length s)
        then record d { total_len = d.total_len + length s }
        else record d {
          values = s ∷ d.values;
          curr_len = d.curr_len + length s;
          total_len = d.total_len + length s;
        })

unfoldable pub strings : DistinctStringCollector → List Bytes
strings d = sort_strings d.values

unfoldable pub exceeded : DistinctStringCollector → Bool
exceeded d = ltb d.curr_len d.total_len

unfoldable pub total_data_size : DistinctStringCollector → ℕ
total_data_size d = d.total_len

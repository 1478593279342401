-- ===== src/Collector/Sizes.antt =====
-- The sizes that pkg/util/distinct_string_collector.go keeps.
use deep.Prelude.{
  ℕ, ◌+◌, ◌≤◌, Bytes, bytes_eq, List, [], ◌∷◌, ◌≡◌, ◌⊎◌, inl, inr, refl, length, contains, Distinct,
  ltb, ◌&&◌, false, Bool-cases, arith,
}
use deep.Collector.{DistinctStringCollector, new_distinct_string_collector, collect}

abbrev pub size : List Bytes → ℕ
size [] = 0
size (s ∷ ss) = length s + size ss

-- The kept strings are distinct, of the size counted, within a limit that is not 0, and no more than
-- all that came.
pub record IsSized (d : DistinctStringCollector) : Type 0 where
  pub distinct : Distinct d.values
  pub counted : d.curr_len ≡ size d.values
  pub bounded : (d.max_len ≡ 0) ⊎ (d.curr_len ≤ d.max_len)
  pub seen : d.curr_len ≤ d.total_len

within_limit : (m n : ℕ) {k : ℕ} → (ltb 0 m && ltb m n) ≡ false → k ≤ m → (m ≡ 0) ⊎ (n ≤ m)
within_limit m n h b = ground arith

pub collect-IsSized : (s : Bytes) (d : DistinctStringCollector) → IsSized d → IsSized (collect s d)
unfolding collect
collect-IsSized s d h = elim (Bool-cases (contains s d.values)) [
  | inl y ↦ rw y h
  | inr n ↦ rw n (elim (Bool-cases (ltb 0 d.max_len && ltb d.max_len (d.curr_len + length s))) [
    | inl y ↦ rw y (record {
      distinct = h.distinct;
      counted = h.counted;
      bounded = h.bounded;
      seen = omega (arith, h.seen);
    })
    | inr m ↦ rw m (record {
      distinct = (n, h.distinct);
      counted = omega (arith, h.counted);
      bounded = elim h.bounded [
        | inl z ↦ inl z
        | inr b ↦ within_limit d.max_len (d.curr_len + length s) m b
      ];
      seen = omega (arith, h.seen);
    })
  ])
]

-- Any strings collected one after the other.
unfoldable pub collect_all : List Bytes → DistinctStringCollector → DistinctStringCollector
collect_all [] d = d
collect_all (s ∷ ss) d = collect_all ss (collect s d)

collect_all_keeps :
    (ss : List Bytes) (d : DistinctStringCollector) → IsSized d → IsSized (collect_all ss d)
unfolding collect_all
collect_all_keeps [] d h = h
collect_all_keeps (s ∷ ss) d h = collect_all_keeps ss (collect s d) (collect-IsSized s d h)

new-IsSized : (limit : ℕ) → IsSized (new_distinct_string_collector limit)
unfolding new_distinct_string_collector
new-IsSized limit = record {
  distinct = tt;
  counted = refl;
  bounded = inr (ground arith);
  seen = omega arith;
}

-- After any strings the collector keeps distinct ones, counts their size, and stays within its
-- limit unless that is 0.
pub collect_all-IsSized :
    (limit : ℕ) (ss : List Bytes) → IsSized (collect_all ss (new_distinct_string_collector limit))
collect_all-IsSized limit ss =
    collect_all_keeps ss (new_distinct_string_collector limit) (new-IsSized limit)

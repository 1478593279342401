-- ===== src/Frontend/Response/Combining.antt =====
-- What the map of modules/frontend/search_response.go keeps of the snapshots with one ID.
use deep.Prelude.{
  ℕ, Bytes, bytes_beq, bytes_beq_iff, bytes_eq, List, [], ◌∷◌, Option, none, some, Map, get,
  get-put, ◌≡◌, refl, sym, ap, ◌∙◌, ltb, if◌then◌else◌, arith, Bool-cases, inl, inr,
}
use deep.Frontend.Response.{
  SnapshotSearchMetadata, merged, combine_search_results, add_snapshot, add_snapshots,
}

-- A start time and a duration.
abbrev pub Span : Type 0
Span = ℕ × ℕ

abbrev pub span_of : Option SnapshotSearchMetadata → Option Span
span_of none = none
span_of (some t) = some (t.start_time_unix_nano, t.duration_nano)

-- The earlier start and the longer duration.
abbrev pub join : Option Span → Option Span → Option Span
join none b = b
join (some a) none = some a
join (some (s, d)) (some (s', d')) = some (if ltb s' s then s' else s, if ltb d d' then d' else d)

-- The earliest start and the longest duration among the snapshots of one ID.
abbrev pub widest : Bytes → List SnapshotSearchMetadata → Option Span
widest k [] = none
widest k (t ∷ ts) =
    if bytes_beq t.snapshot_id k
    then join (some (t.start_time_unix_nano, t.duration_nano)) (widest k ts)
    else widest k ts

join_assoc : (a b c : Option Span) → join (join a b) c ≡ join a (join b c)
join_assoc none b c = refl
join_assoc (some a) none c = refl
join_assoc (some a) (some b) none = refl
join_assoc (some (a, b)) (some (c, d)) (some (e, f)) = ground arith

join_comm : (a b : Option Span) → join a b ≡ join b a
join_comm none none = refl
join_comm none (some b) = refl
join_comm (some a) none = refl
join_comm (some (a, b)) (some (c, d)) = ground arith

span-merged :
    (t : SnapshotSearchMetadata) (o : Option SnapshotSearchMetadata)
    → span_of (some (merged t o))
      ≡ join (span_of o) (some (t.start_time_unix_nano, t.duration_nano))
unfolding combine_search_results
span-merged t none = refl
span-merged t (some s) = refl

span-add_snapshot :
    (k : Bytes) (t : SnapshotSearchMetadata) (m : Map Bytes SnapshotSearchMetadata)
    → span_of (get k (add_snapshot t m)) ≡ join (span_of (get k m)) (widest k (t ∷ []))
unfolding add_snapshot
span-add_snapshot k t m =
    ap span_of (get-put t.snapshot_id k (merged t (get t.snapshot_id m)) m)
    ∙ elim (Bool-cases (bytes_beq t.snapshot_id k)) [
      | inl y ↦
          let e = (bytes_beq_iff t.snapshot_id k).0 y in
          rw y (
            span-merged t (get t.snapshot_id m)
            ∙ ap (λ i. join (span_of (get i m)) (some (t.start_time_unix_nano, t.duration_nano))) e)
      | inr n ↦ rw n (join_comm none (span_of (get k m)))
    ]

widest-first :
    (k : Bytes) (t : SnapshotSearchMetadata) (ts : List SnapshotSearchMetadata)
    → join (widest k (t ∷ [])) (widest k ts) ≡ widest k (t ∷ ts)
widest-first k t ts = elim (Bool-cases (bytes_beq t.snapshot_id k)) [
  | inl y ↦ rw y refl
  | inr n ↦ rw n refl
]

-- What the map holds of an ID after a list of snapshots: of those of that ID, and the one that it
-- held, the earliest start and the longest duration.
pub span-add_snapshots :
    (k : Bytes) (ts : List SnapshotSearchMetadata) (m : Map Bytes SnapshotSearchMetadata)
    → span_of (get k (add_snapshots ts m)) ≡ join (span_of (get k m)) (widest k ts)
unfolding add_snapshots
span-add_snapshots k [] m = join_comm none (span_of (get k m))
span-add_snapshots k (t ∷ ts) m =
    span-add_snapshots k ts (add_snapshot t m)
    ∙ ap (λ o. join o (widest k ts)) (span-add_snapshot k t m)
    ∙ join_assoc (span_of (get k m)) (widest k (t ∷ [])) (widest k ts)
    ∙ ap (join (span_of (get k m))) (widest-first k t ts)

-- The start time and the duration kept of an ID do not depend on which of two answers came first.
pub add_snapshots_comm :
    (k : Bytes) (ts us : List SnapshotSearchMetadata) (m : Map Bytes SnapshotSearchMetadata)
    → span_of (get k (add_snapshots ts (add_snapshots us m)))
      ≡ span_of (get k (add_snapshots us (add_snapshots ts m)))
add_snapshots_comm k ts us m =
    let swap : (a b c : Option Span) → join (join a b) c ≡ join (join a c) b =
      λ a b c. join_assoc a b c ∙ ap (join a) (join_comm b c) ∙ sym (join_assoc a c b) in
    span-add_snapshots k ts (add_snapshots us m)
    ∙ ap (λ o. join o (widest k ts)) (span-add_snapshots k us m)
    ∙ swap (span_of (get k m)) (widest k us) (widest k ts)
    ∙ sym (
        span-add_snapshots k us (add_snapshots ts m)
        ∙ ap (λ o. join o (widest k us)) (span-add_snapshots k ts m))

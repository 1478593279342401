-- ===== src/Tracepoints/Query/Deletion.antt =====
-- What a command leaves of the tracepoints.
use deep.Prelude.{
  ℕ, subst, ◌≡◌, refl, sym, ap, Bytes, bytes_eq, bytes_beq, bytes_beq_iff, Bool, true, false, not,
  List, [], ◌∷◌, Option, some, Bool-cases, All, Distinct, contains, filter, if◌then◌else◌, arith,
  inl, inr,
}
use deep.Tracepoints.Config.{TracePointConfig}
use deep.Tracepoints.Block.{TpBlock}
use deep.Tracepoints.Block.Deleting.{without}
use deep.Tracepoints.Store.{OrgStore}
use deep.Tracepoints.Store.Refines.{History, History-Refines, delete_tracepoints-History}
use deep.Tracepoints.Query.{
  CommandRequest, Condition, QueryResult, matched, found, find_tracepoints, load_all, queried,
  ids_of, delete_type, run_query,
}

module _ (regex : Bytes → Bytes → Option Bool) where
  -- The tracepoints that do not meet the conditions.
  abbrev pub unmatched : List Condition → List TracePointConfig → List TracePointConfig
  unmatched conditions tps =
      filter (λ (tp : TracePointConfig). not (matched regex conditions tp)) tps

  contains-found :
      (id : Bytes) (conditions : List Condition) (tps : List TracePointConfig)
      → contains id (ids_of tps) ≡ false
      → contains id (ids_of (found regex conditions tps)) ≡ false
  unfolding found
  contains-found id conditions [] h = refl
  contains-found id conditions (t ∷ tps) h = ground (arith, h, contains-found id conditions tps)

  found-Distinct :
      (conditions : List Condition) (tps : List TracePointConfig)
      → Distinct (ids_of tps)
      → Distinct (ids_of (found regex conditions tps))
  unfolding found
  found-Distinct conditions [] d = tt
  found-Distinct conditions (t ∷ tps) d =
      ground (arith, contains-found t.id conditions tps d.0, found-Distinct conditions tps d.1)

  -- Of the tracepoints `xs`, `ids` are those that meet the conditions.
  abbrev Deletes : List Condition → List Bytes → List TracePointConfig → Type 0
  Deletes conditions ids xs =
      All (λ (x : TracePointConfig). contains x.id ids ≡ matched regex conditions x) xs

  without-ids :
      (conditions : List Condition) (ids : List Bytes) (xs : List TracePointConfig)
      → Deletes conditions ids xs
      → without ids xs ≡ unmatched conditions xs
  without-ids conditions ids [] a = refl
  without-ids conditions ids (x ∷ xs) a = ground (arith, a.0, without-ids conditions ids xs a.1)

  one_more :
      (conditions : List Condition) (id : Bytes) (ids : List Bytes) (xs : List TracePointConfig)
      → contains id (ids_of xs) ≡ false
      → Deletes conditions ids xs
      → Deletes conditions (id ∷ ids) xs
  one_more conditions id ids [] h a = tt
  one_more conditions id ids (x ∷ xs) h a = (
    ground (arith, h, a.0, bytes_beq_iff x.id id, bytes_beq_iff id x.id),
    one_more conditions id ids xs (ground (arith, h)) a.1,
  )

  found-ids :
      (conditions : List Condition) (tps : List TracePointConfig)
      → Distinct (ids_of tps)
      → Deletes conditions (ids_of (found regex conditions tps)) tps
  unfolding found
  found-ids conditions [] d = tt
  found-ids conditions (t ∷ tps) d = elim (Bool-cases (matched regex conditions t)) [
    | inl e ↦
        let more : t.id ∷ ids_of (found regex conditions tps)
            ≡ ids_of (found regex conditions (t ∷ tps)) =
          ground (arith, e) in
        subst (λ (ids : List Bytes). Deletes conditions ids (t ∷ tps)) more
          (
            rw e (ground (arith, bytes_beq_iff t.id t.id)),
            one_more conditions t.id (ids_of (found regex conditions tps)) tps d.0
                (found-ids conditions tps d.1),
          )
    | inr n ↦
        let same : ids_of (found regex conditions tps) ≡ ids_of (found regex conditions (t ∷ tps)) =
          ground (arith, n) in
        subst (λ (ids : List Bytes). Deletes conditions ids (t ∷ tps)) same
          (rw n (contains-found t.id conditions tps d.0), found-ids conditions tps d.1)
  ]

  without-found :
      (conditions : List Condition) (tps : List TracePointConfig)
      → Distinct (ids_of tps)
      → without (ids_of (found regex conditions tps)) tps ≡ unmatched conditions tps
  without-found conditions tps d =
      without-ids conditions (ids_of (found regex conditions tps)) tps (found-ids conditions tps d)

  module _ (hash : Bytes → ℕ) where
    -- What a command answers, and where it leaves the tenant's tracepoints.
    pub record Commanded (b : TpBlock) (request : CommandRequest) (tps : List TracePointConfig)
        (r : QueryResult) : Type 0 where
      pub left : List TracePointConfig
      pub leaves : left ≡ (
          if bytes_beq request.command delete_type then unmatched request.conditions tps else tps)
      pub reached : History hash b r.store left
      pub affects : r.affected ≡ found regex request.conditions tps
      pub shows : r.all ≡ left

    run_query-deletes :
        {b : TpBlock} {os : OrgStore} {tps : List TracePointConfig} (request : CommandRequest)
        (h : History hash b os tps)
        → Distinct (ids_of tps)
        → os.block.tps ≡ tps
        → bytes_beq request.command delete_type ≡ true
        → (r : QueryResult) × (run_query hash regex request os ≡ some r) × Commanded b request tps r
    unfolding run_query find_tracepoints load_all
    run_query-deletes {b} {os} {tps} request h d held e =
        let asked = ap (found regex request.conditions) held in
        let (os', done, h') =
          delete_tracepoints-History hash (ids_of (found regex request.conditions os.block.tps)) h (
            subst (λ (l : List TracePointConfig). Distinct (ids_of l)) (sym asked)
              (found-Distinct request.conditions tps d)) in
        (
          queried (found regex request.conditions os.block.tps) os',
          ground (arith, e, done),
          record {
            left = without (ids_of (found regex request.conditions os.block.tps)) tps;
            leaves = rw (e, asked) (without-found request.conditions tps d);
            reached = h';
            affects = asked;
            shows = (History-Refines hash h').0;
          },
        )

    run_query-lists :
        {b : TpBlock} {os : OrgStore} {tps : List TracePointConfig} (request : CommandRequest)
        (h : History hash b os tps)
        → os.block.tps ≡ tps
        → bytes_beq request.command delete_type ≡ false
        → (r : QueryResult) × (run_query hash regex request os ≡ some r) × Commanded b request tps r
    unfolding run_query find_tracepoints load_all
    run_query-lists {b} {os} {tps} request h held n = (
      queried (found regex request.conditions os.block.tps) os,
      ground (arith, n),
      record {
        left = tps;
        leaves = rw n refl;
        reached = h;
        affects = ap (found regex request.conditions) held;
        shows = held;
      },
    )

    -- After any history in which the tenant's tracepoints came to have different IDs, a command
    -- does not panic; it reports the tracepoints that meet all its conditions, a delete command
    -- leaves exactly the others, any other command leaves all, and those left are what it shows.
    pub run_query-Commanded :
        {b : TpBlock} {os : OrgStore} {tps : List TracePointConfig} (request : CommandRequest)
        → History hash b os tps
        → Distinct (ids_of tps)
        → (r : QueryResult) × (run_query hash regex request os ≡ some r) × Commanded b request tps r
    run_query-Commanded {b} {os} {tps} request h d =
        let held = (History-Refines hash h).0 in
        elim (Bool-cases (bytes_beq request.command delete_type)) [
          | inl e ↦ run_query-deletes request h d held e
          | inr n ↦ run_query-lists request h held n
        ]

-- ===== src/BlockList/Poller/Index.antt =====
-- Tenant indexes, and what a poll makes of the block list.
use deep.Prelude.{
  ℕ, subst, ◌-◌, ◌≤◌, ◌≡◌, ◌≢◌, refl, sym, ap, ◌∙◌, Bytes, bytes_eq, bytes_beq, bytes_beq_iff, Bool,
  true, false, List, [], ◌∷◌, some, Map, get, put, get-put, contains, Bool-cases, ◌⊎◌, inl, inr,
  arith,
}
use deep.Backend.{BlockMeta, CompactedBlockMeta, Time}
use deep.BlockList.{
  BlockList, at, metas_of, compacted_metas_of, apply_poll_results, update_blocks, block_uuid,
  compacted_uuid,
}
use deep.BlockList.Polling.{IsValid, metas_of-apply_poll_results}
use deep.BlockList.Poller.{
  Store, ok, TenantIndex, PollerConfig, Result, done, error, Lists, poll_tenant_blocks,
  tenant_index_poll_error, build_tenant_index, written, from_index, poll_tenant_and_create_index,
  poll_tenants, do_poll, lives_of, compacteds_of, poll_blocklist,
}

Result-cases : {A : Type 0} (r : Result A) → ((a : A) × (r ≡ done a)) ⊎ ((e : ℕ) × (r ≡ error e))
Result-cases (done a) = inl (a, refl)
Result-cases (error e) = inr (e, refl)

module _ (cfg : PollerConfig) (owns : Bytes → Bool) (now : Time) (store : Store) where
  -- The lists that a poll finds for one tenant.
  abbrev pub found_for : Bytes → Result Lists
  found_for t = (poll_tenant_and_create_index cfg owns now store t []).1

  written-answer :
      (t : Bytes) (indexes : Map Bytes Lists) (r : Result Lists)
      → (written cfg owns now store t indexes r).1 ≡ r
  written-answer t indexes (done l) = refl
  written-answer t indexes (error e) = refl

  from_index-answer :
      (t : Bytes) (indexes : Map Bytes Lists) (r : Result TenantIndex)
      → (from_index cfg owns now store t indexes r).1 ≡ (from_index cfg owns now store t [] r).1
  from_index-answer t indexes (done i) = refl
  from_index-answer t indexes (error e) = ground (
    arith,
    written-answer t indexes (poll_tenant_blocks store t),
    written-answer t [] (poll_tenant_blocks store t),
  )

  answer_lem :
      (t : Bytes) (indexes : Map Bytes Lists)
      → (poll_tenant_and_create_index cfg owns now store t indexes).1 ≡ found_for t
  unfolding poll_tenant_and_create_index
  answer_lem t indexes = ground (
    arith,
    written-answer t indexes (poll_tenant_blocks store t),
    written-answer t [] (poll_tenant_blocks store t),
    from_index-answer t indexes (tenant_index_poll_error cfg now (store.tenant_index t)),
  )

  -- Every tenant of the list was polled without error, and `m` has what was found, and what `found`
  -- has for the others.
  abbrev HasAll : List Bytes → Map Bytes Lists → Map Bytes Lists → Type 0
  HasAll ts found m =
      (t : Bytes)
      → ((contains t ts ≡ false) × (get t m ≡ get t found))
        ⊎ ((contains t ts ≡ true)
            × (lists : Lists) × (found_for t ≡ done lists)
            × (get t m ≡ some lists))

  -- The first poll that fails.
  abbrev HasFailed : List Bytes → ℕ → Type 0
  HasFailed ts e = (t : Bytes) × (contains t ts ≡ true) × (found_for t ≡ error e)

  abbrev PollsTo : List Bytes → Map Bytes Lists → Result (Map Bytes Lists) → Type 0
  PollsTo ts found (done m) = HasAll ts found m
  PollsTo ts found (error e) = HasFailed ts e

  HasAll-step :
      (t : Bytes) (ts : List Bytes) (found m : Map Bytes Lists) (lists : Lists)
      → found_for t ≡ done lists
      → HasAll ts (put t lists found) m
      → HasAll (t ∷ ts) found m
  HasAll-step t ts found m lists f h s = elim (h s) [
    | inl (absent, got) ↦ elim (Bool-cases (bytes_beq s t)) [
      | inl e ↦
          let same : t ≡ s = sym ((bytes_beq_iff s t).0 e) in
          inr (
            ground (arith, e),
            lists,
            subst (λ (u : Bytes). found_for u ≡ done lists) same f,
            ground (arith, got, e, get-put t s lists found, bytes_beq_iff t s, bytes_beq_iff s t),
          )
      | inr n ↦ inl (
        ground (arith, n, absent),
        ground (arith, got, n, get-put t s lists found, bytes_beq_iff t s, bytes_beq_iff s t),
      )
    ]
    | inr (present, l, f', got) ↦ inr (ground (arith, present), l, f', got)
  ]

  PollsTo-step :
      (t : Bytes) (ts : List Bytes) (found : Map Bytes Lists) (lists : Lists)
      (r : Result (Map Bytes Lists))
      → found_for t ≡ done lists
      → PollsTo ts (put t lists found) r
      → PollsTo (t ∷ ts) found r
  PollsTo-step t ts found lists (done m) f h = HasAll-step t ts found m lists f h
  PollsTo-step t ts found lists (error e) f (s, present, f') = (s, ground (arith, present), f')

  step_error :
      (t : Bytes) (ts : List Bytes) (found indexes : Map Bytes Lists) (e : ℕ)
      → found_for t ≡ error e
      → error e ≡ (poll_tenants cfg owns now store (t ∷ ts) found indexes).1
  unfolding poll_tenants
  step_error t ts found indexes e h = ground (arith, h, answer_lem t indexes)

  step_done :
      (t : Bytes) (ts : List Bytes) (found indexes : Map Bytes Lists) (lists : Lists)
      → found_for t ≡ done lists
      → poll_tenants cfg owns now store ts
          (put t lists found)
          (poll_tenant_and_create_index cfg owns now store t indexes).0
        ≡ poll_tenants cfg owns now store (t ∷ ts) found indexes
  unfolding poll_tenants
  step_done t ts found indexes lists h = ground (arith, h, answer_lem t indexes)

  poll_tenants-PollsTo :
      (ts : List Bytes) (found indexes : Map Bytes Lists)
      → PollsTo ts found (poll_tenants cfg owns now store ts found indexes).1
  unfolding poll_tenants
  poll_tenants-PollsTo [] found indexes = λ s. inl (refl, refl)
  poll_tenants-PollsTo (t ∷ ts) found indexes = elim (Result-cases (found_for t)) [
    | inl (lists, h) ↦
        subst (λ (p : Map Bytes Lists × Result (Map Bytes Lists)). PollsTo (t ∷ ts) found p.1)
          (step_done t ts found indexes lists h)
          (PollsTo-step t ts found lists
            (poll_tenants cfg owns now store ts (put t lists found)
              (poll_tenant_and_create_index cfg owns now store t indexes).0).1
            h
            (poll_tenants-PollsTo ts (put t lists found)
              (poll_tenant_and_create_index cfg owns now store t indexes).0))
    | inr (e, h) ↦
        subst (λ (r : Result (Map Bytes Lists)). PollsTo (t ∷ ts) found r)
          (step_error t ts found indexes e h) (t, ground (arith, bytes_beq_iff t t), h)
  ]

  at-lives :
      (t : Bytes) (m : Map Bytes Lists) (lists : Lists)
      → get t m ≡ some lists
      → at t (lives_of cfg owns now store m) ≡ lists.0
  at-lives t [] lists h = cc
  at-lives t ((s, l) ∷ m) lists h = ground (arith, h, at-lives t m lists)

  at-compacteds :
      (t : Bytes) (m : Map Bytes Lists) (lists : Lists)
      → get t m ≡ some lists
      → at t (compacteds_of cfg owns now store m) ≡ lists.1
  at-compacteds t [] lists h = cc
  at-compacteds t ((s, l) ∷ m) lists h = ground (arith, h, at-compacteds t m lists)

  -- What a poll makes of the list `l` for a tenant whose poll finds `lists`.
  pub record Refreshed (t : Bytes) (l polled : BlockList) : Type 0 where
    pub lists : Lists
    pub found : found_for t ≡ done lists
    pub metas : metas_of t polled ≡ update_blocks block_uuid lists.0 (at t l.added) (at t l.removed)
    pub compacted_metas :
        compacted_metas_of t polled
        ≡ update_blocks compacted_uuid lists.1 (at t l.compacted_added) (at t l.compacted_removed)

  poll_blocklist-error :
      (ts : List Bytes) (indexes : Map Bytes Lists) (l : BlockList) (e : ℕ)
      → store.tenants ≡ ok ts
      → (poll_tenants cfg owns now store ts [] indexes).1 ≡ error e
      → poll_blocklist cfg owns now store indexes l ≡ l
  unfolding poll_blocklist do_poll
  poll_blocklist-error ts indexes l e h k = ground (arith, h, k)

  poll_blocklist-done :
      (ts : List Bytes) (indexes : Map Bytes Lists) (l : BlockList) (m : Map Bytes Lists)
      → store.tenants ≡ ok ts
      → (poll_tenants cfg owns now store ts [] indexes).1 ≡ done m
      → apply_poll_results (lives_of cfg owns now store m) (compacteds_of cfg owns now store m) l
        ≡ poll_blocklist cfg owns now store indexes l
  unfolding poll_blocklist do_poll
  poll_blocklist-done ts indexes l m h k = ground (arith, h, k)

  Refreshed-by :
      (t : Bytes) (l : BlockList) (m : Map Bytes Lists) (lists : Lists)
      → IsValid l
      → t ≢ []
      → found_for t ≡ done lists
      → get t m ≡ some lists
      → Refreshed t l (
          apply_poll_results (lives_of cfg owns now store m) (compacteds_of cfg owns now store m) l)
  Refreshed-by t l m lists v n f got =
      let (p, q) =
        metas_of-apply_poll_results (lives_of cfg owns now store m)
          (compacteds_of cfg owns now store m) l v t n in
      record {
        lists = lists;
        found = f;
        metas =
            p
            ∙ ap
                (λ (bs : List BlockMeta).
                  update_blocks block_uuid bs (at t l.added) (at t l.removed))
                (at-lives t m lists got);
        compacted_metas =
            q
            ∙ ap
                (λ (bs : List CompactedBlockMeta).
                  update_blocks compacted_uuid bs (at t l.compacted_added)
                    (at t l.compacted_removed))
                (at-compacteds t m lists got);
      }

  -- Where the tenants can be listed and the list has valid local changes, either the poll of some
  -- tenant fails and the block list stays as it was, or every tenant whose id is not empty has
  -- what its own poll found, with the local changes made once more.
  pub poll_blocklist-Refreshed :
      (ts : List Bytes) (indexes : Map Bytes Lists) (l : BlockList)
      → store.tenants ≡ ok ts
      → IsValid l
      → (((t : Bytes) × (e : ℕ) × (contains t ts ≡ true) × (found_for t ≡ error e))
          × (poll_blocklist cfg owns now store indexes l ≡ l))
        ⊎ ((t : Bytes)
            → t ≢ []
            → contains t ts ≡ true
            → Refreshed t l (poll_blocklist cfg owns now store indexes l))
  poll_blocklist-Refreshed ts indexes l h v =
      elim (Result-cases (poll_tenants cfg owns now store ts [] indexes).1) [
        | inl (m, k) ↦
            let all = subst (PollsTo ts []) k (poll_tenants-PollsTo ts [] indexes) in
            inr (λ t n present.
              subst (Refreshed t l) (poll_blocklist-done ts indexes l m h k) (elim (all t) [
                | inl (absent, got) ↦ absurd (ground (arith, absent, present))
                | inr (_, lists, f, got) ↦ Refreshed-by t l m lists v n f got
              ]))
        | inr (e, k) ↦
            let (t, present, f) = subst (PollsTo ts []) k (poll_tenants-PollsTo ts [] indexes) in
            inl ((t, e, present, f), poll_blocklist-error ts indexes l e h k)
      ]

  -- Where another process wrote the index with its lists, and it is not stale, a process that does
  -- not build the index of that tenant polls the same lists, and writes nothing.
  pub poll_tenant_and_create_index-shared :
      (t : Bytes) (lists : Lists) (created : Time) (indexes : Map Bytes Lists)
      → build_tenant_index cfg owns now store t ≡ false
      → store.tenant_index t
        ≡ ok (record { created_at = created; meta = lists.0; compacted_meta = lists.1 })
      → now - created ≤ cfg.stale_tenant_index
      → poll_tenant_and_create_index cfg owns now store t indexes ≡ (indexes, done lists)
  unfolding poll_tenant_and_create_index tenant_index_poll_error
  poll_tenant_and_create_index-shared t lists created indexes n h fresh =
      ground (arith, n, h, fresh)

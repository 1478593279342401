-- ===== src/BlockList/Polling.antt =====
-- Local changes and polls of the backend.
use deep.Prelude.{
  ◌≡◌, ◌≢◌, refl, sym, ◌∙◌, inl, inr, Bytes, bytes_eq, bytes_beq_iff, true, false, List, [], ◌∷◌,
  ◌++◌, Map, put, keys, get-put, put-Distinct, contains-keys-put, map, nat_eq, ◌&&◌, ◌||◌, not,
  contains, contains-append, ap, beq_refl, Distinct, if◌then◌else◌, arith, Bool-cases,
}
use deep.Backend.{BlockMeta, CompactedBlockMeta, Uuid}
use deep.BlockList.Blocks.{map-append, contains-update_blocks, update_blocks-nil}
use deep.BlockList.{
  BlockList, at, block_uuid, compacted_uuid, update_blocks, update_internal, update, reapply,
  clear_local, apply_poll_results, metas_of, compacted_metas_of, new,
}

-- Each tenant has one entry among the local changes, and a tenant that the loop of
-- `ApplyPollResults` does not visit has no local changes of any kind.
pub record IsValid (l : BlockList) : Type 0 where
  pub one_entry : Distinct (keys l.added)
  pub covered :
      (t : Bytes)
      → contains t (keys l.added) ≡ false
      → (at t l.added ≡ [])
        × (at t l.removed ≡ [])
        × (at t l.compacted_added ≡ [])
        × (at t l.compacted_removed ≡ [])

at-put {ℓ} :
    {B : Type ℓ} (t s : Bytes) (bs : List B) (m : Map Bytes (List B))
    → at s (put t bs m) ≡ (if bytes_eq.beq t s then bs else at s m)
at-put t s bs m = ground (arith, get-put t s bs m)

at-put_self {ℓ} :
    {B : Type ℓ} (t : Bytes) (bs : List B) (m : Map Bytes (List B)) → at t (put t bs m) ≡ bs
at-put_self t bs m = at-put t t bs m ∙ rw (beq_refl bytes_eq t)

at-put_change {ℓ} :
    {B : Type ℓ} (f : List B → List B) (t s : Bytes) (m : Map Bytes (List B))
    → at s (put t (f (at t m)) m) ≡ (if bytes_eq.beq t s then f (at s m) else at s m)
at-put_change f t s m = ground (arith, at-put t s (f (at t m)) m, bytes_beq_iff t s)

pub new-IsValid : IsValid new
unfolding new
new-IsValid = record { one_entry = tt; covered = λ t _. (refl, refl, refl, refl) }

-- `Update` keeps the local changes in order.
pub update-IsValid :
    (t : Bytes) (add remove : List BlockMeta) (cadd cremove : List CompactedBlockMeta)
    (l : BlockList)
    → IsValid l
    → IsValid (update t add remove cadd cremove l)
unfolding update
update-IsValid [] add remove cadd cremove l v = v
update-IsValid (c ∷ cs) add remove cadd cremove l v = record {
  one_entry = put-Distinct (c ∷ cs) _ l.added v.one_entry;
  covered = λ t n. ground (
    arith,
    n,
    v.covered t,
    contains-keys-put t (c ∷ cs) (at (c ∷ cs) l.added ++ add) l.added,
    at-put (c ∷ cs) t (at (c ∷ cs) l.added ++ add) l.added,
    at-put (c ∷ cs) t (at (c ∷ cs) l.removed ++ remove) l.removed,
    at-put (c ∷ cs) t (at (c ∷ cs) l.compacted_added ++ cadd) l.compacted_added,
    at-put (c ∷ cs) t (at (c ∷ cs) l.compacted_removed ++ cremove) l.compacted_removed,
  );
}

-- After an `Update` of a tenant whose id is not empty, that tenant's blocks are its former blocks
-- with the change applied, and every other tenant's blocks are as they were.
pub metas_of-update :
    (t s : Bytes) (add remove : List BlockMeta) (cadd cremove : List CompactedBlockMeta)
    (l : BlockList)
    → t ≢ []
    → (metas_of s (update t add remove cadd cremove l) ≡ (
        if bytes_eq.beq t s
        then update_blocks block_uuid (metas_of s l) add remove
        else metas_of s l))
      × (compacted_metas_of s (update t add remove cadd cremove l) ≡ (
          if bytes_eq.beq t s
          then update_blocks compacted_uuid (compacted_metas_of s l) cadd cremove
          else compacted_metas_of s l))
unfolding update metas_of compacted_metas_of
metas_of-update [] s add remove cadd cremove l h = absurd (h refl)
metas_of-update (c ∷ cs) [] add remove cadd cremove l h = (refl, refl)
metas_of-update (c ∷ cs) (d ∷ ds) add remove cadd cremove l h = (
  at-put_change (λ bs. update_blocks block_uuid bs add remove) (c ∷ cs) (d ∷ ds) l.metas,
  at-put_change (λ bs. update_blocks compacted_uuid bs cadd cremove) (c ∷ cs) (d ∷ ds)
      l.compacted_metas,
)

-- The tenants' blocks after the loop of `ApplyPollResults`.
metas-reapply :
    (ts : List Bytes) (s : Bytes) (l : BlockList)
    → Distinct ts
    → at s (reapply ts l).metas ≡ (
        if contains s ts
        then update_blocks block_uuid (at s l.metas) (at s l.added) (at s l.removed)
        else at s l.metas)
unfolding reapply update_internal
metas-reapply [] s l d = refl
metas-reapply (t ∷ ts) s l d =
    metas-reapply ts s (update_internal t _ _ _ _ l) d.1
    ∙ ground (
      arith,
      bytes_beq_iff t s,
      bytes_beq_iff s t,
      d.0,
      at-put t s (update_blocks block_uuid (at t l.metas) (at t l.added) (at t l.removed)) l.metas,
    )

compacted_metas-reapply :
    (ts : List Bytes) (s : Bytes) (l : BlockList)
    → Distinct ts
    → at s (reapply ts l).compacted_metas ≡ (
        if contains s ts
        then update_blocks compacted_uuid
            (at s l.compacted_metas)
            (at s l.compacted_added)
            (at s l.compacted_removed)
        else at s l.compacted_metas)
unfolding reapply update_internal
compacted_metas-reapply [] s l d = refl
compacted_metas-reapply (t ∷ ts) s l d =
    compacted_metas-reapply ts s (update_internal t _ _ _ _ l) d.1
    ∙ ground (
      arith,
      bytes_beq_iff t s,
      bytes_beq_iff s t,
      d.0,
      at-put t s
          (update_blocks compacted_uuid (at t l.compacted_metas) (at t l.compacted_added)
            (at t l.compacted_removed))
          l.compacted_metas,
    )

module _ (m : Map Bytes (List BlockMeta)) (c : Map Bytes (List CompactedBlockMeta)) (l : BlockList)
    (v : IsValid l) where
  -- After a poll of a list with valid local changes, the blocks of each tenant whose id is not empty
  -- are those that the backend reported, with the tenant's local changes made once more.
  pub metas_of-apply_poll_results :
      (s : Bytes)
      → s ≢ []
      → (metas_of s (apply_poll_results m c l)
          ≡ update_blocks block_uuid (at s m) (at s l.added) (at s l.removed))
        × (compacted_metas_of s (apply_poll_results m c l)
            ≡ update_blocks compacted_uuid
                (at s c)
                (at s l.compacted_added)
                (at s l.compacted_removed))
  unfolding metas_of compacted_metas_of apply_poll_results
  metas_of-apply_poll_results [] h = absurd (h refl)
  metas_of-apply_poll_results (d ∷ ds) h = elim (Bool-cases (contains (d ∷ ds) (keys l.added))) [
    | inl y ↦ (
      metas-reapply (keys l.added) (d ∷ ds) polled v.one_entry ∙ rw y,
      compacted_metas-reapply (keys l.added) (d ∷ ds) polled v.one_entry ∙ rw y,
    )
    | inr n ↦
        let (a, r, ca, cr) = v.covered (d ∷ ds) n in
        (
          metas-reapply (keys l.added) (d ∷ ds) polled v.one_entry
              ∙ rw (n, a, r) (sym (update_blocks-nil block_uuid (at (d ∷ ds) m))),
          compacted_metas-reapply (keys l.added) (d ∷ ds) polled v.one_entry
              ∙ rw (n, ca, cr) (sym (update_blocks-nil compacted_uuid (at (d ∷ ds) c))),
        )
  ]
    where
      polled : BlockList
      polled = record l { metas = m; compacted_metas = c }

  -- A poll leaves no local changes.
  pub apply_poll_results-IsValid : IsValid (apply_poll_results m c l)
  unfolding apply_poll_results
  apply_poll_results-IsValid = record { one_entry = tt; covered = λ t _. (refl, refl, refl, refl) }

-- What `Update` saves off for the next poll.
pending-update :
    (t : Bytes) (add remove : List BlockMeta) (cadd cremove : List CompactedBlockMeta)
    (l : BlockList)
    → t ≢ []
    → let l' = update t add remove cadd cremove l in
      (at t l'.added ≡ at t l.added ++ add) × (at t l'.removed ≡ at t l.removed ++ remove)
unfolding update
pending-update [] add remove cadd cremove l h = absurd (h refl)
pending-update (d ∷ ds) add remove cadd cremove l h = (
  at-put_self (d ∷ ds) (at (d ∷ ds) l.added ++ add) l.added,
  at-put_self (d ∷ ds) (at (d ∷ ds) l.removed ++ remove) l.removed,
)

module _ (m : Map Bytes (List BlockMeta)) (c : Map Bytes (List CompactedBlockMeta)) (t : Bytes)
    (add remove : List BlockMeta) (cadd cremove : List CompactedBlockMeta) (l : BlockList)
    (u : Uuid) (v : IsValid l) (named : t ≢ []) where
  abbrev polled_after_update : List BlockMeta
  polled_after_update = metas_of t (apply_poll_results m c (update t add remove cadd cremove l))

  listed : contains u (map block_uuid polled_after_update) ≡ (
      (contains u (map block_uuid (at t m))
        && not (contains u (map block_uuid (at t l.removed ++ remove))))
      || (contains u (map block_uuid (at t l.added ++ add))
          && not (contains u (map block_uuid (at t m)))))
  listed =
      let (a, r) = pending-update t add remove cadd cremove l named in
      rw
        (
          (metas_of-apply_poll_results m c _ (update-IsValid t add remove cadd cremove l v) t
              named).0,
          a,
          r,
        )
        (contains-update_blocks block_uuid u (at t m) (at t l.added ++ add)
          (at t l.removed ++ remove))

  -- A block that an update removes stays hidden after the next poll where the backend still reports
  -- it, for a list with valid local changes and a tenant whose id is not empty.
  pub removed_stays_hidden :
      contains u (map block_uuid remove) ≡ true
      → contains u (map block_uuid (at t m)) ≡ true
      → contains u (map block_uuid polled_after_update) ≡ false
  removed_stays_hidden gone reported = ground (
    arith,
    listed,
    ap (contains u) (map-append block_uuid (at t l.removed) remove),
    contains-append u (map block_uuid (at t l.removed)) (map block_uuid remove),
  )

  -- A block that an update adds stays listed after the next poll where the backend does not report
  -- it yet, for a list with valid local changes and a tenant whose id is not empty.
  pub added_stays_listed :
      contains u (map block_uuid add) ≡ true
      → contains u (map block_uuid (at t m)) ≡ false
      → contains u (map block_uuid polled_after_update) ≡ true
  added_stays_listed new_one unreported = ground (
    arith,
    listed,
    ap (contains u) (map-append block_uuid (at t l.added) add),
    contains-append u (map block_uuid (at t l.added)) (map block_uuid add),
  )

module _ (m m' : Map Bytes (List BlockMeta)) (c c' : Map Bytes (List CompactedBlockMeta))
    (l : BlockList) (s : Bytes) where
  -- The second poll after valid local changes forgets them: the lists of a tenant whose id is not
  -- empty are what the backend reported.
  pub second_poll_forgets :
      IsValid l
      → s ≢ []
      → (metas_of s (apply_poll_results m' c' (apply_poll_results m c l)) ≡ at s m')
        × (compacted_metas_of s (apply_poll_results m' c' (apply_poll_results m c l)) ≡ at s c')
  unfolding apply_poll_results clear_local
  second_poll_forgets v h =
      let (p, q) =
        metas_of-apply_poll_results m' c' (apply_poll_results m c l)
          (apply_poll_results-IsValid m c l v) s h in
      (p ∙ update_blocks-nil block_uuid (at s m'), q ∙ update_blocks-nil compacted_uuid (at s c'))

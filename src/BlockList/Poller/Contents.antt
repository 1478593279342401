-- ===== src/BlockList/Poller/Contents.antt =====
-- What the goroutines of one tenant's poll come to.
use mathlib.Core.List.{Perm}
use mathlib.Core.List.Perm
use deep.Prelude.{
  ℕ, subst, ◌≤◌, ◌≡◌, refl, ap, ◌∙◌, Bytes, List, [], ◌∷◌, ◌++◌, Option, none, some, All,
  Bool-cases, ltb, ◌⊎◌, inl, inr, arith,
}
use deep.Backend.{BlockMeta, CompactedBlockMeta, Time, Uuid}
use deep.BlockList.Poller.{
  Store, Read, ok, missing, failed, Result, done, error, poll_block, insert_by_start, sort_by_start,
  meta_start, compacted_start, Gathered, gather, gather_block, or_else, poll_meta, Lists,
  sorted_lists, poll_ids, poll_tenant_blocks, err_does_not_exist,
}

module _ {A : Type 0} (start : A → Time) where
  -- No entry starts before one in front of it.
  abbrev pub IsSorted : List A → Type 0
  IsSorted [] = Unit
  IsSorted (x ∷ xs) = All (λ y. start x ≤ start y) xs × IsSorted xs

  insert-Perm : (x : A) (xs : List A) → Perm (insert_by_start start x xs) (x ∷ xs)
  insert-Perm x [] = Perm.refl (x ∷ [])
  insert-Perm x (y ∷ ys) = elim (Bool-cases (ltb (start y) (start x))) [
    | inl e ↦ rw e (Perm.trans (Perm.cons y (insert-Perm x ys)) (Perm.swap x y ys))
    | inr n ↦ rw n (Perm.refl (x ∷ y ∷ ys))
  ]

  pub sort_by_start-Perm : (xs : List A) → Perm (sort_by_start start xs) xs
  sort_by_start-Perm [] = Perm.refl []
  sort_by_start-Perm (x ∷ xs) =
      Perm.trans (insert-Perm x (sort_by_start start xs)) (Perm.cons x (sort_by_start-Perm xs))

  weaken : (k m : ℕ) (xs : List A) → k ≤ m → All (λ y. m ≤ start y) xs → All (λ y. k ≤ start y) xs
  weaken k m [] h a = tt
  weaken k m (x ∷ xs) h a = (omega (arith, h, a.0), weaken k m xs h a.1)

  insert-All :
      (k : ℕ) (x : A) (xs : List A)
      → k ≤ start x
      → All (λ y. k ≤ start y) xs
      → All (λ y. k ≤ start y) (insert_by_start start x xs)
  insert-All k x [] h a = (h, tt)
  insert-All k x (y ∷ ys) h a = ground (arith, h, a, insert-All k x ys h a.1)

  insert-IsSorted : (x : A) (xs : List A) → IsSorted xs → IsSorted (insert_by_start start x xs)
  insert-IsSorted x [] s = (tt, tt)
  insert-IsSorted x (y ∷ ys) s = elim (Bool-cases (ltb (start y) (start x))) [
    | inl e ↦ rw e (insert-All (start y) x ys (ground (arith, e)) s.0, insert-IsSorted x ys s.1)
    | inr n ↦
        let le : start x ≤ start y = ground (arith, n) in
        rw n ((le, weaken (start x) (start y) ys le s.0), s)
  ]

  pub sort_by_start-IsSorted : (xs : List A) → IsSorted (sort_by_start start xs)
  sort_by_start-IsSorted [] = tt
  sort_by_start-IsSorted (x ∷ xs) =
      insert-IsSorted x (sort_by_start start xs) (sort_by_start-IsSorted xs)

abbrev pub meta_cons : Read BlockMeta → List BlockMeta → List BlockMeta
meta_cons (ok m) ms = m ∷ ms
meta_cons missing ms = ms
meta_cons (failed e) ms = ms

abbrev pub compacted_cons :
    Read BlockMeta → Read CompactedBlockMeta → List CompactedBlockMeta → List CompactedBlockMeta
compacted_cons missing (ok c) cs = c ∷ cs
compacted_cons missing missing cs = cs
compacted_cons missing (failed e) cs = cs
compacted_cons (ok m) c cs = cs
compacted_cons (failed e) c cs = cs

stored-some : (o : Option ℕ) (e : ℕ) → ¬ (or_else o e ≡ none)
stored-some none e h = cc
stored-some (some x) e h = cc

stored-which : (o : Option ℕ) (x e : ℕ) → or_else o x ≡ some e → (o ≡ some e) ⊎ (x ≡ e)
stored-which none x e h = inr (cc)
stored-which (some y) x e h = inl h

abbrev FailsWith : Read BlockMeta → Read CompactedBlockMeta → ℕ → Type 0
FailsWith a c e = (a ≡ failed e) ⊎ ((a ≡ missing) × (c ≡ failed e))

-- One goroutine, by what it reads.
gather_block-metas :
    (a : Read BlockMeta) (c : Read CompactedBlockMeta) (g : Gathered)
    → (gather_block (poll_meta a c) g).metas ≡ meta_cons a g.metas
gather_block-metas (ok m) c g = refl
gather_block-metas missing (ok c) g = refl
gather_block-metas missing missing g = refl
gather_block-metas missing (failed e) g = refl
gather_block-metas (failed e) c g = refl

gather_block-compacted :
    (a : Read BlockMeta) (c : Read CompactedBlockMeta) (g : Gathered)
    → (gather_block (poll_meta a c) g).compacted_metas ≡ compacted_cons a c g.compacted_metas
gather_block-compacted (ok m) c g = refl
gather_block-compacted missing (ok c) g = refl
gather_block-compacted missing missing g = refl
gather_block-compacted missing (failed e) g = refl
gather_block-compacted (failed e) c g = refl

gather_block-none :
    (a : Read BlockMeta) (c : Read CompactedBlockMeta) (g : Gathered)
    → (gather_block (poll_meta a c) g).any_error ≡ none
    → (g.any_error ≡ none) × ((e : ℕ) → ¬ FailsWith a c e)
gather_block-none (ok m) c g h = (h, λ e f. elim f [ inl x ↦ cc | inr x ↦ cc ])
gather_block-none missing (ok c) g h = (h, λ e f. elim f [ inl x ↦ cc | inr x ↦ cc ])
gather_block-none missing missing g h = (h, λ e f. elim f [ inl x ↦ cc | inr x ↦ cc ])
gather_block-none missing (failed e) g h = absurd (stored-some g.any_error e h)
gather_block-none (failed e) c g h = absurd (stored-some g.any_error e h)

gather_block-some :
    (a : Read BlockMeta) (c : Read CompactedBlockMeta) (g : Gathered) (e : ℕ)
    → (gather_block (poll_meta a c) g).any_error ≡ some e
    → (g.any_error ≡ some e) ⊎ FailsWith a c e
gather_block-some (ok m) c g e h = inl h
gather_block-some missing (ok c) g e h = inl h
gather_block-some missing missing g e h = inl h
gather_block-some missing (failed x) g e h = elim (stored-which g.any_error x e h) [
  | inl y ↦ inl y
  | inr same ↦ inr (inr (refl, ap failed same))
]
gather_block-some (failed x) c g e h = elim (stored-which g.any_error x e h) [
  | inl y ↦ inl y
  | inr same ↦ inr (inl (ap failed same))
]

module _ (store : Store) (t : Bytes) where
  -- The metas of those blocks that have one, and the compacted metas of those that have only one.
  abbrev pub lives : List Uuid → List BlockMeta
  lives [] = []
  lives (id ∷ ids) = meta_cons (store.block_meta t id) (lives ids)

  abbrev pub compacteds : List Uuid → List CompactedBlockMeta
  compacteds [] = []
  compacteds (id ∷ ids) =
      compacted_cons (store.block_meta t id) (store.compacted_block_meta t id) (compacteds ids)

  -- Reading the block's meta fails, or there is none and reading its compacted meta fails.
  abbrev pub Fails : Uuid → ℕ → Type 0
  Fails id e =
      (store.block_meta t id ≡ failed e)
      ⊎ ((store.block_meta t id ≡ missing) × (store.compacted_block_meta t id ≡ failed e))

  -- What a poll answers for its tenant.
  abbrev pub Contents : Result Lists → Type 0
  Contents (done (metas, compacted_metas)) =
      (ids : List Uuid) × (store.blocks t ≡ ok ids)
      × Perm metas (lives ids)
      × Perm compacted_metas (compacteds ids)
      × IsSorted meta_start metas
      × IsSorted compacted_start compacted_metas
      × All (λ id. (e : ℕ) → ¬ Fails id e) ids
  Contents (error e) =
      (store.blocks t ≡ failed e)
      ⊎ (((store.blocks t ≡ missing) × (e ≡ err_does_not_exist))
          ⊎ ((ps : List Uuid) × (id : Uuid) × (qs : List Uuid) × (store.blocks t
                ≡ ok (ps ++ (id ∷ qs)))
              × Fails id e))

  gather-metas : (ids : List Uuid) → (gather store t ids).metas ≡ lives ids
  unfolding gather poll_block
  gather-metas [] = refl
  gather-metas (id ∷ ids) =
      gather_block-metas (store.block_meta t id) (store.compacted_block_meta t id)
        (gather store t ids)
      ∙ ap (meta_cons (store.block_meta t id)) (gather-metas ids)

  gather-compacted : (ids : List Uuid) → (gather store t ids).compacted_metas ≡ compacteds ids
  unfolding gather poll_block
  gather-compacted [] = refl
  gather-compacted (id ∷ ids) =
      gather_block-compacted (store.block_meta t id) (store.compacted_block_meta t id)
        (gather store t ids)
      ∙ ap (compacted_cons (store.block_meta t id) (store.compacted_block_meta t id))
          (gather-compacted ids)

  gather-none :
      (ids : List Uuid)
      → (gather store t ids).any_error ≡ none
      → All (λ id. (e : ℕ) → ¬ Fails id e) ids
  unfolding gather poll_block
  gather-none [] h = tt
  gather-none (id ∷ ids) h =
      let (before, good) =
        gather_block-none (store.block_meta t id) (store.compacted_block_meta t id)
          (gather store t ids) h in
      (good, gather-none ids before)

  gather-some :
      (ids : List Uuid) (e : ℕ)
      → (gather store t ids).any_error ≡ some e
      → (ps : List Uuid) × (id : Uuid) × (qs : List Uuid) × (ids ≡ ps ++ (id ∷ qs)) × Fails id e
  unfolding gather poll_block
  gather-some [] e h = cc
  gather-some (id ∷ ids) e h =
      elim (gather_block-some (store.block_meta t id) (store.compacted_block_meta t id)
        (gather store t ids) e h) [
          | inl before ↦
              let (ps, x, qs, split, f) = gather-some ids e before in
              (id ∷ ps, x, qs, ap (λ (l : List Uuid). id ∷ l) split, f)
          | inr f ↦ ([], id, ids, refl, f)
        ]

  sorted_lists-Contents :
      (ids : List Uuid)
      → store.blocks t ≡ ok ids
      → (o : Option ℕ) → (gather store t ids).any_error ≡ o
      → Contents (sorted_lists (gather store t ids) o)
  sorted_lists-Contents ids h none k = (
    ids,
    h,
    subst (λ (l : List BlockMeta). Perm (sort_by_start meta_start (gather store t ids).metas) l)
        (gather-metas ids) (sort_by_start-Perm meta_start (gather store t ids).metas),
    subst
        (λ (l : List CompactedBlockMeta).
          Perm (sort_by_start compacted_start (gather store t ids).compacted_metas) l)
        (gather-compacted ids)
        (sort_by_start-Perm compacted_start (gather store t ids).compacted_metas),
    sort_by_start-IsSorted meta_start (gather store t ids).metas,
    sort_by_start-IsSorted compacted_start (gather store t ids).compacted_metas,
    gather-none ids k,
  )
  sorted_lists-Contents ids h (some e) k =
      let (ps, id, qs, split, f) = gather-some ids e k in inr (inr (ps, id, qs, h ∙ ap ok split, f))

  poll_ids-Contents : (r : Read (List Uuid)) → store.blocks t ≡ r → Contents (poll_ids store t r)
  poll_ids-Contents (ok ids) h = sorted_lists-Contents ids h (gather store t ids).any_error refl
  poll_ids-Contents missing h = inr (inl (h, refl))
  poll_ids-Contents (failed e) h = inl h

  -- Whatever the order in which the goroutines end, a poll of a tenant's blocks answers, each in the
  -- order of the start times, the metas of the blocks that have one and the compacted metas of
  -- those that have only one, and then it could read every block; or it answers the error with which
  -- the list of the blocks or one of the blocks could not be read.
  pub poll_tenant_blocks-Contents : Contents (poll_tenant_blocks store t)
  unfolding poll_tenant_blocks
  poll_tenant_blocks-Contents = poll_ids-Contents (store.blocks t) refl

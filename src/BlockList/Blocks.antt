-- ===== src/BlockList/Blocks.antt =====
-- What `updateInternal` does to one tenant's list of blocks, live or compacted.
use deep.Prelude.{
  ◌≡◌, refl, ◌∙◌, ap, ap₂, inl, inr, Bool, true, false, ◌&&◌, ◌||◌, not, List, [], ◌∷◌, ◌++◌, map,
  filter, contains, contains-append, Distinct, Distinct-append, nat_eq, nat_beq_iff, arith,
  Bool-cases, append-nil,
}
use deep.Backend.{Uuid}
use deep.BlockList.{update_blocks, matched_removals}

contains-matched :
    (u : Uuid) (xs rem : List Uuid)
    → contains u (filter (λ v. contains v rem) xs) ≡ (contains u rem && contains u xs)
contains-matched u [] rem = ground arith
contains-matched u (x ∷ xs) rem = ground (arith, contains-matched u xs rem, nat_beq_iff u x)

module _ {ℓ} {B : Type ℓ} (uuid : B → Uuid) where
  pub map-append : (xs ys : List B) → map uuid (xs ++ ys) ≡ map uuid xs ++ map uuid ys
  map-append [] ys = refl
  map-append (x ∷ xs) ys = ap (◌∷◌ (uuid x)) (map-append xs ys)

  -- The uuids that a filter on uuids keeps.
  contains-filter :
      (u : Uuid) (q : Uuid → Bool) (bs : List B)
      → contains u (map uuid (filter (λ b. q (uuid b)) bs)) ≡ (q u && contains u (map uuid bs))
  contains-filter u q [] = ground arith
  contains-filter u q (b ∷ bs) = elim (Bool-cases (q (uuid b))) [
    | inl y ↦ rw y (ground (arith, contains-filter u q bs, nat_beq_iff u (uuid b), y))
    | inr n ↦ rw n (ground (arith, contains-filter u q bs, nat_beq_iff u (uuid b), n))
  ]

  filter-Distinct :
      (q : Uuid → Bool) (bs : List B)
      → Distinct (map uuid bs)
      → Distinct (map uuid (filter (λ b. q (uuid b)) bs))
  filter-Distinct q [] d = tt
  filter-Distinct q (b ∷ bs) d =
      ground (arith, contains-filter (uuid b) q bs, filter-Distinct q bs d.1)

  -- A block is listed after an update exactly when it was listed and is not removed, or is added
  -- and was not listed.
  pub contains-update_blocks :
      (u : Uuid) (blocklist add remove : List B)
      → contains u (map uuid (update_blocks uuid blocklist add remove)) ≡ (
          (contains u (map uuid blocklist) && not (contains u (map uuid remove)))
          || (contains u (map uuid add) && not (contains u (map uuid blocklist))))
  unfolding update_blocks
  contains-update_blocks u blocklist add remove =
      rw
        (
          map-append (filter (λ b. kept (uuid b)) blocklist) (filter (λ b. fresh (uuid b)) add),
          contains-append u (map uuid (filter (λ b. kept (uuid b)) blocklist))
              (map uuid (filter (λ b. fresh (uuid b)) add)),
          contains-filter u kept blocklist,
          contains-filter u fresh add,
          contains-matched u (map uuid blocklist) (map uuid remove),
        )
        (ground arith)
    where
      kept : Uuid → Bool
      kept v = not (contains v (matched_removals uuid blocklist remove))

      fresh : Uuid → Bool
      fresh v = not (contains v (map uuid blocklist))

  -- If the listed uuids are distinct and the added ones are distinct, so are those after an update.
  pub update_blocks-Distinct :
      (blocklist add remove : List B)
      → Distinct (map uuid blocklist)
      → Distinct (map uuid add)
      → Distinct (map uuid (update_blocks uuid blocklist add remove))
  unfolding update_blocks
  update_blocks-Distinct blocklist add remove d e =
      rw (map-append (filter (λ b. kept (uuid b)) blocklist) (filter (λ b. fresh (uuid b)) add)) (
        Distinct-append _ _ (filter-Distinct kept blocklist d) (filter-Distinct fresh add e)
          (λ u m. ground (arith, m, contains-filter u kept blocklist, contains-filter u fresh add)))
    where
      kept : Uuid → Bool
      kept v = not (contains v (matched_removals uuid blocklist remove))

      fresh : Uuid → Bool
      fresh v = not (contains v (map uuid blocklist))

  filter-all :
      (q : Uuid → Bool) (bs : List B)
      → ((u : Uuid) → contains u (map uuid bs) ≡ true → q u ≡ true)
      → filter (λ b. q (uuid b)) bs ≡ bs
  filter-all q [] h = refl
  filter-all q (b ∷ bs) h = ground (
    arith,
    h (uuid b),
    nat_beq_iff (uuid b) (uuid b),
    filter-all q bs (λ u m. h u (ground (arith, m))),
  )

  filter-none :
      (q : Uuid → Bool) (bs : List B)
      → ((u : Uuid) → contains u (map uuid bs) ≡ true → q u ≡ false)
      → filter (λ b. q (uuid b)) bs ≡ []
  filter-none q [] h = refl
  filter-none q (b ∷ bs) h = ground (
    arith,
    h (uuid b),
    nat_beq_iff (uuid b) (uuid b),
    filter-none q bs (λ u m. h u (ground (arith, m))),
  )

  -- An update that adds no block which it also removes changes nothing when it is made again.
  pub update_blocks_idem :
      (blocklist add remove : List B)
      → ((u : Uuid) → contains u (map uuid add) ≡ true → contains u (map uuid remove) ≡ false)
      → update_blocks uuid (update_blocks uuid blocklist add remove) add remove
        ≡ update_blocks uuid blocklist add remove
  unfolding update_blocks
  update_blocks_idem blocklist add remove apart =
      ap₂ ◌++◌
        (filter-all (λ v. not (contains v (matched_removals uuid first remove))) first
          (λ u m.
            ground
              (arith, m, listed u, apart u, contains-matched u (map uuid first) (map uuid remove))))
        (filter-none (λ v. not (contains v (map uuid first))) add
          (λ u m. ground (arith, m, listed u, apart u)))
      ∙ append-nil first
    where
      first : List B
      first = update_blocks uuid blocklist add remove

      listed :
          (u : Uuid)
          → contains u (map uuid first) ≡ (
              (contains u (map uuid blocklist) && not (contains u (map uuid remove)))
              || (contains u (map uuid add) && not (contains u (map uuid blocklist))))
      listed u = contains-update_blocks u blocklist add remove

  pub update_blocks-nil : (bs : List B) → update_blocks uuid bs [] [] ≡ bs
  unfolding update_blocks
  update_blocks-nil bs = rw append-nil (
      filter-all (λ v. not (contains v (matched_removals uuid bs []))) bs
        (λ u m. ground (arith, contains-matched u (map uuid bs) [])))

-- ===== src/Compaction/Cycle/Ending.antt =====
-- The ends of the loops of `doCompaction` and `measureOutstandingBlocks` of
-- pkg/deepdb/compactor.go.
use deep.Prelude.{
  ℕ, zero, suc, ◌+◌, ◌≤◌, ◌<◌, Bytes, List, ◌++◌, some, ◌≡◌, refl, sym, ap, ◌∙◌, subst, inl, inr,
  Bool-cases, if◌then◌else◌, length, length-append, ltb, arith,
}
use deep.Backend.{Time, BlockMeta}
use deep.BlockList.{BlockList}
use deep.Compaction.Selector.{
  Entry, Selector, Selection, to_compact, nothing, index_panic, blocks_to_compact,
}
use deep.Compaction.Selector.Exhaustion.{Handed, HandsOut, blocks_to_compact-HandsOut}
use deep.Compaction.Maintenance.{Outside, compact}
use deep.Compaction.Cycle.{
  End, no_tenants, context_done, complete, bailed_out, panics, out_of_fuel, measure_from,
  measure_outstanding_blocks, rounds_enough, end_with, cycle,
}

-- A selection that takes blocks leaves fewer entries, and with a minimum there is no panic.
Shrinks : Selector → Selection → Selector → Type 0
Shrinks s nothing s' = Unit
Shrinks s index_panic s' = ⊥
Shrinks s (to_compact metas hash) s' = length s'.entries < length s.entries

entries_left :
    (s : Selector) (metas : List BlockMeta) (hash : Bytes) (remaining : List Entry)
    → Handed s s.entries metas hash remaining
    → length remaining < length s.entries
entries_left s metas hash remaining h =
    let e =
      ap length h.entries_are
      ∙ length-append h.skipped (h.stripe ++ remaining)
      ∙ ap (λ n. length h.skipped + n) (length-append h.stripe remaining) in
    let t = h.two in omega arith

shrinks :
    (s s' : Selector) (x : Selection)
    → 1 ≤ s.min_input_blocks
    → HandsOut s s.entries x s'.entries
    → Shrinks s x s'
unfolding Shrinks
shrinks s s' nothing m h = tt
shrinks s s' index_panic m h = ground arith
shrinks s s' (to_compact metas hash) m h = entries_left s metas hash s'.entries h

min-blocks_to_compact :
    (s : Selector) → (blocks_to_compact s).1.min_input_blocks ≡ s.min_input_blocks
unfolding blocks_to_compact
min-blocks_to_compact s = refl

-- The three cases of a round, with what the next one needs.
data Round (s : Selector) (x : Selection) (s' : Selector) : Type 0 where
  ends : x ≡ nothing → Round s x s'
  goes_on :
      (metas : List BlockMeta) (hash : Bytes)
      → x ≡ to_compact metas hash
      → length s'.entries < length s.entries
      → 1 ≤ s'.min_input_blocks
      → Round s x s'

next_case :
    (s s' : Selector) (x : Selection) → 1 ≤ s'.min_input_blocks → Shrinks s x s' → Round s x s'
unfolding Shrinks
next_case s s' nothing m h = ends refl
next_case s s' index_panic m h = ground arith
next_case s s' (to_compact metas hash) m h = goes_on metas hash refl h m

case_of :
    (s : Selector)
    → 1 ≤ s.min_input_blocks
    → Round s (blocks_to_compact s).0 (blocks_to_compact s).1
case_of s m =
    next_case s (blocks_to_compact s).1 (blocks_to_compact s).0
      (subst (λ n. 1 ≤ n) (sym (min-blocks_to_compact s)) m)
      (shrinks s (blocks_to_compact s).1 (blocks_to_compact s).0 m (blocks_to_compact-HandsOut s))

module _ (env : Outside) where
  open env use {World}

  measure_from-some :
      (fuel total : ℕ) (w : World) (s : Selector)
      → 1 ≤ s.min_input_blocks
      → length s.entries < fuel
      → (n : ℕ) × (measure_from env fuel total w s ≡ some n)
  unfolding measure_from
  measure_from-some zero total w s m f = ground arith
  measure_from-some (suc fuel) total w s m f = elim (case_of s m) [
    | ends e ↦ (total, rw (e, measure_from) refl)
    | goes_on metas hash e l m' ↦
        let t = if env.owns hash w then total + length metas else total in
        let (n, h) = measure_from-some fuel t w (blocks_to_compact s).1 m' (omega arith) in
        (n, rw (e, measure_from) h)
  ]

  -- The cycle ended in none of the ways that a program should not.
  abbrev pub IsDone : End → Type 0
  IsDone no_tenants = Unit
  IsDone context_done = Unit
  IsDone (complete n) = Unit
  IsDone (bailed_out n) = Unit
  IsDone panics = ⊥
  IsDone out_of_fuel = ⊥

  measured :
      (f : ℕ → End) (w : World) (s : Selector)
      → 1 ≤ s.min_input_blocks
      → ((n : ℕ) → IsDone (f n))
      → IsDone (end_with env f (measure_outstanding_blocks env w s))
  unfolding measure_outstanding_blocks
  measured f w s m d =
      let (n, e) = measure_from-some (rounds_enough env s) 0 w s m (omega arith) in
      rw (e, IsDone) (d n)

  cycle-IsDone :
      (t : Bytes) (deadline : Time) (fuel : ℕ) (s : Selector) (w : World) (l : BlockList)
      → 1 ≤ s.min_input_blocks
      → length s.entries < fuel
      → IsDone (cycle env t deadline fuel s (w, l)).0
  unfolding cycle
  cycle-IsDone t deadline zero s w l m f = ground arith
  cycle-IsDone t deadline (suc fuel) s w l m f =
      let s' = (blocks_to_compact s).1 in
      elim (Bool-cases (env.cancelled w)) [
        | inl y ↦ rw (y, IsDone, cycle) tt
        | inr n ↦ elim (case_of s m) [
          | ends e ↦
              rw (n, e, IsDone, cycle)
                (measured complete w s' (subst (λ k. 1 ≤ k) (sym (min-blocks_to_compact s)) m)
                  (λ k. tt))
          | goes_on metas hash e less m' ↦ elim (Bool-cases (env.owns hash w)) [
            | inr o ↦
                rw (n, e, o, IsDone, cycle) (cycle-IsDone t deadline fuel s' w l m' (omega arith))
            | inl o ↦
                let (x, (w1, l1)) = compact env t metas (w, l) in
                let (time, w2) = env.now w1 in
                elim (Bool-cases (ltb deadline time)) [
                  | inl d ↦ rw (n, e, o, d, IsDone, cycle) (measured bailed_out w2 s' m' (λ k. tt))
                  | inr d ↦
                      rw (n, e, o, d, IsDone, cycle)
                        (cycle-IsDone t deadline fuel s' w2 l1 m' (omega arith))
                ]
          ]
        ]
      ]

  -- A compaction cycle on a selector that asks for one block at least ends, with one round more
  -- than there are entries for fuel: complete, bailed out or cancelled, and never in a panic.
  pub cycle_lem :
      (t : Bytes) (deadline : Time) (s : Selector) (w : World) (l : BlockList)
      → 1 ≤ s.min_input_blocks
      → IsDone (cycle env t deadline (rounds_enough env s) s (w, l)).0
  cycle_lem t deadline s w l m = cycle-IsDone t deadline (rounds_enough env s) s w l m (omega arith)

-- ===== src/Compaction/Cycle.antt =====
-- `doCompaction` of pkg/deepdb/compactor.go: one round over the blocks of the next tenant. The gauge
-- of outstanding blocks is kept; logs and the other metrics are left out.
pub mod Ending
use deep.Prelude.{
  ℕ, zero, suc, ◌+◌, ◌%◌, Bytes, true, false, List, [], ◌∷◌, Option, none, some, get_or, length,
  ltb, if◌then◌else◌,
}
use deep.Backend.{Time, BlockMeta}
use deep.BlockList.{BlockList, tenants, metas_of}
use deep.Compaction.Selector.{
  Selector, Selection, to_compact, nothing, index_panic, blocks_to_compact,
  new_time_window_block_selector,
}
use deep.Compaction.Maintenance.{Outside, compact}
use deep.Scheduler.QuerierOps.{sort_strings}

abbrev pub default_min_input_blocks : ℕ
default_min_input_blocks = 2

abbrev pub default_max_input_blocks : ℕ
default_max_input_blocks = 4

pub record CompactorConfig : Type 0 where
  pub max_compaction_range : ℕ
  pub max_compaction_objects : ℕ
  pub max_block_bytes : ℕ
  pub max_time_per_tenant : Time

-- How a cycle ends, with the outstanding blocks where they are measured.
pub data End : Type 0 where
  no_tenants : End
  context_done : End
  complete : ℕ → End
  bailed_out : ℕ → End
  panics : End
  out_of_fuel : End

module _ (env : Outside) where
  open env use {World}

  -- The count of `measureOutstandingBlocks`; `none` is the panic, or the end of the fuel.
  unfoldable pub measure_from : ℕ → ℕ → World → Selector → Option ℕ
  measure_from zero total w s = none
  measure_from (suc fuel) total w s =
      let (selection, s') = blocks_to_compact s in
      elim selection [
        | nothing ↦ some total
        | index_panic ↦ none
        | to_compact metas hash ↦
            measure_from fuel (if env.owns hash w then total + length metas else total) w s'
      ]

  abbrev pub rounds_enough : Selector → ℕ
  rounds_enough s = suc (length s.entries)

  unfoldable pub measure_outstanding_blocks : World → Selector → Option ℕ
  unfolding measure_from
  measure_outstanding_blocks w s = measure_from (rounds_enough s) 0 w s

  abbrev pub end_with : (ℕ → End) → Option ℕ → End
  end_with f none = panics
  end_with f (some n) = f n

  -- The loop. Errors of a compaction are logged and counted, and do not end it.
  unfoldable pub cycle : Bytes → Time → ℕ → Selector → World × BlockList → End × (World × BlockList)
  cycle t deadline zero s st = (out_of_fuel, st)
  cycle t deadline (suc fuel) s (w, l) =
      let (selection, s') = blocks_to_compact s in
      elim (env.cancelled w) [
        | true ↦ (context_done, (w, l))
        | false ↦ elim selection [
          | nothing ↦ (end_with complete (measure_outstanding_blocks w s'), (w, l))
          | index_panic ↦ (panics, (w, l))
          | to_compact metas hash ↦ elim (env.owns hash w) [
            | false ↦ cycle t deadline fuel s' (w, l)
            | true ↦
                let (e, (w1, l1)) = compact env t metas (w, l) in
                let (time, w2) = env.now w1 in
                elim (ltb deadline time) [
                  | true ↦ (end_with bailed_out (measure_outstanding_blocks w2 s'), (w2, l1))
                  | false ↦ cycle t deadline fuel s' (w2, l1)
                ]
          ]
        ]
      ]

  -- A cycle on the chosen tenant; the selector's clock and the cycle's are read in turn.
  unfoldable pub compact_tenant :
      CompactorConfig → Bytes → World × BlockList → End × (World × BlockList)
  unfolding cycle
  compact_tenant cfg t (w, l) =
      let (now, w1) = env.now w in
      let (start, w2) = env.now w1 in
      elim (new_time_window_block_selector now (metas_of t l) cfg.max_compaction_range
        cfg.max_compaction_objects cfg.max_block_bytes default_min_input_blocks
        default_max_input_blocks) [
          | none ↦ (panics, (w1, l))
          | some s ↦ cycle t (start + cfg.max_time_per_tenant) (rounds_enough s) s (w2, l)
        ]

  -- `compactorTenantOffset` before and after.
  unfoldable pub do_compaction :
      CompactorConfig → ℕ → World × BlockList → (End × ℕ) × (World × BlockList)
  unfolding compact_tenant
  do_compaction cfg tenant_offset (w, l) = elim (sort_strings (tenants l)) [
    | [] ↦ ((no_tenants, tenant_offset), (w, l))
    | t ∷ ts ↦
        let offset = (tenant_offset + 1) % length (t ∷ ts) in
        let (end, st) = compact_tenant cfg (get_or (t ∷ ts) offset t) (w, l) in ((end, offset), st)
  ]

-- ===== src/Compaction.antt =====
-- pkg/deepdb: which blocks are compacted together, and what compaction and retention do to the
-- block list.
pub mod Format
pub mod Selector
pub mod Maintenance
pub mod Cycle
mod Examples

-- ===== src/Ingester.antt =====
-- modules/ingester: tenantBlockManager.go, snapshot.go, local_block.go and the operations of flush.go: a
-- tenant's snapshots on their way from the live map through the head block to blocks that are
-- flushed. The clock, the hash, the decoder, the limits and what fails outside are arguments. A block
-- of the write-ahead log or of the local backend is the list of its entries, and completing a block
-- copies them. Counts and sizes do not overflow where no width is written; metrics are left out.
pub mod Push
pub mod Cut
pub mod Blocks
pub mod Bounds
pub mod Cutting
pub mod Visible
pub mod Owning
pub mod Kept
pub mod Safe
pub mod Completing
pub mod Histories
mod Examples

-- ===== src/Tracepoints.antt =====
-- modules/tracepoint: the tracepoints of each tenant, the lists of them that clients poll, and the
-- block in which they are stored.
pub mod Config
pub mod Slices
pub mod Block
pub mod Store
pub mod Encoder
pub mod Query
pub mod Tenants
mod Examples

-- ===== src/Scheduler.antt =====
-- pkg/scheduler/queue: the per-user request queues of the query frontend and of the tracepoint
-- service, and the assignment of queriers to users.
pub mod State
pub mod Shuffle
pub mod UserOps
pub mod QuerierOps
pub mod RequestQueue
mod Examples

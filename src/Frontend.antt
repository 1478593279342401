-- ===== src/Frontend.antt =====
-- modules/frontend: how a search is cut into requests, how failed requests are retried, and how the
-- answers are put together.
pub mod Sharding
pub mod Response
pub mod Retry
pub mod ById
mod Examples

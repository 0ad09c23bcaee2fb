-- ===== src/Transport/Session.antt =====
-- The authenticated session of a connection: src/modules/transport/stream/session.rs and its children.
pub mod State
pub mod Output
pub mod Lifecycle
pub mod Ping
pub mod Drain
pub mod Receive
pub mod Requests
pub mod Scheduler
pub mod Invariant
pub mod Closure
pub mod Ledger
pub mod Reachable
pub mod Ownership

-- ===== src/Transport/Session/Closure.antt =====
-- A predicate on sessions that each elementary change of the state keeps is kept by every operation.
-- `IsInvariant` lists the elementary changes, with what the code has checked where it makes them.
mod Lifecycle
mod Dispatch
mod Admission
mod Requests
pub use Lifecycle.*
pub use Dispatch.*
pub use Admission.*
pub use Requests.*

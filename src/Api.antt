-- ===== src/Api.antt =====
-- What lies outside the crate: the Kubernetes API server, random numbers, the clock and the pure
-- functions of other crates. A request is a value of `Call`; `Kube` says how the outside answers.
mod Calls
mod Effects
mod Finalization
pub mod Logs
pub mod Grounds
pub mod Calm
pub mod Still
pub mod Bounds
unfoldable pub use Calls.*
unfoldable pub use Effects.*
unfoldable pub use Finalization.*

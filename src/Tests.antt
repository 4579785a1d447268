-- ===== src/Tests.antt =====
-- Concrete runs: an API server that answers every request, and the theorems at its answers.
pub mod Mock
pub mod Runs
pub mod Steps
pub mod Calm
pub mod Finalizers
pub mod Scenarios
pub mod Bounds

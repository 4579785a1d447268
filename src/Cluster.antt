-- ===== src/Cluster.antt =====
-- src/cluster/crd.rs: the controller of `Cluster` resources.
pub mod Objects
pub mod Actions
pub mod Bootstrap
pub mod Reconcile
pub mod Cleanup
pub mod Transitions
pub mod Requests
pub mod Grounds
pub mod Order
pub mod Workload
pub mod Deletes
pub mod History
pub mod Progress
pub mod Convergence
pub mod Bounds
pub mod Control
pub mod Calm
pub mod Still

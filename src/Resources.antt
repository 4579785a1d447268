-- ===== src/Resources.antt =====
-- The Kubernetes objects and custom resources that the controllers read and write.
pub mod Core
pub mod Tidb
pub mod Cluster
pub mod Database
pub mod User

-- ===== src/Fixtures.antt =====
-- The fixtures of the three controllers (src/cluster/fixtures.rs, src/database/fixtures.rs,
-- src/user/fixtures.rs): an API server that expects given requests in a given order.
pub mod Texts
pub mod Wire
pub mod Server
pub mod Asked
pub mod Finalized
pub mod Drawn
pub mod Objects
pub mod Credentials
pub mod Cluster
pub mod Database
pub mod User

-- ===== src/Lib.antt =====
-- The sdb-controller: a Kubernetes controller for SurrealDB clusters, their databases and users.
--
-- Three controllers share an API server and a SurrealDB server. The cluster controller
-- (src/cluster/crd.rs) brings a cluster through its phases: it creates a root secret and a TiDB
-- cluster, applies a deployment open to unauthenticated access, defines the root user by SQL through
-- the API server's proxy, and applies the authenticated deployment. The database controller
-- (src/database/crd.rs) and the user controller (src/user/crd.rs) read the root credentials that
-- the cluster refers to and send SQL with them through the client of src/service.rs.
--
-- - Prelude: shared names, tests on numbers and texts, association lists, splitting at dots.
-- - Resources: the custom resources of the three crd.rs files, the structs of k8s_openapi with the
--   fields in use, and the top level of tidb-api/src/tidb/tidbclusters.rs.
-- - Error, Metrics: src/lib.rs and src/metrics.rs.
-- - Api: the requests as a data type, the outside as the record Kube, and the type M of actions.
--   An action runs in a state of the outside and leaves a result, an error or a panic, and a log of
--   the requests with their replies. Kube.respond answers a request in any way and may change the
--   state in any way, so whatever happens between two requests is covered. Its other fields stand
--   for functions of other crates: random numbers, the clock, base64, URL parsing, the checks of the
--   HTTP builders. Api.Logs has rules for what holds of every request, Api.Grounds for what the
--   requests before a request show, Api.Calm has rules for what does not panic,
--   Api.Still for what leaves the metrics alone, Api.Bounds for how many requests are sent.
-- - Password, Sql: the password generators and the SQL texts of the three crd.rs files. Sql.Reading
--   undoes the controllers' own quoting, in which a doubled quote stands for one; whether SurrealDB
--   reads a doubled quote so is outside this repository.
-- - Service: Builder, Request and Client of src/service.rs; `post` and `send` keep their names
--   (the latter as `send_request`).
-- - Cluster: Objects has the builders of src/cluster/crd.rs, Actions its steps, Bootstrap
--   bootstrap_root_user, Reconcile one function for each phase of Cluster::reconcile, Cleanup
--   delete_if_exists and Cluster::cleanup. Convergence iterates reconciliations: between two of them
--   the API server keeps the phase of the last status patch that it accepted.
-- - Credentials: the root credentials and the authorized SQL request, which src/database/crd.rs and
--   src/user/crd.rs have in two equal copies.
-- - Database, User: the methods of the two resources under their own names.
--   Control has the functions that the runtime calls, around the metrics and the finalizer helper,
--   which is a parameter (Api.Finalization); Cluster.Control.Measured is about what a run leaves in
--   them.
-- - Crdgen: the loop of src/crdgen.rs over the versions of the Cluster resource. A map of properties is a
--   table with one entry for a name. Opening is about one property, Versions about all versions.
-- - Fixtures: the mock API servers of the fixtures.rs files. Wire says how the kube client writes a
--   request, Server has the chain of handlers as the state of an outside and the relation Meets between an
--   action and a chain; Cluster, Database and User have the handlers and the scenarios, and their
--   Passes the tests of the crd.rs files at any resource. A handler reads a request as the type of
--   its path; the body is compared as the typed value and not as its JSON.
-- - Tests: an API server with fixed answers and the properties at concrete resources.
--
-- A reconciliation is one run of an action from a state of the outside. `unwrap` and `expect` are
-- panics. A result of another crate's fallible function is an option or a Try. All loops are
-- structural; there is no fuel, but the decimal text of a port, which has five digits at most.
-- Texts are sequences of characters: a byte string of a secret is the text it encodes or no UTF-8.
--
-- Not modelled: the kube-rs runtime that calls the reconcilers, and the wiring in src/run.rs; the
-- printing of src/crdgen.rs; telemetry and src/main.rs, which only call other crates; the generated
-- nested types of tidb-api, which the controllers copy unread; tests/integration_ready_flow.rs, which
-- runs in a real cluster.
pub mod Prelude
pub mod Resources
pub mod Error
pub mod Metrics
pub mod Api
pub mod Password
pub mod Sql
pub mod Service
pub mod Cluster
pub mod Credentials
pub mod Database
pub mod User
pub mod Crdgen
pub mod Fixtures
pub mod Tests

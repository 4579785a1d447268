-- ===== src/Fixtures/Database.antt =====
-- src/database/fixtures.rs: the databases, the scenarios and the handlers of the database controller's
-- tests.
pub mod Accepted
pub mod Steps
pub mod Passes
use sdb_controller.Prelude.{
  Bool, true, false, ◌&&◌, ◌||◌, Option, none, some, get_or, String, ◌<>◌, ◌==◌, List, [], ◌∷◌,
  ◌++◌,
}
use sdb_controller.Resources.Core.{PatchOperation, add}
use sdb_controller.Resources.Database.{Database, DbStatus, DbPhase, new, in_progress, ready, error}
use sdb_controller.Api.{patch_database, patch_database_status, request_text, ok, err, Kube}
use sdb_controller.Fixtures.Texts.{starts_with, contains}
use sdb_controller.Fixtures.Wire.{Wire, collection, own_group}
use sdb_controller.Fixtures.Server.{Handler, when, asks, asks_exactly}
use sdb_controller.Fixtures.Credentials.{
  answer_cluster, handle_get_secret_root, posts_sql, content_type,
}

abbrev pub database_finalizer : String
database_finalizer = "databases.surrealdb.aexol.com"

-- `Database::test`
abbrev pub test_database : Database
test_database = record {
  metadata = record {
    name = some "test-db";
    namespace = some "default";
    uid = some "1111-11-11-11-111111";
    finalizers = none;
    deletion_timestamp = none;
    labels = none;
    owner_references = none;
  };
  spec = record {
    cluster_ref = record { name = "test"; namespace = none };
    db_namespace = none;
    db_name = some "app";
  };
  status = none;
}

abbrev pub finalized : Database → Database
finalized d = record d {
  metadata = record d.metadata {
    finalizers = some (get_or d.metadata.finalizers [] ++ database_finalizer ∷ []);
  };
}

abbrev pub with_status : Database → DbStatus → Database
with_status d status = record d { status = some status }

abbrev pub with_cluster_ref_ns : Database → String → Database
with_cluster_ref_ns d ns = record d {
  spec = record d.spec { cluster_ref = record d.spec.cluster_ref { namespace = some ns } };
}

abbrev pub with_db_namespace : Database → String → Database
with_db_namespace d ns = record d { spec = record d.spec { db_namespace = some ns } }

pub data Scenario : Type 0 where
  new_ensures_namespace_and_database : Database → Scenario
  new_cross_ns_ensures : Database → Scenario
  namespace_define_error : Database → Scenario
  database_define_error : Database → Scenario
  finalizer_creation : Database → Scenario

abbrev pub phase_text : DbPhase → String
phase_text new = "New"
phase_text in_progress = "InProgress"
phase_text ready = "Ready"
phase_text error = "Error"

-- The namespace of the cluster: the override, or that of the reference, or the database's own. `""` is
-- the panic of a database without a namespace.
abbrev pub cluster_ns_of : Database → Option String → String
cluster_ns_of db cluster_ns_override =
    get_or cluster_ns_override
      (get_or db.spec.cluster_ref.namespace (get_or db.metadata.namespace ""))

abbrev adds_finalizers : List PatchOperation → Bool
adds_finalizers [] = false
adds_finalizers (add path value ∷ ops) = path == "/metadata/finalizers" || adds_finalizers ops
adds_finalizers (op ∷ ops) = adds_finalizers ops

module _ ⦃K : Kube⦄ (wire : Wire) where
  abbrev pub handle_get_cluster : Database → Option String → Handler
  handle_get_cluster db o = answer_cluster wire (cluster_ns_of db o) db.spec.cluster_ref.name

  unfoldable pub handle_finalizer_creation : Database → Handler
  unfolding asks_exactly
  handle_finalizer_creation db (patch_database ns name ops) =
      when
        (asks_exactly wire "PATCH"
            (collection own_group (get_or db.metadata.namespace "") "databases/"
              <> K.name_any db.metadata
              <> "?")
            (patch_database ns name ops)
          && adds_finalizers ops)
        (ok tt)
  handle_finalizer_creation db other = none

  unfoldable pub handle_status_patch_phase : Database → String → Handler
  handle_status_patch_phase db phase (patch_database_status ns name p message) =
      when
        (asks wire "PATCH"
            (collection own_group (get_or db.metadata.namespace "") "databases/"
              <> K.name_any db.metadata
              <> "/status?")
            (patch_database_status ns name p message)
          && phase_text p == phase)
        (ok tt)
  handle_status_patch_phase db phase other = none

  -- The handlers for SQL, by the namespace of the cluster and its name.
  unfoldable pub define_namespace_ok : (cluster_ns cluster_name : String) → Handler
  define_namespace_ok cluster_ns cluster_name (request_text req) =
      when
        (posts_sql wire cluster_ns cluster_name req
          && content_type req == "text/plain"
          && starts_with "DEFINE NAMESPACE " req.body)
        (ok tt)
  define_namespace_ok cluster_ns cluster_name other = none

  unfoldable pub define_error : (answer cluster_ns cluster_name : String) → Handler
  define_error answer cluster_ns cluster_name (request_text req) =
      when (posts_sql wire cluster_ns cluster_name req) (err (wire.refused 400 answer))
  define_error answer cluster_ns cluster_name other = none

  unfoldable pub define_database_ok : (cluster_ns cluster_name : String) → Handler
  define_database_ok cluster_ns cluster_name (request_text req) =
      when
        (posts_sql wire cluster_ns cluster_name req
          && contains "USE NS `" req.body
          && contains "DEFINE DATABASE `" req.body)
        (ok tt)
  define_database_ok cluster_ns cluster_name other = none

  abbrev pub handle_proxy_define_namespace : Database → Option String → Handler
  handle_proxy_define_namespace db o =
      define_namespace_ok (cluster_ns_of db o) db.spec.cluster_ref.name

  abbrev pub handle_proxy_define_namespace_error : Database → Option String → Handler
  handle_proxy_define_namespace_error db o =
      define_error "{\"err\":\"bad ns\"}" (cluster_ns_of db o) db.spec.cluster_ref.name

  abbrev pub handle_proxy_define_database : Database → Option String → Handler
  handle_proxy_define_database db o =
      define_database_ok (cluster_ns_of db o) db.spec.cluster_ref.name

  abbrev pub handle_proxy_define_database_error : Database → Option String → Handler
  handle_proxy_define_database_error db o =
      define_error "{\"err\":\"bad db\"}" (cluster_ns_of db o) db.spec.cluster_ref.name

  -- `ApiServerVerifier::run`: the chain of a scenario.
  unfoldable pub run : Scenario → List Handler
  run (new_ensures_namespace_and_database db) =
      handle_get_cluster db none
      ∷ handle_get_secret_root wire "default"
      ∷ handle_proxy_define_namespace db none
      ∷ handle_proxy_define_database db none
      ∷ handle_status_patch_phase db "Ready"
      ∷ []
  run (new_cross_ns_ensures db) =
      let cluster_ns = get_or db.spec.cluster_ref.namespace "default" in
      handle_get_cluster db none
      ∷ handle_get_secret_root wire cluster_ns
      ∷ handle_proxy_define_namespace db (some cluster_ns)
      ∷ handle_proxy_define_database db (some cluster_ns)
      ∷ handle_status_patch_phase db "Ready"
      ∷ []
  run (namespace_define_error db) =
      handle_get_cluster db none
      ∷ handle_get_secret_root wire "default"
      ∷ handle_proxy_define_namespace_error db none
      ∷ []
  run (database_define_error db) =
      handle_get_cluster db none
      ∷ handle_get_secret_root wire "default"
      ∷ handle_proxy_define_namespace db none
      ∷ handle_proxy_define_database_error db none
      ∷ []
  run (finalizer_creation db) = handle_finalizer_creation db ∷ []

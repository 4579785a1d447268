-- ===== src/Fixtures/Cluster.antt =====
-- src/cluster/fixtures.rs: the clusters and the scenarios of the cluster controller's tests.
pub mod Checks
pub mod Handlers
pub mod Accepted
pub mod Steps
pub mod Deletion
pub mod Secret
pub mod Runs
pub mod Passes
use sdb_controller.Prelude.{Option, none, some, get_or, String, ◌==◌, [], ◌∷◌, ◌++◌, if◌then◌else◌}
use sdb_controller.Resources.Core.{Json, string, object, Fields, end, field}
use sdb_controller.Resources.Cluster.{
  Cluster, Status, Phase, new, preparing, in_creation, not_ready, in_progress, ready, error,
  cluster_finalizer,
}

-- `Cluster::test` with `Spec::default()`.
abbrev pub test_cluster : Cluster
test_cluster = record {
  metadata = record {
    name = some "test";
    namespace = some "default";
    uid = some "0000-00-00-00-000000";
    finalizers = none;
    deletion_timestamp = none;
    labels = none;
    owner_references = none;
  };
  spec = record {
    replicas = none;
    surrealdb_image = none;
    root_secret = none;
    tikv_secret_ref = none;
    tidb_cluster = none;
  };
  status = none;
}

abbrev pub needs_delete : Cluster → Cluster
needs_delete c = record c {
  metadata = record c.metadata { deletion_timestamp = some "2017-04-02T12:50:32Z" };
}

abbrev pub needs_root_credentials : Cluster → Cluster
needs_root_credentials c = record c {
  spec = record c.spec { root_secret = some (record { name = some "test"; namespace = none }) };
}

abbrev pub needs_tikv_secret_ref : Cluster → Cluster
needs_tikv_secret_ref c = record c {
  spec = record c.spec {
    tikv_secret_ref = some (record { key = "test"; name = "test"; optional = none });
  };
}

abbrev pub finalized : Cluster → Cluster
finalized c = record c {
  metadata = record c.metadata {
    finalizers = some (get_or c.metadata.finalizers [] ++ cluster_finalizer ∷ []);
  };
}

abbrev pub with_status : Cluster → Status → Cluster
with_status c status = record c { status = some status }

pub data Scenario : Type 0 where
  finalizer_creation : Cluster → Scenario
  radio_silence : Scenario
  cleanup : (reason : String) → Cluster → Scenario
  status_patch_then_deployment_and_service_creation : Cluster → Scenario
  in_creation_ready_then_bootstrap_then_auth : Cluster → Scenario
  deployment_and_service_with_auth_env : Cluster → Scenario
  root_secret_creation_then_status_and_dp_svc : Cluster → Scenario

-- The text of a phase in JSON.
abbrev pub phase_text : Phase → String
phase_text new = "New"
phase_text preparing = "Preparing"
phase_text in_creation = "InCreation"
phase_text not_ready = "NotReady"
phase_text in_progress = "InProgress"
phase_text ready = "Ready"
phase_text error = "Error"

abbrev find_field : String → Fields → Option Json
find_field key end = none
find_field key (field k v fs) = let rest = find_field key fs in if k == key then some v else rest

-- `json.get(key)`
abbrev pub get : String → Json → Option Json
get key (object fs) = find_field key fs
get key other = none

-- `.and_then(|v| v.as_str())`
abbrev pub as_str : Option Json → Option String
as_str (some (string s)) = some s
as_str other = none

-- ===== src/Fixtures/Objects.antt =====
-- Objects and paths that the responses and the assertions of the fixtures share.
use sdb_controller.Prelude.{none, some, String, ◌<>◌, [], ◌∷◌}
use sdb_controller.Resources.Core.{ObjectMeta, Secret, Deployment, utf8}
use sdb_controller.Resources.Cluster.{Cluster}

abbrev pub meta_in : (name ns : String) → ObjectMeta
meta_in name ns = record {
  name = some name;
  namespace = some ns;
  uid = none;
  finalizers = none;
  deletion_timestamp = none;
  labels = none;
  owner_references = none;
}

abbrev pub ready_deployment : String → Deployment
ready_deployment name = record {
  metadata = meta_in name "default";
  spec = none;
  status = some (some 1);
}

-- "cm9vdA==" is "root".
abbrev pub root_secret : (name ns : String) → Secret
root_secret name ns = record {
  metadata = meta_in name ns;
  type_ = some "Opaque";
  bytes = some (("user", utf8 "root") ∷ ("password", utf8 "root") ∷ []);
  string_data = none;
}

-- format!("/api/v1/namespaces/{ns}/services/{name}-surrealdb:8000/proxy/sql")
abbrev pub sql_path : (ns name : String) → String
sql_path ns name =
    "/api/v1/namespaces/" <> ns <> "/services/" <> (name <> "-surrealdb:8000") <> "/proxy/sql"

-- A cluster whose root secret is "surreal-root".
abbrev pub referring_cluster : (name ns : String) → Cluster
referring_cluster name ns = record {
  metadata = meta_in name ns;
  spec = record {
    replicas = none;
    surrealdb_image = none;
    root_secret = some (record { name = some "surreal-root"; namespace = some ns });
    tikv_secret_ref = none;
    tidb_cluster = none;
  };
  status = none;
}

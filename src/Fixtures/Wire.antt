-- ===== src/Fixtures/Wire.antt =====
-- A request as the API server sees it: its method and its URI, which the `kube` client makes.
use sdb_controller.Error.{KubeError}
use sdb_controller.Prelude.{ℕ, ◌≡◌, false, get_or, String, ◌<>◌, List, mentions}
use sdb_controller.Resources.Core.{ObjectMeta, PatchOperation}
use sdb_controller.Api.{
  Call, patch_cluster, patch_database, patch_user, patch_cluster_status, patch_database_status,
  patch_user_status, create_secret, create_config_map, create_tidb_cluster, apply_deployment,
  apply_service, get_cluster, get_database, get_secret, get_deployment, get_opt_tidb_cluster,
  get_meta, delete, publish, request_text, execute, Kind, Event, deployment, service, secret,
  tidb_cluster,
}

-- The group's part of a path, the namespace and the plural name of the kind.
abbrev pub collection : (group ns plural : String) → String
collection group ns plural = group <> "/namespaces/" <> ns <> "/" <> plural

abbrev pub core : String
core = "/api/v1"

abbrev pub apps : String
apps = "/apis/apps/v1"

abbrev pub own_group : String
own_group = "/apis/surrealdb.aexol.com/v1alpha1"

abbrev pub pingcap : String
pingcap = "/apis/pingcap.com/v1alpha1"

abbrev of_kind : Kind → String → String
of_kind deployment ns = collection apps ns "deployments/"
of_kind service ns = collection core ns "services/"
of_kind secret ns = collection core ns "secrets/"
of_kind tidb_cluster ns = collection pingcap ns "tidbclusters/"

-- The path of the object or the collection that a request is about.
abbrev pub path_of : Call → String
path_of (patch_cluster ns name ops) = collection own_group ns "clusters/" <> name
path_of (patch_database ns name ops) = collection own_group ns "databases/" <> name
path_of (patch_user ns name ops) = collection own_group ns "users/" <> name
path_of (patch_cluster_status ns name p) = collection own_group ns "clusters/" <> name <> "/status"
path_of (patch_database_status ns name p m) =
    collection own_group ns "databases/" <> name <> "/status"
path_of (patch_user_status ns name p m) = collection own_group ns "users/" <> name <> "/status"
path_of (create_secret ns s) = collection core ns "secrets"
path_of (create_config_map ns c) = collection core ns "configmaps"
path_of (create_tidb_cluster ns t) = collection pingcap ns "tidbclusters"
path_of (apply_deployment ns name params d) = of_kind deployment ns <> name
path_of (apply_service ns name params s) = of_kind service ns <> name
path_of (get_cluster ns name) = collection own_group ns "clusters/" <> name
path_of (get_database ns name) = collection own_group ns "databases/" <> name
path_of (get_secret ns name) = of_kind secret ns <> name
path_of (get_deployment ns name) = of_kind deployment ns <> name
path_of (get_opt_tidb_cluster ns name) = of_kind tidb_cluster ns <> name
path_of (get_meta kind ns name) = of_kind kind ns <> name
path_of (delete kind ns name policy) = of_kind kind ns <> name
path_of (publish event meta) =
    collection "/apis/events.k8s.io/v1" (get_or meta.namespace "default") "events"
path_of (request_text request) = request.uri
path_of (execute request) = request.uri

-- A question mark ends the path of a request that writes, also in front of an empty query.
abbrev pub mark : Call → String
mark (get_cluster ns name) = ""
mark (get_database ns name) = ""
mark (get_secret ns name) = ""
mark (get_deployment ns name) = ""
mark (get_opt_tidb_cluster ns name) = ""
mark (get_meta kind ns name) = ""
mark (request_text request) = ""
mark (execute request) = ""
mark other = "?"

abbrev pub method_of : Call → String
method_of (patch_cluster ns name ops) = "PATCH"
method_of (patch_database ns name ops) = "PATCH"
method_of (patch_user ns name ops) = "PATCH"
method_of (patch_cluster_status ns name p) = "PATCH"
method_of (patch_database_status ns name p m) = "PATCH"
method_of (patch_user_status ns name p m) = "PATCH"
method_of (create_secret ns s) = "POST"
method_of (create_config_map ns c) = "POST"
method_of (create_tidb_cluster ns t) = "POST"
method_of (apply_deployment ns name params d) = "PATCH"
method_of (apply_service ns name params s) = "PATCH"
method_of (delete kind ns name policy) = "DELETE"
method_of (publish event meta) = "POST"
method_of (request_text request) = request.method
method_of (execute request) = request.method
method_of other = "GET"

-- `uri_path` is `http::Uri::path` of a URI given by its text, and `refused` the error that the client makes
-- of an error response.
pub record Wire : Type 0 where
  pub method : Call → String
  pub uri : Call → String
  pub query : Call → String
  pub uri_path : String → String
  pub refused : (status : ℕ) → (body : String) → KubeError

-- The documented form of the requests to the Kubernetes API. A JSON patch and an event have no query.
pub record IsKubernetes (wire : Wire) : Type 0 where
  pub methods : (call : Call) → wire.method call ≡ method_of call
  pub uris : (call : Call) → wire.uri call ≡ (path_of call <> mark call) <> wire.query call
  pub no_query :
      (ns name : String) (ops : List PatchOperation) → wire.query (patch_cluster ns name ops) ≡ ""
  pub no_database_query :
      (ns name : String) (ops : List PatchOperation) → wire.query (patch_database ns name ops) ≡ ""
  pub no_event_query : (event : Event) (meta : ObjectMeta) → wire.query (publish event meta) ≡ ""
  pub plain_path : (uri : String) → mentions "?" uri ≡ false → wire.uri_path uri ≡ uri

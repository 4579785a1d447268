-- ===== src/Tests/Mock.antt =====
-- A cluster, a database and a user, and an API server whose answers never change.
use sdb_controller.Prelude.{true, none, some, Option, String, [], ◌∷◌, get_or}
use sdb_controller.Resources.Core.{ObjectMeta, OwnerReference, Secret, Deployment, utf8}
use sdb_controller.Resources.Tidb.{TidbCluster}
use sdb_controller.Resources.Cluster.{Cluster, Phase}
use sdb_controller.Resources.Database as Db
use sdb_controller.Resources.User as Users
use sdb_controller.Api.{
  Call, patch_cluster, patch_database, patch_user, patch_cluster_status, patch_database_status,
  patch_user_status, create_secret, create_config_map, create_tidb_cluster, apply_deployment,
  apply_service, get_cluster, get_database, get_secret, get_deployment, get_opt_tidb_cluster,
  get_meta, delete, publish, request_text, execute, Try, ok, Fault, Reply, Kube,
}

abbrev meta_of : String → ObjectMeta
meta_of name = record {
  name = some name;
  namespace = some "prod";
  uid = some "uid-1";
  finalizers = none;
  deletion_timestamp = none;
  labels = none;
  owner_references = none;
}

abbrev pub own_reference : OwnerReference
own_reference = record {
  api_version = "surrealdb.aexol.com/v1alpha1";
  kind = "Cluster";
  name = "main";
  uid = "uid-1";
  controller = some true;
}

abbrev pub cluster_in : Option Phase → Cluster
cluster_in phase = record {
  metadata = meta_of "main";
  spec = record {
    replicas = some 2;
    surrealdb_image = none;
    root_secret = some (record { name = some "root"; namespace = none });
    tikv_secret_ref = some (record { key = "path"; name = "tikv"; optional = none });
    tidb_cluster = none;
  };
  status = some (record { phase = phase; tidb_cluster_ref = none });
}

abbrev pub fresh_database : Db.Database
fresh_database = record {
  metadata = meta_of "shop";
  spec = record {
    cluster_ref = record { name = "main"; namespace = none };
    db_namespace = some "sales";
    db_name = none;
  };
  status = none;
}

abbrev pub fresh_user : Users.User
fresh_user = record {
  metadata = meta_of "alice";
  spec = record {
    cluster_ref = record { name = "main"; namespace = none };
    database_ref = record { name = "shop"; namespace = none };
    username = none;
    password = some "it's";
    secret_name = none;
  };
  status = none;
}

abbrev root_secret : Secret
root_secret = record {
  metadata = meta_of "root";
  type_ = some "Opaque";
  bytes = some (("user", utf8 "root") ∷ ("password", utf8 "secret") ∷ []);
  string_data = none;
}

abbrev running : Deployment
running = record { metadata = meta_of "main-surrealdb"; spec = none; status = some (some 1) }

abbrev ready_tidb : TidbCluster
ready_tidb = record {
  metadata = meta_of "main";
  spec = record {
    across_k8s = none;
    affinity = none;
    annotations = none;
    cluster = none;
    cluster_domain = none;
    config_update_strategy = none;
    discovery = none;
    dns_config = none;
    dns_policy = none;
    enable_dynamic_configuration = none;
    enable_pvc_replace = none;
    enable_pv_reclaim = none;
    helper = none;
    host_network = none;
    image_pull_policy = none;
    image_pull_secrets = none;
    labels = none;
    node_selector = none;
    paused = none;
    pd = none;
    pd_addresses = none;
    pdms = none;
    pod_management_policy = none;
    pod_security_context = none;
    prefer_i_pv6 = none;
    priority_class_name = none;
    pump = none;
    pv_reclaim_policy = none;
    recovery_mode = none;
    scheduler_name = none;
    service_account = none;
    services = none;
    start_script_v2_feature_flags = none;
    start_script_version = none;
    stateful_set_update_strategy = none;
    suspend_action = none;
    ticdc = none;
    tidb = none;
    tiflash = none;
    tikv = none;
    timezone = none;
    tiproxy = none;
    tls_cluster = none;
    tolerations = none;
    topology_spread_constraints = none;
    version = none;
  };
  status = some (record {
    cluster_id = none;
    conditions = some (record { type_ = "Ready"; status = "True" } ∷ []);
    pd = none;
    pdms = none;
    pump = none;
    ticdc = none;
    tidb = none;
    tiflash = none;
    tikv = none;
    tiproxy = none;
  });
}

abbrev pub answer : (call : Call) → Try (Fault call) (Reply call)
answer (patch_cluster ns name ops) = ok tt
answer (patch_database ns name ops) = ok tt
answer (patch_user ns name ops) = ok tt
answer (patch_cluster_status ns name phase) = ok tt
answer (patch_database_status ns name phase message) = ok tt
answer (patch_user_status ns name phase message) = ok tt
answer (create_secret ns s) = ok tt
answer (create_config_map ns c) = ok tt
answer (create_tidb_cluster ns t) = ok tt
answer (apply_deployment ns name params d) = ok tt
answer (apply_service ns name params s) = ok tt
answer (get_cluster ns name) = ok (cluster_in (some Phase.ready))
answer (get_database ns name) = ok fresh_database
answer (get_secret ns name) = ok root_secret
answer (get_deployment ns name) = ok running
answer (get_opt_tidb_cluster ns name) = ok (some ready_tidb)
answer (get_meta kind ns name) =
    ok (record (meta_of name) { owner_references = some (own_reference ∷ []) })
answer (delete kind ns name policy) = ok tt
answer (publish event meta) = ok tt
answer (request_text request) = ok tt
answer (execute request) = ok tt

abbrev pub mock : Kube
mock = record {
  State = Unit {0};
  respond = λ call s. (answer call, s);
  alphanumeric = λ s. ("a", s);
  random_below = λ n s. (0, s);
  now = λ s. (0, s);
  trace_id = λ s. 0;
  name_any = λ meta. get_or meta.name "";
  controller_owner_ref = λ version kind meta. some own_reference;
  trace_text = λ n. "";
  error_text = λ e. "";
  base64 = λ s. s;
  header_value = λ s. none;
  parse_url = λ s. ok (record {
    host_str = some "main-surrealdb.prod.svc.cluster.local";
    port = some 8000;
    path = "/sql";
  });
  build_http = λ r. none;
  build_reqwest = λ r. none;
}

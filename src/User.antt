-- ===== src/User.antt =====
-- src/user/crd.rs: the controller of `User` resources.
pub mod Bounds
pub mod Order
pub mod Control
pub mod Calm
pub mod Requests
use mathlib.Core.Option
use sdb_controller.Prelude.{true, Option, none, some, get_or, String, ◌<>◌, List, [], ◌∷◌}
use sdb_controller.Error.{Error, kube_error, display}
use sdb_controller.Resources.Core.{OwnerReference, Secret, ConfigMap, utf8}
use sdb_controller.Resources.Cluster.{api_version}
use sdb_controller.Resources.User.{
  User, UserSpec, UserStatus, UserPhase, new, ready, error, user_kind,
}
use sdb_controller.Password.{generate_user_password}
use sdb_controller.Sql.{define_user}
use sdb_controller.Service.{Client}
use sdb_controller.Credentials.{get_root_credentials, send_sql}
use sdb_controller.Cluster.Actions.{created}
use sdb_controller.Cluster.Reconcile.{Action, requeue, await_change}
use sdb_controller.Api.{
  patch_user_status, create_secret, create_config_map, get_database, Kube, M, pure, unwrap, send,
  lift, attempt, ignore, on_try, on_option, ◌>>=◌, ◌>>◌,
}

abbrev pub current : Option UserStatus → UserPhase
current none = new
current (some s) = get_or s.phase new

-- `UserSpec::effective_username`
unfoldable pub effective_username : UserSpec → String → String
effective_username spec name = get_or spec.username name

module _ ⦃K : Kube⦄ where
  unfoldable pub set_phase_msg : User → UserPhase → Option String → M (Unit {0})
  set_phase_msg u phase message = do
    ns ← unwrap u.metadata.namespace
    r ← send (patch_user_status ns (K.name_any u.metadata) phase message)
    lift kube_error r

  -- `controller_owner_ref(&()).map(|mut o| { o.controller = Some(true); vec![o] })`
  unfoldable pub owners : User → Option (List OwnerReference)
  owners u =
      Option.map (λ (o : OwnerReference). record o { controller = some true } ∷ [])
        (K.controller_owner_ref api_version user_kind u.metadata)

  unfoldable pub credentials_secret : User → (ns name password : String) → Secret
  unfolding owners
  credentials_secret u ns name password = record {
    metadata = record {
      name = some name;
      namespace = some ns;
      uid = none;
      finalizers = none;
      deletion_timestamp = none;
      labels = none;
      owner_references = owners u;
    };
    type_ = some "Opaque";
    bytes = some (("password", utf8 password) ∷ []);
    string_data = none;
  }

  unfoldable pub ensure_secret : User → String → M String
  ensure_secret u password = do
    ns ← unwrap u.metadata.namespace
    let name = get_or u.spec.secret_name (K.name_any u.metadata <> "-credentials")
    r ← send (create_secret ns (credentials_secret u ns name password))
    lift kube_error (created r)
    pure name

  unfoldable pub connection_config :
      User → (ns name username cluster_ns cluster_name : String) → ConfigMap
  unfolding owners
  connection_config u ns name username cluster_ns cluster_name = record {
    metadata = record {
      name = some name;
      namespace = some ns;
      uid = none;
      finalizers = none;
      deletion_timestamp = none;
      labels = none;
      owner_references = owners u;
    };
    strings = some (
        ("username", username)
        ∷ (
          "url",
          "http://" <> cluster_name <> "-surrealdb." <> cluster_ns <> ".svc.cluster.local:8000",
        )
        ∷ []);
  }

  unfoldable pub ensure_configmap : User → (username cluster_ns cluster_name : String) → M String
  ensure_configmap u username cluster_ns cluster_name = do
    ns ← unwrap u.metadata.namespace
    let name = K.name_any u.metadata <> "-config"
    r ← send (create_config_map ns (connection_config u ns name username cluster_ns cluster_name))
    lift kube_error (created r)
    pure name

  unfoldable pub provision_user :
      Client
      → (cluster_ns cluster_name ns_name db_name username password user pass : String)
      → M (Unit {0})
  provision_user cli cluster_ns cluster_name ns_name db_name username password user pass =
      send_sql cli cluster_ns cluster_name user pass (define_user ns_name db_name username password)

  unfoldable pub fail_with : User → String → Error → M Action
  fail_with u what e = do
    ignore (set_phase_msg u error (some (what <> display e)))
    pure (requeue 20)

  -- The three steps that make a user, once its names and its password are known.
  unfoldable pub create :
      Client → User → (cluster_ns ns_name db_name username password user pass : String) → M Action
  create cli u cluster_ns ns_name db_name username password user pass = do
    let cluster_name = u.spec.cluster_ref.name
    r ←
        attempt
          (provision_user cli cluster_ns cluster_name ns_name db_name username password user pass)
    on_try r (fail_with u "provision failed: ") λ _. do
      r' ← attempt (ensure_secret u password)
      on_try r' (fail_with u "secret failed: ") λ _. do
        r'' ← attempt (ensure_configmap u username cluster_ns cluster_name)
        on_try r'' (fail_with u "configmap failed: ")
            λ _. do ignore (set_phase_msg u ready none); pure (requeue 120)

  unfoldable pub reconcile_new : Client → User → M Action
  reconcile_new cli u = do
    k8s_ns ← unwrap u.metadata.namespace
    let cluster_ns = get_or u.spec.cluster_ref.namespace k8s_ns
    let db_ns = get_or u.spec.database_ref.namespace k8s_ns
    r ← send (get_database db_ns u.spec.database_ref.name)
    db ← lift kube_error r
    let surreal_ns = get_or db.spec.db_namespace db_ns
    let surreal_db = get_or db.spec.db_name (K.name_any db.metadata)
    (root_user, root_pass) ← get_root_credentials cluster_ns u.spec.cluster_ref.name
    name ← unwrap u.metadata.name
    password ← on_option u.spec.password generate_user_password pure
    create cli u cluster_ns surreal_ns surreal_db (effective_username u.spec name) password
        root_user root_pass

  unfoldable pub handle : Client → User → UserPhase → M Action
  handle cli u new = reconcile_new cli u
  handle cli u error = reconcile_new cli u
  handle cli u ready = pure (requeue 180)

  unfoldable pub reconcile : Client → User → M Action
  unfolding handle
  reconcile cli u = handle cli u (current u.status)

  unfoldable pub cleanup : User → M Action
  cleanup u = pure await_change

unfoldable pub error_policy : User → Error → Action
error_policy u e = requeue 60

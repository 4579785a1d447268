-- ===== src/Database.antt =====
-- src/database/crd.rs: the controller of `Database` resources.
pub mod Bounds
pub mod Order
pub mod Control
pub mod Requests
pub mod Calm
use sdb_controller.Prelude.{Option, none, some, get_or, String, ◌<>◌}
use sdb_controller.Error.{Error, kube_error, display}
use sdb_controller.Resources.Database.{Database, DbStatus, DbPhase, new, in_progress, ready, error}
use sdb_controller.Sql.{define_namespace, define_database}
use sdb_controller.Service.{Client}
use sdb_controller.Credentials.{get_root_credentials, send_sql}
use sdb_controller.Cluster.Reconcile.{Action, requeue, await_change}
use sdb_controller.Api.{
  patch_database_status, Kube, M, pure, unwrap, send, lift, attempt, ignore, on_try, ◌>>=◌, ◌>>◌,
}

abbrev pub current : Option DbStatus → DbPhase
current none = new
current (some s) = get_or s.phase new

module _ ⦃K : Kube⦄ where
  unfoldable pub set_phase_msg : Database → DbPhase → Option String → M (Unit {0})
  set_phase_msg db phase message = do
    ns ← unwrap db.metadata.namespace
    r ← send (patch_database_status ns (K.name_any db.metadata) phase message)
    lift kube_error r

  unfoldable pub ensure_surreal_namespace :
      Client → (cluster_ns cluster_name ns_name user pass : String) → M (Unit {0})
  ensure_surreal_namespace cli cluster_ns cluster_name ns_name user pass =
      send_sql cli cluster_ns cluster_name user pass (define_namespace ns_name)

  unfoldable pub ensure_surreal_database :
      Client → (cluster_ns cluster_name ns_name db_name user pass : String) → M (Unit {0})
  ensure_surreal_database cli cluster_ns cluster_name ns_name db_name user pass =
      send_sql cli cluster_ns cluster_name user pass (define_database ns_name db_name)

  -- A step failed: the phase is set, its own failure ignored, and the object is requeued.
  unfoldable pub fail_with : Database → String → Error → M Action
  fail_with db what e = do
    ignore (set_phase_msg db error (some (what <> display e)))
    pure (requeue 20)

  -- `unwrap_or(….expect(…))` needs the resource's name even where `dbName` is set.
  unfoldable pub define : Client → Database → (cluster_ns ns_name user pass : String) → M Action
  define cli db cluster_ns ns_name user pass = do
    let cluster_name = db.spec.cluster_ref.name
    r ← attempt (ensure_surreal_namespace cli cluster_ns cluster_name ns_name user pass)
    on_try r (fail_with db "namespace define failed: ") λ _. do
      name ← unwrap db.metadata.name
      let db_name = get_or db.spec.db_name name
      r' ← attempt (ensure_surreal_database cli cluster_ns cluster_name ns_name db_name user pass)
      on_try r' (fail_with db "database define failed: ")
          λ _. do ignore (set_phase_msg db ready none); pure (requeue 60)

  unfoldable pub reconcile_new : Client → Database → M Action
  reconcile_new cli db = do
    k8s_ns ← unwrap db.metadata.namespace
    let cluster_ns = get_or db.spec.cluster_ref.namespace k8s_ns
    let surreal_ns = get_or db.spec.db_namespace k8s_ns
    (user, pass) ← get_root_credentials cluster_ns db.spec.cluster_ref.name
    define cli db cluster_ns surreal_ns user pass

  unfoldable pub handle : Client → Database → DbPhase → M Action
  handle cli db new = reconcile_new cli db
  handle cli db in_progress = reconcile_new cli db
  handle cli db ready = pure (requeue 120)
  handle cli db error = pure (requeue 30)

  unfoldable pub reconcile : Client → Database → M Action
  unfolding handle
  reconcile cli db = handle cli db (current db.status)

  unfoldable pub cleanup : Database → M Action
  cleanup db = pure await_change

unfoldable pub error_policy : Database → Error → Action
error_policy db e = requeue 60

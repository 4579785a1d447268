-- ===== src/Cluster/Calm.antt =====
-- src/cluster/crd.rs: the panics that a reconciliation of a cluster may meet.
use sdb_controller.Prelude.{
  ℕ, ◌≡◌, refl, arith, Bool, true, false, Option, none, some, String, ◌<>◌,
}
use sdb_controller.Error.{Error}
use sdb_controller.Resources.Core.{
  OwnerReference, ByteString, Deployment, Service, PropagationPolicy,
}
use sdb_controller.Resources.Tidb.{TidbCluster}
use sdb_controller.Resources.Cluster.{
  Cluster, Phase, new, preparing, in_creation, not_ready, in_progress, ready, error,
}
use sdb_controller.Password.Shape.{IsFair}
use sdb_controller.Password.Calm.{generate_secure_password-IsCalm}
use sdb_controller.Cluster.Objects.{owner_ref, build_surreal_deployment, build_surreal_service}
use sdb_controller.Cluster.Actions.{
  persist_root_secret_ref, ensure_root_secret, reconcile_surrealdb_with_mode, set_phase,
  check_ready, reconcile_tidb_cluster,
}
use sdb_controller.Cluster.Bootstrap.{credentials, post_root, bootstrap_root_user}
use sdb_controller.Cluster.Reconcile.{
  Action, current, mark, start_creation, after_secret, reconcile_new, found, wait_for_tidb,
  reconcile_preparing, promote, when_created, reconcile_in_creation, settle_in_progress,
  settle_ready, settle_not_ready, reconcile_authenticated, reconcile_error, handle, reconcile,
}
use sdb_controller.Cluster.Cleanup.{delete_if_exists, cleanup}
use sdb_controller.Api.{Kind, Try, ok, err, Kube, M, start}
use sdb_controller.Api.Calm.{Returns, IsCalm, calm_rules}

module _ ⦃K : Kube⦄ (c : Cluster) (ns : String) (oref : OwnerReference) where
  module _ (home : c.metadata.namespace ≡ some ns) where
    set_phase-IsCalm : (q : Phase) → IsCalm (set_phase c q)
    unfolding set_phase
    set_phase-IsCalm q = search calm_rules

    mark-IsCalm : (q : Phase) (n : ℕ) → IsCalm (mark c q n)
    unfolding mark
    mark-IsCalm q n = search (calm_rules, set_phase-IsCalm)

    check_ready-IsCalm : (name : String) → IsCalm (check_ready c name)
    unfolding check_ready
    check_ready-IsCalm name = search calm_rules depth 8

    persist_root_secret_ref-IsCalm : (name : String) → IsCalm (persist_root_secret_ref c name)
    unfolding persist_root_secret_ref
    persist_root_secret_ref-IsCalm name = search calm_rules depth 8

    credentials-IsCalm : (user pass : Option ByteString) → IsCalm (credentials user pass)
    unfolding credentials
    credentials-IsCalm none pass = search calm_rules
    credentials-IsCalm (some user) none = search calm_rules
    credentials-IsCalm (some user) (some pass) = search calm_rules

    post_root-IsCalm : (name user pass : String) → IsCalm (post_root ns name user pass)
    unfolding post_root
    post_root-IsCalm name user pass = search calm_rules depth 8

    bootstrap_root_user-IsCalm : (name : String) → IsCalm (bootstrap_root_user c name)
    unfolding bootstrap_root_user
    bootstrap_root_user-IsCalm name =
        search (calm_rules, credentials-IsCalm, post_root-IsCalm) depth 14

  module _ (home : c.metadata.namespace ≡ some ns) (owned : owner_ref c ≡ some oref) where
    pub deployment_built :
        (name : String) (mode : Bool) (o : Option Deployment)
        → build_surreal_deployment c name mode ≡ o
        → (dp : Deployment) × (o ≡ some dp) × (dp.metadata.name ≡ some (name <> "-surrealdb"))
    unfolding build_surreal_deployment
    deployment_built name mode none e = ground (arith, owned)
    deployment_built name mode (some dp) e = (dp, refl, ground (arith, owned))

    pub service_built :
        (name : String) (o : Option Service)
        → build_surreal_service c name ≡ o
        → (svc : Service) × (o ≡ some svc) × (svc.metadata.name ≡ some (name <> "-surrealdb"))
    unfolding build_surreal_service
    service_built name none e = ground (arith, owned)
    service_built name (some svc) e = (svc, refl, ground (arith, owned))

    reconcile_surrealdb_with_mode-IsCalm :
        (name : String) (mode : Bool) → IsCalm (reconcile_surrealdb_with_mode c name mode)
    unfolding reconcile_surrealdb_with_mode
    reconcile_surrealdb_with_mode-IsCalm name mode =
        let (dp, built, named) = deployment_built name mode _ refl in
        let (svc, made, titled) = service_built name _ refl in search calm_rules depth 16

    reconcile_tidb_cluster-IsCalm : (name : String) → IsCalm (reconcile_tidb_cluster c name)
    unfolding reconcile_tidb_cluster
    reconcile_tidb_cluster-IsCalm name = search calm_rules depth 10

    ensure_root_secret-IsCalm : IsFair → IsCalm (ensure_root_secret c)
    unfolding ensure_root_secret
    ensure_root_secret-IsCalm fair =
        search (calm_rules, generate_secure_password-IsCalm, persist_root_secret_ref-IsCalm) depth
          14

  module _ (home : c.metadata.namespace ≡ some ns) (owned : owner_ref c ≡ some oref)
      (fair : IsFair) where
    start_creation-IsCalm : (name : String) → IsCalm (start_creation c name)
    unfolding start_creation
    start_creation-IsCalm name = search (calm_rules, reconcile_surrealdb_with_mode-IsCalm) depth 8

    after_secret-IsCalm : (name : String) → IsCalm (after_secret c name)
    unfolding after_secret
    after_secret-IsCalm name =
        search (calm_rules, start_creation-IsCalm, set_phase-IsCalm, mark-IsCalm) depth 8

    reconcile_new-IsCalm : (name : String) → IsCalm (reconcile_new c name)
    unfolding reconcile_new
    reconcile_new-IsCalm name =
        search
          (
            calm_rules, after_secret-IsCalm, set_phase-IsCalm, mark-IsCalm,
            ensure_root_secret-IsCalm,
          )
          depth 10

    found-IsCalm : (name : String) (o : Option TidbCluster) → IsCalm (found c name o)
    unfolding found
    found-IsCalm name none = search calm_rules
    found-IsCalm name (some tc) =
        search (calm_rules, start_creation-IsCalm, set_phase-IsCalm) depth 8

    reconcile_preparing-IsCalm : (name : String) → IsCalm (reconcile_preparing c name)
    unfolding reconcile_preparing wait_for_tidb
    reconcile_preparing-IsCalm name =
        search (calm_rules, found-IsCalm, reconcile_tidb_cluster-IsCalm) depth 12

    promote-IsCalm : (name : String) → IsCalm (promote c name)
    unfolding promote
    promote-IsCalm name =
        search
          (
            calm_rules, reconcile_surrealdb_with_mode-IsCalm, bootstrap_root_user-IsCalm,
            set_phase-IsCalm,
          )
          depth 12

    when_created-IsCalm : (name : String) (r : Try Error Bool) → IsCalm (when_created c name r)
    unfolding when_created
    when_created-IsCalm name (ok true) = promote-IsCalm name
    when_created-IsCalm name (ok false) = search calm_rules
    when_created-IsCalm name (err e) = search calm_rules

    settle_in_progress-IsCalm : (r : Try Error Bool) → IsCalm (settle_in_progress c r)
    unfolding settle_in_progress
    settle_in_progress-IsCalm (ok true) = mark-IsCalm home ready 60
    settle_in_progress-IsCalm (ok false) = mark-IsCalm home not_ready 30
    settle_in_progress-IsCalm (err e) = mark-IsCalm home not_ready 30

    settle_ready-IsCalm : (r : Try Error Bool) → IsCalm (settle_ready c r)
    unfolding settle_ready
    settle_ready-IsCalm (ok true) = search calm_rules
    settle_ready-IsCalm (ok false) = mark-IsCalm home not_ready 30
    settle_ready-IsCalm (err e) = mark-IsCalm home not_ready 30

    settle_not_ready-IsCalm : (r : Try Error Bool) → IsCalm (settle_not_ready c r)
    unfolding settle_not_ready
    settle_not_ready-IsCalm (ok true) = mark-IsCalm home ready 60
    settle_not_ready-IsCalm (ok false) = search calm_rules
    settle_not_ready-IsCalm (err e) = search calm_rules

    reconcile_authenticated-IsCalm :
        (name : String) (settle : Try Error Bool → M Action)
        → ((r : Try Error Bool) → IsCalm (settle r))
        → IsCalm (reconcile_authenticated c name settle)
    unfolding reconcile_authenticated
    reconcile_authenticated-IsCalm name settle h =
        search (calm_rules, reconcile_surrealdb_with_mode-IsCalm, check_ready-IsCalm) depth 10

    handle-IsCalm : (name : String) (p : Phase) → IsCalm (handle c name p)
    unfolding handle reconcile_in_creation reconcile_error
    handle-IsCalm name new = reconcile_new-IsCalm name
    handle-IsCalm name preparing = reconcile_preparing-IsCalm name
    handle-IsCalm name in_creation =
        search (calm_rules, check_ready-IsCalm, when_created-IsCalm) depth 8
    handle-IsCalm name in_progress = reconcile_authenticated-IsCalm name _ settle_in_progress-IsCalm
    handle-IsCalm name ready = reconcile_authenticated-IsCalm name _ settle_ready-IsCalm
    handle-IsCalm name not_ready = reconcile_authenticated-IsCalm name _ settle_not_ready-IsCalm
    handle-IsCalm name error = search (calm_rules, reconcile_surrealdb_with_mode-IsCalm) depth 8

module _ ⦃K : Kube⦄ (c : Cluster) (ns : String) (home : c.metadata.namespace ≡ some ns) where
  delete_if_exists-IsCalm :
      (kind : Kind) (name : String) (policy : Option PropagationPolicy)
      → IsCalm (delete_if_exists c kind name policy)
  unfolding delete_if_exists
  delete_if_exists-IsCalm kind name policy = search calm_rules depth 12

  cleanup-IsCalm : IsCalm (cleanup c)
  unfolding cleanup
  cleanup-IsCalm = search (calm_rules, delete_if_exists-IsCalm) depth 16

-- Where random numbers lie in their ranges, the reconciliation of a cluster that has a namespace and
-- an owner reference returns or fails with an error, whatever the servers answer: it never panics.
-- Nor does its cleanup.
pub reconcile_cluster-Returns :
    ⦃K : Kube⦄ (c : Cluster) (ns : String) (oref : OwnerReference)
    → c.metadata.namespace ≡ some ns
    → owner_ref c ≡ some oref
    → IsFair
    → (s : K.State) → Returns (reconcile c (start s)).0 × Returns (cleanup c (start s)).0
unfolding reconcile
reconcile_cluster-Returns c ns oref home owned fair s = (
  (handle-IsCalm c ns oref home owned fair _ (current c.status)).at (start s),
  (cleanup-IsCalm c ns home).at (start s),
)

-- ===== src/Cluster/Still.antt =====
-- src/cluster/crd.rs: a reconciliation, the metrics and the diagnostics.
use sdb_controller.Prelude.{ℕ, Bool, true, false, Option, none, some, String}
use sdb_controller.Error.{Error}
use sdb_controller.Resources.Core.{ByteString, PropagationPolicy}
use sdb_controller.Resources.Tidb.{TidbCluster}
use sdb_controller.Resources.Cluster.{
  Cluster, Phase, new, preparing, in_creation, not_ready, in_progress, ready, error,
}
use sdb_controller.Password.Still.{generate_secure_password-IsStill}
use sdb_controller.Cluster.Actions.{
  persist_root_secret_ref, ensure_root_secret, reconcile_surrealdb_with_mode, set_phase,
  check_ready, reconcile_tidb_cluster,
}
use sdb_controller.Cluster.Bootstrap.{credentials, post_root, bootstrap_root_user}
use sdb_controller.Cluster.Reconcile.{
  Action, current, mark, start_creation, after_secret, reconcile_new, found, wait_for_tidb,
  reconcile_preparing, promote, when_created, reconcile_in_creation, settle_in_progress,
  settle_ready, settle_not_ready, reconcile_authenticated, reconcile_error, handle, reconcile,
}
use sdb_controller.Cluster.Cleanup.{delete_if_exists, cleanup}
use sdb_controller.Api.{Kind, Try, ok, err, Kube, M}
use sdb_controller.Api.Still.{IsStill, still_rules}

module _ ⦃K : Kube⦄ (c : Cluster) where
  set_phase-IsStill : (q : Phase) → IsStill (set_phase c q)
  unfolding set_phase
  set_phase-IsStill q = search still_rules

  mark-IsStill : (q : Phase) (n : ℕ) → IsStill (mark c q n)
  unfolding mark
  mark-IsStill q n = search (still_rules, set_phase-IsStill)

  check_ready-IsStill : (name : String) → IsStill (check_ready c name)
  unfolding check_ready
  check_ready-IsStill name = search still_rules depth 8

  persist_root_secret_ref-IsStill : (name : String) → IsStill (persist_root_secret_ref c name)
  unfolding persist_root_secret_ref
  persist_root_secret_ref-IsStill name = search still_rules depth 8

  credentials-IsStill : (user pass : Option ByteString) → IsStill (credentials user pass)
  unfolding credentials
  credentials-IsStill none pass = search still_rules
  credentials-IsStill (some user) none = search still_rules
  credentials-IsStill (some user) (some pass) = search still_rules

  post_root-IsStill : (ns name user pass : String) → IsStill (post_root ns name user pass)
  unfolding post_root
  post_root-IsStill ns name user pass = search still_rules depth 8

  bootstrap_root_user-IsStill : (name : String) → IsStill (bootstrap_root_user c name)
  unfolding bootstrap_root_user
  bootstrap_root_user-IsStill name =
      search (still_rules, credentials-IsStill, post_root-IsStill) depth 14

  reconcile_surrealdb_with_mode-IsStill :
      (name : String) (mode : Bool) → IsStill (reconcile_surrealdb_with_mode c name mode)
  unfolding reconcile_surrealdb_with_mode
  reconcile_surrealdb_with_mode-IsStill name mode = search still_rules depth 16

  reconcile_tidb_cluster-IsStill : (name : String) → IsStill (reconcile_tidb_cluster c name)
  unfolding reconcile_tidb_cluster
  reconcile_tidb_cluster-IsStill name = search still_rules depth 10

  ensure_root_secret-IsStill : IsStill (ensure_root_secret c)
  unfolding ensure_root_secret
  ensure_root_secret-IsStill =
      search (still_rules, generate_secure_password-IsStill, persist_root_secret_ref-IsStill) depth
        14

  start_creation-IsStill : (name : String) → IsStill (start_creation c name)
  unfolding start_creation
  start_creation-IsStill name = search (still_rules, reconcile_surrealdb_with_mode-IsStill) depth 8

  after_secret-IsStill : (name : String) → IsStill (after_secret c name)
  unfolding after_secret
  after_secret-IsStill name =
      search (still_rules, start_creation-IsStill, set_phase-IsStill, mark-IsStill) depth 8

  reconcile_new-IsStill : (name : String) → IsStill (reconcile_new c name)
  unfolding reconcile_new
  reconcile_new-IsStill name =
      search
        (
          still_rules, after_secret-IsStill, set_phase-IsStill, mark-IsStill,
          ensure_root_secret-IsStill,
        )
        depth 10

  found-IsStill : (name : String) (o : Option TidbCluster) → IsStill (found c name o)
  unfolding found
  found-IsStill name none = search still_rules
  found-IsStill name (some tc) =
      search (still_rules, start_creation-IsStill, set_phase-IsStill) depth 8

  reconcile_preparing-IsStill : (name : String) → IsStill (reconcile_preparing c name)
  unfolding reconcile_preparing wait_for_tidb
  reconcile_preparing-IsStill name =
      search (still_rules, found-IsStill, reconcile_tidb_cluster-IsStill) depth 12

  promote-IsStill : (name : String) → IsStill (promote c name)
  unfolding promote
  promote-IsStill name =
      search
        (
          still_rules, reconcile_surrealdb_with_mode-IsStill, bootstrap_root_user-IsStill,
          set_phase-IsStill,
        )
        depth 12

  when_created-IsStill : (name : String) (r : Try Error Bool) → IsStill (when_created c name r)
  unfolding when_created
  when_created-IsStill name (ok true) = promote-IsStill name
  when_created-IsStill name (ok false) = search still_rules
  when_created-IsStill name (err e) = search still_rules

  settle_in_progress-IsStill : (r : Try Error Bool) → IsStill (settle_in_progress c r)
  unfolding settle_in_progress
  settle_in_progress-IsStill (ok true) = mark-IsStill ready 60
  settle_in_progress-IsStill (ok false) = mark-IsStill not_ready 30
  settle_in_progress-IsStill (err e) = mark-IsStill not_ready 30

  settle_ready-IsStill : (r : Try Error Bool) → IsStill (settle_ready c r)
  unfolding settle_ready
  settle_ready-IsStill (ok true) = search still_rules
  settle_ready-IsStill (ok false) = mark-IsStill not_ready 30
  settle_ready-IsStill (err e) = mark-IsStill not_ready 30

  settle_not_ready-IsStill : (r : Try Error Bool) → IsStill (settle_not_ready c r)
  unfolding settle_not_ready
  settle_not_ready-IsStill (ok true) = mark-IsStill ready 60
  settle_not_ready-IsStill (ok false) = search still_rules
  settle_not_ready-IsStill (err e) = search still_rules

  reconcile_authenticated-IsStill :
      (name : String) (settle : Try Error Bool → M Action)
      → ((r : Try Error Bool) → IsStill (settle r))
      → IsStill (reconcile_authenticated c name settle)
  unfolding reconcile_authenticated
  reconcile_authenticated-IsStill name settle h =
      search (still_rules, reconcile_surrealdb_with_mode-IsStill, check_ready-IsStill) depth 10

  handle-IsStill : (name : String) (p : Phase) → IsStill (handle c name p)
  unfolding handle reconcile_in_creation reconcile_error
  handle-IsStill name new = reconcile_new-IsStill name
  handle-IsStill name preparing = reconcile_preparing-IsStill name
  handle-IsStill name in_creation =
      search (still_rules, check_ready-IsStill, when_created-IsStill) depth 8
  handle-IsStill name in_progress =
      reconcile_authenticated-IsStill name _ settle_in_progress-IsStill
  handle-IsStill name ready = reconcile_authenticated-IsStill name _ settle_ready-IsStill
  handle-IsStill name not_ready = reconcile_authenticated-IsStill name _ settle_not_ready-IsStill
  handle-IsStill name error = search (still_rules, reconcile_surrealdb_with_mode-IsStill) depth 8

  delete_if_exists-IsStill :
      (kind : Kind) (name : String) (policy : Option PropagationPolicy)
      → IsStill (delete_if_exists c kind name policy)
  unfolding delete_if_exists
  delete_if_exists-IsStill kind name policy = search still_rules depth 12

  pub cleanup-IsStill : IsStill (cleanup c)
  unfolding cleanup
  cleanup-IsStill = search (still_rules, delete_if_exists-IsStill) depth 16

  pub reconcile-IsStill : IsStill (reconcile c)
  unfolding reconcile
  reconcile-IsStill = handle-IsStill _ (current c.status)

-- ===== src/Cluster/Reconcile.antt =====
-- src/cluster/crd.rs: `Cluster::reconcile`, a handler for each phase.
use sdb_controller.Prelude.{
  ℕ, Bool, true, false, Option, none, some, get_or, String, is_some, if◌then◌else◌,
}
use sdb_controller.Error.{Error}
use sdb_controller.Resources.Tidb.{TidbCluster}
use sdb_controller.Resources.Cluster.{
  Cluster, Status, Phase, new, preparing, in_creation, not_ready, in_progress, ready, error,
}
use sdb_controller.Cluster.Actions.{
  ensure_root_secret, reconcile_surrealdb_with_mode, set_phase, check_ready,
  tikv_backend_configured, reconcile_tidb_cluster, tidb_ready,
}
use sdb_controller.Cluster.Bootstrap.{bootstrap_root_user}
use sdb_controller.Api.{
  get_opt_tidb_cluster, Try, ok, err, Kube, M, pure, unwrap, send, attempt, ignore, on_try, ◌>>=◌,
  ◌>>◌,
}

-- `kube::runtime::controller::Action`, a requeue by its seconds.
pub data Action : Type 0 where
  requeue : ℕ → Action
  await_change : Action

-- `status.as_ref().and_then(|s| s.phase.clone()).unwrap_or(Phase::New)`
abbrev pub current : Option Status → Phase
current none = new
current (some s) = get_or s.phase new

module _ ⦃K : Kube⦄ where
  -- `self.set_phase(…).await.ok();`, then the requeue.
  unfoldable pub mark : Cluster → Phase → ℕ → M Action
  mark c phase seconds = do ignore (set_phase c phase); pure (requeue seconds)

  -- The phase is set, then the deployment is applied in creation mode.
  unfoldable pub start_creation : Cluster → String → M Action
  start_creation c name = do reconcile_surrealdb_with_mode c name true; pure (requeue 20)

  unfoldable pub after_secret : Cluster → String → M Action
  after_secret c name =
      if is_some c.spec.tidb_cluster
      then mark c preparing 10
      else (do set_phase c in_creation; start_creation c name)

  unfoldable pub reconcile_new : Cluster → String → M Action
  reconcile_new c name =
      on_try (tikv_backend_configured c) (λ e. do set_phase c error; pure (requeue 30))
        (λ _. do
          r ← attempt (ensure_root_secret c)
          on_try r (λ e. mark c error 30) (λ _. after_secret c name))

  unfoldable pub found : Cluster → String → Option TidbCluster → M Action
  found c name none = pure (requeue 10)
  found c name (some tc) =
      if tidb_ready tc
      then (do ignore (set_phase c in_creation); start_creation c name)
      else pure (requeue 15)

  unfoldable pub wait_for_tidb : Cluster → String → M Action
  wait_for_tidb c name = do
    ns ← unwrap c.metadata.namespace
    r ← send (get_opt_tidb_cluster ns name)
    on_try r (λ e. pure (requeue 15)) (λ tc. found c name tc)

  unfoldable pub reconcile_preparing : Cluster → String → M Action
  reconcile_preparing c name = do
    r ← attempt (reconcile_tidb_cluster c name)
    on_try r (λ e. pure (requeue 20)) (λ _. wait_for_tidb c name)

  unfoldable pub promote : Cluster → String → M Action
  promote c name = do
    r ← attempt (bootstrap_root_user c name)
    on_try r (λ e. pure (requeue 30))
        (λ _. do
          ignore (set_phase c in_progress)
          reconcile_surrealdb_with_mode c name false
          pure (requeue 20))

  unfoldable pub when_created : Cluster → String → Try Error Bool → M Action
  when_created c name (ok true) = promote c name
  when_created c name (ok false) = pure (requeue 20)
  when_created c name (err e) = pure (requeue 20)

  unfoldable pub reconcile_in_creation : Cluster → String → M Action
  reconcile_in_creation c name = do r ← attempt (check_ready c name); when_created c name r

  -- What each authenticated phase does with the result of `check_ready`.
  unfoldable pub settle_in_progress : Cluster → Try Error Bool → M Action
  settle_in_progress c (ok true) = mark c ready 60
  settle_in_progress c (ok false) = mark c not_ready 30
  settle_in_progress c (err e) = mark c not_ready 30

  unfoldable pub settle_ready : Cluster → Try Error Bool → M Action
  settle_ready c (ok true) = pure (requeue 120)
  settle_ready c (ok false) = mark c not_ready 30
  settle_ready c (err e) = mark c not_ready 30

  unfoldable pub settle_not_ready : Cluster → Try Error Bool → M Action
  settle_not_ready c (ok true) = mark c ready 60
  settle_not_ready c (ok false) = pure (requeue 30)
  settle_not_ready c (err e) = pure (requeue 30)

  unfoldable pub reconcile_authenticated : Cluster → String → (Try Error Bool → M Action) → M Action
  reconcile_authenticated c name settle = do
    reconcile_surrealdb_with_mode c name false
    r ← attempt (check_ready c name)
    settle r

  unfoldable pub reconcile_error : Cluster → String → M Action
  reconcile_error c name = do ignore (reconcile_surrealdb_with_mode c name false); pure (requeue 45)

  unfoldable pub handle : Cluster → String → Phase → M Action
  handle c name new = reconcile_new c name
  handle c name preparing = reconcile_preparing c name
  handle c name in_creation = reconcile_in_creation c name
  handle c name in_progress = reconcile_authenticated c name (settle_in_progress c)
  handle c name ready = reconcile_authenticated c name (settle_ready c)
  handle c name not_ready = reconcile_authenticated c name (settle_not_ready c)
  handle c name error = reconcile_error c name

  unfoldable pub reconcile : Cluster → M Action
  reconcile c = handle c (K.name_any c.metadata) (current c.status)

-- ===== src/Cluster/Transitions.antt =====
-- src/cluster/crd.rs: which phases a reconciliation may write.
use sdb_controller.Error.{Error}
use sdb_controller.Resources.Tidb.{TidbCluster}
use sdb_controller.Prelude.{ℕ, Option, none, some, Bool, true, false, String, All}
use sdb_controller.Resources.Cluster.{
  Cluster, Phase, new, preparing, in_creation, not_ready, in_progress, ready, error,
}
use sdb_controller.Password.Quiet.{generate_secure_password-Logs}
use sdb_controller.Cluster.Actions.{
  persist_root_secret_ref, ensure_root_secret, reconcile_surrealdb_with_mode, set_phase,
  check_ready, reconcile_tidb_cluster,
}
use sdb_controller.Cluster.Bootstrap.{post_root, bootstrap_root_user, credentials-Logs}
use sdb_controller.Cluster.Reconcile.{
  Action, current, mark, start_creation, after_secret, reconcile_new, found, wait_for_tidb,
  reconcile_preparing, promote, when_created, reconcile_in_creation, settle_in_progress,
  settle_ready, settle_not_ready, reconcile_authenticated, reconcile_error, handle, reconcile,
}
use sdb_controller.Api.{Call, Try, ok, err, patch_cluster_status, Kube, M, trace}
use sdb_controller.Api.Logs.{Logs, Logs-trace, logs_rules}

-- The phase diagram. No edge leaves `error`.
infix 40 ◌⟶◌
pub data ◌⟶◌ : Phase → Phase → Type 0 where
  prepare : new ⟶ preparing
  create : new ⟶ in_creation
  refuse : new ⟶ error
  tidb_up : preparing ⟶ in_creation
  bootstrapped : in_creation ⟶ in_progress
  settled : in_progress ⟶ ready
  unsettled : in_progress ⟶ not_ready
  lost : ready ⟶ not_ready
  recovered : not_ready ⟶ ready

-- A request that writes a phase follows an edge from `p`.
abbrev pub Follows : Phase → Call → Type 0
Follows p (patch_cluster_status ns name q) = p ⟶ q
Follows p other = Unit

ruleset edges =
    (prepare, create, refuse, tidb_up, bootstrapped, settled, unsettled, lost, recovered)

-- The requests of `m` write no phase but along an edge from `p`.
abbrev Moves : ⦃K : Kube⦄ {A : Type 0} → Phase → M A → Type 0
Moves p m = Logs (λ e. Follows p e.call) m

module _ ⦃K : Kube⦄ {p : Phase} where
  set_phase-Moves : (c : Cluster) (q : Phase) → p ⟶ q → Moves p (set_phase c q)
  unfolding set_phase
  set_phase-Moves c q h = search logs_rules

  persist_root_secret_ref-Moves :
      (c : Cluster) (name : String) → Moves p (persist_root_secret_ref c name)
  unfolding persist_root_secret_ref
  persist_root_secret_ref-Moves c name = search logs_rules

  ensure_root_secret-Moves : (c : Cluster) → Moves p (ensure_root_secret c)
  unfolding ensure_root_secret
  ensure_root_secret-Moves c =
      search (logs_rules, generate_secure_password-Logs, persist_root_secret_ref-Moves c) depth 12

  reconcile_surrealdb_with_mode-Moves :
      (c : Cluster) (name : String) (b : Bool) → Moves p (reconcile_surrealdb_with_mode c name b)
  unfolding reconcile_surrealdb_with_mode
  reconcile_surrealdb_with_mode-Moves c name b = search logs_rules depth 12

  check_ready-Moves : (c : Cluster) (name : String) → Moves p (check_ready c name)
  unfolding check_ready
  check_ready-Moves c name = search logs_rules

  reconcile_tidb_cluster-Moves :
      (c : Cluster) (name : String) → Moves p (reconcile_tidb_cluster c name)
  unfolding reconcile_tidb_cluster
  reconcile_tidb_cluster-Moves c name = search logs_rules depth 8

  bootstrap_root_user-Moves : (c : Cluster) (name : String) → Moves p (bootstrap_root_user c name)
  unfolding bootstrap_root_user post_root
  bootstrap_root_user-Moves c name = search (logs_rules, credentials-Logs) depth 12

  mark-Moves : (c : Cluster) (q : Phase) (n : ℕ) → p ⟶ q → Moves p (mark c q n)
  unfolding mark
  mark-Moves c q n h = search (logs_rules, set_phase-Moves)

  start_creation-Moves : (c : Cluster) (name : String) → Moves p (start_creation c name)
  unfolding start_creation
  start_creation-Moves c name = search (logs_rules, reconcile_surrealdb_with_mode-Moves)

ruleset steps = (
  logs_rules, edges, set_phase-Moves, mark-Moves, start_creation-Moves, ensure_root_secret-Moves,
  reconcile_surrealdb_with_mode-Moves, check_ready-Moves, reconcile_tidb_cluster-Moves,
  bootstrap_root_user-Moves,
)

module _ ⦃K : Kube⦄ (c : Cluster) (name : String) where
  after_secret-Moves : Moves new (after_secret c name)
  unfolding after_secret
  after_secret-Moves = search steps

  reconcile_new-Moves : Moves new (reconcile_new c name)
  unfolding reconcile_new
  reconcile_new-Moves = search (steps, after_secret-Moves)

  found-Moves : (o : Option TidbCluster) → Moves preparing (found c name o)
  unfolding found
  found-Moves none = search steps
  found-Moves (some tc) = search steps

  reconcile_preparing-Moves : Moves preparing (reconcile_preparing c name)
  unfolding reconcile_preparing wait_for_tidb
  reconcile_preparing-Moves = search (steps, found-Moves) depth 8

  promote-Moves : Moves in_creation (promote c name)
  unfolding promote
  promote-Moves = search steps depth 8

  when_created-Moves : (r : Try Error Bool) → Moves in_creation (when_created c name r)
  unfolding when_created
  when_created-Moves (ok true) = promote-Moves
  when_created-Moves (ok false) = search steps
  when_created-Moves (err e) = search steps

  reconcile_in_creation-Moves : Moves in_creation (reconcile_in_creation c name)
  unfolding reconcile_in_creation
  reconcile_in_creation-Moves = search (steps, when_created-Moves)

  settle_in_progress-Moves : (r : Try Error Bool) → Moves in_progress (settle_in_progress c r)
  unfolding settle_in_progress
  settle_in_progress-Moves (ok true) = search steps
  settle_in_progress-Moves (ok false) = search steps
  settle_in_progress-Moves (err e) = search steps

  settle_ready-Moves : (r : Try Error Bool) → Moves ready (settle_ready c r)
  unfolding settle_ready
  settle_ready-Moves (ok true) = search steps
  settle_ready-Moves (ok false) = search steps
  settle_ready-Moves (err e) = search steps

  settle_not_ready-Moves : (r : Try Error Bool) → Moves not_ready (settle_not_ready c r)
  unfolding settle_not_ready
  settle_not_ready-Moves (ok true) = search steps
  settle_not_ready-Moves (ok false) = search steps
  settle_not_ready-Moves (err e) = search steps

  reconcile_authenticated-Moves :
      (p : Phase) (settle : Try Error Bool → M Action)
      → ((r : Try Error Bool) → Moves p (settle r))
      → Moves p (reconcile_authenticated c name settle)
  unfolding reconcile_authenticated
  reconcile_authenticated-Moves p settle h = search (steps, h)

  handle-Moves : (p : Phase) → Moves p (handle c name p)
  unfolding handle reconcile_error
  handle-Moves new = reconcile_new-Moves
  handle-Moves preparing = reconcile_preparing-Moves
  handle-Moves in_creation = reconcile_in_creation-Moves
  handle-Moves in_progress = reconcile_authenticated-Moves _ _ settle_in_progress-Moves
  handle-Moves ready = reconcile_authenticated-Moves _ _ settle_ready-Moves
  handle-Moves not_ready = reconcile_authenticated-Moves _ _ settle_not_ready-Moves
  handle-Moves error = search steps

-- Whatever the API server answers, each phase that a reconciliation writes is the end of an edge of
-- the diagram that begins at the phase which the cluster had when the reconciliation began.
pub reconcile-Follows :
    ⦃K : Kube⦄ (c : Cluster) (s : K.State)
    → All (λ e. Follows (current c.status) e.call) (trace (reconcile c) s)
unfolding reconcile
reconcile-Follows ⦃K⦄ c s =
    Logs-trace _ s (handle-Moves c (K.name_any c.metadata) (current c.status))

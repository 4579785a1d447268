-- ===== src/Cluster/Progress.antt =====
-- src/cluster/crd.rs: where every request succeeds, a cluster goes on to its next phase.
pub mod Steps
use mathlib.Core.Option
use sdb_controller.Prelude.{
  ◌≡◌, arith, true, false, Option, none, some, String, is_some, if◌then◌else◌,
}
use sdb_controller.Resources.Core.{OwnerReference}
use sdb_controller.Resources.Cluster.{
  Cluster, Phase, new, preparing, in_creation, not_ready, in_progress, ready, error,
}
use sdb_controller.Cluster.Actions.{
  set_phase, check_ready, reconcile_surrealdb_with_mode, ensure_root_secret, reconcile_tidb_cluster,
}
use sdb_controller.Cluster.Bootstrap.{bootstrap_root_user}
use sdb_controller.Cluster.Reconcile.{
  Action, current, handle, reconcile, reconcile_new, after_secret, mark, start_creation,
  reconcile_preparing, wait_for_tidb, found, reconcile_in_creation, when_created, promote,
  reconcile_authenticated, settle_in_progress, settle_ready, settle_not_ready, reconcile_error,
}
use sdb_controller.Api.{
  get_opt_tidb_cluster, Kube, World, Outcome, is_done, pure, unwrap, send, attempt, on_try, ◌>>=◌,
  start,
}
use sdb_controller.Cluster.Progress.Steps.{
  IsAccepting, IsComplete, stored, own, set_phase_lem, check_ready_lem, apply_lem, bootstrap_lem,
  root_secret_lem, tidb_lem, tidb_reply,
}

module _ ⦃K : Kube⦄ (c : Cluster) (ns : String) where
  -- The next phase, where nothing fails.
  abbrev pub successor : Phase → Option Phase
  successor new = if is_some c.spec.tidb_cluster then some preparing else some in_creation
  successor preparing = some in_creation
  successor in_creation = some in_progress
  successor in_progress = some ready
  successor not_ready = some ready
  successor ready = none
  successor error = none

  abbrev pub Advances :
      Option Phase → Outcome Action × World K.State → (before : Option Phase) → Type 0
  Advances none (o, w) before = (is_done o ≡ true) × (stored c ns w.log ≡ before)
  Advances (some q) (o, w) before = (is_done o ≡ true) × (stored c ns w.log ≡ some q)

module _ ⦃K : Kube⦄ (good : IsAccepting) (c : Cluster) (ns secret : String) (oref : OwnerReference)
    (full : IsComplete c ns secret oref) where
  handle-Advances :
      (p : Phase) (w : World K.State)
      → Advances c ns (successor c ns p) (handle c (own c) p w) (stored c ns w.log)
  unfolding handle reconcile_new after_secret mark start_creation reconcile_preparing wait_for_tidb
      found reconcile_in_creation when_created promote reconcile_authenticated settle_in_progress
      settle_ready settle_not_ready reconcile_error ◌>>=◌ pure attempt on_try unwrap send
  handle-Advances new w =
      let w' = (ensure_root_secret c w).1 in
      ground (
        arith,
        full.backend,
        root_secret_lem good c ns secret oref full w,
        set_phase_lem good c ns secret oref full preparing w',
        set_phase_lem good c ns secret oref full in_creation w',
        apply_lem good c ns secret oref full true (set_phase c in_creation w').1,
      )
  handle-Advances preparing w =
      let w' = (reconcile_tidb_cluster c (own c) w).1 in
      let look = get_opt_tidb_cluster ns (own c) in
      let (tc, seen, up) = tidb_reply ns (own c) _ (good.accepts look w'.state) in
      let w'' = (send look w').1 in
      ground (
        arith,
        full.home,
        tidb_lem good c ns secret oref full w,
        seen,
        up,
        set_phase_lem good c ns secret oref full in_creation w'',
        apply_lem good c ns secret oref full true (set_phase c in_creation w'').1,
      )
  handle-Advances in_creation w =
      let w' = (check_ready c (own c) w).1 in
      let w'' = (bootstrap_root_user c (own c) w').1 in
      ground (
        arith,
        check_ready_lem good c ns secret oref full w,
        bootstrap_lem good c ns secret oref full w',
        set_phase_lem good c ns secret oref full in_progress w'',
        apply_lem good c ns secret oref full false (set_phase c in_progress w'').1,
      )
  handle-Advances in_progress w =
      let w' = (reconcile_surrealdb_with_mode c (own c) false w).1 in
      ground (
        arith,
        apply_lem good c ns secret oref full false w,
        check_ready_lem good c ns secret oref full w',
        set_phase_lem good c ns secret oref full ready (check_ready c (own c) w').1,
      )
  handle-Advances not_ready w =
      let w' = (reconcile_surrealdb_with_mode c (own c) false w).1 in
      ground (
        arith,
        apply_lem good c ns secret oref full false w,
        check_ready_lem good c ns secret oref full w',
        set_phase_lem good c ns secret oref full ready (check_ready c (own c) w').1,
      )
  handle-Advances ready w =
      let w' = (reconcile_surrealdb_with_mode c (own c) false w).1 in
      ground (
        arith,
        apply_lem good c ns secret oref full false w,
        check_ready_lem good c ns secret oref full w',
      )
  handle-Advances error w = ground (arith, apply_lem good c ns secret oref full false w)

  -- Where every request succeeds and shows what the controller waits for, a reconciliation of a cluster
  -- that has a namespace, an owner reference, a root secret and a backend ends without a failure
  -- and a panic, and the last phase that the API server accepted in it is the one after the current:
  -- Preparing or InCreation after New, InCreation after Preparing, InProgress after InCreation, Ready
  -- after InProgress and NotReady. In Ready and Error it writes no phase.
  pub reconcile-Advances :
      (s : K.State) → Advances c ns (successor c ns (current c.status)) (reconcile c (start s)) none
  unfolding reconcile
  reconcile-Advances s = handle-Advances (current c.status) (start s)

-- ===== src/Cluster/Order.antt =====
-- src/cluster/crd.rs: what a reconciliation has seen before it writes a phase.
use sdb_controller.Prelude.{◌≡◌, arith, true, false, String, List, [], ◌∷◌, All}
use sdb_controller.Resources.Cluster.{
  Cluster, Phase, new, preparing, in_creation, not_ready, in_progress, ready, error,
}
use sdb_controller.Cluster.Actions.{reconcile_surrealdb_with_mode, set_phase, check_ready}
use sdb_controller.Cluster.Bootstrap.{bootstrap_root_user}
use sdb_controller.Cluster.Reconcile.{
  current, handle, reconcile, mark, promote, when_created, reconcile_in_creation, settle_ready,
  settle_not_ready, settle_in_progress, reconcile_authenticated,
}
use sdb_controller.Cluster.Transitions.{
  ◌⟶◌, prepare, create, refuse, tidb_up, bootstrapped, settled, unsettled, lost, recovered, Follows,
  reconcile-Follows,
}
use sdb_controller.Cluster.Grounds.{
  IsSecured, IsSeenAvailable, IsPromoted, HasGrounds, IsJustified, bootstrap_lem,
}
use sdb_controller.Api.{
  start, trace, Call, patch_cluster_status, Entry, done, World, on_try, Kube, pure, unwrap, send,
  lift, attempt, ignore, ◌>>=◌,
}

module _ ⦃K : Kube⦄ (c : Cluster) where
  apply-IsSecured :
      (w : World K.State)
      → IsJustified c w.log
      → IsJustified c (reconcile_surrealdb_with_mode c (K.name_any c.metadata) false w).1.log
        × ((reconcile_surrealdb_with_mode c (K.name_any c.metadata) false w).0 ≡ done tt
            → IsSecured c (reconcile_surrealdb_with_mode c (K.name_any c.metadata) false w).1.log)
  unfolding reconcile_surrealdb_with_mode ◌>>=◌ unwrap send lift
  apply-IsSecured w h = ground arith

  settle_ready-IsJustified :
      (w : World K.State)
      → IsJustified c w.log
      → IsJustified c (reconcile_authenticated c (K.name_any c.metadata) (settle_ready c) w).1.log
  unfolding reconcile_authenticated settle_ready mark set_phase check_ready ◌>>=◌ unwrap send lift
      attempt pure
  settle_ready-IsJustified w h = ground (arith, apply-IsSecured w h)

  settle_not_ready-IsJustified :
      (w : World K.State)
      → IsJustified c w.log
      → IsJustified c
          (reconcile_authenticated c (K.name_any c.metadata) (settle_not_ready c) w).1.log
  unfolding reconcile_authenticated settle_not_ready mark set_phase check_ready ◌>>=◌ unwrap send
      lift attempt pure
  settle_not_ready-IsJustified w h = ground (arith, apply-IsSecured w h)

  settle_in_progress-IsJustified :
      (w : World K.State)
      → IsJustified c w.log
      → IsJustified c
          (reconcile_authenticated c (K.name_any c.metadata) (settle_in_progress c) w).1.log
  unfolding reconcile_authenticated settle_in_progress mark set_phase check_ready ◌>>=◌ unwrap send
      lift attempt pure
  settle_in_progress-IsJustified w h = ground (arith, apply-IsSecured w h)

  check_seen :
      (w : World K.State)
      → IsJustified c w.log
      → IsJustified c (check_ready c (K.name_any c.metadata) w).1.log
        × ((check_ready c (K.name_any c.metadata) w).0 ≡ done true
            → IsSeenAvailable c (check_ready c (K.name_any c.metadata) w).1.log)
  unfolding check_ready ◌>>=◌ unwrap send lift pure
  check_seen w h = ground arith

  mark_in_progress :
      (w : World K.State)
      → IsJustified c w.log
      → IsPromoted c w.log
      → IsJustified c (ignore (set_phase c in_progress) w).1.log
  unfolding set_phase ◌>>=◌ unwrap send lift attempt pure
  mark_in_progress w h g = ground arith

  promote-IsJustified :
      (w : World K.State)
      → IsJustified c w.log
      → IsSeenAvailable c w.log
      → IsJustified c (promote c (K.name_any c.metadata) w).1.log
  unfolding promote ◌>>=◌ attempt pure on_try
  promote-IsJustified w h g = ground (
    arith,
    bootstrap_lem c w (h, g),
    mark_in_progress (bootstrap_root_user c (K.name_any c.metadata) w).1,
    apply-IsSecured
        (ignore (set_phase c in_progress) (bootstrap_root_user c (K.name_any c.metadata) w).1).1,
  )

  in_creation-IsJustified :
      (w : World K.State)
      → IsJustified c w.log
      → IsJustified c (reconcile_in_creation c (K.name_any c.metadata) w).1.log
  unfolding reconcile_in_creation when_created ◌>>=◌ attempt pure
  in_creation-IsJustified w h =
      ground
        (arith, check_seen w h, promote-IsJustified (check_ready c (K.name_any c.metadata) w).1)

-- The phases from which no edge leads to a phase that needs grounds.
abbrev IsEarly : Phase → Type 0
IsEarly new = Unit
IsEarly preparing = Unit
IsEarly error = Unit
IsEarly other = ⊥

module _ ⦃K : Kube⦄ (c : Cluster) where
  edge_grounds :
      {p q : Phase} (ns name : String) (l : List Entry)
      → p ⟶ q
      → IsEarly p
      → HasGrounds c (patch_cluster_status ns name q) l
  edge_grounds ns name l prepare h = tt
  edge_grounds ns name l create h = tt
  edge_grounds ns name l refuse h = tt
  edge_grounds ns name l tidb_up h = tt
  edge_grounds ns name l bootstrapped h = absurd h
  edge_grounds ns name l settled h = absurd h
  edge_grounds ns name l unsettled h = absurd h
  edge_grounds ns name l lost h = absurd h
  edge_grounds ns name l recovered h = absurd h

  call_grounds :
      (p : Phase) (call : Call) (l : List Entry) → Follows p call → IsEarly p → HasGrounds c call l
  call_grounds p (patch_cluster_status ns name q) l f h = edge_grounds ns name l f h
  call_grounds p other l f h = tt

  early-IsJustified :
      (p : Phase) (l : List Entry) → All (λ e. Follows p e.call) l → IsEarly p → IsJustified c l
  early-IsJustified p [] f h = tt
  early-IsJustified p (e ∷ l) (f, g) h = (call_grounds p e.call l f h, early-IsJustified p l g h)

  handle-IsJustified :
      (p : Phase) (s : K.State)
      → All (λ e. Follows p e.call) (trace (handle c (K.name_any c.metadata) p) s)
      → IsJustified c (trace (handle c (K.name_any c.metadata) p) s)
  unfolding handle
  handle-IsJustified new s f = early-IsJustified new _ f tt
  handle-IsJustified preparing s f = early-IsJustified preparing _ f tt
  handle-IsJustified in_creation s f = in_creation-IsJustified c (start s) tt
  handle-IsJustified in_progress s f = settle_in_progress-IsJustified c (start s) tt
  handle-IsJustified ready s f = settle_ready-IsJustified c (start s) tt
  handle-IsJustified not_ready s f = settle_not_ready-IsJustified c (start s) tt
  handle-IsJustified error s f = early-IsJustified error _ f tt

-- Before a reconciliation writes InProgress, it has read the deployment of the cluster with an
-- available replica, and after that had the SQL that defines the root user accepted at the cluster's
-- own service. Before it writes Ready or NotReady, the API server has accepted the authenticated
-- deployment and the service in the cluster's namespace; before Ready, it has after that read the
-- deployment with an available replica. All this within the same reconciliation.
pub reconcile-IsJustified :
    ⦃K : Kube⦄ (c : Cluster) (s : K.State) → IsJustified c (trace (reconcile c) s)
unfolding reconcile
reconcile-IsJustified c s = handle-IsJustified c (current c.status) s (reconcile-Follows c s)

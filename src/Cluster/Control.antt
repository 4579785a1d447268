-- ===== src/Cluster/Control.antt =====
-- src/cluster/crd.rs: the functions `reconcile` and `error_policy` that the runtime calls, with the
-- metrics and the diagnostics that they share.
pub mod Measured
use sdb_controller.Prelude.{◌≡◌, refl, suc, if◌then◌else◌}
use sdb_controller.Error.{Error}
use sdb_controller.Metrics.{ErrorLabels, same_labels, count_and_measure, drop, set_failure}
use sdb_controller.Metrics.Counts.{counter, counter-increment}
use sdb_controller.Resources.Cluster.{Cluster, cluster_finalizer}
use sdb_controller.Cluster.Reconcile as Handlers
use sdb_controller.Cluster.Reconcile.{Action, requeue}
use sdb_controller.Cluster.Cleanup as Finalization
use sdb_controller.Api.{Kube, World, done, M, unwrap, Finalizer, finalized, ◌>>=◌, ◌>>◌}

module _ ⦃K : Kube⦄ where
  -- The timer of `count_and_measure`, dropped when the action ends, also on an error or a panic.
  unfoldable pub measured : {A : Type 0} → M A → M A
  measured m w =
      let (begin, s) = K.now w.state in
      let (timer, counted) = count_and_measure K.trace_text (K.trace_id w.state) begin w.metrics in
      let (o, w') = m (record w { state = s; metrics = counted }) in
      let (finish, s') = K.now w'.state in
      (o, record w' { state = s'; metrics = drop timer finish w'.metrics })

  -- `ctx.diagnostics.write().await.last_event = Utc::now();`
  unfoldable pub stamp : M (Unit {0})
  stamp w = let (t, s) = K.now w.state in (done tt, record w { state = s; last_event = t })

  unfoldable pub reconcile : Finalizer Cluster Action → Cluster → M Action
  unfolding stamp
  reconcile finalizer c = measured (do
    stamp
    ns ← unwrap c.metadata.namespace
    finalized finalizer cluster_finalizer c (Handlers.reconcile c) (Finalization.cleanup c))

  unfoldable pub error_policy : Cluster → Error → M Action
  error_policy c e w = (
    done (requeue 300),
    record w { metrics = set_failure (K.name_any c.metadata) (K.error_text e) w.metrics },
  )

  abbrev own_labels : Cluster → Error → ErrorLabels
  own_labels c e = record { instance_ = K.name_any c.metadata; error = K.error_text e }

  -- A failed reconciliation is tried again after 300 seconds. It adds one to the counter of the cluster's
  -- name and the error's label, and leaves every other counter, the count of runs and the durations;
  -- no request is sent.
  pub error_policy-counter :
      (c : Cluster) (e : Error) (other : ErrorLabels) (w : World K.State)
      → ((error_policy c e w).0 ≡ done (requeue 300))
        × (counter other (error_policy c e w).1.metrics.failures ≡ (
            if same_labels other (own_labels c e)
            then suc (counter other w.metrics.failures)
            else counter other w.metrics.failures))
        × ((error_policy c e w).1.metrics.runs ≡ w.metrics.runs)
        × ((error_policy c e w).1.metrics.duration ≡ w.metrics.duration)
        × ((error_policy c e w).1.log ≡ w.log)
  unfolding error_policy set_failure
  error_policy-counter c e other w =
      (refl, counter-increment (own_labels c e) other w.metrics.failures, refl, refl, refl)

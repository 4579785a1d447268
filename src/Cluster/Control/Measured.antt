-- ===== src/Cluster/Control/Measured.antt =====
-- src/cluster/crd.rs and src/metrics.rs: what a reconciliation leaves in the metrics and the
-- diagnostics.
use sdb_controller.Prelude.{suc, ◌-◌, ◌≡◌, refl, ap, ◌∷◌, String}
use sdb_controller.Metrics.{try_from, count_and_measure, drop}
use sdb_controller.Resources.Cluster.{Cluster, cluster_finalizer}
use sdb_controller.Cluster.Reconcile as Handlers
use sdb_controller.Cluster.Reconcile.{Action}
use sdb_controller.Cluster.Cleanup as Finalization
use sdb_controller.Cluster.Still.{reconcile-IsStill, cleanup-IsStill}
use sdb_controller.Cluster.Control.{measured, stamp, reconcile}
use sdb_controller.Api.{Kube, World, M, unwrap, Finalizer, finalized, ◌>>=◌}
use sdb_controller.Api.Still.{IsStill, IsStill-bind, IsStill-unwrap, still_rules}

module _ ⦃K : Kube⦄ where
  -- The finalizer helper knows nothing of the metrics and the diagnostics.
  pub record IsForeign (finalizer : Finalizer Cluster Action) : Type 0 where
    pub still :
        (name : String) (c : Cluster) (apply cleanup : M Action)
        → IsStill apply
        → IsStill cleanup
        → IsStill (finalizer name c apply cleanup)

  -- One run and one duration more, the failures as before, and the time of the last event read from the
  -- clock right after the start of the measurement. The duration ends with a reading of the clock in the
  -- state `s`.
  abbrev pub IsMeasured : World K.State → (s : K.State) → World K.State → Type 0
  IsMeasured w s w' =
      (w'.metrics.runs ≡ suc w.metrics.runs)
      × (w'.metrics.failures ≡ w.metrics.failures)
      × (w'.last_event ≡ (K.now (K.now w.state).1).0)
      × (w'.metrics.duration
          ≡ ((K.now s).0 - (K.now w.state).0, try_from K.trace_text (K.trace_id w.state))
            ∷ w.metrics.duration)
      × (w'.state ≡ (K.now s).1)

  -- The state in which the measured action begins.
  abbrev pub entered : World K.State → World K.State
  entered w = record w {
    state = (K.now (K.now w.state).1).1;
    metrics = record w.metrics { runs = suc w.metrics.runs };
    last_event = (K.now (K.now w.state).1).0;
  }

  measured_lem :
      {A : Type 0} (m : M A)
      → IsStill m
      → (w : World K.State) → IsMeasured w (m (entered w)).1.state (measured (stamp >>= λ _. m) w).1
  unfolding measured stamp ◌>>=◌ count_and_measure drop
  measured_lem m h w =
      let (e, l) = h.at (entered w) in
      let last = (m (entered w)).1.state in
      let label = try_from K.trace_text (K.trace_id w.state) in
      (
        ap (λ x. x.runs) e,
        ap (λ x. x.failures) e,
        l,
        ap (λ x. ((K.now last).0 - (K.now w.state).0, label) ∷ x.duration) e,
        refl,
      )

  finalized-IsStill :
      (finalizer : Finalizer Cluster Action) (c : Cluster)
      → IsForeign finalizer
      → IsStill
          (finalized finalizer cluster_finalizer c (Handlers.reconcile c) (Finalization.cleanup c))
  unfolding finalized
  finalized-IsStill finalizer c h =
      IsStill-bind _ _ (h.still cluster_finalizer c _ _ (reconcile-IsStill c) (cleanup-IsStill c))
        λ r. search still_rules

  -- What a reconciliation does under the timer, after the time is in the diagnostics.
  abbrev pub handled : Finalizer Cluster Action → Cluster → M Action
  handled finalizer c = do
    ns ← unwrap c.metadata.namespace
    finalized finalizer cluster_finalizer c (Handlers.reconcile c) (Finalization.cleanup c)

pub reconcile-IsMeasured :
    ⦃K : Kube⦄ (finalizer : Finalizer Cluster Action) (c : Cluster)
    → IsForeign finalizer
    → (w : World K.State)
    → IsMeasured w (handled finalizer c (entered w)).1.state (reconcile finalizer c w).1
unfolding reconcile
reconcile-IsMeasured finalizer c h w =
    measured_lem _
      (IsStill-bind _ _ (IsStill-unwrap c.metadata.namespace) λ ns. finalized-IsStill finalizer c h)
      w

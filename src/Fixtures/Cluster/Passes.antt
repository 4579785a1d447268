-- ===== src/Fixtures/Cluster/Passes.antt =====
-- src/cluster/crd.rs: the tests of the function `reconcile` that the runtime calls.
use text.Mathlib.TextLemmas.{append_assoc}
use sdb_controller.Prelude.{
  ◌≡◌, refl, ◌∙◌, true, false, none, some, get_or, String, ◌==◌, List, [], ◌∷◌, any, is_some,
  mentions,
}
use sdb_controller.Error.{kube_error}
use sdb_controller.Resources.Core.{OwnerReference, SecretReference, PatchOperation}
use sdb_controller.Resources.Cluster.{Cluster, new, in_creation, in_progress, cluster_finalizer}
use sdb_controller.Password.Shape.{IsFair}
use sdb_controller.Cluster.Objects.{owner_ref}
use sdb_controller.Cluster.Actions.{tikv_backend_configured}
use sdb_controller.Cluster.Bootstrap.{secret_name}
use sdb_controller.Cluster.Reconcile as Handlers
use sdb_controller.Cluster.Reconcile.{Action, requeue, await_change, current, handle}
use sdb_controller.Cluster.Cleanup as Finalization
use sdb_controller.Cluster.Control.{reconcile, measured, stamp}
use sdb_controller.Api.{
  patch_cluster, HttpRequest, Kube, M, Try, Outcome, ok, done, unwrap, send, lift, Finalizer,
  IsFinalizer, adding, removing, ◌>>=◌,
}
use sdb_controller.Fixtures.Wire.{Wire, IsKubernetes, collection, own_group}
use sdb_controller.Fixtures.Finalized.{finalized-Meets, reported-Meets, cleaned-Meets}
use sdb_controller.Fixtures.Asked.{asks_exactly_lem}
use sdb_controller.Fixtures.Server.{
  ApiServerVerifier, Handler, IsMocked, Meets, Meets-found, Meets-asked, Meets-lift-ok, Meets-pure,
  Meets-bind,
}
use sdb_controller.Fixtures.Cluster.{
  Scenario, finalizer_creation, cleanup, status_patch_then_deployment_and_service_creation,
  in_creation_ready_then_bootstrap_then_auth, deployment_and_service_with_auth_env,
  root_secret_creation_then_status_and_dp_svc,
}
use sdb_controller.Fixtures.Cluster.Handlers.{
  run, handle_finalizer_creation, handle_finalizer_removal,
}
use sdb_controller.Fixtures.Cluster.Runs.{
  new-Meets, fresh-Meets, in_creation-Meets, in_progress-Meets,
}
use sdb_controller.Fixtures.Cluster.Deletion.{cleanup-Meets}

module _ ⦃K : Kube⦄ where
  -- The JSON patch of the finalizer helper, under the name in the metadata.
  abbrev pub patch_own : Cluster → List PatchOperation → M (Unit {0})
  patch_own c ops = do
    ns ← unwrap c.metadata.namespace
    name ← unwrap c.metadata.name
    r ← send (patch_cluster ns name ops)
    lift kube_error r

  -- A cluster as the tests make them: in the namespace "default", and with an owner reference.
  pub record IsTestCluster (c : Cluster) (oref : OwnerReference) : Type 0 where
    pub home : c.metadata.namespace ≡ some "default"
    pub named : c.metadata.name ≡ some (K.name_any c.metadata)
    pub owned : owner_ref c ≡ some oref

  -- A cluster with the finalizer that is not deleted.
  pub record IsLive (c : Cluster) : Type 0 where
    pub marked : any (λ n. n == cluster_finalizer) (get_or c.metadata.finalizers []) ≡ true
    pub kept : c.metadata.deletion_timestamp ≡ none

  -- The test at the end of the file, of a cluster without a root secret.
  pub data ExpectsSecret (c : Cluster) : Scenario → Action → Type 0 where
    new_phase_without_secret :
        IsLive c
        → current c.status ≡ new
        → K.name_any c.metadata ≡ "test"
        → c.spec.root_secret ≡ none
        → c.spec.tidb_cluster ≡ none
        → tikv_backend_configured c ≡ ok tt
        → ExpectsSecret c (root_secret_creation_then_status_and_dp_svc c) (requeue 20)

  -- The six tests that look at the result: the cluster, the scenario of the API server, and the result
  -- of `reconcile`. The four tests with RadioSilence drop the result, and have no case.
  pub data Expects (c : Cluster) : Scenario → Action → Type 0 where
    gets_a_finalizer :
        c.metadata.finalizers ≡ none
        → c.metadata.deletion_timestamp ≡ none
        → Expects c (finalizer_creation c) await_change
    causes_delete :
        c.metadata.finalizers ≡ some (cluster_finalizer ∷ [])
        → is_some c.metadata.deletion_timestamp ≡ true
        → Expects c (cleanup "DeleteRequested" c) await_change
    new_phase :
        (secret : SecretReference)
        → IsLive c
        → current c.status ≡ new
        → c.spec.root_secret ≡ some secret
        → c.spec.tidb_cluster ≡ none
        → tikv_backend_configured c ≡ ok tt
        → Expects c (status_patch_then_deployment_and_service_creation c) (requeue 20)
    without_secret :
        {scenario : Scenario} {action : Action}
        → ExpectsSecret c scenario action
        → Expects c scenario action
    in_creation_when_ready :
        IsLive c
        → current c.status ≡ in_creation
        → mentions "?" (K.name_any c.metadata) ≡ false
        → secret_name c.spec.root_secret ≡ some "test"
        → Expects c (in_creation_ready_then_bootstrap_then_auth c) (requeue 20)
    authenticated_mode :
        IsLive c
        → current c.status ≡ in_progress
        → Expects c (deployment_and_service_with_auth_env c) (requeue 30)

module _ ⦃K : Kube⦄ (verifier : K.State → ApiServerVerifier) (mocked : IsMocked verifier)
    (wire : Wire) (k : IsKubernetes wire) (finalizer : Finalizer Cluster Action)
    (fin : IsFinalizer (λ (c : Cluster). c.metadata) patch_own await_change finalizer) (c : Cluster)
    (oref : OwnerReference) (made : IsTestCluster c oref) where
  abbrev own : String
  own = K.name_any c.metadata

  stamp-Meets : {before : List Handler} → Meets verifier mocked before stamp (done tt) before
  unfolding stamp
  stamp-Meets = record { at = λ w e. (refl, mocked.reads_clock w.state ∙ e) }

  measured-Meets :
      {before after : List Handler} (m : M Action) (o : Outcome Action)
      → Meets verifier mocked before m o after
      → Meets verifier mocked before (measured m) o after
  unfolding measured
  measured-Meets m o h = record {
    at = λ w e.
        let (p, v) = h.at _ (mocked.reads_clock w.state ∙ e) in (p, mocked.reads_clock _ ∙ v);
  }

  -- What the finalizer helper does for the cluster, `reconcile` does.
  through :
      {before after : List Handler} (m : M (Try String Action)) (a : Action)
      → finalizer cluster_finalizer c (Handlers.reconcile c) (Finalization.cleanup c) ≡ m
      → Meets verifier mocked before m (done (ok a)) after
      → Meets verifier mocked before (reconcile finalizer c) (done a) after
  unfolding reconcile
  through m a e h = measured-Meets _ (done a) (
      Meets-bind verifier mocked _ _ tt _ stamp-Meets (
        Meets-found verifier mocked _ "default" _ made.home
          (finalized-Meets verifier mocked finalizer cluster_finalizer c _ _ m a e h)))

  patch_own-Meets :
      {rest : List Handler} (ops : List PatchOperation) (h : Handler)
      → h (patch_cluster "default" own ops) ≡ some (ok tt)
      → Meets verifier mocked (h ∷ rest) (patch_own c ops) (done tt) rest
  patch_own-Meets ops h e = Meets-found verifier mocked _ "default" _ made.home (
      Meets-found verifier mocked _ own _ made.named (
        Meets-asked verifier mocked (patch_cluster "default" own ops) h (ok tt) _ e
          (Meets-lift-ok verifier mocked kube_error tt)))

  creation-Accepted :
      handle_finalizer_creation wire c (patch_cluster "default" own (adding cluster_finalizer))
      ≡ some (ok tt)
  unfolding handle_finalizer_creation
  creation-Accepted =
      rw
        (asks_exactly_lem wire k (patch_cluster "default" own (adding cluster_finalizer)) "PATCH" _
          refl (k.no_query "default" own (adding cluster_finalizer))
          (append_assoc (collection own_group "default" "clusters/") own "?"))
        refl

  removal-Accepted :
      handle_finalizer_removal wire c (patch_cluster "default" own (removing cluster_finalizer))
      ≡ some (ok tt)
  unfolding handle_finalizer_removal
  removal-Accepted =
      rw
        (asks_exactly_lem wire k (patch_cluster "default" own (removing cluster_finalizer)) "PATCH"
          _ refl (k.no_query "default" own (removing cluster_finalizer))
          (append_assoc (collection own_group "default" "clusters/") own "?"))
        refl

  live :
      {before after : List Handler} (a : Action)
      → IsLive c
      → Meets verifier mocked before (Handlers.reconcile c) (done a) after
      → Meets verifier mocked before (reconcile finalizer c) (done a) after
  live a l h =
      through _ a (fin.applied cluster_finalizer c _ _ l.marked l.kept)
        (reported-Meets verifier mocked _ (Handlers.reconcile c) a h)

  -- Six of the ten tests of the cluster controller, all but those with RadioSilence, pass for every
  -- cluster of their kind, where the checks of the HTTP builder accept every request and the random
  -- numbers lie in their ranges. The API server of the
  -- fixture, which expects the requests of the scenario in their order and stops at any other, gets
  -- all of them, and `reconcile` returns the action: one request that adds the finalizer; the
  -- deletion of the four owned objects, the event and the removal of the finalizer; the phase
  -- InCreation and the open deployment with its service, for a cluster without a root secret after
  -- this is created and referred to; the readiness, the bootstrap of the root user, the phase
  -- InProgress and the authenticated deployment; or this alone.
  pub reconcile-Passes :
      ((request : HttpRequest) → K.build_http request ≡ none)
      → IsFair
      → (scenario : Scenario) (action : Action) → Expects c scenario action
      → Meets verifier mocked (run wire scenario) (reconcile finalizer c) (done action) []
  unfolding Handlers.reconcile run
  reconcile-Passes builds fair sc a (gets_a_finalizer unmarked kept) =
      through _ await_change (fin.added cluster_finalizer c _ _ unmarked kept) (
        reported-Meets verifier mocked _ _ await_change (
          Meets-bind verifier mocked _ _ tt _ (patch_own-Meets _ _ creation-Accepted)
            (Meets-pure verifier mocked await_change)))
  reconcile-Passes builds fair sc a (causes_delete marked deleted) =
      through _ await_change (fin.removed cluster_finalizer c _ _ marked deleted) (
        cleaned-Meets verifier mocked _ _ _ _ await_change
          (cleanup-Meets verifier mocked wire k c made.home) (patch_own-Meets _ _ removal-Accepted))
  reconcile-Passes builds fair sc a (new_phase secret l p root plain backend) = live a l (
      rw p (new-Meets verifier mocked wire k c made.home oref made.owned secret root plain backend))
  reconcile-Passes builds fair sc a
        (without_secret (new_phase_without_secret l p named unset plain backend)) =
      live a l (
        rw p (
          fresh-Meets verifier mocked wire k c made.home oref made.owned named fair unset plain
            backend))
  reconcile-Passes builds fair sc a (in_creation_when_ready l p plain root) = live a l (
      rw p (in_creation-Meets verifier mocked wire k c made.home oref made.owned builds plain root))
  reconcile-Passes builds fair sc a (authenticated_mode l p) =
      live a l (rw p (in_progress-Meets verifier mocked wire k c made.home oref made.owned))

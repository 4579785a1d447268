-- ===== src/Fixtures/Cluster/Runs.antt =====
-- src/cluster/crd.rs: the runs of `reconcile` in the tests of the cluster controller.
use sdb_controller.Prelude.{◌≡◌, true, false, none, some, [], ap, mentions, is_some}
use sdb_controller.Error.{kube_error, transport}
use sdb_controller.Resources.Core.{OwnerReference, SecretReference}
use sdb_controller.Resources.Cluster.{Cluster, new, in_creation, not_ready, in_progress}
use sdb_controller.Cluster.Objects.{owner_ref}
use sdb_controller.Cluster.Actions.{tikv_backend_configured, ensure_root_secret}
use sdb_controller.Cluster.Bootstrap.{secret_name}
use sdb_controller.Cluster.Reconcile.{
  requeue, handle, reconcile_new, after_secret, start_creation, reconcile_in_creation, when_created,
  promote, reconcile_authenticated, settle_in_progress, mark,
}
use sdb_controller.Api.{HttpRequest, Kube, ok, done, on_try}
use sdb_controller.Fixtures.Wire.{Wire, IsKubernetes}
use sdb_controller.Fixtures.Server.{
  ApiServerVerifier, IsMocked, Meets, Meets-pure, Meets-bind, Meets-tried, Meets-some, Meets-else,
  Meets-ignored, Meets-ignored-failed, Meets-tried-failed,
}
use sdb_controller.Fixtures.Cluster.{
  status_patch_then_deployment_and_service_creation, in_creation_ready_then_bootstrap_then_auth,
  deployment_and_service_with_auth_env, root_secret_creation_then_status_and_dp_svc,
}
use sdb_controller.Fixtures.Cluster.Secret.{ensure_root_secret-Meets}
use sdb_controller.Password.Shape.{IsFair}
use sdb_controller.Fixtures.Cluster.Handlers.{run}
use sdb_controller.Fixtures.Cluster.Steps.{
  set_phase-Meets, set_phase-Closed, check_ready-Meets, check_ready-Closed, apply-Meets,
  bootstrap-Meets,
}

module _ ⦃K : Kube⦄ (verifier : K.State → ApiServerVerifier) (mocked : IsMocked verifier)
    (wire : Wire) (k : IsKubernetes wire) (c : Cluster)
    (home : c.metadata.namespace ≡ some "default") (oref : OwnerReference)
    (owned : owner_ref c ≡ some oref) where
  -- The phase New after the root secret is there, with no TiDB cluster to wait for.
  after_secret-Meets :
      c.spec.tidb_cluster ≡ none
      → Meets verifier mocked
          (run wire (status_patch_then_deployment_and_service_creation c))
          (after_secret c (K.name_any c.metadata))
          (done (requeue 20))
          []
  unfolding after_secret start_creation run
  after_secret-Meets plain = Meets-else verifier mocked _ _ _ (ap is_some plain) (
      Meets-bind verifier mocked _ _ tt _
        (set_phase-Meets verifier mocked wire k c home in_creation)
        (Meets-bind verifier mocked _ _ tt _
          (apply-Meets verifier mocked wire k c home oref true owned)
          (Meets-pure verifier mocked (requeue 20))))

  pub new-Meets :
      (secret : SecretReference)
      → c.spec.root_secret ≡ some secret
      → c.spec.tidb_cluster ≡ none
      → tikv_backend_configured c ≡ ok tt
      → Meets verifier mocked
          (run wire (status_patch_then_deployment_and_service_creation c))
          (handle c (K.name_any c.metadata) new)
          (done (requeue 20))
          []
  unfolding handle reconcile_new ensure_root_secret on_try
  new-Meets secret root plain backend = rw backend (
      Meets-tried verifier mocked _ secret _
        (Meets-some verifier mocked _ secret _ _ root (Meets-pure verifier mocked secret))
        (after_secret-Meets plain))

  pub fresh-Meets :
      K.name_any c.metadata ≡ "test"
      → IsFair
      → c.spec.root_secret ≡ none
      → c.spec.tidb_cluster ≡ none
      → tikv_backend_configured c ≡ ok tt
      → Meets verifier mocked
          (run wire (root_secret_creation_then_status_and_dp_svc c))
          (handle c (K.name_any c.metadata) new)
          (done (requeue 20))
          []
  unfolding handle reconcile_new on_try run
  fresh-Meets named fair unset plain backend = rw backend (
      Meets-tried verifier mocked _ _ _
        (ensure_root_secret-Meets verifier mocked wire k c home named oref owned fair unset)
        (after_secret-Meets plain))

  pub in_creation-Meets :
      ((request : HttpRequest) → K.build_http request ≡ none)
      → mentions "?" (K.name_any c.metadata) ≡ false
      → secret_name c.spec.root_secret ≡ some "test"
      → Meets verifier mocked
          (run wire (in_creation_ready_then_bootstrap_then_auth c))
          (handle c (K.name_any c.metadata) in_creation)
          (done (requeue 20))
          []
  unfolding handle reconcile_in_creation when_created promote run on_try
  in_creation-Meets builds plain root =
      Meets-tried verifier mocked _ true _ (check_ready-Meets verifier mocked wire k c home) (
        Meets-tried verifier mocked _ tt _
          (bootstrap-Meets verifier mocked wire k c home builds plain root)
          (Meets-ignored verifier mocked _ tt _
            (set_phase-Meets verifier mocked wire k c home in_progress)
            (Meets-bind verifier mocked _ _ tt _
              (apply-Meets verifier mocked wire k c home oref false owned)
              (Meets-pure verifier mocked (requeue 20)))))

  pub in_progress-Meets :
      Meets verifier mocked
        (run wire (deployment_and_service_with_auth_env c))
        (handle c (K.name_any c.metadata) in_progress)
        (done (requeue 30))
        []
  unfolding handle reconcile_authenticated settle_in_progress mark run
  in_progress-Meets =
      Meets-bind verifier mocked _ _ tt _
        (apply-Meets verifier mocked wire k c home oref false owned)
        (Meets-tried-failed verifier mocked _ (kube_error (transport "closed")) _
          (check_ready-Closed verifier mocked wire k c home)
          (Meets-ignored-failed verifier mocked _ (kube_error (transport "closed")) _
            (set_phase-Closed verifier mocked wire k c home not_ready)
            (Meets-pure verifier mocked (requeue 30))))

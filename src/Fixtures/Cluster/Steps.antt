-- ===== src/Fixtures/Cluster/Steps.antt =====
-- src/cluster/fixtures.rs: the steps of a reconciliation under the handlers made for them.
use sdb_controller.Prelude.{
  ◌≡◌, refl, Bool, true, false, none, some, String, ◌<>◌, List, [], ◌∷◌, mentions,
}
use sdb_controller.Resources.Core.{OwnerReference}
use sdb_controller.Resources.Cluster.{Cluster, Phase}
use sdb_controller.Cluster.Objects.{owner_ref}
use sdb_controller.Cluster.Actions.{
  set_phase, reconcile_surrealdb_with_mode, check_ready, apply_params,
}
use sdb_controller.Cluster.Bootstrap.{
  bootstrap_root_user, post_root, credentials, built, sql_request, secret_name,
}
use sdb_controller.Sql.{define_root_user}
use sdb_controller.Cluster.Calm.{deployment_built, service_built}
use sdb_controller.Api.{
  patch_cluster_status, apply_deployment, apply_service, get_deployment, get_secret, request_text,
  HttpRequest, Kube, done, failed, ok, err,
}
use sdb_controller.Error.{kube_error, transport}
use sdb_controller.Fixtures.Wire.{Wire, IsKubernetes}
use sdb_controller.Fixtures.Server.{
  ApiServerVerifier, Handler, IsMocked, Meets, Meets-found, Meets-asked, Meets-replied,
  Meets-lift-ok, Meets-pure, Meets-bind, Meets-some, Meets-none, Meets-send-closed, Meets-lift-err,
  Meets-bind-failed,
}
use sdb_controller.Fixtures.Cluster.{phase_text}
use sdb_controller.Fixtures.Objects.{root_secret}
use sdb_controller.Fixtures.Cluster.Handlers.{
  handle_status_patch_phase, handle_deployment_apply_with_env, handle_service_apply,
  handle_deployment_get_ready, handle_secret_get_root, handle_bootstrap_sql,
}
use sdb_controller.Fixtures.Cluster.Accepted.{
  status-Accepted, deployment-Accepted, service-Accepted, get_ready-Accepted, secret-Accepted,
  bootstrap-Accepted,
}

module _ ⦃K : Kube⦄ (verifier : K.State → ApiServerVerifier) (mocked : IsMocked verifier)
    (wire : Wire) (k : IsKubernetes wire) (c : Cluster)
    (home : c.metadata.namespace ≡ some "default") where
  abbrev pub own : String
  own = K.name_any c.metadata

  pub set_phase-Meets :
      {rest : List Handler} (q : Phase)
      → Meets verifier mocked
          (handle_status_patch_phase wire c (phase_text q) ∷ rest)
          (set_phase c q)
          (done tt)
          rest
  unfolding set_phase
  set_phase-Meets q = Meets-found verifier mocked _ "default" _ home (
      Meets-asked verifier mocked (patch_cluster_status "default" own q) _ (ok tt) _
        (status-Accepted wire k c q) (Meets-lift-ok verifier mocked kube_error tt))

  pub check_ready-Meets :
      {rest : List Handler}
      → Meets verifier mocked
          (handle_deployment_get_ready wire c ∷ rest)
          (check_ready c own)
          (done true)
          rest
  unfolding check_ready
  check_ready-Meets = Meets-found verifier mocked _ "default" _ home (
      Meets-asked verifier mocked (get_deployment "default" (own <> "-surrealdb")) _ (ok _) _
        (get_ready-Accepted wire k c)
        (Meets-replied verifier mocked kube_error _ _ (Meets-pure verifier mocked true)))

  pub apply-Meets :
      {rest : List Handler} (oref : OwnerReference) (mode : Bool)
      → owner_ref c ≡ some oref
      → Meets verifier mocked
          (handle_deployment_apply_with_env wire c mode ∷ handle_service_apply wire c ∷ rest)
          (reconcile_surrealdb_with_mode c own mode)
          (done tt)
          rest
  unfolding reconcile_surrealdb_with_mode
  apply-Meets oref mode owned =
      let (dp, built, named) = deployment_built c "default" oref home owned own mode _ refl in
      let (svc, made, titled) = service_built c "default" oref home owned own _ refl in
      Meets-found verifier mocked _ "default" _ home (
        Meets-found verifier mocked _ dp _ built (
          Meets-found verifier mocked _ svc _ made (
            Meets-found verifier mocked _ _ _ named (
              Meets-asked verifier mocked
                (apply_deployment "default" (own <> "-surrealdb") apply_params dp) _ (ok tt) _
                (deployment-Accepted wire k c mode dp built)
                (Meets-replied verifier mocked kube_error tt _ (
                  Meets-found verifier mocked _ _ _ titled (
                    Meets-asked verifier mocked
                      (apply_service "default" (own <> "-surrealdb") apply_params svc) _ (ok tt) _
                      (service-Accepted wire k c svc)
                      (Meets-lift-ok verifier mocked kube_error tt))))))))

  pub set_phase-Closed :
      (q : Phase)
      → Meets verifier mocked [] (set_phase c q) (failed (kube_error (transport "closed"))) []
  unfolding set_phase
  set_phase-Closed q = Meets-found verifier mocked _ "default" _ home (
      Meets-bind verifier mocked _ _ (err (transport "closed")) _
        (Meets-send-closed verifier mocked (patch_cluster_status "default" own q))
        (Meets-lift-err verifier mocked kube_error (transport "closed")))

  pub check_ready-Closed :
      Meets verifier mocked [] (check_ready c own) (failed (kube_error (transport "closed"))) []
  unfolding check_ready
  check_ready-Closed = Meets-found verifier mocked _ "default" _ home (
      Meets-bind verifier mocked _ _ (err (transport "closed")) _
        (Meets-send-closed verifier mocked (get_deployment "default" (own <> "-surrealdb")))
        (Meets-bind-failed verifier mocked _ _ _
          (Meets-lift-err verifier mocked kube_error (transport "closed"))))

  pub bootstrap-Meets :
      {rest : List Handler}
      → ((request : HttpRequest) → K.build_http request ≡ none)
      → mentions "?" own ≡ false
      → secret_name c.spec.root_secret ≡ some "test"
      → Meets verifier mocked
          (handle_secret_get_root wire ∷ handle_bootstrap_sql wire c ∷ rest)
          (bootstrap_root_user c own)
          (done tt)
          rest
  unfolding bootstrap_root_user post_root credentials built
  bootstrap-Meets builds plain root =
      let request = sql_request "default" own (define_root_user "root" "root") in
      Meets-found verifier mocked _ "default" _ home (
        Meets-bind verifier mocked _ _ "test" _
          (Meets-some verifier mocked _ "test" _ _ root (Meets-pure verifier mocked "test"))
          (Meets-asked verifier mocked (get_secret "default" "test") _
            (ok (root_secret "test" "default")) _ (secret-Accepted wire k)
            (Meets-replied verifier mocked kube_error _ _ (
              Meets-bind verifier mocked _ _ ("root", "root") _ (Meets-pure verifier mocked _)
                (Meets-bind verifier mocked _ _ request _
                  (Meets-none verifier mocked _ _ _ (builds request)
                    (Meets-pure verifier mocked request))
                  (Meets-asked verifier mocked (request_text request) _ (ok tt) _
                    (bootstrap-Accepted wire k c home plain "root" "root")
                    (Meets-lift-ok verifier mocked kube_error tt)))))))

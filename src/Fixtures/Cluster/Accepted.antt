-- ===== src/Fixtures/Cluster/Accepted.antt =====
-- src/cluster/fixtures.rs: the handlers at the requests that they are made for.
use text.Mathlib.TextLemmas.{append_assoc}
use sdb_controller.Prelude.{
  ◌≡◌, refl, ap, arith, Bool, true, false, some, String, ◌<>◌, ◌==◌, eq_refl, ◌∙◌, get_or, mentions,
  mentions-append,
}
use sdb_controller.Resources.Core.{Deployment, Service}
use sdb_controller.Resources.Cluster.{Cluster, Phase}
use sdb_controller.Cluster.Objects.{
  build_surreal_deployment, surreal_container, env_creation, env_normal,
}
use sdb_controller.Cluster.Actions.{apply_params}
use sdb_controller.Api.{
  patch_cluster_status, apply_deployment, apply_service, get_secret, get_deployment, request_text,
  ok, Kube,
}
use sdb_controller.Fixtures.Wire.{Wire, IsKubernetes, collection, core, apps, own_group}
use sdb_controller.Fixtures.Texts.{contains, contains-front, contains-append}
use sdb_controller.Sql.{define_root_user}
use sdb_controller.Cluster.Bootstrap.{sql_request}
use sdb_controller.Fixtures.Asked.{marked, unmarked, asks_lem}
use sdb_controller.Fixtures.Cluster.{phase_text}
use sdb_controller.Fixtures.Objects.{ready_deployment, root_secret, sql_path}
use sdb_controller.Fixtures.Cluster.Checks.{env_of, expected_env}
use sdb_controller.Fixtures.Cluster.Handlers.{
  handle_status_patch_phase, handle_deployment_apply_with_env, handle_service_apply,
  handle_deployment_get_ready, handle_secret_get_root, handle_bootstrap_sql,
}

module _ ⦃K : Kube⦄ (wire : Wire) (k : IsKubernetes wire) (c : Cluster) where
  abbrev own : String
  own = K.name_any c.metadata

  pub status-Accepted :
      (q : Phase)
      → handle_status_patch_phase wire c (phase_text q) (patch_cluster_status "default" own q)
        ≡ some (ok tt)
  unfolding handle_status_patch_phase
  status-Accepted q =
      rw
        (
          asks_lem wire k (patch_cluster_status "default" own q) "PATCH" _ refl
              (marked (collection own_group "default" "clusters/") own "/status"),
          eq_refl (phase_text q),
        )
        refl

  env-IsExpected :
      (mode : Bool) (dp : Deployment)
      → build_surreal_deployment c own mode ≡ some dp
      → expected_env mode (env_of dp) ≡ true
  unfolding build_surreal_deployment surreal_container env_creation env_normal
  env-IsExpected true dp e = ground (arith, e)
  env-IsExpected false dp e = ground (arith, e)

  pub deployment-Accepted :
      (mode : Bool) (dp : Deployment)
      → build_surreal_deployment c own mode ≡ some dp
      → handle_deployment_apply_with_env wire c mode
          (apply_deployment "default" (own <> "-surrealdb") apply_params dp)
        ≡ some (ok tt)
  unfolding handle_deployment_apply_with_env
  deployment-Accepted mode dp e =
      rw
        (
          asks_lem wire k (apply_deployment "default" (own <> "-surrealdb") apply_params dp) "PATCH"
              _ refl (marked (collection apps "default" "deployments/") own "-surrealdb"),
          env-IsExpected mode dp e,
        )
        refl

  pub service-Accepted :
      (svc : Service)
      → handle_service_apply wire c (apply_service "default" (own <> "-surrealdb") apply_params svc)
        ≡ some (ok tt)
  unfolding handle_service_apply
  service-Accepted svc =
      rw
        (asks_lem wire k (apply_service "default" (own <> "-surrealdb") apply_params svc) "PATCH" _
          refl (marked (collection core "default" "services/") own "-surrealdb"))
        refl

  pub get_ready-Accepted :
      handle_deployment_get_ready wire c (get_deployment "default" (own <> "-surrealdb"))
      ≡ some (ok (ready_deployment (own <> "-surrealdb")))
  unfolding handle_deployment_get_ready
  get_ready-Accepted =
      rw
        (asks_lem wire k (get_deployment "default" (own <> "-surrealdb")) "GET" _ refl
          (unmarked (collection apps "default" "deployments/" <> own <> "-surrealdb")))
        refl

module _ ⦃K : Kube⦄ (wire : Wire) (k : IsKubernetes wire) where
  pub secret-Accepted :
      handle_secret_get_root wire (get_secret "default" "test")
      ≡ some (ok (root_secret "test" "default"))
  unfolding handle_secret_get_root
  secret-Accepted = rw (asks_lem wire k (get_secret "default" "test") "GET" _ refl refl) refl

-- The SQL that defines the root user has the words that the fixture looks for.
define-words :
    (user pass : String)
    → (contains "DEFINE USER" (define_root_user user pass) ≡ true)
      × (contains "PASSWORD" (define_root_user user pass) ≡ true)
unfolding define_root_user
define-words user pass =
    let rest = pass <> "' ROLES OWNER;" in
    (
      rw (append_assoc "DEFINE USER" " " (user <> " ON ROOT PASSWORD '" <> rest))
          (contains-front "DEFINE USER" (" " <> (user <> " ON ROOT PASSWORD '" <> rest))),
      contains-append "PASSWORD" "DEFINE USER " (user <> " ON ROOT PASSWORD '" <> rest) (
          contains-append "PASSWORD" user (" ON ROOT PASSWORD '" <> rest) (
            rw (append_assoc " ON ROOT " "PASSWORD '" rest) (
              contains-append "PASSWORD" " ON ROOT " ("PASSWORD '" <> rest) (
                rw (append_assoc "PASSWORD" " '" rest)
                  (contains-front "PASSWORD" (" '" <> rest)))))),
    )

module _ ⦃K : Kube⦄ (wire : Wire) (k : IsKubernetes wire) (c : Cluster)
    (home : c.metadata.namespace ≡ some "default")
    (plain : mentions "?" (K.name_any c.metadata) ≡ false) where
  sql-plain : mentions "?" (sql_path "default" (K.name_any c.metadata)) ≡ false
  sql-plain = simp (mentions-append, plain)

  sql_path-same :
      (wire.uri_path (sql_path "default" (K.name_any c.metadata))
        == sql_path (get_or c.metadata.namespace "") (K.name_any c.metadata))
      ≡ true
  sql_path-same =
      let p = sql_path "default" (K.name_any c.metadata) in
      ap (λ o. wire.uri_path p == sql_path (get_or o "") (K.name_any c.metadata)) home
      ∙ ap (λ t. t == p) (k.plain_path p sql-plain)
      ∙ eq_refl p

  pub bootstrap-Accepted :
      (user pass : String)
      → handle_bootstrap_sql wire c (
          request_text (sql_request "default" (K.name_any c.metadata) (define_root_user user pass)))
        ≡ some (ok tt)
  unfolding handle_bootstrap_sql sql_request
  bootstrap-Accepted user pass =
      let (d, p) = define-words user pass in rw (sql_path-same, d, p) refl

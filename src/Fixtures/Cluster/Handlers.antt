-- ===== src/Fixtures/Cluster/Handlers.antt =====
-- src/cluster/fixtures.rs: the handlers of `ApiServerVerifier` and the chain of each scenario. A type
-- of request that a handler does not name has another method or another path, or its reply is
-- read as another type.
use sdb_controller.Prelude.{
  Bool, true, false, ◌&&◌, none, some, get_or, String, ◌<>◌, ◌==◌, List, [], ◌∷◌, lookup,
}
use sdb_controller.Resources.Core.{ObjectMeta}
use sdb_controller.Resources.Cluster.{Cluster, cluster_kind, api_version, cluster_finalizer}
use sdb_controller.Api.{
  patch_cluster, patch_cluster_status, create_secret, apply_deployment, apply_service, get_secret,
  get_deployment, get_meta, delete, publish, request_text, ok, Kube,
}
use sdb_controller.Fixtures.Texts.{contains}
use sdb_controller.Fixtures.Wire.{Wire, collection, core, apps, own_group, pingcap}
use sdb_controller.Fixtures.Server.{Handler, when, asks, asks_exactly}
use sdb_controller.Fixtures.Objects.{ready_deployment, root_secret, sql_path}
use sdb_controller.Fixtures.Cluster.{
  Scenario, finalizer_creation, radio_silence, cleanup,
  status_patch_then_deployment_and_service_creation, in_creation_ready_then_bootstrap_then_auth,
  deployment_and_service_with_auth_env, root_secret_creation_then_status_and_dp_svc, phase_text,
}
use sdb_controller.Fixtures.Cluster.Checks.{
  env_of, expected_env, adds_finalizer, removes_finalizer, sets_root_secret,
}

module _ ⦃K : Kube⦄ where
  -- The metadata of an object that the cluster owns, as the responses have it.
  abbrev pub owned_meta : Cluster → String → ObjectMeta
  owned_meta c name = record {
    name = some name;
    namespace = some "default";
    uid = none;
    finalizers = none;
    deletion_timestamp = none;
    labels = none;
    owner_references = some (
        record {
          api_version = api_version;
          kind = cluster_kind;
          name = K.name_any c.metadata;
          uid = "0000-00-00-00-000000";
          controller = none;
        }
        ∷ []);
  }

module _ ⦃K : Kube⦄ (wire : Wire) where
  unfoldable pub handle_finalizer_creation : Cluster → Handler
  unfolding asks_exactly
  handle_finalizer_creation c (patch_cluster ns name ops) =
      when
        (asks_exactly wire "PATCH"
            (collection own_group "default" "clusters/" <> K.name_any c.metadata <> "?")
            (patch_cluster ns name ops)
          && adds_finalizer cluster_finalizer ops)
        (ok tt)
  handle_finalizer_creation c other = none

  unfoldable pub handle_finalizer_removal : Cluster → Handler
  unfolding asks_exactly
  handle_finalizer_removal c (patch_cluster ns name ops) =
      when
        (asks_exactly wire "PATCH"
            (collection own_group "default" "clusters/" <> K.name_any c.metadata <> "?")
            (patch_cluster ns name ops)
          && removes_finalizer cluster_finalizer ops)
        (ok tt)
  handle_finalizer_removal c other = none

  unfoldable pub handle_event_create : String → Handler
  unfolding asks_exactly
  handle_event_create reason (publish event meta) =
      when
        (asks_exactly wire "POST" "/apis/events.k8s.io/v1/namespaces/default/events?"
            (publish event meta)
          && event.reason == reason)
        (ok tt)
  handle_event_create reason other = none

  -- The four `handle_get_owned_…`, by the path of the kind and the end of the name.
  abbrev pub handle_get_owned : (path suffix : String) → Cluster → Handler
  handle_get_owned path suffix c (get_meta kind ns name) =
      when (asks wire "GET" (path <> K.name_any c.metadata <> suffix) (get_meta kind ns name))
        (ok (owned_meta c (K.name_any c.metadata <> suffix)))
  handle_get_owned path suffix c other = none

  -- The four `handle_delete_owned_…`
  abbrev pub handle_delete_owned : (path suffix : String) → Cluster → Handler
  handle_delete_owned path suffix c (delete kind ns name policy) =
      when
        (asks wire "DELETE" (path <> K.name_any c.metadata <> suffix) (delete kind ns name policy))
        (ok tt)
  handle_delete_owned path suffix c other = none

  unfoldable pub handle_status_patch_phase : Cluster → String → Handler
  handle_status_patch_phase c phase (patch_cluster_status ns name p) =
      when
        (asks wire "PATCH"
            (collection own_group "default" "clusters/" <> K.name_any c.metadata <> "/status?")
            (patch_cluster_status ns name p)
          && phase_text p == phase)
        (ok tt)
  handle_status_patch_phase c phase other = none

  unfoldable pub handle_deployment_apply_with_env : Cluster → Bool → Handler
  handle_deployment_apply_with_env c creation_mode (apply_deployment ns name params dp) =
      when
        (asks wire "PATCH"
            (collection apps "default" "deployments/" <> K.name_any c.metadata <> "-surrealdb?")
            (apply_deployment ns name params dp)
          && expected_env creation_mode (env_of dp))
        (ok tt)
  handle_deployment_apply_with_env c creation_mode other = none

  unfoldable pub handle_service_apply : Cluster → Handler
  handle_service_apply c (apply_service ns name params svc) =
      when
        (asks wire "PATCH"
          (collection core "default" "services/" <> K.name_any c.metadata <> "-surrealdb?")
          (apply_service ns name params svc))
        (ok tt)
  handle_service_apply c other = none

  unfoldable pub handle_deployment_get_ready : Cluster → Handler
  handle_deployment_get_ready c (get_deployment ns name) =
      when
        (asks wire "GET"
          (collection apps "default" "deployments/" <> K.name_any c.metadata <> "-surrealdb")
          (get_deployment ns name))
        (ok (ready_deployment (K.name_any c.metadata <> "-surrealdb")))
  handle_deployment_get_ready c other = none

  unfoldable pub handle_secret_get_root : Handler
  handle_secret_get_root (get_secret ns name) =
      when (asks wire "GET" "/api/v1/namespaces/default/secrets/test" (get_secret ns name))
        (ok (root_secret "test" "default"))
  handle_secret_get_root other = none

  unfoldable pub handle_bootstrap_sql : Cluster → Handler
  handle_bootstrap_sql c (request_text req) =
      when
        (req.method == "POST"
          && wire.uri_path req.uri
            == sql_path (get_or c.metadata.namespace "") (K.name_any c.metadata)
          && get_or (lookup "content-type" req.headers) "" == "text/plain"
          && contains "DEFINE USER" req.body
          && contains "PASSWORD" req.body)
        (ok tt)
  handle_bootstrap_sql c other = none

  unfoldable pub handle_secret_create_auto : Handler
  handle_secret_create_auto (create_secret ns s) =
      when
        (asks wire "POST" "/api/v1/namespaces/default/secrets?" (create_secret ns s)
          && get_or s.metadata.name "" == "test-surrealdb-root")
        (ok tt)
  handle_secret_create_auto other = none

  unfoldable pub handle_root_secret_spec_patch : Cluster → Handler
  handle_root_secret_spec_patch c (patch_cluster ns name ops) =
      when
        (asks wire "PATCH"
            (collection own_group "default" "clusters/" <> K.name_any c.metadata <> "?")
            (patch_cluster ns name ops)
          && sets_root_secret ops)
        (ok tt)
  handle_root_secret_spec_patch c other = none

  abbrev pub handle_get_owned_deployment : Cluster → Handler
  handle_get_owned_deployment =
      handle_get_owned (collection apps "default" "deployments/") "-surrealdb"

  abbrev pub handle_delete_owned_deployment : Cluster → Handler
  handle_delete_owned_deployment =
      handle_delete_owned (collection apps "default" "deployments/") "-surrealdb?"

  abbrev pub handle_get_owned_service : Cluster → Handler
  handle_get_owned_service = handle_get_owned (collection core "default" "services/") "-surrealdb"

  abbrev pub handle_delete_owned_service : Cluster → Handler
  handle_delete_owned_service =
      handle_delete_owned (collection core "default" "services/") "-surrealdb?"

  abbrev pub handle_get_owned_secret : Cluster → Handler
  handle_get_owned_secret =
      handle_get_owned (collection core "default" "secrets/") "-surrealdb-root"

  abbrev pub handle_delete_owned_secret : Cluster → Handler
  handle_delete_owned_secret =
      handle_delete_owned (collection core "default" "secrets/") "-surrealdb-root?"

  abbrev pub handle_get_owned_tidbcluster : Cluster → Handler
  handle_get_owned_tidbcluster = handle_get_owned (collection pingcap "default" "tidbclusters/") ""

  abbrev pub handle_delete_owned_tidbcluster : Cluster → Handler
  handle_delete_owned_tidbcluster =
      handle_delete_owned (collection pingcap "default" "tidbclusters/") "?"

  -- `ApiServerVerifier::run`: the chain of a scenario.
  unfoldable pub run : Scenario → List Handler
  run (finalizer_creation c) = handle_finalizer_creation c ∷ []
  run radio_silence = []
  run (cleanup reason c) =
      handle_get_owned_deployment c
      ∷ handle_delete_owned_deployment c
      ∷ handle_get_owned_service c
      ∷ handle_delete_owned_service c
      ∷ handle_get_owned_secret c
      ∷ handle_delete_owned_secret c
      ∷ handle_get_owned_tidbcluster c
      ∷ handle_delete_owned_tidbcluster c
      ∷ handle_event_create reason
      ∷ handle_finalizer_removal c
      ∷ []
  run (status_patch_then_deployment_and_service_creation c) =
      handle_status_patch_phase c "InCreation"
      ∷ handle_deployment_apply_with_env c true
      ∷ handle_service_apply c
      ∷ []
  run (in_creation_ready_then_bootstrap_then_auth c) =
      handle_deployment_get_ready c
      ∷ handle_secret_get_root
      ∷ handle_bootstrap_sql c
      ∷ handle_status_patch_phase c "InProgress"
      ∷ handle_deployment_apply_with_env c false
      ∷ handle_service_apply c
      ∷ []
  run (deployment_and_service_with_auth_env c) =
      handle_deployment_apply_with_env c false ∷ handle_service_apply c ∷ []
  run (root_secret_creation_then_status_and_dp_svc c) =
      handle_secret_create_auto
      ∷ handle_root_secret_spec_patch c
      ∷ handle_status_patch_phase c "InCreation"
      ∷ handle_deployment_apply_with_env c true
      ∷ handle_service_apply c
      ∷ []

-- ===== src/Cluster/Requests.antt =====
-- src/cluster/crd.rs: every request of a reconciliation, its target and its payload.
use sdb_controller.Error.{Error, kube_error, http_error}
use sdb_controller.Sql.{define_root_user}
use sdb_controller.Prelude.{
  ℕ, ◌≡◌, refl, arith, Bool, true, false, Option, none, some, String, ◌<>◌, All, [], ◌∷◌,
}
use sdb_controller.Resources.Core.{Deployment, Service, replace, object, field, string, end}
use sdb_controller.Resources.Tidb.{TidbCluster}
use sdb_controller.Resources.Cluster.{
  Cluster, Phase, new, preparing, in_creation, not_ready, in_progress, ready, error,
}
use sdb_controller.Password.Quiet.{generate_secure_password-Logs}
use sdb_controller.Cluster.Objects.{build_surreal_deployment, build_surreal_service}
use sdb_controller.Cluster.Actions.{
  persist_root_secret_ref, ensure_root_secret, reconcile_surrealdb_with_mode, set_phase,
  check_ready, apply_params, reconcile_tidb_cluster,
}
use sdb_controller.Cluster.Bootstrap.{
  post_root, built, sql_request, bootstrap_root_user, credentials-Logs, secret_name, IsRootSql,
  sql_request-IsRootSql,
}
use sdb_controller.Cluster.Reconcile.{
  Action, current, mark, start_creation, after_secret, reconcile_new, found, wait_for_tidb,
  reconcile_preparing, promote, when_created, reconcile_in_creation, settle_in_progress,
  settle_ready, settle_not_ready, reconcile_authenticated, reconcile_error, handle, reconcile,
}
use sdb_controller.Api.{
  Call, patch_cluster, patch_cluster_status, create_secret, create_tidb_cluster, apply_deployment,
  apply_service, get_secret, get_deployment, get_opt_tidb_cluster, request_text, Try, ok, err, Kube,
  M, trace, HttpRequest, pure, raise, send, lift, on_option, ◌>>=◌,
}
use sdb_controller.Api.Logs.{
  Logs, Logs-attempt, Logs-pure, Logs-bind, Logs-bind-unwrap, Logs-lift, Logs-send, Logs-trace,
  logs_rules, careful_rules,
}

-- The phases in which the deployment may be open to unauthenticated access.
abbrev pub MayOpen : Phase → Type 0
MayOpen new = Unit
MayOpen preparing = Unit
MayOpen other = ⊥

module _ ⦃K : Kube⦄ (c : Cluster) (p : Phase) where
  abbrev pub IsHome : String → Type 0
  IsHome ns = c.metadata.namespace ≡ some ns

  abbrev pub own_name : String
  own_name = K.name_any c.metadata

  -- What a reconciliation of `c` from the phase `p` may ask of the API server.
  abbrev pub IsPermitted : Call → Type 0
  IsPermitted (patch_cluster_status ns name q) = IsHome ns × (name ≡ own_name)
  IsPermitted (patch_cluster ns name ops) =
      IsHome ns
      × (name ≡ own_name)
      × (c.spec.root_secret ≡ none)
      × (ops
          ≡ replace "/spec/rootSecret" (
              object (
                field "name" (string (own_name <> "-surrealdb-root"))
                  (field "namespace" (string ns) end)))
            ∷ [])
  IsPermitted (create_secret ns secret) =
      IsHome ns
      × (secret.metadata.name ≡ some (own_name <> "-surrealdb-root"))
      × (c.spec.root_secret ≡ none)
  IsPermitted (create_tidb_cluster ns tc) = IsHome ns × (tc.metadata.name ≡ some own_name)
  IsPermitted (apply_deployment ns name params dp) =
      IsHome ns
      × (name ≡ own_name <> "-surrealdb")
      × (mode : Bool) × (build_surreal_deployment c own_name mode ≡ some dp)
      × (mode ≡ true → MayOpen p)
  IsPermitted (apply_service ns name params svc) =
      IsHome ns × (name ≡ own_name <> "-surrealdb") × (build_surreal_service c own_name ≡ some svc)
  IsPermitted (get_secret ns name) = IsHome ns × (secret_name c.spec.root_secret ≡ some name)
  IsPermitted (get_deployment ns name) = IsHome ns × (name ≡ own_name <> "-surrealdb")
  IsPermitted (get_opt_tidb_cluster ns name) = IsHome ns × (name ≡ own_name)
  IsPermitted (request_text request) =
      (p ≡ in_creation) × (ns : String) × IsHome ns × IsRootSql ns own_name request
  IsPermitted other = ⊥

-- The name under which a built object is applied.
module _ ⦃K : Kube⦄ (c : Cluster) (name : String) where
  deployment_name :
      (mode : Bool) {dp : Deployment} {n : String}
      → build_surreal_deployment c name mode ≡ some dp
      → dp.metadata.name ≡ some n
      → n ≡ name <> "-surrealdb"
  unfolding build_surreal_deployment
  deployment_name mode h e = ground arith

  service_name :
      {svc : Service} {n : String}
      → build_surreal_service c name ≡ some svc
      → svc.metadata.name ≡ some n
      → n ≡ name <> "-surrealdb"
  unfolding build_surreal_service
  service_name h e = ground arith

module _ ⦃K : Kube⦄ (c : Cluster) (p : Phase) where
  abbrev Permits : {A : Type 0} → M A → Type 0
  Permits m = Logs (λ e. IsPermitted c p e.call) m

  set_phase-Permits : (q : Phase) → Permits (set_phase c q)
  unfolding set_phase
  set_phase-Permits q = search careful_rules

  mark-Permits : (q : Phase) (n : ℕ) → Permits (mark c q n)
  unfolding mark
  mark-Permits q n = search (logs_rules, set_phase-Permits)

  persist_root_secret_ref-Permits :
      c.spec.root_secret ≡ none
      → Permits (persist_root_secret_ref c (K.name_any c.metadata <> "-surrealdb-root"))
  unfolding persist_root_secret_ref
  persist_root_secret_ref-Permits h = search careful_rules depth 8

  ensure_root_secret-Permits : Permits (ensure_root_secret c)
  unfolding ensure_root_secret
  ensure_root_secret-Permits =
      search (careful_rules, generate_secure_password-Logs, persist_root_secret_ref-Permits) depth
        12

  reconcile_surrealdb_with_mode-Permits :
      (mode : Bool)
      → (mode ≡ true → MayOpen p)
      → Permits (reconcile_surrealdb_with_mode c (K.name_any c.metadata) mode)
  unfolding reconcile_surrealdb_with_mode
  reconcile_surrealdb_with_mode-Permits mode h = Logs-bind-unwrap _ _ λ ns home.
      Logs-bind-unwrap _ _ λ dp built. Logs-bind-unwrap _ _ λ svc made.
        Logs-bind-unwrap _ _ λ n named.
          Logs-bind _ _
            (Logs-send (apply_deployment ns n apply_params dp)
              λ r. (home, deployment_name c _ mode built named, mode, built, h))
            λ r. Logs-bind _ _ (Logs-lift _ _) λ _. Logs-bind-unwrap _ _ λ n' named'.
              Logs-bind _ _
                (Logs-send (apply_service ns n' apply_params svc)
                  λ r'. (home, service_name c _ made named', made))
                λ r'. Logs-lift _ _

  check_ready-Permits : Permits (check_ready c (K.name_any c.metadata))
  unfolding check_ready
  check_ready-Permits = search careful_rules depth 8

  reconcile_tidb_cluster-Permits : Permits (reconcile_tidb_cluster c (K.name_any c.metadata))
  unfolding reconcile_tidb_cluster
  reconcile_tidb_cluster-Permits = search careful_rules depth 10

  sent-Permits :
      (fault : Option String) (request : HttpRequest)
      → IsPermitted c p (request_text request)
      → Permits (
          on_option fault (pure request) (λ e. raise (http_error e)) >>= λ req.
          send (request_text req) >>= λ r. lift kube_error r)
  unfolding ◌>>=◌ on_option pure raise
  sent-Permits none request h = record {
    at = λ w l.
        (Logs-bind _ _ (Logs-send (request_text request) λ r. h) λ r. Logs-lift kube_error r).at w
          l;
  }
  sent-Permits (some e) request h = record { at = λ w l. l }

  post_root-Permits :
      (ns user pass : String)
      → p ≡ in_creation
      → IsHome c p ns
      → Permits (post_root ns (K.name_any c.metadata) user pass)
  unfolding post_root built
  post_root-Permits ns user pass h home =
      let own = K.name_any c.metadata in
      sent-Permits _ (sql_request ns own (define_root_user user pass))
        (h, ns, home, sql_request-IsRootSql ns own user pass)

  bootstrap_root_user-Permits :
      p ≡ in_creation → Permits (bootstrap_root_user c (K.name_any c.metadata))
  unfolding bootstrap_root_user
  bootstrap_root_user-Permits h =
      search (careful_rules, credentials-Logs, post_root-Permits) depth 12

  start_creation-Permits : MayOpen p → Permits (start_creation c (K.name_any c.metadata))
  unfolding start_creation
  start_creation-Permits h = search (logs_rules, reconcile_surrealdb_with_mode-Permits)

  closed_mode : false ≡ true → MayOpen p
  closed_mode e = cc

  ruleset permits_rules = (
    logs_rules, closed_mode, set_phase-Permits, mark-Permits, start_creation-Permits,
    ensure_root_secret-Permits, reconcile_surrealdb_with_mode-Permits, check_ready-Permits,
    reconcile_tidb_cluster-Permits, bootstrap_root_user-Permits,
  )

  reconcile_new-Permits : MayOpen p → Permits (reconcile_new c (K.name_any c.metadata))
  unfolding reconcile_new after_secret
  reconcile_new-Permits h = search permits_rules depth 8

  found-Permits : (o : Option TidbCluster) → MayOpen p → Permits (found c (K.name_any c.metadata) o)
  unfolding found
  found-Permits none h = search permits_rules
  found-Permits (some tc) h = search permits_rules

  reconcile_preparing-Permits : MayOpen p → Permits (reconcile_preparing c (K.name_any c.metadata))
  unfolding reconcile_preparing wait_for_tidb
  reconcile_preparing-Permits h =
      search (careful_rules, reconcile_tidb_cluster-Permits, found-Permits) depth 8

  when_created-Permits :
      (r : Try Error Bool) → p ≡ in_creation → Permits (when_created c (K.name_any c.metadata) r)
  unfolding when_created promote
  when_created-Permits (ok true) h = search permits_rules depth 8
  when_created-Permits (ok false) h = search permits_rules
  when_created-Permits (err e) h = search permits_rules

  reconcile_authenticated-Permits :
      (settle : Try Error Bool → M Action)
      → ((r : Try Error Bool) → Permits (settle r))
      → Permits (reconcile_authenticated c (K.name_any c.metadata) settle)
  unfolding reconcile_authenticated
  reconcile_authenticated-Permits settle h = search (permits_rules, h)

  settle_in_progress-Permits : (r : Try Error Bool) → Permits (settle_in_progress c r)
  unfolding settle_in_progress
  settle_in_progress-Permits (ok true) = search permits_rules
  settle_in_progress-Permits (ok false) = search permits_rules
  settle_in_progress-Permits (err e) = search permits_rules

  settle_ready-Permits : (r : Try Error Bool) → Permits (settle_ready c r)
  unfolding settle_ready
  settle_ready-Permits (ok true) = search permits_rules
  settle_ready-Permits (ok false) = search permits_rules
  settle_ready-Permits (err e) = search permits_rules

  settle_not_ready-Permits : (r : Try Error Bool) → Permits (settle_not_ready c r)
  unfolding settle_not_ready
  settle_not_ready-Permits (ok true) = search permits_rules
  settle_not_ready-Permits (ok false) = search permits_rules
  settle_not_ready-Permits (err e) = search permits_rules

handle-Permits :
    ⦃K : Kube⦄ (c : Cluster) (p : Phase) → Permits c p (handle c (K.name_any c.metadata) p)
unfolding handle reconcile_in_creation reconcile_error
handle-Permits c new = reconcile_new-Permits c new tt
handle-Permits c preparing = reconcile_preparing-Permits c preparing tt
handle-Permits c in_creation =
    Logs-bind _ _ (Logs-attempt _ (check_ready-Permits c in_creation))
      λ r. when_created-Permits c in_creation r refl
handle-Permits c in_progress =
    reconcile_authenticated-Permits c in_progress _ (settle_in_progress-Permits c in_progress)
handle-Permits c ready = reconcile_authenticated-Permits c ready _ (settle_ready-Permits c ready)
handle-Permits c not_ready =
    reconcile_authenticated-Permits c not_ready _ (settle_not_ready-Permits c not_ready)
handle-Permits c error =
    Logs-bind _ _
      (Logs-bind _ _
        (Logs-attempt _ (reconcile_surrealdb_with_mode-Permits c error false (closed_mode c error)))
        (λ r. Logs-pure _))
      (λ r. Logs-pure _)

-- Whatever the API server answers, a reconciliation asks only what `IsPermitted` lists. It stays in
-- the cluster's namespace and with objects named after the cluster, except that it reads the secret
-- that the specification names as root secret; it deletes nothing, creates a root secret only if
-- none is set, sends SQL only in the phase InCreation, only to the service of the cluster and only to
-- define a root user, applies only the deployment and the service that the builders give, and the
-- deployment that is open to unauthenticated access only in the phases New and Preparing.
pub reconcile-IsPermitted :
    ⦃K : Kube⦄ (c : Cluster) (s : K.State)
    → All (λ e. IsPermitted c (current c.status) e.call) (trace (reconcile c) s)
unfolding reconcile
reconcile-IsPermitted c s = Logs-trace _ s (handle-Permits c (current c.status))

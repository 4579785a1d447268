-- ===== src/Cluster/Progress/Steps.antt =====
-- src/cluster/crd.rs: the steps of a reconciliation where every request succeeds.
use mathlib.Core.Option
use sdb_controller.Prelude.{
  ap, ◌≡◌, refl, arith, Bool, true, Option, none, some, get_or, String, ◌<>◌, ◌==◌, ◌&&◌, eq_refl,
  if◌then◌else◌, List, [], ◌∷◌, lookup,
}
use sdb_controller.Error.{KubeError}
use sdb_controller.Sql.{define_root_user}
use sdb_controller.Resources.Core.{
  from_utf8_or_default, Secret, ByteString, OwnerReference, Deployment, Service,
}
use sdb_controller.Resources.Tidb.{TidbCluster, TidbClusterSpec}
use sdb_controller.Resources.Cluster.{Cluster, Phase, api_version, cluster_kind}
use sdb_controller.Cluster.Objects.{owner_ref, build_surreal_deployment, build_surreal_service}
use sdb_controller.Cluster.Actions.{
  available, tidb_ready, set_phase, check_ready, reconcile_surrealdb_with_mode, ensure_root_secret,
  reconcile_tidb_cluster, tikv_backend_configured, apply_params, create_tidb, tidb_object,
}
use sdb_controller.Cluster.Bootstrap.{
  post_root, bootstrap_root_user, credentials, secret_name, sql_request, built,
}
use sdb_controller.Cluster.Reconcile.{found}
use sdb_controller.Api.{
  Call, HttpRequest, patch_cluster_status, create_tidb_cluster, get_secret, get_deployment,
  get_opt_tidb_cluster, apply_deployment, apply_service, request_text, Try, ok, err, is_ok, Fault,
  Reply, Entry, Kube, World, done, is_done, pure, unwrap, send, lift, on_option, raise, ◌>>=◌,
}

abbrev HasCredentials : Secret → Type 0
HasCredentials secret =
    (user : ByteString) × (pass : ByteString) × (lookup "user" (get_or secret.bytes []) ≡ some user)
    × (lookup "password" (get_or secret.bytes []) ≡ some pass)

-- A reply without an error that shows what the controller waits for.
abbrev pub Accepts : ⦃K : Kube⦄ (call : Call) → Try (Fault call) (Reply call) → Type 0
Accepts (get_deployment ns name) (ok dp) = available dp ≡ true
Accepts (get_secret ns name) (ok secret) = HasCredentials secret
Accepts (get_opt_tidb_cluster ns name) (ok none) = ⊥
Accepts ⦃K⦄ (get_opt_tidb_cluster ns name) (ok (some tc)) = tidb_ready tc ≡ true
Accepts call (ok a) = Unit
Accepts call (err e) = ⊥

pub record IsAccepting ⦃K : Kube⦄ : Type 0 where
  pub accepts : (call : Call) (s : K.State) → Accepts call (K.respond call s).0
  pub builds : (request : HttpRequest) → K.build_http request ≡ none

secret_reply :
    ⦃K : Kube⦄ (ns name : String) (r : Try KubeError Secret)
    → Accepts (get_secret ns name) r
    → (secret : Secret) × (r ≡ ok secret) × HasCredentials secret
secret_reply ns name (ok secret) h = (secret, refl, h)
secret_reply ns name (err e) h = absurd h

pub tidb_reply :
    ⦃K : Kube⦄ (ns name : String) (r : Try KubeError (Option TidbCluster))
    → Accepts (get_opt_tidb_cluster ns name) r
    → (tc : TidbCluster) × (r ≡ ok (some tc)) × (tidb_ready tc ≡ true)
tidb_reply ns name (ok none) h = absurd h
tidb_reply ns name (ok (some tc)) h = (tc, refl, h)
tidb_reply ns name (err e) h = absurd h

-- What the API server and the user give a cluster.
pub record IsComplete ⦃K : Kube⦄ (c : Cluster) (ns secret : String) (oref : OwnerReference)
    : Type 0 where
  pub home : c.metadata.namespace ≡ some ns
  pub owner : K.controller_owner_ref api_version cluster_kind c.metadata ≡ some oref
  pub root : secret_name c.spec.root_secret ≡ some secret
  pub backend : is_ok (tikv_backend_configured c) ≡ true

module _ ⦃K : Kube⦄ (c : Cluster) where
  abbrev pub own : String
  own = K.name_any c.metadata

  abbrev written : String → Call → (accepted : Bool) → Option Phase → Option Phase
  written ns (patch_cluster_status n name p) true before =
      if n == ns && name == own then some p else before
  written ns call accepted before = before

  -- The phase that the API server has stored by the requests of a log: that of the last write of the
  -- cluster's status that it accepted.
  abbrev pub stored : String → List Entry → Option Phase
  stored ns [] = none
  stored ns (e ∷ l) = let before = stored ns l in written ns e.call (is_ok e.reply) before

module _ ⦃K : Kube⦄ (good : IsAccepting) (c : Cluster) (ns secret : String) (oref : OwnerReference)
    (full : IsComplete c ns secret oref) where
  pub set_phase_lem :
      (p : Phase) (w : World K.State)
      → ((set_phase c p w).0 ≡ done tt) × (stored c ns (set_phase c p w).1.log ≡ some p)
  unfolding set_phase ◌>>=◌ unwrap send lift
  set_phase_lem p w = ground (
    arith,
    full.home,
    eq_refl ns,
    eq_refl (own c),
    good.accepts (patch_cluster_status ns (own c) p) w.state,
  )

  pub check_ready_lem :
      (w : World K.State)
      → ((check_ready c (own c) w).0 ≡ done true)
        × (stored c ns (check_ready c (own c) w).1.log ≡ stored c ns w.log)
  unfolding check_ready ◌>>=◌ unwrap send lift pure
  check_ready_lem w =
      ground (arith, full.home, good.accepts (get_deployment ns ((own c) <> "-surrealdb")) w.state)

  built_lem :
      (mode : Bool) (dp : Deployment) (svc : Service) (n m : String) (w : World K.State)
      → build_surreal_deployment c (own c) mode ≡ some dp
      → build_surreal_service c (own c) ≡ some svc
      → dp.metadata.name ≡ some n
      → svc.metadata.name ≡ some m
      → ((reconcile_surrealdb_with_mode c (own c) mode w).0 ≡ done tt)
        × (stored c ns (reconcile_surrealdb_with_mode c (own c) mode w).1.log ≡ stored c ns w.log)
  unfolding reconcile_surrealdb_with_mode ◌>>=◌ unwrap send lift
  built_lem mode dp svc n m w d s e f =
      let first = apply_deployment ns n apply_params dp in
      ground (
        arith,
        full.home,
        d,
        s,
        e,
        f,
        good.accepts first w.state,
        good.accepts (apply_service ns m apply_params svc) (K.respond first w.state).1,
      )

  owner_lem : owner_ref c ≡ some (record oref { controller = some true })
  unfolding owner_ref
  owner_lem = ap (Option.map _) full.owner

  deployment_lem :
      (mode : Bool)
      → (dp : Deployment) × (n : String) × (build_surreal_deployment c (own c) mode ≡ some dp)
        × (dp.metadata.name ≡ some n)
  unfolding build_surreal_deployment
  deployment_lem mode = (_, _, ap (Option.map _) owner_lem, refl)

  service_lem :
      (svc : Service) × (n : String) × (build_surreal_service c (own c) ≡ some svc)
      × (svc.metadata.name ≡ some n)
  unfolding build_surreal_service
  service_lem = (_, _, ap (Option.map _) owner_lem, refl)

  pub apply_lem :
      (mode : Bool) (w : World K.State)
      → ((reconcile_surrealdb_with_mode c (own c) mode w).0 ≡ done tt)
        × (stored c ns (reconcile_surrealdb_with_mode c (own c) mode w).1.log ≡ stored c ns w.log)
  apply_lem mode w =
      let (dp, n, d, e) = deployment_lem mode in
      let (svc, m, s, f) = service_lem in built_lem mode dp svc n m w d s e f

  pub bootstrap_lem :
      (w : World K.State)
      → ((bootstrap_root_user c (own c) w).0 ≡ done tt)
        × (stored c ns (bootstrap_root_user c (own c) w).1.log ≡ stored c ns w.log)
  unfolding bootstrap_root_user post_root credentials built ◌>>=◌ unwrap send lift pure raise
      on_option
  bootstrap_lem w =
      let look = get_secret ns secret in
      let (sec, found, (user, pass, e, f)) = secret_reply ns secret _ (good.accepts look w.state) in
      let sql = define_root_user (from_utf8_or_default user) (from_utf8_or_default pass) in
      let request = sql_request ns (own c) sql in
      ground (
        arith,
        full.home,
        full.root,
        found,
        e,
        f,
        good.builds request,
        good.accepts (request_text request) (K.respond look w.state).1,
      )

  pub root_secret_lem :
      (w : World K.State)
      → (is_done (ensure_root_secret c w).0 ≡ true) × ((ensure_root_secret c w).1 ≡ w)
  unfolding ensure_root_secret on_option pure
  root_secret_lem w = ground (arith, full.root)

  -- What the user's TiDB cluster leads to.
  pub tidb_lem :
      (w : World K.State)
      → ((reconcile_tidb_cluster c (own c) w).0 ≡ done tt)
        × (stored c ns (reconcile_tidb_cluster c (own c) w).1.log ≡ stored c ns w.log)
  unfolding reconcile_tidb_cluster create_tidb ◌>>=◌ unwrap send lift pure on_option
  tidb_lem w = with_spec c.spec.tidb_cluster
    where
      with_spec :
          (o : Option TidbClusterSpec)
          → ((on_option o (pure tt) (create_tidb c (own c)) w).0 ≡ done tt)
            × (stored c ns (on_option o (pure tt) (create_tidb c (own c)) w).1.log
                ≡ stored c ns w.log)
      with_spec none = (refl, refl)
      with_spec (some spec) = ground (
        arith,
        full.home,
        owner_lem,
        good.accepts
            (create_tidb_cluster ns
              (tidb_object c ns (own c) spec (record oref { controller = some true })))
            w.state,
      )

-- ===== src/Cluster/Actions.antt =====
-- src/cluster/crd.rs: the steps of a cluster's reconciliation, apart from the root user's.
use sdb_controller.Prelude.{
  Bool, true, false, ◌&&◌, ◌||◌, none, some, get_or, String, ◌<>◌, ◌==◌, List, [], ◌∷◌, ◌++◌, ltb,
  if◌then◌else◌, is_some, any,
}
use sdb_controller.Error.{KubeError, kube_error, has_code}
use sdb_controller.Resources.Core.{
  OwnerReference, Secret, SecretReference, Deployment, string, object, end, field, replace,
}
use sdb_controller.Resources.Tidb.{TidbCluster, TidbClusterSpec, Condition}
use sdb_controller.Resources.Cluster.{Cluster, Phase}
use sdb_controller.Password.{generate_secure_password}
use sdb_controller.Cluster.Objects.{owner_ref, build_surreal_service, build_surreal_deployment}
use sdb_controller.Api.{
  patch_cluster, patch_cluster_status, create_secret, create_tidb_cluster, apply_deployment,
  apply_service, get_deployment, ApplyParams, Try, ok, err, Kube, M, pure, unwrap, lift, on_option,
  send, ◌>>=◌, ◌>>◌,
}

-- `Ok` as it is, and a conflict (409) as success.
abbrev pub created : {A : Type 0} → Try KubeError A → Try KubeError (Unit {0})
created (ok a) = ok tt
created (err e) = if has_code 409 e then ok tt else err e

abbrev pub apply_params : ApplyParams
apply_params = record { field_manager = "sdb-controller"; force = true }

-- `dp.status.as_ref().and_then(|s| s.available_replicas).unwrap_or(0) > 0`
abbrev pub available : Deployment → Bool
available dp = ltb 0 (get_or (get_or dp.status none) 0)

module _ ⦃K : Kube⦄ where
  unfoldable pub persist_root_secret_ref : Cluster → String → M (Unit {0})
  persist_root_secret_ref c secret_name = if is_some c.spec.root_secret then pure tt else do
    let name = K.name_any c.metadata
    ns ← unwrap c.metadata.namespace
    r ← send (
        patch_cluster ns name (
          replace "/spec/rootSecret"
            (object (field "name" (string secret_name) (field "namespace" (string ns) end)))
          ∷ []))
    lift kube_error r

  unfoldable pub root_secret : String → String → OwnerReference → String → Secret
  root_secret ns name oref password = record {
    metadata = record {
      name = some name;
      namespace = some ns;
      uid = none;
      finalizers = none;
      deletion_timestamp = none;
      labels = none;
      owner_references = some (oref ∷ []);
    };
    type_ = some "Opaque";
    bytes = none;
    string_data = some (("user", "root") ∷ ("password", password) ∷ []);
  }

  create_root_secret : Cluster → M SecretReference
  unfolding root_secret
  create_root_secret c = do
    ns ← unwrap c.metadata.namespace
    let name = K.name_any c.metadata <> "-surrealdb-root"
    oref ← unwrap (owner_ref c)
    password ← generate_secure_password 32
    r ← send (create_secret ns (root_secret ns name oref password))
    lift kube_error (created r)
    persist_root_secret_ref c name
    pure (record { name = some name; namespace = some ns })

  unfoldable pub ensure_root_secret : Cluster → M SecretReference
  unfolding create_root_secret
  ensure_root_secret c = on_option c.spec.root_secret (create_root_secret c) pure

  unfoldable pub reconcile_surrealdb_with_mode : Cluster → String → Bool → M (Unit {0})
  reconcile_surrealdb_with_mode c name creation_mode = do
    ns ← unwrap c.metadata.namespace
    dp ← unwrap (build_surreal_deployment c name creation_mode)
    svc ← unwrap (build_surreal_service c name)
    dp_name ← unwrap dp.metadata.name
    r ← send (apply_deployment ns dp_name apply_params dp)
    lift kube_error r
    svc_name ← unwrap svc.metadata.name
    r' ← send (apply_service ns svc_name apply_params svc)
    lift kube_error r'

  unfoldable pub set_phase : Cluster → Phase → M (Unit {0})
  set_phase c phase = do
    ns ← unwrap c.metadata.namespace
    r ← send (patch_cluster_status ns (K.name_any c.metadata) phase)
    lift kube_error r

  unfoldable pub check_ready : Cluster → String → M Bool
  check_ready c name = do
    ns ← unwrap c.metadata.namespace
    r ← send (get_deployment ns (name <> "-surrealdb"))
    dp ← lift kube_error r
    pure (available dp)

  unfoldable pub tikv_backend_configured : Cluster → Try String (Unit {0})
  tikv_backend_configured c =
      if is_some c.spec.tidb_cluster || is_some c.spec.tikv_secret_ref
      then ok tt
      else err "No TiKV backend configured: set .spec.tidbCluster or .spec.tikvSecret"

  is_own_uid : Cluster → OwnerReference → Bool
  is_own_uid c o = elim c.metadata.uid [ some uid ↦ uid == o.uid | none ↦ false ]

  -- `TidbCluster::new(name, spec)` with the namespace and the owner.
  unfoldable pub tidb_object :
      Cluster → String → String → TidbClusterSpec → OwnerReference → TidbCluster
  unfolding is_own_uid
  tidb_object c ns name spec oref =
      let owners : List OwnerReference = get_or none [] in
      record {
        metadata = record {
          name = some name;
          namespace = some ns;
          uid = none;
          finalizers = none;
          deletion_timestamp = none;
          labels = none;
          owner_references = some (
              if any (λ (o : OwnerReference). is_own_uid c o && o.name == K.name_any c.metadata)
                owners
              then owners
              else owners ++ oref ∷ []);
        };
        spec = spec;
        status = none;
      }

  unfoldable pub create_tidb : Cluster → String → TidbClusterSpec → M (Unit {0})
  unfolding tidb_object
  create_tidb c name spec = do
    ns ← unwrap c.metadata.namespace
    oref ← unwrap (owner_ref c)
    r ← send (create_tidb_cluster ns (tidb_object c ns name spec oref))
    lift kube_error (created r)

  unfoldable pub reconcile_tidb_cluster : Cluster → String → M (Unit {0})
  unfolding create_tidb
  reconcile_tidb_cluster c name = on_option c.spec.tidb_cluster (pure tt) (create_tidb c name)

  unfoldable pub is_true : String → Bool
  is_true s = s == "True" || s == "true" || s == "TRUE"

  -- The condition-based readiness of `Phase::Preparing`.
  unfoldable pub tidb_ready : TidbCluster → Bool
  unfolding is_true
  tidb_ready tc = elim tc.status [
    | none ↦ false
    | some st ↦ elim st.conditions [
      | none ↦ false
      | some conds ↦
          any
            (λ (c : Condition). (c.type_ == "Ready" || c.type_ == "Available") && is_true c.status)
            conds
    ]
  ]

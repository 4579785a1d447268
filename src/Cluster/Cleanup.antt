-- ===== src/Cluster/Cleanup.antt =====
-- src/cluster/crd.rs: `delete_if_exists` and `Cluster::cleanup`.
use sdb_controller.Prelude.{
  Bool, false, ◌&&◌, ◌||◌, Option, none, some, get_or, String, ◌<>◌, ◌==◌, if◌then◌else◌, any,
}
use sdb_controller.Error.{kube_error, has_code, KubeError}
use sdb_controller.Resources.Core.{
  OwnerReference, ObjectMeta, PropagationPolicy, background, orphan,
}
use sdb_controller.Resources.Cluster.{Cluster, cluster_kind, api_version}
use sdb_controller.Cluster.Reconcile.{Action, await_change}
use sdb_controller.Api.{
  Kind, deployment, service, secret, tidb_cluster, get_meta, delete, publish, Try, ok, err, Kube, M,
  pure, raise, unwrap, lift, on_try, send, ◌>>=◌, ◌>>◌,
}

-- `Ok` as it is, and a missing object (404) as success.
abbrev pub deleted : {A : Type 0} → Try KubeError A → Try KubeError (Unit {0})
deleted (ok a) = ok tt
deleted (err e) = if has_code 404 e then ok tt else err e

module _ ⦃K : Kube⦄ where
  abbrev uid_match : OwnerReference → Option String → Bool
  uid_match o (some uid) = o.uid == uid
  uid_match o none = false

  unfoldable pub owns : Cluster → OwnerReference → Bool
  owns c o =
      uid_match o c.metadata.uid
      || (o.kind == cluster_kind && o.name == K.name_any c.metadata && o.api_version == api_version)

  unfoldable pub is_owned : Cluster → ObjectMeta → Bool
  unfolding owns
  is_owned c meta = elim meta.owner_references [ none ↦ false | some owners ↦ any (owns c) owners ]

  delete_owned : Kind → String → String → Option PropagationPolicy → M (Unit {0})
  delete_owned kind ns name policy = do
    r ← send (delete kind ns name (get_or policy background))
    lift kube_error (deleted r)

  unfoldable pub delete_if_exists :
      Cluster → Kind → String → Option PropagationPolicy → M (Unit {0})
  unfolding is_owned delete_owned
  delete_if_exists c kind name policy = do
    ns ← unwrap c.metadata.namespace
    r ← send (get_meta kind ns name)
    on_try r (λ e. if has_code 404 e then pure tt else raise (kube_error e))
        (λ meta. if is_owned c meta then delete_owned kind ns name policy else pure tt)

  unfoldable pub cleanup : Cluster → M Action
  cleanup c = do
    let name = K.name_any c.metadata
    delete_if_exists c deployment (name <> "-surrealdb") none
    delete_if_exists c service (name <> "-surrealdb") none
    delete_if_exists c secret (name <> "-surrealdb-root") none
    delete_if_exists c tidb_cluster name (some orphan)
    r ← send (
        publish
          (record {
            reason = "DeleteRequested";
            note = some ("Delete `" <> name <> "`");
            action = "Deleting";
          })
          c.metadata)
    lift kube_error r
    pure await_change

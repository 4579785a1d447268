-- ===== src/Fixtures/Cluster/Deletion.antt =====
-- src/cluster/fixtures.rs: the cleanup and the finalizer under the handlers made for them.
use text.Mathlib.TextLemmas.{append_assoc}
use sdb_controller.Prelude.{
  ◌≡◌, refl, sym, ◌∙◌, ap, arith, true, Option, none, some, get_or, String, ◌<>◌, List, ◌∷◌,
  eq_refl,
}
use sdb_controller.Error.{kube_error}
use sdb_controller.Resources.Core.{PropagationPolicy, background, orphan}
use sdb_controller.Resources.Cluster.{Cluster}
use sdb_controller.Cluster.Cleanup.{is_owned, owns, delete_if_exists, cleanup}
use sdb_controller.Cluster.Reconcile.{await_change}
use sdb_controller.Api.{
  Kind, deployment, service, secret, tidb_cluster, get_meta, delete, publish, Event, Kube, ok, done,
  on_try,
}
use sdb_controller.Fixtures.Wire.{Wire, IsKubernetes, path_of, collection, core, apps, pingcap}
use sdb_controller.Fixtures.Asked.{marked, unmarked, asks_lem, asks_exactly_lem}
use sdb_controller.Fixtures.Server.{
  ApiServerVerifier, Handler, IsMocked, Meets, Meets-found, Meets-asked, Meets-replied,
  Meets-lift-ok, Meets-pure, Meets-bind,
}
use sdb_controller.Fixtures.Cluster.Handlers.{
  handle_get_owned, handle_delete_owned, handle_event_create, owned_meta,
  handle_get_owned_deployment, handle_delete_owned_deployment, handle_get_owned_service,
  handle_delete_owned_service, handle_get_owned_secret, handle_delete_owned_secret,
  handle_get_owned_tidbcluster, handle_delete_owned_tidbcluster,
}

module _ ⦃K : Kube⦄ (c : Cluster) where
  owned_meta-owned : (name : String) → is_owned c (owned_meta c name) ≡ true
  unfolding is_owned owns
  owned_meta-owned name = ground (arith, eq_refl (K.name_any c.metadata))

module _ ⦃K : Kube⦄ (verifier : K.State → ApiServerVerifier) (mocked : IsMocked verifier)
    (wire : Wire) (k : IsKubernetes wire) (c : Cluster)
    (home : c.metadata.namespace ≡ some "default") where
  abbrev own : String
  own = K.name_any c.metadata

  get_owned-Accepted :
      (kind : Kind) (name path suffix : String)
      → path_of (get_meta kind "default" name) <> "" ≡ path <> own <> suffix
      → handle_get_owned wire path suffix c (get_meta kind "default" name)
        ≡ some (ok (owned_meta c (own <> suffix)))
  get_owned-Accepted kind name path suffix e =
      rw (asks_lem wire k (get_meta kind "default" name) "GET" _ refl e) refl

  delete_owned-Accepted :
      (kind : Kind) (name path suffix : String) (policy : PropagationPolicy)
      → path_of (delete kind "default" name policy) <> "?" ≡ path <> own <> suffix
      → handle_delete_owned wire path suffix c (delete kind "default" name policy) ≡ some (ok tt)
  delete_owned-Accepted kind name path suffix policy e =
      rw (asks_lem wire k (delete kind "default" name policy) "DELETE" _ refl e) refl

  delete_if_exists-Meets :
      {rest : List Handler} (kind : Kind) (name path suffix suffix' : String)
      (policy : Option PropagationPolicy)
      → path_of (get_meta kind "default" name) <> "" ≡ path <> own <> suffix
      → path_of (get_meta kind "default" name) <> "?" ≡ path <> own <> suffix'
      → Meets verifier mocked
          (handle_get_owned wire path suffix c ∷ handle_delete_owned wire path suffix' c ∷ rest)
          (delete_if_exists c kind name policy)
          (done tt)
          rest
  unfolding delete_if_exists on_try
  delete_if_exists-Meets kind name path suffix suffix' policy e e' =
      Meets-found verifier mocked _ "default" _ home (
        Meets-asked verifier mocked (get_meta kind "default" name) _ (ok _) _
          (get_owned-Accepted kind name path suffix e)
          (rw (owned_meta-owned c (own <> suffix)) (
            Meets-asked verifier mocked (delete kind "default" name (get_or policy background)) _
              (ok tt) _ (delete_owned-Accepted kind name path suffix' (get_or policy background) e')
              (Meets-lift-ok verifier mocked kube_error tt))))

  abbrev requested : Event
  requested = record {
    reason = "DeleteRequested";
    note = some ("Delete `" <> own <> "`");
    action = "Deleting";
  }

  event-Accepted :
      handle_event_create wire "DeleteRequested" (publish requested c.metadata) ≡ some (ok tt)
  unfolding handle_event_create
  event-Accepted =
      rw
        (asks_exactly_lem wire k (publish requested c.metadata) "POST" _ refl
          (k.no_event_query requested c.metadata)
          (ap (λ o. collection "/apis/events.k8s.io/v1" (get_or o "default") "events" <> "?") home))
        refl

  pub cleanup-Meets :
      {rest : List Handler}
      → Meets verifier mocked
          (handle_get_owned_deployment wire c
            ∷ handle_delete_owned_deployment wire c
            ∷ handle_get_owned_service wire c
            ∷ handle_delete_owned_service wire c
            ∷ handle_get_owned_secret wire c
            ∷ handle_delete_owned_secret wire c
            ∷ handle_get_owned_tidbcluster wire c
            ∷ handle_delete_owned_tidbcluster wire c
            ∷ handle_event_create wire "DeleteRequested"
            ∷ rest)
          (cleanup c)
          (done await_change)
          rest
  unfolding cleanup
  cleanup-Meets =
      let deployments = collection apps "default" "deployments/" in
      let services = collection core "default" "services/" in
      let secrets = collection core "default" "secrets/" in
      let clusters = collection pingcap "default" "tidbclusters/" in
      Meets-bind verifier mocked _ _ tt _
        (delete_if_exists-Meets deployment (own <> "-surrealdb") deployments "-surrealdb"
          "-surrealdb?" none (unmarked _) (marked deployments own "-surrealdb"))
        (Meets-bind verifier mocked _ _ tt _
          (delete_if_exists-Meets service (own <> "-surrealdb") services "-surrealdb" "-surrealdb?"
            none (unmarked _) (marked services own "-surrealdb"))
          (Meets-bind verifier mocked _ _ tt _
            (delete_if_exists-Meets secret (own <> "-surrealdb-root") secrets "-surrealdb-root"
              "-surrealdb-root?" none (unmarked _) (marked secrets own "-surrealdb-root"))
            (Meets-bind verifier mocked _ _ tt _
              (delete_if_exists-Meets tidb_cluster own clusters "" "?" (some orphan)
                (unmarked (clusters <> own) ∙ ap (λ t. clusters <> t) (sym (unmarked own)))
                (append_assoc clusters own "?"))
              (Meets-asked verifier mocked (publish requested c.metadata) _ (ok tt) _ event-Accepted
                (Meets-replied verifier mocked kube_error tt _
                  (Meets-pure verifier mocked await_change))))))

-- ===== src/Fixtures/Database/Passes.antt =====
-- src/database/crd.rs: the tests of the function `reconcile` that the runtime calls.
use mathlib.Core.Path.{subst}
use text.Mathlib.TextLemmas.{append_assoc}
use sdb_controller.Prelude.{
  ◌≡◌, refl, sym, ◌∙◌, ap, true, none, some, get_or, String, ◌<>◌, ◌==◌, List, [], ◌∷◌, any,
}
use sdb_controller.Error.{kube_error}
use sdb_controller.Resources.Core.{PatchOperation}
use sdb_controller.Resources.Database.{Database, new}
use sdb_controller.Service.{Client}
use sdb_controller.Cluster.Reconcile.{Action, requeue, await_change}
use sdb_controller.Database as Handlers
use sdb_controller.Database.{current, reconcile_new, handle}
use sdb_controller.Database.Control.{reconcile}
use sdb_controller.Api.{
  patch_database, Kube, M, Try, ok, done, unwrap, send, lift, Finalizer, IsFinalizer, adding, ◌>>=◌,
}
use sdb_controller.Fixtures.Wire.{Wire, IsKubernetes, collection, own_group}
use sdb_controller.Fixtures.Finalized.{finalized-Meets, reported-Meets}
use sdb_controller.Fixtures.Asked.{asks_exactly_lem}
use sdb_controller.Fixtures.Server.{
  ApiServerVerifier, Handler, IsMocked, Meets, Meets-found, Meets-asked, Meets-lift-ok, Meets-pure,
  Meets-bind,
}
use sdb_controller.Fixtures.Credentials.{IsReachable, answer_cluster, handle_get_secret_root}
use sdb_controller.Fixtures.Database.{
  Scenario, new_ensures_namespace_and_database, new_cross_ns_ensures, namespace_define_error,
  database_define_error, finalizer_creation, database_finalizer, run, cluster_ns_of,
  handle_finalizer_creation, define_namespace_ok, define_database_ok, define_error,
  handle_status_patch_phase,
}
use sdb_controller.Fixtures.Database.Steps.{
  reconcile_new-Meets, reconcile_new-Unnamed, reconcile_new-Refused,
}

module _ ⦃K : Kube⦄ where
  -- The JSON patch of the finalizer helper, under the name in the metadata.
  abbrev pub patch_own : Database → List PatchOperation → M (Unit {0})
  patch_own db ops = do
    ns ← unwrap db.metadata.namespace
    name ← unwrap db.metadata.name
    r ← send (patch_database ns name ops)
    lift kube_error r

  -- A database with the finalizer that is not deleted, in the phase New.
  pub record IsNew (db : Database) : Type 0 where
    pub marked : any (λ n. n == database_finalizer) (get_or db.metadata.finalizers []) ≡ true
    pub kept : db.metadata.deletion_timestamp ≡ none
    pub begun : current db.status ≡ new

  -- The tests: the database, the scenario of the API server, and the result of `reconcile`.
  pub data Expects (db : Database) : Scenario → Action → Type 0 where
    new_creates_ns_and_db :
        IsNew db
        → cluster_ns_of db none ≡ "default"
        → Expects db (new_ensures_namespace_and_database db) (requeue 60)
    cross_namespace :
        (cluster_ns : String)
        → IsNew db
        → db.spec.cluster_ref.namespace ≡ some cluster_ns
        → Expects db (new_cross_ns_ensures db) (requeue 60)
    namespace_error :
        IsNew db
        → cluster_ns_of db none ≡ "default"
        → Expects db (namespace_define_error db) (requeue 20)
    database_error :
        IsNew db
        → cluster_ns_of db none ≡ "default"
        → Expects db (database_define_error db) (requeue 20)
    finalizer_is_added :
        db.metadata.finalizers ≡ none
        → db.metadata.deletion_timestamp ≡ none
        → Expects db (finalizer_creation db) await_change

module _ ⦃K : Kube⦄ (verifier : K.State → ApiServerVerifier) (mocked : IsMocked verifier)
    (wire : Wire) (k : IsKubernetes wire) (finalizer : Finalizer Database Action)
    (fin : IsFinalizer (λ (db : Database). db.metadata) patch_own await_change finalizer)
    (db : Database) (ns : String) (home : db.metadata.namespace ≡ some ns)
    (named : db.metadata.name ≡ some (K.name_any db.metadata)) where
  abbrev own : String
  own = K.name_any db.metadata

  through :
      {before after : List Handler} (m : M (Try String Action)) (a : Action)
      → finalizer database_finalizer db (Handlers.reconcile Client.kube db) (Handlers.cleanup db)
        ≡ m
      → Meets verifier mocked before m (done (ok a)) after
      → Meets verifier mocked before (reconcile Client.kube finalizer db) (done a) after
  unfolding reconcile
  through m a e h =
      Meets-found verifier mocked _ ns _ home
        (finalized-Meets verifier mocked finalizer database_finalizer db _ _ m a e h)

  patch_own-Meets :
      {rest : List Handler} (ops : List PatchOperation) (h : Handler)
      → h (patch_database ns own ops) ≡ some (ok tt)
      → Meets verifier mocked (h ∷ rest) (patch_own db ops) (done tt) rest
  patch_own-Meets ops h e = Meets-found verifier mocked _ ns _ home (
      Meets-found verifier mocked _ own _ named (
        Meets-asked verifier mocked (patch_database ns own ops) h (ok tt) _ e
          (Meets-lift-ok verifier mocked kube_error tt)))

  creation-Accepted :
      handle_finalizer_creation wire db (patch_database ns own (adding database_finalizer))
      ≡ some (ok tt)
  unfolding handle_finalizer_creation
  creation-Accepted =
      rw
        (asks_exactly_lem wire k (patch_database ns own (adding database_finalizer)) "PATCH" _ refl
          (k.no_database_query ns own (adding database_finalizer))
          (append_assoc (collection own_group ns "databases/") own "?"
            ∙ ap (λ o. collection own_group (get_or o "") "databases/" <> own <> "?") (sym home)))
        refl

  live :
      {before after : List Handler} (a : Action)
      → IsNew db
      → Meets verifier mocked before (reconcile_new Client.kube db) (done a) after
      → Meets verifier mocked before (reconcile Client.kube finalizer db) (done a) after
  unfolding Handlers.reconcile handle
  live a l h =
      through _ a (fin.applied database_finalizer db _ _ l.marked l.kept)
        (reported-Meets verifier mocked _ (Handlers.reconcile Client.kube db) a (rw l.begun h))

  -- The namespace of the cluster is the same for the fixtures and for the controller.
  abbrev cns : String
  cns = get_or db.spec.cluster_ref.namespace ns

  own-cluster_ns : cns ≡ cluster_ns_of db none
  own-cluster_ns = ap (λ o. get_or db.spec.cluster_ref.namespace (get_or o "")) (sym home)

  module _ (far : IsReachable cns db.spec.cluster_ref.name) where
    -- A chain by the namespaces that its handlers expect.
    renamed :
        (chain : (y z : String) → List Handler) {y z : String} (m : M Action) (a : Action)
        → cns ≡ y
        → cns ≡ z
        → Meets verifier mocked (chain cns cns) m (done a) []
        → Meets verifier mocked (chain y z) m (done a) []
    renamed chain {y} m a p q h =
        subst (λ l. Meets verifier mocked l m (done a) [])
          (ap (λ y. chain y cns) p ∙ ap (λ z. chain y z) q) h

    -- The tests of the database controller pass for every database of their kind. The API server of
    -- the fixture gets all requests of the scenario in their order, and `reconcile` returns the
    -- action: the patch that adds the finalizer; or the cluster and its root secret are read, also
    -- from another namespace that the database refers to, the namespace and then the database are
    -- defined, and the phase is Ready. When the server refuses one of the definitions, `reconcile`
    -- returns after this one with a requeue in 20 seconds, although the status patch finds the
    -- server closed.
    pub reconcile_database-Passes :
        (scenario : Scenario) (action : Action)
        → Expects db scenario action
        → Meets verifier mocked
            (run wire scenario)
            (reconcile Client.kube finalizer db)
            (done action)
            []
    unfolding run
    reconcile_database-Passes sc a (new_creates_ns_and_db l d) = live a l (
        renamed
          (λ y z.
            answer_cluster wire y db.spec.cluster_ref.name
            ∷ handle_get_secret_root wire z
            ∷ define_namespace_ok wire y db.spec.cluster_ref.name
            ∷ define_database_ok wire y db.spec.cluster_ref.name
            ∷ handle_status_patch_phase wire db "Ready"
            ∷ [])
          _ a own-cluster_ns (own-cluster_ns ∙ d)
          (reconcile_new-Meets verifier mocked wire k db ns home far own named))
    reconcile_database-Passes sc a (cross_namespace cluster_ns l d) = live a l (
        renamed
          (λ y z.
            answer_cluster wire y db.spec.cluster_ref.name
            ∷ handle_get_secret_root wire z
            ∷ define_namespace_ok wire z db.spec.cluster_ref.name
            ∷ define_database_ok wire z db.spec.cluster_ref.name
            ∷ handle_status_patch_phase wire db "Ready"
            ∷ [])
          _ a own-cluster_ns (ap (λ o. get_or o ns) d ∙ sym (ap (λ o. get_or o "default") d))
          (reconcile_new-Meets verifier mocked wire k db ns home far own named))
    reconcile_database-Passes sc a (namespace_error l d) = live a l (
        renamed
          (λ y z.
            answer_cluster wire y db.spec.cluster_ref.name
            ∷ handle_get_secret_root wire z
            ∷ define_error wire "{\"err\":\"bad ns\"}" y db.spec.cluster_ref.name
            ∷ [])
          _ a own-cluster_ns (own-cluster_ns ∙ d)
          (reconcile_new-Unnamed verifier mocked wire k db ns home far "{\"err\":\"bad ns\"}"))
    reconcile_database-Passes sc a (database_error l d) = live a l (
        renamed
          (λ y z.
            answer_cluster wire y db.spec.cluster_ref.name
            ∷ handle_get_secret_root wire z
            ∷ define_namespace_ok wire y db.spec.cluster_ref.name
            ∷ define_error wire "{\"err\":\"bad db\"}" y db.spec.cluster_ref.name
            ∷ [])
          _ a own-cluster_ns (own-cluster_ns ∙ d)
          (reconcile_new-Refused verifier mocked wire k db ns home far "{\"err\":\"bad db\"}" own
            named))
    reconcile_database-Passes sc a (finalizer_is_added unmarked kept) =
        through _ await_change (fin.added database_finalizer db _ _ unmarked kept) (
          reported-Meets verifier mocked _ _ await_change (
            Meets-bind verifier mocked _ _ tt _ (patch_own-Meets _ _ creation-Accepted)
              (Meets-pure verifier mocked await_change)))

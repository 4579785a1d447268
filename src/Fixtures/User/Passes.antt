-- ===== src/Fixtures/User/Passes.antt =====
-- src/user/crd.rs: the tests of the function `reconcile` that the runtime calls.
use mathlib.Core.Path.{subst}
use text.Mathlib.TextLemmas.{append_assoc}
use sdb_controller.Prelude.{
  ◌≡◌, refl, sym, ◌∙◌, ap, true, none, some, get_or, String, ◌<>◌, ◌==◌, List, [], ◌∷◌, any,
}
use sdb_controller.Error.{kube_error}
use sdb_controller.Resources.Core.{PatchOperation}
use sdb_controller.Resources.User.{User, new, user_finalizer}
use sdb_controller.Password.Shape.{IsFair}
use sdb_controller.Service.{Client}
use sdb_controller.Cluster.Reconcile.{Action, requeue, await_change}
use sdb_controller.User as Handlers
use sdb_controller.User.{current, reconcile_new, handle}
use sdb_controller.User.Control.{reconcile}
use sdb_controller.Api.{
  patch_user, Kube, M, Try, ok, done, unwrap, send, lift, Finalizer, IsFinalizer, adding, ◌>>=◌,
}
use sdb_controller.Fixtures.Wire.{Wire, IsKubernetes, collection, own_group}
use sdb_controller.Fixtures.Finalized.{finalized-Meets, reported-Meets}
use sdb_controller.Fixtures.Asked.{asks_lem}
use sdb_controller.Fixtures.Server.{
  ApiServerVerifier, Handler, IsMocked, Meets, Meets-found, Meets-asked, Meets-lift-ok, Meets-pure,
  Meets-bind,
}
use sdb_controller.Fixtures.Credentials.{IsReachable, answer_cluster, handle_get_secret_root}
use sdb_controller.Fixtures.User.{
  Scenario, finalizer_creation, new_creates_user_and_secret_and_configmap_default_names, run,
  cluster_ns_of, handle_finalizer_creation, handle_get_database, define_user_ok,
  handle_create_secret, handle_create_configmap,
}
use sdb_controller.Fixtures.User.Steps.{IsUngranted, reconcile_new-Meets}

module _ ⦃K : Kube⦄ where
  -- The JSON patch of the finalizer helper, under the name in the metadata.
  abbrev pub patch_own : User → List PatchOperation → M (Unit {0})
  patch_own u ops = do
    ns ← unwrap u.metadata.namespace
    name ← unwrap u.metadata.name
    r ← send (patch_user ns name ops)
    lift kube_error r

  -- A user with the finalizer that is not deleted, in the phase New, with the default names.
  pub record IsNew (u : User) : Type 0 where
    pub marked : any (λ n. n == user_finalizer) (get_or u.metadata.finalizers []) ≡ true
    pub kept : u.metadata.deletion_timestamp ≡ none
    pub begun : current u.status ≡ new
    pub default : u.spec.secret_name ≡ none
    pub near : u.spec.database_ref.namespace ≡ none

  -- The tests: the user, the scenario of the API server, and the result of `reconcile`.
  pub data Expects (u : User) : Scenario → Action → Type 0 where
    finalizer_is_added :
        u.metadata.finalizers ≡ none
        → u.metadata.deletion_timestamp ≡ none
        → Expects u (finalizer_creation u) await_change
    new_creates_db_user_and_secret :
        IsNew u
        → cluster_ns_of u none ≡ "default"
        → Expects u (new_creates_user_and_secret_and_configmap_default_names u) (requeue 120)

module _ ⦃K : Kube⦄ (verifier : K.State → ApiServerVerifier) (mocked : IsMocked verifier)
    (wire : Wire) (k : IsKubernetes wire) (finalizer : Finalizer User Action)
    (fin : IsFinalizer (λ (u : User). u.metadata) patch_own await_change finalizer) (u : User)
    (ns : String) (home : u.metadata.namespace ≡ some ns)
    (named : u.metadata.name ≡ some (K.name_any u.metadata)) where
  abbrev own : String
  own = K.name_any u.metadata

  through :
      {before after : List Handler} (m : M (Try String Action)) (a : Action)
      → finalizer user_finalizer u (Handlers.reconcile Client.kube u) (Handlers.cleanup u) ≡ m
      → Meets verifier mocked before m (done (ok a)) after
      → Meets verifier mocked before (reconcile Client.kube finalizer u) (done a) after
  unfolding reconcile
  through m a e h =
      Meets-found verifier mocked _ ns _ home
        (finalized-Meets verifier mocked finalizer user_finalizer u _ _ m a e h)

  patch_own-Meets :
      {rest : List Handler} (ops : List PatchOperation) (h : Handler)
      → h (patch_user ns own ops) ≡ some (ok tt)
      → Meets verifier mocked (h ∷ rest) (patch_own u ops) (done tt) rest
  patch_own-Meets ops h e = Meets-found verifier mocked _ ns _ home (
      Meets-found verifier mocked _ own _ named (
        Meets-asked verifier mocked (patch_user ns own ops) h (ok tt) _ e
          (Meets-lift-ok verifier mocked kube_error tt)))

  creation-Accepted :
      handle_finalizer_creation wire u (patch_user ns own (adding user_finalizer)) ≡ some (ok tt)
  unfolding handle_finalizer_creation
  creation-Accepted =
      rw
        (asks_lem wire k (patch_user ns own (adding user_finalizer)) "PATCH" _ refl (
          append_assoc (collection own_group ns "users/") own "?"
          ∙ ap (λ o. collection own_group (get_or o "") "users/" <> own <> "?") (sym home)))
        refl

  -- The namespace of the cluster is the same for the fixtures and for the controller.
  abbrev cns : String
  cns = get_or u.spec.cluster_ref.namespace ns

  own-cluster_ns : cns ≡ cluster_ns_of u none
  own-cluster_ns = ap (λ o. get_or u.spec.cluster_ref.namespace (get_or o "")) (sym home)

  -- The chain by the namespaces that its handlers expect.
  abbrev chain : (y z : String) → List Handler
  chain y z =
      handle_get_database wire u
      ∷ answer_cluster wire y u.spec.cluster_ref.name
      ∷ handle_get_secret_root wire z
      ∷ define_user_ok wire y u.spec.cluster_ref.name
      ∷ handle_create_secret wire u
      ∷ handle_create_configmap wire u
      ∷ []

  -- The tests of the user controller pass for every user of their kind, in a namespace and with a name and
  -- a password that do not contain the forbidden GRANT clause, where random numbers lie in their
  -- ranges. The API server of the fixture gets all requests of the scenario in their order, and
  -- `reconcile` returns the action: the patch that adds the finalizer; or the database, the
  -- cluster and its root secret are read, the user is defined, and the secret with its password
  -- and the connection's configuration are created under their default names. The status patch
  -- after this finds the server closed and does not fail the reconciliation.
  pub reconcile_user-Passes :
      IsReachable cns u.spec.cluster_ref.name
      → IsFair
      → IsUngranted u ns
      → (scenario : Scenario) (action : Action) → Expects u scenario action
      → Meets verifier mocked
          (run wire scenario)
          (reconcile Client.kube finalizer u)
          (done action)
          []
  unfolding Handlers.reconcile handle run
  reconcile_user-Passes far fair quiet sc a (finalizer_is_added unmarked kept) =
      through _ await_change (fin.added user_finalizer u _ _ unmarked kept) (
        reported-Meets verifier mocked _ _ await_change (
          Meets-bind verifier mocked _ _ tt _ (patch_own-Meets _ _ creation-Accepted)
            (Meets-pure verifier mocked await_change)))
  reconcile_user-Passes far fair quiet sc a (new_creates_db_user_and_secret l d) =
      let same : chain cns cns ≡ chain (cluster_ns_of u none) "default" =
        ap (λ y. chain y cns) own-cluster_ns
        ∙ ap (λ z. chain (cluster_ns_of u none) z) (own-cluster_ns ∙ d) in
      let run : Meets verifier mocked (chain cns cns) (reconcile_new Client.kube u) (done a) [] =
        reconcile_new-Meets verifier mocked wire k u ns home far fair quiet named l.default
          l.near in
      through _ a (fin.applied user_finalizer u _ _ l.marked l.kept) (
        reported-Meets verifier mocked _ (Handlers.reconcile Client.kube u) a (
          rw l.begun (
            subst (λ c. Meets verifier mocked c (reconcile_new Client.kube u) (done a) []) same
              run)))

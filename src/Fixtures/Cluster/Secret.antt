-- ===== src/Fixtures/Cluster/Secret.antt =====
-- src/cluster/fixtures.rs: the creation of the root secret under the handlers made for it.
use text.Mathlib.TextLemmas.{append_assoc}
use sdb_controller.Prelude.{
  ◌≡◌, refl, ap, true, none, some, String, ◌<>◌, ◌==◌, List, [], ◌∷◌, is_some,
}
use sdb_controller.Error.{kube_error}
use sdb_controller.Resources.Core.{
  OwnerReference, PatchOperation, replace, object, field, string, end,
}
use sdb_controller.Resources.Cluster.{Cluster}
use sdb_controller.Password.Shape.{IsFair, generate_secure_password-Shape}
use sdb_controller.Cluster.Objects.{owner_ref}
use sdb_controller.Cluster.Actions.{root_secret, ensure_root_secret, persist_root_secret_ref}
use sdb_controller.Api.{create_secret, patch_cluster, Kube, ok, done}
use sdb_controller.Fixtures.Wire.{Wire, IsKubernetes, collection, own_group}
use sdb_controller.Fixtures.Asked.{asks_lem}
use sdb_controller.Fixtures.Server.{
  ApiServerVerifier, Handler, IsMocked, Meets, Meets-found, Meets-asked, Meets-replied,
  Meets-lift-ok, Meets-pure, Meets-bind, Meets-else, Meets-none,
}
use sdb_controller.Fixtures.Cluster.Handlers.{
  handle_secret_create_auto, handle_root_secret_spec_patch,
}
use sdb_controller.Fixtures.Drawn.{Meets-drawn, secure-IsUnseen}

module _ ⦃K : Kube⦄ (verifier : K.State → ApiServerVerifier) (mocked : IsMocked verifier)
    (wire : Wire) (k : IsKubernetes wire) (c : Cluster)
    (home : c.metadata.namespace ≡ some "default") (named : K.name_any c.metadata ≡ "test") where
  abbrev own : String
  own = K.name_any c.metadata

  abbrev secret_own : String
  secret_own = own <> "-surrealdb-root"

  create-Accepted :
      (oref : OwnerReference) (password : String)
      → handle_secret_create_auto wire
          (create_secret "default" (root_secret "default" secret_own oref password))
        ≡ some (ok tt)
  unfolding handle_secret_create_auto root_secret
  create-Accepted oref password =
      let s = root_secret "default" secret_own oref password in
      let same : (secret_own == "test-surrealdb-root") ≡ true =
        ap (λ n. (n <> "-surrealdb-root") == "test-surrealdb-root") named in
      rw (asks_lem wire k (create_secret "default" s) "POST" _ refl refl, same) refl

  abbrev reference_patch : List PatchOperation
  reference_patch =
      replace "/spec/rootSecret"
        (object (field "name" (string secret_own) (field "namespace" (string "default") end)))
      ∷ []

  patch-Accepted :
      handle_root_secret_spec_patch wire c (patch_cluster "default" own reference_patch)
      ≡ some (ok tt)
  unfolding handle_root_secret_spec_patch
  patch-Accepted =
      let same : (secret_own == "test-surrealdb-root") ≡ true =
        ap (λ n. (n <> "-surrealdb-root") == "test-surrealdb-root") named in
      rw
        (
          asks_lem wire k (patch_cluster "default" own reference_patch) "PATCH" _ refl
              (append_assoc (collection own_group "default" "clusters/") own "?"),
          same,
        )
        refl

  pub ensure_root_secret-Meets :
      {rest : List Handler} (oref : OwnerReference)
      → owner_ref c ≡ some oref
      → IsFair
      → c.spec.root_secret ≡ none
      → Meets verifier mocked
          (handle_secret_create_auto wire ∷ handle_root_secret_spec_patch wire c ∷ rest)
          (ensure_root_secret c)
          (done (record { name = some secret_own; namespace = some "default" }))
          rest
  unfolding ensure_root_secret persist_root_secret_ref
  ensure_root_secret-Meets oref owned fair unset = Meets-none verifier mocked _ _ _ unset (
      Meets-found verifier mocked _ "default" _ home (
        Meets-found verifier mocked _ oref _ owned (
          Meets-drawn verifier mocked _ _ _ (secure-IsUnseen verifier mocked 32)
            (generate_secure_password-Shape fair 32)
            λ password shape.
              Meets-asked verifier mocked
                (create_secret "default" (root_secret "default" secret_own oref password)) _ (ok tt)
                _ (create-Accepted oref password)
                (Meets-replied verifier mocked kube_error tt _ (
                  Meets-bind verifier mocked _ _ tt _
                    (Meets-else verifier mocked _ _ _ (ap is_some unset) (
                      Meets-found verifier mocked _ "default" _ home (
                        Meets-asked verifier mocked (patch_cluster "default" own reference_patch) _
                          (ok tt) _ patch-Accepted (Meets-lift-ok verifier mocked kube_error tt))))
                    (Meets-pure verifier mocked _))))))

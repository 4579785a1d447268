-- ===== src/Fixtures/Database/Accepted.antt =====
-- src/database/fixtures.rs: the handlers at the requests that they are made for.
use text.Mathlib.TextLemmas.{append_assoc}
use sdb_controller.Prelude.{
  ◌≡◌, refl, sym, ◌∙◌, ap, true, Option, some, get_or, String, ◌<>◌, eq_refl,
}
use sdb_controller.Resources.Database.{Database, DbPhase}
use sdb_controller.Sql.{define_namespace, define_database, quote_ident, double}
use sdb_controller.Api.{patch_database_status, request_text, Kube, ok, err}
use sdb_controller.Fixtures.Texts.{
  starts_with, starts_with-append, contains, contains-front, contains-append,
}
use sdb_controller.Fixtures.Wire.{Wire, IsKubernetes, collection, own_group}
use sdb_controller.Fixtures.Asked.{marked, asks_lem}
use sdb_controller.Fixtures.Server.{ApiServerVerifier, IsMocked}
use sdb_controller.Fixtures.Credentials.{IsReachable, sql_post, posts-Accepted}
use sdb_controller.Fixtures.Database.{
  phase_text, handle_status_patch_phase, define_namespace_ok, define_database_ok, define_error,
}

-- The words that the fixture looks for.
namespace-words : (ns : String) → starts_with "DEFINE NAMESPACE " (define_namespace ns) ≡ true
unfolding define_namespace
namespace-words ns = starts_with-append "DEFINE NAMESPACE " (quote_ident ns <> ";")

-- A quote that opens a name, joined to the text in front of it.
quote_joined : (a s t : String) → a <> (("`" <> s) <> t) ≡ (a <> "`") <> (s <> t)
quote_joined a s t = ap (λ x. a <> x) (append_assoc "`" s t) ∙ sym (append_assoc a "`" (s <> t))

database-words :
    (ns name : String)
    → (contains "USE NS `" (define_database ns name) ≡ true)
      × (contains "DEFINE DATABASE `" (define_database ns name) ≡ true)
unfolding define_database quote_ident
database-words ns name =
    let s = double "`" ns <> "`" in
    let s' = double "`" name <> "`" in
    let t = "; DEFINE DATABASE " <> (("`" <> s') <> ";") in
    (
      rw (quote_joined "USE NS " s t) (contains-front "USE NS `" (s <> t)),
      contains-append "DEFINE DATABASE `" "USE NS " (("`" <> s) <> t) (
          contains-append "DEFINE DATABASE `" ("`" <> s) t (
            rw
              (
                quote_joined "; DEFINE DATABASE " s' ";",
                append_assoc "; " "DEFINE DATABASE `" (s' <> ";"),
              )
              (contains-append "DEFINE DATABASE `" "; " ("DEFINE DATABASE `" <> (s' <> ";"))
                (contains-front "DEFINE DATABASE `" (s' <> ";"))))),
    )

module _ ⦃K : Kube⦄ (verifier : K.State → ApiServerVerifier) (mocked : IsMocked verifier)
    (wire : Wire) (k : IsKubernetes wire) (db : Database) (ns : String)
    (home : db.metadata.namespace ≡ some ns) where
  abbrev own : String
  own = K.name_any db.metadata

  pub status-Accepted :
      (q : DbPhase) (message : Option String)
      → handle_status_patch_phase wire db (phase_text q) (patch_database_status ns own q message)
        ≡ some (ok tt)
  unfolding handle_status_patch_phase
  status-Accepted q message =
      rw
        (
          asks_lem wire k (patch_database_status ns own q message) "PATCH" _ refl (
              marked (collection own_group ns "databases/") own "/status"
              ∙ ap (λ o. collection own_group (get_or o "") "databases/" <> (own <> "/status?"))
                  (sym home)),
          eq_refl (phase_text q),
        )
        refl

  abbrev cname : String
  cname = db.spec.cluster_ref.name

  module _ (cns : String) (far : IsReachable cns db.spec.cluster_ref.name) where
    pub namespace-Accepted :
        (x : String)
        → define_namespace_ok wire cns cname
            (request_text (sql_post cns cname (define_namespace x)))
          ≡ some (ok tt)
    unfolding define_namespace_ok
    namespace-Accepted x =
        rw
          (
            posts-Accepted verifier mocked wire k cns cname far (define_namespace x),
            namespace-words x,
          )
          refl

    pub database-Accepted :
        (x y : String)
        → define_database_ok wire cns cname
            (request_text (sql_post cns cname (define_database x y)))
          ≡ some (ok tt)
    unfolding define_database_ok
    database-Accepted x y =
        let (u, d) = database-words x y in
        rw (posts-Accepted verifier mocked wire k cns cname far (define_database x y), u, d) refl

    pub error-Accepted :
        (answer sql : String)
        → define_error wire answer cns cname (request_text (sql_post cns cname sql))
          ≡ some (err (wire.refused 400 answer))
    unfolding define_error
    error-Accepted answer sql = rw (posts-Accepted verifier mocked wire k cns cname far sql) refl

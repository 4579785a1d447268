-- ===== src/Fixtures/User/Accepted.antt =====
-- src/user/fixtures.rs: the handlers at the requests that they are made for.
use text.Mathlib.TextLemmas.{append_assoc}
use sdb_controller.Prelude.{◌≡◌, refl, sym, ◌∙◌, ap, false, some, get_or, String, ◌<>◌}
use sdb_controller.Resources.User.{User}
use sdb_controller.Sql.{define_user}
use sdb_controller.User.{credentials_secret, connection_config}
use sdb_controller.Api.{create_secret, create_config_map, get_database, request_text, Kube, ok}
use sdb_controller.Fixtures.Texts.{ends_with-append, contains}
use sdb_controller.Fixtures.Wire.{Wire, IsKubernetes, collection, core, own_group}
use sdb_controller.Fixtures.Asked.{unmarked, asks_lem}
use sdb_controller.Fixtures.Server.{ApiServerVerifier, IsMocked}
use sdb_controller.Fixtures.Credentials.{IsReachable, sql_post, posts-Accepted}
use sdb_controller.Fixtures.User.{
  referred_database, handle_get_database, define_user_ok, handle_create_secret,
  handle_create_configmap,
}
use sdb_controller.Fixtures.User.Words.{
  grant, define_user-Ungranted, define_user-user, define_user-database,
}

collection-append :
    (group ns plural s : String)
    → collection group ns plural <> s ≡ collection group ns (plural <> s)
collection-append group ns plural s =
    rw
      (
        append_assoc group ("/namespaces/" <> (ns <> ("/" <> plural))) s,
        append_assoc "/namespaces/" (ns <> ("/" <> plural)) s,
        append_assoc ns ("/" <> plural) s,
        append_assoc "/" plural s,
      )
      refl

module _ ⦃K : Kube⦄ (verifier : K.State → ApiServerVerifier) (mocked : IsMocked verifier)
    (wire : Wire) (k : IsKubernetes wire) (u : User) (ns : String)
    (home : u.metadata.namespace ≡ some ns) where
  abbrev own : String
  own = K.name_any u.metadata

  pub secret-Accepted :
      (password : String)
      → handle_create_secret wire u
          (create_secret ns (credentials_secret u ns (own <> "-credentials") password))
        ≡ some (ok tt)
  unfolding handle_create_secret credentials_secret
  secret-Accepted password =
      let s = credentials_secret u ns (own <> "-credentials") password in
      rw
        (
          asks_lem wire k (create_secret ns s) "POST" _ refl (
              collection-append core ns "secrets" "?"
              ∙ ap (λ o. collection core (get_or o "") "secrets?") (sym home)),
          ends_with-append "-credentials" own,
        )
        refl

  pub config-Accepted :
      (username cluster_ns cluster_name : String)
      → handle_create_configmap wire u (
          create_config_map ns
            (connection_config u ns (own <> "-config") username cluster_ns cluster_name))
        ≡ some (ok tt)
  unfolding handle_create_configmap connection_config
  config-Accepted username cluster_ns cluster_name =
      let c = connection_config u ns (own <> "-config") username cluster_ns cluster_name in
      rw
        (
          asks_lem wire k (create_config_map ns c) "POST" _ refl (
              collection-append core ns "configmaps" "?"
              ∙ ap (λ o. collection core (get_or o "") "configmaps?") (sym home)),
          ends_with-append "-config" own,
        )
        refl

  pub database-Accepted :
      handle_get_database wire u (get_database ns u.spec.database_ref.name)
      ≡ some (ok (referred_database u))
  unfolding handle_get_database
  database-Accepted =
      rw
        (asks_lem wire k (get_database ns u.spec.database_ref.name) "GET" _ refl (
          unmarked _
          ∙ ap
              (λ o.
                collection own_group (get_or o "default") "databases/" <> u.spec.database_ref.name)
              (sym home)))
        refl

  abbrev cname : String
  cname = u.spec.cluster_ref.name

  -- The username is free of the text that the fixture forbids, and so is the password.
  module _ (cns : String) (far : IsReachable cns cname) (username : String)
      (named : contains grant username ≡ false) (at_home : contains grant ns ≡ false) where
    pub user-Accepted :
        (password : String)
        → contains grant password ≡ false
        → define_user_ok wire cns cname
            (request_text (sql_post cns cname (define_user ns "app" username password)))
          ≡ some (ok tt)
    unfolding define_user_ok
    user-Accepted password h =
        rw
          (
            posts-Accepted verifier mocked wire k cns cname far
                (define_user ns "app" username password),
            define_user-user ns "app" username password,
            define_user-database ns "app" username password,
            define_user-Ungranted ns "app" username password at_home (unfold contains in refl) named
                h,
          )
          refl

-- ===== src/Fixtures/Credentials.antt =====
-- src/database/fixtures.rs and src/user/fixtures.rs: what their servers have in common, the cluster, its
-- root secret and the proxy for SQL.
use sdb_controller.Prelude.{
  ◌≡◌, refl, Bool, true, false, ◌&&◌, none, some, get_or, String, ◌<>◌, ◌==◌, List, [], ◌∷◌, lookup,
  mentions, mentions-append, eq_refl,
}
use sdb_controller.Error.{KubeError, kube_error}
use sdb_controller.Resources.Core.{Secret, utf8}
use sdb_controller.Service.{Client, Builder, Request, header, body, post, send_request}
use sdb_controller.Service.Proxy.{service_url, post-sql_url}
use sdb_controller.Credentials.{decoded, get_root_credentials, basic_auth_header, sql_url, send_sql}
use sdb_controller.Cluster.Bootstrap.{sql_request}
use sdb_controller.Api.{
  get_cluster, get_secret, request_text, HttpRequest, Kube, ok, err, done, failed,
}
use sdb_controller.Fixtures.Wire.{Wire, IsKubernetes, collection, core, own_group}
use sdb_controller.Fixtures.Objects.{meta_in, referring_cluster, sql_path}
use sdb_controller.Fixtures.Asked.{unmarked, asks_lem}
use sdb_controller.Fixtures.Server.{
  ApiServerVerifier, Handler, when, asks, IsMocked, Meets, Meets-pure, Meets-bind, Meets-asked,
  Meets-replied, Meets-some, Meets-settled, Meets-lift-ok, Meets-lift-err,
}

abbrev pub surreal_root : (ns : String) → Secret
surreal_root ns = record {
  metadata = meta_in "surreal-root" ns;
  type_ = none;
  bytes = some (("user", utf8 "root") ∷ ("password", utf8 "root") ∷ []);
  string_data = none;
}

module _ (wire : Wire) where
  unfoldable pub answer_cluster : (cluster_ns name : String) → Handler
  answer_cluster cluster_ns name (get_cluster ns n) =
      when
        (asks wire "GET" (collection own_group cluster_ns "clusters/" <> name) (get_cluster ns n))
        (ok (referring_cluster name cluster_ns))
  answer_cluster cluster_ns name other = none

  unfoldable pub handle_get_secret_root : (cluster_ns : String) → Handler
  handle_get_secret_root cluster_ns (get_secret ns n) =
      when
        (asks wire "GET" (collection core cluster_ns "secrets/" <> "surreal-root")
          (get_secret ns n))
        (ok (surreal_root cluster_ns))
  handle_get_secret_root cluster_ns other = none

  -- `assert_eq!` on the method and the path of the proxy.
  abbrev pub posts_sql : (cluster_ns cluster_name : String) → HttpRequest → Bool
  posts_sql cluster_ns cluster_name req =
      req.method == "POST" && wire.uri_path req.uri == sql_path cluster_ns cluster_name

abbrev pub content_type : HttpRequest → String
content_type req = get_or (lookup "content-type" req.headers) ""

module _ ⦃K : Kube⦄ where
  -- A cluster whose URL the client reads as it is meant, and the checks of the HTTP builders.
  pub record IsReachable (cluster_ns cluster_name : String) : Type 0 where
    pub no_dot_ns : mentions "." cluster_ns ≡ false
    pub no_dot_name : mentions "." cluster_name ≡ false
    pub no_query_ns : mentions "?" cluster_ns ≡ false
    pub no_query_name : mentions "?" cluster_name ≡ false
    pub parsed :
        K.parse_url (sql_url cluster_ns cluster_name) ≡ ok (service_url cluster_ns cluster_name)
    pub accepted : K.header_value ("Basic " <> K.base64 "root:root") ≡ none
    pub builds : (request : HttpRequest) → K.build_http request ≡ none

  -- The request that `send_sql` makes for the user root.
  abbrev pub sql_post : (cluster_ns cluster_name sql : String) → HttpRequest
  sql_post cluster_ns cluster_name sql = record {
    method = "POST";
    uri = sql_path cluster_ns cluster_name;
    headers =
        ("accept", "application/json")
        ∷ ("content-type", "text/plain")
        ∷ ("authorization", "Basic " <> K.base64 "root:root")
        ∷ [];
    body = sql;
  }

module _ ⦃K : Kube⦄ (verifier : K.State → ApiServerVerifier) (mocked : IsMocked verifier)
    (wire : Wire) (k : IsKubernetes wire) (cluster_ns cluster_name : String) where
  cluster-Accepted :
      answer_cluster wire cluster_ns cluster_name (get_cluster cluster_ns cluster_name)
      ≡ some (ok (referring_cluster cluster_name cluster_ns))
  unfolding answer_cluster
  cluster-Accepted =
      rw (asks_lem wire k (get_cluster cluster_ns cluster_name) "GET" _ refl (unmarked _)) refl

  secret-Accepted :
      handle_get_secret_root wire cluster_ns (get_secret cluster_ns "surreal-root")
      ≡ some (ok (surreal_root cluster_ns))
  unfolding handle_get_secret_root
  secret-Accepted =
      rw (asks_lem wire k (get_secret cluster_ns "surreal-root") "GET" _ refl (unmarked _)) refl

  pub get_root_credentials-Meets :
      {rest : List Handler}
      → Meets verifier mocked
          (answer_cluster wire cluster_ns cluster_name
            ∷ handle_get_secret_root wire cluster_ns
            ∷ rest)
          (get_root_credentials cluster_ns cluster_name)
          (done ("root", "root"))
          rest
  unfolding get_root_credentials decoded
  get_root_credentials-Meets =
      Meets-asked verifier mocked (get_cluster cluster_ns cluster_name) _ (ok _) _ cluster-Accepted
        (Meets-replied verifier mocked kube_error _ _ (
          Meets-bind verifier mocked _ _ "surreal-root" _
            (Meets-some verifier mocked _ "surreal-root" _ _ refl (Meets-pure verifier mocked _))
            (Meets-asked verifier mocked (get_secret cluster_ns "surreal-root") _ (ok _) _
              secret-Accepted
              (Meets-replied verifier mocked kube_error _ _ (
                Meets-bind verifier mocked _ _ "root" _
                  (Meets-some verifier mocked _ (utf8 "root") _ _ refl
                    (Meets-pure verifier mocked _))
                  (Meets-bind verifier mocked _ _ "root" _
                    (Meets-some verifier mocked _ (utf8 "root") _ _ refl
                      (Meets-pure verifier mocked _))
                    (Meets-pure verifier mocked _)))))))

  module _ (far : IsReachable cluster_ns cluster_name) (sql : String) where
    pub posts-Accepted :
        posts_sql wire cluster_ns cluster_name (sql_post cluster_ns cluster_name sql) ≡ true
    posts-Accepted =
        let p = sql_path cluster_ns cluster_name in
        let plain : mentions "?" p ≡ false =
          simp (mentions-append, far.no_query_ns, far.no_query_name) in
        rw (k.plain_path p plain, eq_refl p) refl

    post-done :
        post Client.kube (sql_url cluster_ns cluster_name)
        ≡ done (
            Builder.kube
              (record { method = "POST"; uri = sql_path cluster_ns cluster_name; headers = [] }))
    post-done =
        unfold sql_request in
        post-sql_url cluster_ns cluster_name sql far.no_dot_ns far.no_dot_name far.parsed

    auth-done : basic_auth_header "root" "root" ≡ done ("Basic " <> K.base64 "root:root")
    unfolding basic_auth_header
    auth-done = rw (far.accepted, basic_auth_header) refl

    body-done :
        body
          (header
            (header
              (header
                (Builder.kube (record {
                  method = "POST";
                  uri = sql_path cluster_ns cluster_name;
                  headers = [];
                }))
                "accept"
                "application/json")
              "content-type"
              "text/plain")
            "authorization"
            ("Basic " <> K.base64 "root:root"))
          sql
        ≡ done (Request.kube (sql_post cluster_ns cluster_name sql))
    unfolding body header
    body-done = rw (far.builds (sql_post cluster_ns cluster_name sql)) refl

    module _ {rest : List Handler} (h : Handler) where
      pub send_sql-Meets :
          h (request_text (sql_post cluster_ns cluster_name sql)) ≡ some (ok tt)
          → Meets verifier mocked
              (h ∷ rest)
              (send_sql Client.kube cluster_ns cluster_name "root" "root" sql)
              (done tt)
              rest
      unfolding send_sql send_request
      send_sql-Meets e =
          Meets-bind verifier mocked _ _ _ _ (Meets-settled verifier mocked _ _ post-done) (
            Meets-bind verifier mocked _ _ _ _ (Meets-settled verifier mocked _ _ auth-done) (
              Meets-bind verifier mocked _ _ _ _ (Meets-settled verifier mocked _ _ body-done) (
                Meets-asked verifier mocked (request_text (sql_post cluster_ns cluster_name sql)) h
                  (ok tt) _ e (Meets-lift-ok verifier mocked kube_error tt))))

      pub send_sql-Refused :
          (x : KubeError)
          → h (request_text (sql_post cluster_ns cluster_name sql)) ≡ some (err x)
          → Meets verifier mocked
              (h ∷ rest)
              (send_sql Client.kube cluster_ns cluster_name "root" "root" sql)
              (failed (kube_error x))
              rest
      unfolding send_sql send_request
      send_sql-Refused x e =
          Meets-bind verifier mocked _ _ _ _ (Meets-settled verifier mocked _ _ post-done) (
            Meets-bind verifier mocked _ _ _ _ (Meets-settled verifier mocked _ _ auth-done) (
              Meets-bind verifier mocked _ _ _ _ (Meets-settled verifier mocked _ _ body-done) (
                Meets-asked verifier mocked (request_text (sql_post cluster_ns cluster_name sql)) h
                  (err x) _ e (Meets-lift-err verifier mocked kube_error x))))

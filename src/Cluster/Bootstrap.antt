-- ===== src/Cluster/Bootstrap.antt =====
-- src/cluster/crd.rs: `bootstrap_root_user`.
use sdb_controller.Prelude.{◌≡◌, refl, Option, none, some, get_or, String, ◌<>◌, [], ◌∷◌, lookup}
use sdb_controller.Error.{kube_error, http_error, missing_root_credentials}
use sdb_controller.Resources.Core.{ByteString, SecretReference, from_utf8_or_default}
use sdb_controller.Resources.Cluster.{Cluster}
use sdb_controller.Sql.{define_root_user}
use sdb_controller.Api.Logs.{Logs, logs_rules}
use sdb_controller.Api.{
  Entry, HttpRequest, get_secret, request_text, Kube, M, pure, raise, unwrap, lift, on_option, send,
  ◌>>=◌,
}

-- `root_secret.as_ref().and_then(|r| r.name.clone())`
abbrev pub secret_name : Option SecretReference → Option String
secret_name none = none
secret_name (some r) = r.name

-- The request of `bootstrap_root_user`.
unfoldable pub sql_request : String → String → String → HttpRequest
sql_request ns name sql = record {
  method = "POST";
  uri = "/api/v1/namespaces/" <> ns <> "/services/" <> (name <> "-surrealdb:8000") <> "/proxy/sql";
  headers = ("accept", "application/json") ∷ ("content-type", "text/plain") ∷ [];
  body = sql;
}

-- The SQL defines a user for the whole server.
unfoldable pub IsRootDefinition : String → Type 0
IsRootDefinition sql = (user : String) × (pass : String) × (sql ≡ define_root_user user pass)

-- A request that defines a root user at the server of the cluster `name` in the namespace `ns`.
abbrev pub IsRootSql : (ns name : String) → HttpRequest → Type 0
IsRootSql ns name request =
    (request.method ≡ "POST")
    × (request.uri
        ≡ "/api/v1/namespaces/"
          <> ns
          <> "/services/"
          <> (name <> "-surrealdb:8000")
          <> "/proxy/sql")
    × IsRootDefinition request.body

pub sql_request-IsRootSql :
    (ns name user pass : String)
    → IsRootSql ns name (sql_request ns name (define_root_user user pass))
unfolding sql_request IsRootDefinition
sql_request-IsRootSql ns name user pass = (refl, refl, (user, pass, refl))

module _ ⦃K : Kube⦄ where
  -- `data.get("user")` and `data.get("password")`, both needed.
  unfoldable pub credentials : Option ByteString → Option ByteString → M (String × String)
  credentials none pass = raise missing_root_credentials
  credentials (some user) none = raise missing_root_credentials
  credentials (some user) (some pass) = pure (from_utf8_or_default user, from_utf8_or_default pass)

  pub credentials-Logs :
      {P : Entry → Type 0} (user pass : Option ByteString) → Logs P (credentials user pass)
  unfolding credentials
  credentials-Logs none pass = search logs_rules
  credentials-Logs (some user) none = search logs_rules
  credentials-Logs (some user) (some pass) = search logs_rules

  -- `Request::builder()…body(…).map_err(Error::HTTPError)?`
  unfoldable pub built : HttpRequest → M HttpRequest
  built request = on_option (K.build_http request) (pure request) (λ e. raise (http_error e))

  -- The last two steps, once the credentials are known.
  unfoldable pub post_root : (ns name user pass : String) → M (Unit {0})
  unfolding sql_request built
  post_root ns name user pass = do
    req ← built (sql_request ns name (define_root_user user pass))
    r' ← send (request_text req)
    lift kube_error r'

  unfoldable pub bootstrap_root_user : Cluster → String → M (Unit {0})
  bootstrap_root_user c name = do
    ns ← unwrap c.metadata.namespace
    sec_name ← on_option (secret_name c.spec.root_secret) (raise missing_root_credentials) pure
    r ← send (get_secret ns sec_name)
    sec ← lift kube_error r
    let bytes = get_or sec.bytes []
    (user, pass) ← credentials (lookup "user" bytes) (lookup "password" bytes)
    post_root ns name user pass

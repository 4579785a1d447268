-- ===== src/Credentials.antt =====
-- src/database/crd.rs and src/user/crd.rs: the root credentials of a cluster, and SQL sent under them.
pub mod Bounds
pub mod Sent
pub mod Calm
use sdb_controller.Prelude.{Option, none, some, get_or, String, ◌<>◌, [], lookup}
use sdb_controller.Error.{kube_error, missing_root_credentials}
use sdb_controller.Resources.Core.{ByteString, from_utf8_or_default}
use sdb_controller.Cluster.Bootstrap.{secret_name}
use sdb_controller.Service.{Client, header, body, post, send_request}
use sdb_controller.Api.{
  get_cluster, get_secret, Kube, Outcome, done, panic, M, pure, raise, settled, lift, on_option,
  send, ◌>>=◌,
}

module _ ⦃K : Kube⦄ where
  -- `.map(|b| String::from_utf8(…).unwrap_or_default()).ok_or(Error::MissingRootCredentials)?`
  unfoldable pub decoded : Option ByteString → M String
  decoded b =
      on_option b (raise missing_root_credentials) (λ bytes. pure (from_utf8_or_default bytes))

  -- `Database::get_root_credentials`, `User::get_root_credentials_for_cluster`
  unfoldable pub get_root_credentials : (cluster_ns cluster_name : String) → M (String × String)
  get_root_credentials cluster_ns cluster_name = do
    r ← send (get_cluster cluster_ns cluster_name)
    cluster ← lift kube_error r
    sec_name ←
        on_option (secret_name cluster.spec.root_secret) (raise missing_root_credentials) pure
    r' ← send (get_secret cluster_ns sec_name)
    sec ← lift kube_error r'
    let bytes = get_or sec.bytes []
    user ← decoded (lookup "user" bytes)
    pass ← decoded (lookup "password" bytes)
    pure (user, pass)

  -- `none` of `header_value` is success; its error is the panic of `unwrap`.
  unfoldable pub basic_auth_header : String → String → Outcome String
  basic_auth_header user pass =
      let value = "Basic " <> K.base64 (user <> ":" <> pass) in
      elim (K.header_value value) [ none ↦ done value | some e ↦ panic ]

  unfoldable pub sql_url : (cluster_ns cluster_name : String) → String
  sql_url cluster_ns cluster_name =
      "http://" <> cluster_name <> "-surrealdb." <> cluster_ns <> ".svc.cluster.local:8000/sql"

  -- The request that `ensure_surreal_namespace`, `ensure_surreal_database` and `provision_user` send.
  unfoldable pub send_sql : Client → (cluster_ns cluster_name user pass sql : String) → M (Unit {0})
  send_sql cli cluster_ns cluster_name user pass sql = do
    b ← settled (post cli (sql_url cluster_ns cluster_name))
    auth ← settled (basic_auth_header user pass)
    let typed = header (header b "accept" "application/json") "content-type" "text/plain"
    req ← settled (body (header typed "authorization" auth) sql)
    send_request cli req

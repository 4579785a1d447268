-- ===== src/Credentials/Bounds.antt =====
-- src/database/crd.rs and src/user/crd.rs: how many requests the shared steps send.
use sdb_controller.Prelude.{Option, String}
use sdb_controller.Resources.Core.{ByteString}
use sdb_controller.Service.{Client, Request, send_request}
use sdb_controller.Credentials.{decoded, get_root_credentials, send_sql}
use sdb_controller.Api.{Kube}
use sdb_controller.Api.Bounds.{IsBounded, Any, bound_rules}

module _ ⦃K : Kube⦄ where
  decoded-IsBounded : (b : Option ByteString) → IsBounded 0 Any (decoded b)
  unfolding decoded
  decoded-IsBounded b = search bound_rules

  pub get_root_credentials-IsBounded :
      (cluster_ns cluster_name : String)
      → IsBounded 2 Any (get_root_credentials cluster_ns cluster_name)
  unfolding get_root_credentials
  get_root_credentials-IsBounded cluster_ns cluster_name =
      search (bound_rules, decoded-IsBounded) depth 18

  send_request-IsBounded :
      (cli : Client) (request : Request) → IsBounded 1 Any (send_request cli request)
  unfolding send_request
  send_request-IsBounded Client.kube (Request.kube r) = search bound_rules
  send_request-IsBounded Client.reqwest (Request.reqwest r) = search bound_rules
  send_request-IsBounded Client.kube (Request.reqwest r) = search bound_rules
  send_request-IsBounded Client.reqwest (Request.kube r) = search bound_rules

  pub send_sql-IsBounded :
      (cli : Client) (cluster_ns cluster_name user pass sql : String)
      → IsBounded 1 Any (send_sql cli cluster_ns cluster_name user pass sql)
  unfolding send_sql
  send_sql-IsBounded cli cluster_ns cluster_name user pass sql =
      search (bound_rules, send_request-IsBounded) depth 12

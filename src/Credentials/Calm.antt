-- ===== src/Credentials/Calm.antt =====
-- src/service.rs and its callers: the panics that the lookup of the root credentials and the
-- sending of SQL may meet.
use sdb_controller.Prelude.{
  ◌≡◌, refl, arith, Option, none, some, ℕ, String, List, [], ◌∷◌, ◌<>◌, split_dots,
}
use sdb_controller.Service.{
  Client, Builder, Request, scan_host, proxy_head, proxy_post, body, post, send_request,
}
use sdb_controller.Credentials.{decoded, get_root_credentials, basic_auth_header, send_sql}
use sdb_controller.Resources.Core.{ByteString}
use sdb_controller.Api.{Try, Kube, Url, ok, err}
use sdb_controller.Api.Calm.{Returns, IsCalm, IsCalm-bind, IsCalm-settled, calm_rules}

-- The text of an `Authorization` header is accepted: base64 has only letters, digits and three
-- signs.
pub record TakesBase64 ⦃K : Kube⦄ : Type 0 where
  pub accepted : (t : String) → K.header_value ("Basic " <> K.base64 t) ≡ none

proxy_head-Returns :
    (host : String) (url : Url) (svc ns : Option String) (port : Option ℕ) (l : List String)
    → Returns (proxy_head host url svc ns port l)
unfolding proxy_head
proxy_head-Returns host url none ns port l = tt
proxy_head-Returns host url (some svc) none port l = tt
proxy_head-Returns host url (some svc) (some ns) none l = tt
proxy_head-Returns host url (some svc) (some ns) (some port) l = ground arith

by_labels :
    (url : Url) (host : String) (labels : List String)
    → url.host_str ≡ some host
    → split_dots host ≡ labels
    → Returns (proxy_post url)
unfolding proxy_post scan_host
by_labels url host [] e h = ground (arith, e, h)
by_labels url host (svc ∷ []) e h = ground (arith, e, h)
by_labels url host (svc ∷ ns ∷ rest) e h =
    ground (arith, e, h, proxy_head-Returns host url (some svc) (some ns) url.port rest)

by_host : (url : Url) (o : Option String) → url.host_str ≡ o → Returns (proxy_post url)
unfolding proxy_post
by_host url none e = rw e tt
by_host url (some host) e = by_labels url host (split_dots host) e refl

module _ ⦃K : Kube⦄ where
  parsed-Returns :
      (url : String) (r : Try String Url) → K.parse_url url ≡ r → Returns (post Client.kube url)
  unfolding post
  parsed-Returns url (err e) h = rw (h, Returns) tt
  parsed-Returns url (ok parsed) h = rw (h, Returns) (by_host parsed parsed.host_str refl)

  post-Returns : (cli : Client) (url : String) → Returns (post cli url)
  unfolding post
  post-Returns Client.kube url = parsed-Returns url (K.parse_url url) refl
  post-Returns Client.reqwest url = tt

  body-Returns : (b : Builder) (sql : String) → Returns (body b sql)
  unfolding body
  body-Returns (Builder.kube h) sql = ground arith
  body-Returns (Builder.reqwest h) sql = ground arith

  auth-Returns : (user pass : String) → TakesBase64 → Returns (basic_auth_header user pass)
  unfolding basic_auth_header
  auth-Returns user pass h = rw (h.accepted (user <> ":" <> pass), Returns) tt

  send_request-IsCalm : (cli : Client) (r : Request) → IsCalm (send_request cli r)
  unfolding send_request
  send_request-IsCalm Client.kube (Request.kube r) = search calm_rules
  send_request-IsCalm Client.kube (Request.reqwest r) = search calm_rules
  send_request-IsCalm Client.reqwest (Request.kube r) = search calm_rules
  send_request-IsCalm Client.reqwest (Request.reqwest r) = search calm_rules

  pub send_sql-IsCalm :
      (cli : Client) (cluster_ns cluster_name user pass sql : String)
      → TakesBase64
      → IsCalm (send_sql cli cluster_ns cluster_name user pass sql)
  unfolding send_sql
  send_sql-IsCalm cli cluster_ns cluster_name user pass sql h =
      IsCalm-bind _ _ (IsCalm-settled _ (post-Returns cli _)) λ b.
        IsCalm-bind _ _ (IsCalm-settled _ (auth-Returns user pass h)) λ auth.
          IsCalm-bind _ _ (IsCalm-settled _ (body-Returns _ sql)) λ r. send_request-IsCalm cli r

  decoded-IsCalm : (b : Option ByteString) → IsCalm (decoded b)
  unfolding decoded
  decoded-IsCalm b = search calm_rules

  pub get_root_credentials-IsCalm :
      (cluster_ns cluster_name : String) → IsCalm (get_root_credentials cluster_ns cluster_name)
  unfolding get_root_credentials
  get_root_credentials-IsCalm cluster_ns cluster_name = search (calm_rules, decoded-IsCalm) depth 12

-- ===== src/Service.antt =====
-- src/service.rs: requests to the SurrealDB service, through the API server's proxy or directly.
pub mod Proxy
use sdb_controller.Prelude.{
  ℕ, Option, none, some, String, ◌<>◌, List, [], ◌∷◌, ◌++◌, ltb, if◌then◌else◌, split_dots,
  show_u16, length,
}
use sdb_controller.Error.{
  Error, kube_error, http_error, service_request_error, reqwest_error, url_parse_error,
}
use sdb_controller.Api.{
  HttpRequest, request_text, execute, ok, err, Url, Kube, Outcome, done, failed, panic, M, raise,
  lift, send, ◌>>=◌,
}

-- The head of a request under construction: `http::request::Builder`, `reqwest::RequestBuilder`.
pub record Head : Type 0 where
  pub method : String
  pub uri : String
  pub headers : List (String × String)

pub data Builder : Type 0 where
  kube reqwest : Head → Builder

pub data Request : Type 0 where
  kube reqwest : HttpRequest → Request

-- The two variants of `Client`, without the clients inside.
pub data Client : Type 0 where
  kube reqwest : Client

abbrev add_header : String → String → Head → Head
add_header key value h = record h { headers = h.headers ++ (key, value) ∷ [] }

unfoldable pub header : Builder → String → String → Builder
header (Builder.kube h) key value = Builder.kube (add_header key value h)
header (Builder.reqwest h) key value = Builder.reqwest (add_header key value h)

abbrev finish : Head → String → HttpRequest
finish h content = record { method = h.method; uri = h.uri; headers = h.headers; body = content }

abbrev post_head : String → Head
post_head uri = record { method = "POST"; uri = uri; headers = [] }

-- The loop over the labels of the host: what it stores in `svc` and `ns`, and the labels left.
unfoldable pub scan_host :
    List String
    → Option String
    → Option String
    → Outcome (Option String × Option String × List String)
scan_host [] svc ns = done (svc, ns, [])
scan_host (p ∷ iter) none ns = scan_host iter (some p) ns
scan_host (p ∷ iter) (some svc) none = done (some svc, some p, iter)
scan_host (p ∷ iter) (some svc) (some ns) = panic

abbrev pub invalid_host : String → Error
invalid_host host =
    service_request_error
      (host <> " is not valid host, expected <svc>.<ns>.svc.<any-cluster-domain>:<port>")

-- The match on `(svc, ns, url.port(), iter.count())`.
unfoldable pub proxy_head :
    String → Url → Option String → Option String → Option ℕ → List String → Outcome Builder
proxy_head host url (some svc) (some ns) (some port) iter =
    if ltb 2 (length iter)
    then done (
        Builder.kube (
          post_head (
            "/api/v1/namespaces/"
            <> ns
            <> "/services/"
            <> svc
            <> ":"
            <> show_u16 port
            <> "/proxy"
            <> url.path)))
    else failed (invalid_host host)
proxy_head host url none ns port iter = failed (invalid_host host)
proxy_head host url (some svc) none port iter = failed (invalid_host host)
proxy_head host url (some svc) (some ns) none iter = failed (invalid_host host)

unfoldable pub proxy_post : Url → Outcome Builder
unfolding scan_host proxy_head
proxy_post url = elim url.host_str [
  | none ↦ failed (service_request_error "missing host in url")
  | some host ↦ elim (scan_host (split_dots host) none none) [
    | done (svc, ns, iter) ↦ proxy_head host url svc ns url.port iter
    | failed e ↦ failed e
    | panic ↦ panic
  ]
]

module _ ⦃K : Kube⦄ where
  unfoldable pub body : Builder → String → Outcome Request
  body (Builder.kube h) content = elim (K.build_http (finish h content)) [
    | none ↦ done (Request.kube (finish h content))
    | some e ↦ failed (http_error e)
  ]
  body (Builder.reqwest h) content = elim (K.build_reqwest (finish h content)) [
    | none ↦ done (Request.reqwest (finish h content))
    | some e ↦ failed (reqwest_error e)
  ]

  unfoldable pub post : Client → String → Outcome Builder
  unfolding proxy_post
  post Client.kube url = elim (K.parse_url url) [
    | err e ↦ failed (url_parse_error e)
    | ok parsed ↦ proxy_post parsed
  ]
  post Client.reqwest url = done (Builder.reqwest (post_head url))

  -- `Client::send`
  unfoldable pub send_request : Client → Request → M (Unit {0})
  send_request Client.kube (Request.kube request) = do
    r ← send (request_text request)
    lift kube_error r
  send_request Client.reqwest (Request.reqwest request) = do
    r ← send (execute request)
    lift reqwest_error r
  send_request Client.kube (Request.reqwest request) =
      raise (service_request_error "invalid request type for client")
  send_request Client.reqwest (Request.kube request) =
      raise (service_request_error "invalid request type for client")

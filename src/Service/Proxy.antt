-- ===== src/Service/Proxy.antt =====
-- src/service.rs: the requests that `Client::post` starts.
use sdb_controller.Prelude.{
  ◌≡◌, refl, arith, ℕ, true, false, sym, ap, ◌∙◌, mentions, mentions-append, split-label, Option,
  none, some, String, ◌<>◌, List, [], ◌∷◌, ltb, split_dots, show_u16, length,
}
use Prim.Native.String.{◌∷◌ as cons}
use text.Mathlib.TextLemmas.{nil-append, cons-append, append_assoc}
use sdb_controller.Cluster.Bootstrap.{sql_request}
use sdb_controller.Credentials.{sql_url}
use sdb_controller.Service.{Builder, Client, post, proxy_post, scan_host, proxy_head}
use sdb_controller.Api.{Kube, ok, Url, Outcome, done, failed, panic}

-- The URI of the API server's proxy to a port of a service.
abbrev pub proxy_uri : (ns svc : String) → (port : ℕ) → (path : String) → String
proxy_uri ns svc port path =
    "/api/v1/namespaces/" <> ns <> "/services/" <> svc <> ":" <> show_u16 port <> "/proxy" <> path

-- What `post` makes of a host's labels and a port: two labels name the service and its namespace,
-- and more than two must follow.
abbrev pub Proxied : Url → List String → Option ℕ → Outcome Builder → Type 0
Proxied url (svc ∷ ns ∷ rest) (some port) (done b) =
    (ltb 2 (length rest) ≡ true)
    × (b
        ≡ Builder.kube
            (record { method = "POST"; uri = proxy_uri ns svc port url.path; headers = [] }))
Proxied url (svc ∷ ns ∷ rest) (some port) (failed e) = ltb 2 (length rest) ≡ false
Proxied url parts port (done b) = ⊥
Proxied url parts port (failed e) = Unit
Proxied url parts port panic = ⊥

proxy_head-Proxied :
    (host : String) (url : Url) (svc ns : String) (port : Option ℕ) (rest : List String)
    → Proxied url (svc ∷ ns ∷ rest) port (proxy_head host url (some svc) (some ns) port rest)
unfolding proxy_head
proxy_head-Proxied host url svc ns none rest = tt
proxy_head-Proxied host url svc ns (some port) rest = ground arith

by_labels :
    (url : Url) (host : String) (labels : List String)
    → url.host_str ≡ some host
    → split_dots host ≡ labels
    → Proxied url labels url.port (proxy_post url)
unfolding proxy_post scan_host
by_labels url host [] e h = ground (arith, e, h)
by_labels url host (svc ∷ []) e h = ground (arith, e, h)
by_labels url host (svc ∷ ns ∷ rest) e h =
    ground (arith, e, h, proxy_head-Proxied host url svc ns url.port rest)

-- For a URL with a host, a request to the proxy is started exactly if the host has more than four
-- labels and the URL a port; its URI names the service by the first label, the namespace by the
-- second, and the URL's port and path. Otherwise `post` fails. It never panics.
pub proxy_post-Proxied :
    (url : Url) (host : String)
    → url.host_str ≡ some host
    → Proxied url (split_dots host) url.port (proxy_post url)
proxy_post-Proxied url host e = by_labels url host (split_dots host) e refl

abbrev pub service_host : (cluster_ns cluster_name : String) → String
service_host cluster_ns cluster_name =
    cluster_name <> "-surrealdb." <> cluster_ns <> ".svc.cluster.local"

one_dot : (t : String) → "." <> t ≡ cons "." t
one_dot t = cons-append "." "" t ∙ ap (cons ".") (nil-append t)

svc-split : (name t : String) → name <> ("-surrealdb." <> t) ≡ (name <> "-surrealdb") <> cons "." t
svc-split name t =
    ap (λ u. name <> u) (append_assoc "-surrealdb" "." t ∙ ap (λ u. "-surrealdb" <> u) (one_dot t))
    ∙ sym (append_assoc name "-surrealdb" (cons "." t))

service_labels :
    (ns name : String)
    → mentions "." ns ≡ false
    → mentions "." name ≡ false
    → split_dots (service_host ns name)
      ≡ (name <> "-surrealdb") ∷ ns ∷ "svc" ∷ "cluster" ∷ "local" ∷ []
unfolding split_dots
service_labels ns name h g =
    let svc : mentions "." (name <> "-surrealdb") ≡ false =
      rw (mentions-append "." name "-surrealdb", g) refl in
    rw
      (
        svc-split name (ns <> ".svc.cluster.local"),
        split-label (name <> "-surrealdb") (ns <> ".svc.cluster.local") svc,
        split-label ns "svc.cluster.local" h,
      )
      refl

bootstrap_uri :
    (ns name sql : String)
    → proxy_uri ns (name <> "-surrealdb") 8000 "/sql" ≡ (sql_request ns name sql).uri
unfolding sql_request show_u16
bootstrap_uri ns name sql =
    ap (λ t. "/api/v1/namespaces/" <> (ns <> ("/services/" <> t)))
      (append_assoc name "-surrealdb" ":8000/proxy/sql"
        ∙ sym (append_assoc name "-surrealdb:8000" "/proxy/sql"))

-- The parsed URL of a cluster's SQL endpoint.
abbrev pub service_url : (cluster_ns cluster_name : String) → Url
service_url cluster_ns cluster_name = record {
  host_str = some (service_host cluster_ns cluster_name);
  port = some 8000;
  path = "/sql";
}

Proxied-done :
    (ns name sql : String) (o : Outcome Builder)
    → Proxied
        (service_url ns name)
        ((name <> "-surrealdb") ∷ ns ∷ "svc" ∷ "cluster" ∷ "local" ∷ [])
        (some 8000)
        o
    → o
      ≡ done (
          Builder.kube
            (record { method = "POST"; uri = (sql_request ns name sql).uri; headers = [] }))
Proxied-done ns name sql (done b) (h, e) = ap done (
    e
    ∙ ap (λ u. Builder.kube (record { method = "POST"; uri = u; headers = [] }))
        (bootstrap_uri ns name sql))
Proxied-done ns name sql (failed e) h = ground (arith, h)
Proxied-done ns name sql panic h = absurd h

-- Through the API server, the URL of a cluster whose name and namespace have no dot, parsed into its
-- host, port and path, leads to the very URI that the bootstrap of the root user posts to.
pub post-sql_url :
    ⦃K : Kube⦄ (cluster_ns cluster_name sql : String)
    → mentions "." cluster_ns ≡ false
    → mentions "." cluster_name ≡ false
    → K.parse_url (sql_url cluster_ns cluster_name) ≡ ok (service_url cluster_ns cluster_name)
    → post Client.kube (sql_url cluster_ns cluster_name)
      ≡ done (
          Builder.kube (record {
            method = "POST";
            uri = (sql_request cluster_ns cluster_name sql).uri;
            headers = [];
          }))
unfolding post
post-sql_url cluster_ns cluster_name sql h g p =
    let url = service_url cluster_ns cluster_name in
    let proxied =
      by_labels url (service_host cluster_ns cluster_name) _ refl
        (service_labels cluster_ns cluster_name h g) in
    rw (p, post) (Proxied-done cluster_ns cluster_name sql (proxy_post url) proxied)

-- ===== src/Database/Requests.antt =====
-- src/database/crd.rs: every request of a database's reconciliation.
use sdb_controller.Error.{Error}
use sdb_controller.Prelude.{◌≡◌, refl, ◌⊎◌, inl, inr, Option, none, some, get_or, String, All}
use sdb_controller.Resources.Database.{Database, DbPhase, new, in_progress, ready, error}
use sdb_controller.Sql.{define_namespace, define_database}
use sdb_controller.Service.{Client}
use sdb_controller.Credentials.{get_root_credentials, decoded}
use sdb_controller.Credentials.Sent.{sql_of, Logs-send_sql}
use sdb_controller.Database.{
  current, set_phase_msg, ensure_surreal_namespace, ensure_surreal_database, fail_with, define,
  reconcile_new, handle, reconcile,
}
use sdb_controller.Api.{
  Call, patch_database_status, get_cluster, get_secret, request_text, execute, Kube, M, send, trace,
}
use sdb_controller.Api.Logs.{Logs, Logs-trace, Logs-send, logs_rules, careful_rules}

-- The phases in which a database is defined.
abbrev pub IsPending : DbPhase → Type 0
IsPending new = Unit
IsPending in_progress = Unit
IsPending other = ⊥

-- A phase that a reconciliation writes, with its message.
abbrev pub IsReport : DbPhase → Option String → Type 0
IsReport ready none = Unit
IsReport error (some message) = Unit
IsReport other message = ⊥

module _ ⦃K : Kube⦄ (db : Database) (p : DbPhase) where
  abbrev pub IsOwn : String → String → Type 0
  IsOwn k8s_ns ns =
      (db.metadata.namespace ≡ some k8s_ns) × (ns ≡ get_or db.spec.cluster_ref.namespace k8s_ns)

  -- The definition of the namespace, or of the database in it.
  abbrev pub IsDefinition : Option String → Type 0
  IsDefinition sql =
      (k8s_ns : String) × (db.metadata.namespace ≡ some k8s_ns)
      × ((sql ≡ some (define_namespace (get_or db.spec.db_namespace k8s_ns)))
          ⊎ ((name : String) × (db.metadata.name ≡ some name)
              × (sql
                  ≡ some (
                      define_database (get_or db.spec.db_namespace k8s_ns)
                        (get_or db.spec.db_name name)))))

  -- What a reconciliation of `db` from the phase `p` may ask.
  abbrev pub IsPermitted : Call → Type 0
  IsPermitted (patch_database_status ns name q message) =
      (db.metadata.namespace ≡ some ns) × (name ≡ K.name_any db.metadata) × IsReport q message
  IsPermitted (get_cluster ns name) =
      (name ≡ db.spec.cluster_ref.name) × (k8s_ns : String) × IsOwn k8s_ns ns
  IsPermitted (get_secret ns name) = (k8s_ns : String) × IsOwn k8s_ns ns
  IsPermitted (request_text request) = IsDefinition (some request.body)
  IsPermitted (execute request) = IsDefinition (some request.body)
  IsPermitted other = ⊥

  abbrev Permits : {A : Type 0} → M A → Type 0
  Permits m = Logs (λ e. IsPermitted e.call × IsPending p) m

  set_phase_msg-Permits :
      (q : DbPhase) (message : Option String)
      → IsReport q message
      → IsPending p
      → Permits (set_phase_msg db q message)
  unfolding set_phase_msg
  set_phase_msg-Permits q message h i = search careful_rules

  sql-IsPermitted :
      (call : Call) (sql : String)
      → IsDefinition (some sql)
      → sql_of call ≡ some sql
      → IsPermitted call
  sql-IsPermitted (request_text request) sql h e = rw e h
  sql-IsPermitted (execute request) sql h e = rw e h
  sql-IsPermitted call sql h e = cc

  fail_with-Permits : (what : String) (e : Error) → IsPending p → Permits (fail_with db what e)
  unfolding fail_with
  fail_with-Permits what e i = search (logs_rules, set_phase_msg-Permits) depth 8

  module _ (cli : Client) (k8s_ns : String) where
    get_cluster-Permits :
        db.metadata.namespace ≡ some k8s_ns
        → IsPending p
        → Permits (
            send
              (get_cluster (get_or db.spec.cluster_ref.namespace k8s_ns) db.spec.cluster_ref.name))
    get_cluster-Permits h i =
        Logs-send
          (get_cluster (get_or db.spec.cluster_ref.namespace k8s_ns) db.spec.cluster_ref.name)
          λ r. ((refl, k8s_ns, (h, refl)), i)

    get_secret-Permits :
        (name : String)
        → db.metadata.namespace ≡ some k8s_ns
        → IsPending p
        → Permits (send (get_secret (get_or db.spec.cluster_ref.namespace k8s_ns) name))
    get_secret-Permits name h i =
        Logs-send (get_secret (get_or db.spec.cluster_ref.namespace k8s_ns) name)
          λ r. ((k8s_ns, (h, refl)), i)

    get_root_credentials-Permits :
        db.metadata.namespace ≡ some k8s_ns
        → IsPending p
        → Permits (
            get_root_credentials
              (get_or db.spec.cluster_ref.namespace k8s_ns)
              db.spec.cluster_ref.name)
    unfolding get_root_credentials decoded
    get_root_credentials-Permits h i =
        search (logs_rules, get_cluster-Permits, get_secret-Permits) depth 12

    ensure_surreal_namespace-Permits :
        (cluster_ns cluster_name user pass : String)
        → db.metadata.namespace ≡ some k8s_ns
        → IsPending p
        → Permits (
            ensure_surreal_namespace cli cluster_ns cluster_name
              (get_or db.spec.db_namespace k8s_ns)
              user
              pass)
    unfolding ensure_surreal_namespace
    ensure_surreal_namespace-Permits cluster_ns cluster_name user pass h i =
        Logs-send_sql cli cluster_ns cluster_name user pass _
          λ e s. (sql-IsPermitted e.call _ (k8s_ns, h, inl refl) s, i)

    ensure_surreal_database-Permits :
        (cluster_ns cluster_name user pass name : String)
        → db.metadata.namespace ≡ some k8s_ns
        → db.metadata.name ≡ some name
        → IsPending p
        → Permits (
            ensure_surreal_database cli cluster_ns cluster_name
              (get_or db.spec.db_namespace k8s_ns)
              (get_or db.spec.db_name name)
              user
              pass)
    unfolding ensure_surreal_database
    ensure_surreal_database-Permits cluster_ns cluster_name user pass name h n i =
        Logs-send_sql cli cluster_ns cluster_name user pass _
          λ e s. (sql-IsPermitted e.call _ (k8s_ns, h, inr (name, n, refl)) s, i)

    define-Permits :
        (cluster_ns user pass : String)
        → db.metadata.namespace ≡ some k8s_ns
        → IsPending p
        → Permits (define cli db cluster_ns (get_or db.spec.db_namespace k8s_ns) user pass)
    unfolding define
    define-Permits cluster_ns user pass h i =
        search
          (
            careful_rules, ensure_surreal_namespace-Permits, ensure_surreal_database-Permits,
            fail_with-Permits, set_phase_msg-Permits,
          )
          depth 16

  reconcile_new-Permits : (cli : Client) → IsPending p → Permits (reconcile_new cli db)
  unfolding reconcile_new
  reconcile_new-Permits cli i =
      search (careful_rules, get_root_credentials-Permits, define-Permits) depth 10

handle-Permits :
    ⦃K : Kube⦄ (cli : Client) (db : Database) (p : DbPhase) → Permits db p (handle cli db p)
unfolding handle
handle-Permits cli db new = reconcile_new-Permits db new cli tt
handle-Permits cli db in_progress = reconcile_new-Permits db in_progress cli tt
handle-Permits cli db ready = search logs_rules
handle-Permits cli db error = search logs_rules

-- Whatever the servers answer, a reconciliation of a database asks only what `IsPermitted` lists, and
-- that only in the phases New and InProgress: it reads the cluster that the database refers to and a
-- secret of that cluster's namespace, sends only the SQL that defines its own namespace and database,
-- and writes only its own phase, to Ready without a message or to Error with one. In the phases
-- Ready and Error it sends nothing.
pub reconcile-IsModest :
    ⦃K : Kube⦄ (cli : Client) (db : Database) (s : K.State)
    → All
        (λ e. IsPermitted db (current db.status) e.call × IsPending (current db.status))
        (trace (reconcile cli db) s)
unfolding reconcile
reconcile-IsModest cli db s = Logs-trace _ s (handle-Permits cli db (current db.status))

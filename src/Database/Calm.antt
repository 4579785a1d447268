-- ===== src/Database/Calm.antt =====
-- src/database/crd.rs: the panics that a reconciliation of a database may meet.
use sdb_controller.Prelude.{◌≡◌, Option, some, String}
use sdb_controller.Error.{Error}
use sdb_controller.Resources.Database.{Database, DbPhase, new, in_progress, ready, error}
use sdb_controller.Service.{Client}
use sdb_controller.Credentials.Calm.{TakesBase64, send_sql-IsCalm, get_root_credentials-IsCalm}
use sdb_controller.Database.{
  current, set_phase_msg, ensure_surreal_namespace, ensure_surreal_database, fail_with, define,
  reconcile_new, handle, reconcile,
}
use sdb_controller.Api.{Kube, start}
use sdb_controller.Api.Calm.{Returns, IsCalm, calm_rules}

module _ ⦃K : Kube⦄ (db : Database) (ns name : String) where
  set_phase_msg-IsCalm :
      (q : DbPhase) (message : Option String)
      → db.metadata.namespace ≡ some ns
      → IsCalm (set_phase_msg db q message)
  unfolding set_phase_msg
  set_phase_msg-IsCalm q message h = search calm_rules

  fail_with-IsCalm :
      (what : String) (e : Error) → db.metadata.namespace ≡ some ns → IsCalm (fail_with db what e)
  unfolding fail_with
  fail_with-IsCalm what e h = search (calm_rules, set_phase_msg-IsCalm) depth 8

  ensure_surreal_namespace-IsCalm :
      (cli : Client) (cluster_ns cluster_name ns_name user pass : String)
      → TakesBase64
      → IsCalm (ensure_surreal_namespace cli cluster_ns cluster_name ns_name user pass)
  unfolding ensure_surreal_namespace
  ensure_surreal_namespace-IsCalm cli cluster_ns cluster_name ns_name user pass t =
      send_sql-IsCalm cli _ _ _ _ _ t

  ensure_surreal_database-IsCalm :
      (cli : Client) (cluster_ns cluster_name ns_name db_name user pass : String)
      → TakesBase64
      → IsCalm (ensure_surreal_database cli cluster_ns cluster_name ns_name db_name user pass)
  unfolding ensure_surreal_database
  ensure_surreal_database-IsCalm cli cluster_ns cluster_name ns_name db_name user pass t =
      send_sql-IsCalm cli _ _ _ _ _ t

  define-IsCalm :
      (cli : Client) (cluster_ns ns_name user pass : String)
      → db.metadata.namespace ≡ some ns
      → db.metadata.name ≡ some name
      → TakesBase64
      → IsCalm (define cli db cluster_ns ns_name user pass)
  unfolding define
  define-IsCalm cli cluster_ns ns_name user pass h n t =
      search
        (
          calm_rules, ensure_surreal_namespace-IsCalm, ensure_surreal_database-IsCalm,
          fail_with-IsCalm, set_phase_msg-IsCalm,
        )
        depth 16

  handle-IsCalm :
      (cli : Client) (p : DbPhase)
      → db.metadata.namespace ≡ some ns
      → db.metadata.name ≡ some name
      → TakesBase64
      → IsCalm (handle cli db p)
  unfolding handle reconcile_new
  handle-IsCalm cli new h n t =
      search (calm_rules, get_root_credentials-IsCalm, define-IsCalm) depth 10
  handle-IsCalm cli in_progress h n t =
      search (calm_rules, get_root_credentials-IsCalm, define-IsCalm) depth 10
  handle-IsCalm cli ready h n t = search calm_rules
  handle-IsCalm cli error h n t = search calm_rules

-- Where the authorization header accepts the output of base64, the reconciliation of a database that
-- has a name and a namespace returns or fails with an error, whatever the servers answer, and it never
-- panics.
pub reconcile_database-Returns :
    ⦃K : Kube⦄ (cli : Client) (db : Database) (ns name : String)
    → db.metadata.namespace ≡ some ns
    → db.metadata.name ≡ some name
    → TakesBase64
    → (s : K.State) → Returns (reconcile cli db (start s)).0
unfolding reconcile
reconcile_database-Returns cli db ns name h n t s =
    (handle-IsCalm db ns name cli (current db.status) h n t).at (start s)

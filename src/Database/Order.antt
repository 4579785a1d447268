-- ===== src/Database/Order.antt =====
-- src/database/crd.rs: what a reconciliation of a database has done before it reports it ready.
use sdb_controller.Prelude.{◌≡◌, refl, arith, Option, none, some, get_or, String, List}
use sdb_controller.Resources.Database.{Database, DbPhase, new, in_progress, ready, error}
use sdb_controller.Sql.{define_namespace, define_database}
use sdb_controller.Service.{Client}
use sdb_controller.Credentials.{get_root_credentials, decoded}
use sdb_controller.Credentials.Sent.{Accepted, AcceptedAfter, sql_of, sent_Justified, send_sql_lem}
use sdb_controller.Database.{
  current, set_phase_msg, ensure_surreal_namespace, ensure_surreal_database, fail_with, define,
  reconcile_new, handle, reconcile,
}
use sdb_controller.Api.{
  Call, patch_database_status, Entry, done, World, start, Kube, trace, pure, unwrap, send, lift,
  attempt, on_try, on_option, raise, ◌>>=◌,
}
use sdb_controller.Api.Grounds.{Justified, after, after_unwrap}

module _ (db : Database) where
  -- The definition of the namespace and then that of the database in it were answered without an
  -- error, under the names of the specification or, without them, those of the resource.
  abbrev pub IsDefined : List Entry → Type 0
  IsDefined l =
      (k8s_ns : String) × (name : String) × (db.metadata.namespace ≡ some k8s_ns)
      × (db.metadata.name ≡ some name)
      × AcceptedAfter (define_namespace (get_or db.spec.db_namespace k8s_ns))
          (define_database (get_or db.spec.db_namespace k8s_ns) (get_or db.spec.db_name name)) l

  abbrev pub HasGrounds : Call → List Entry → Type 0
  HasGrounds (patch_database_status ns name ready message) l = IsDefined l
  HasGrounds other l = Unit

  sql_grounds :
      (sql : String) (call : Call) (l : List Entry) → sql_of call ≡ some sql → HasGrounds call l
  sql_grounds sql call l e = ground arith

module _ ⦃K : Kube⦄ (cli : Client) (db : Database) where
  module _ (cluster_ns cluster_name ns_name user pass : String) where
    namespace-Accepted :
        (w : World K.State)
        → Justified (HasGrounds db) w.log
        → Justified
            (HasGrounds db)
            (ensure_surreal_namespace cli cluster_ns cluster_name ns_name user pass w).1.log
          × ((ensure_surreal_namespace cli cluster_ns cluster_name ns_name user pass w).0 ≡ done tt
              → Accepted
                  (define_namespace ns_name)
                  (ensure_surreal_namespace cli cluster_ns cluster_name ns_name user pass w).1.log)
    unfolding ensure_surreal_namespace
    namespace-Accepted w j =
        let (h, a, b) =
          sent_Justified (define_namespace ns_name) _ (sql_grounds db _)
            (send_sql_lem cli cluster_ns cluster_name user pass (define_namespace ns_name) w) j in
        (h, a)

    database-Accepted :
        (db_name : String) (w : World K.State)
        → Justified (HasGrounds db) w.log
        → Accepted (define_namespace ns_name) w.log
        → Justified
            (HasGrounds db)
            (ensure_surreal_database cli cluster_ns cluster_name ns_name db_name user pass w).1.log
          × ((ensure_surreal_database cli cluster_ns cluster_name ns_name db_name user pass w).0
                ≡ done tt
              → AcceptedAfter
                  (define_namespace ns_name)
                  (define_database ns_name db_name)
                  (ensure_surreal_database cli cluster_ns cluster_name ns_name db_name user pass
                    w).1.log)
    unfolding ensure_surreal_database
    database-Accepted db_name w j acc =
        let (h, a, b) =
          sent_Justified (define_database ns_name db_name) _ (sql_grounds db _)
            (send_sql_lem cli cluster_ns cluster_name user pass (define_database ns_name db_name) w)
            j in
        (h, λ d. b (define_namespace ns_name) d acc)

  module _ (cluster_ns k8s_ns user pass : String) (w : World K.State) where
    define_unless_named :
        (o : Option String)
        → db.metadata.name ≡ o
        → db.metadata.namespace ≡ some k8s_ns
        → Justified (HasGrounds db) w.log
        → Justified
            (HasGrounds db)
            (define cli db cluster_ns (get_or db.spec.db_namespace k8s_ns) user pass w).1.log
    unfolding define fail_with set_phase_msg ◌>>=◌ unwrap send lift attempt pure on_try
    define_unless_named none e h j = ground (
      arith,
      namespace-Accepted cluster_ns db.spec.cluster_ref.name (get_or db.spec.db_namespace k8s_ns)
          user pass w j,
    )
    define_unless_named (some name) e h j = ground (
      arith,
      namespace-Accepted cluster_ns db.spec.cluster_ref.name (get_or db.spec.db_namespace k8s_ns)
          user pass w j,
      database-Accepted cluster_ns db.spec.cluster_ref.name (get_or db.spec.db_namespace k8s_ns)
          user pass (get_or db.spec.db_name name)
          (ensure_surreal_namespace cli cluster_ns db.spec.cluster_ref.name
            (get_or db.spec.db_namespace k8s_ns) user pass w).1,
    )

  get_root_credentials-Justified :
      (cluster_ns cluster_name : String) (w : World K.State)
      → Justified (HasGrounds db) w.log
      → Justified (HasGrounds db) (get_root_credentials cluster_ns cluster_name w).1.log
  unfolding get_root_credentials decoded ◌>>=◌ send lift pure raise on_option
  get_root_credentials-Justified cluster_ns cluster_name w j = ground arith

  reconcile_new-Justified :
      (s : K.State) → Justified (HasGrounds db) (trace (reconcile_new cli db) s)
  unfolding reconcile_new
  reconcile_new-Justified s =
      after_unwrap (Justified (HasGrounds db)) _ (start s) db.metadata.namespace tt λ k8s_ns e.
        after (Justified (HasGrounds db)) _ (start s)
          (get_root_credentials (get_or db.spec.cluster_ref.namespace k8s_ns)
            db.spec.cluster_ref.name)
          (get_root_credentials-Justified _ _ (start s) tt)
          λ root j. define_unless_named _ k8s_ns root.0 root.1 _ db.metadata.name refl e j

  handle-Justified :
      (p : DbPhase) (s : K.State) → Justified (HasGrounds db) (trace (handle cli db p) s)
  unfolding handle pure
  handle-Justified new s = reconcile_new-Justified s
  handle-Justified in_progress s = reconcile_new-Justified s
  handle-Justified ready s = tt
  handle-Justified error s = tt

  -- A reconciliation of a database reports it ready only after it sent the definition of its
  -- namespace and then that of the database in it, and each was answered without an error: through
  -- the API server's proxy that is a status of success, from the service itself any HTTP response.
  pub reconcile-IsDefined : (s : K.State) → Justified (HasGrounds db) (trace (reconcile cli db) s)
  unfolding reconcile
  reconcile-IsDefined s = handle-Justified (current db.status) s

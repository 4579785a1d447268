-- ===== src/Database/Bounds.antt =====
-- src/database/crd.rs: how many requests a reconciliation sends, and when it asks to be repeated.
use sdb_controller.Prelude.{ℕ, ◌+◌, ◌≤◌, arith, Option, String}
use sdb_controller.Error.{Error}
use sdb_controller.Resources.Database.{Database, DbPhase, new, in_progress, ready, error}
use sdb_controller.Service.{Client}
use sdb_controller.Credentials.Bounds.{get_root_credentials-IsBounded, send_sql-IsBounded}
use sdb_controller.Cluster.Bounds.{Within}
use sdb_controller.Database.{
  current, set_phase_msg, ensure_surreal_namespace, ensure_surreal_database, fail_with, define,
  reconcile_new, handle, reconcile,
}
use sdb_controller.Api.{Kube, start, trace, result}
use sdb_controller.Api.Bounds.{
  IsBounded, bound_rules, Any, Returned, length, IsBounded-after, IsBounded-attempt,
  IsBounded-on_try, IsBounded-bind, IsBounded-pure, IsBounded-ignore,
}

module _ ⦃K : Kube⦄ (cli : Client) (db : Database) where
  set_phase_msg-IsBounded :
      (q : DbPhase) (message : Option String) → IsBounded 1 Any (set_phase_msg db q message)
  unfolding set_phase_msg
  set_phase_msg-IsBounded q message = search bound_rules

  fail_with-IsBounded :
      (k : ℕ) (what : String) (e : Error) → IsBounded (1 + k) (Within 20 120) (fail_with db what e)
  unfolding fail_with
  fail_with-IsBounded k what e =
      IsBounded-after 1 k _ _ (IsBounded-ignore _ (set_phase_msg-IsBounded _ _))
        λ x. IsBounded-pure _ (omega arith, omega arith)

  define-IsBounded :
      (cluster_ns ns_name user pass : String)
      → IsBounded 3 (Within 20 120) (define cli db cluster_ns ns_name user pass)
  unfolding define ensure_surreal_namespace ensure_surreal_database
  define-IsBounded cluster_ns ns_name user pass =
      IsBounded-after 1 2 _ _ (IsBounded-attempt _ (send_sql-IsBounded _ _ _ _ _ _)) λ r.
        IsBounded-on_try _ _ _ (fail_with-IsBounded 1 _) λ x.
          IsBounded-bind _ _ (search bound_rules) λ name.
            IsBounded-after 1 1 _ _ (IsBounded-attempt _ (send_sql-IsBounded _ _ _ _ _ _)) λ r'.
              IsBounded-on_try _ _ _ (fail_with-IsBounded 0 _) λ y.
                IsBounded-after 1 0 _ _ (IsBounded-ignore _ (set_phase_msg-IsBounded _ _))
                  λ z. IsBounded-pure _ (omega arith, omega arith)

  new-IsBounded : IsBounded 5 (Within 20 120) (reconcile_new cli db)
  unfolding reconcile_new
  new-IsBounded = IsBounded-bind _ _ (search bound_rules) λ ns.
      IsBounded-after 2 3 _ _ (get_root_credentials-IsBounded _ _) λ x. define-IsBounded _ _ x.0 x.1

  handle-IsBounded : (p : DbPhase) → IsBounded 5 (Within 20 120) (handle cli db p)
  unfolding handle
  handle-IsBounded new = new-IsBounded
  handle-IsBounded in_progress = new-IsBounded
  handle-IsBounded ready = IsBounded-pure _ (omega arith, omega arith)
  handle-IsBounded error = IsBounded-pure _ (omega arith, omega arith)

  -- Whatever the servers answer, a reconciliation of a database sends at most five requests, and one that
  -- returns asks to be repeated after 20 to 120 seconds.
  pub reconcile_database-IsBounded :
      (s : K.State)
      → (length (trace (reconcile cli db) s) ≤ 5)
        × Returned (Within 20 120) (result (reconcile cli db) s)
  unfolding reconcile
  reconcile_database-IsBounded s =
      let (b, r) = (handle-IsBounded (current db.status)).at (start s) in (omega arith, r)

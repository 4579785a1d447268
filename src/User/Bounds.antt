-- ===== src/User/Bounds.antt =====
-- src/user/crd.rs: how many requests a reconciliation sends, and when it asks to be repeated.
use sdb_controller.Prelude.{ℕ, ◌+◌, ◌≤◌, arith, Option, get_or, String}
use sdb_controller.Error.{Error}
use sdb_controller.Resources.User.{User, UserPhase, new, ready, error}
use sdb_controller.Password.Quiet.{generate_user_password-log}
use sdb_controller.Service.{Client}
use sdb_controller.Credentials.Bounds.{get_root_credentials-IsBounded, send_sql-IsBounded}
use sdb_controller.Cluster.Bounds.{Within}
use sdb_controller.User.{
  current, set_phase_msg, ensure_secret, ensure_configmap, provision_user, fail_with, create,
  reconcile_new, handle, reconcile,
}
use sdb_controller.Api.{get_database, Kube, start, trace, result}
use sdb_controller.Api.Bounds.{
  IsBounded, bound_rules, Any, Returned, length, IsBounded-after, IsBounded-attempt,
  IsBounded-on_try, IsBounded-bind, IsBounded-pure, IsBounded-ignore, IsBounded-quiet,
  IsBounded-send, IsBounded-on_option,
}

module _ ⦃K : Kube⦄ (cli : Client) (u : User) where
  set_phase_msg-IsBounded :
      (q : UserPhase) (message : Option String) → IsBounded 1 Any (set_phase_msg u q message)
  unfolding set_phase_msg
  set_phase_msg-IsBounded q message = search bound_rules

  fail_with-IsBounded :
      (k : ℕ) (what : String) (e : Error) → IsBounded (1 + k) (Within 20 180) (fail_with u what e)
  unfolding fail_with
  fail_with-IsBounded k what e =
      IsBounded-after 1 k _ _ (IsBounded-ignore _ (set_phase_msg-IsBounded _ _))
        λ x. IsBounded-pure _ (omega arith, omega arith)

  ensure_secret-IsBounded : (password : String) → IsBounded 1 Any (ensure_secret u password)
  unfolding ensure_secret
  ensure_secret-IsBounded password = search bound_rules depth 10

  ensure_configmap-IsBounded :
      (username cluster_ns cluster_name : String)
      → IsBounded 1 Any (ensure_configmap u username cluster_ns cluster_name)
  unfolding ensure_configmap
  ensure_configmap-IsBounded username cluster_ns cluster_name = search bound_rules depth 10

  create-IsBounded :
      (cluster_ns ns_name db_name username password user pass : String)
      → IsBounded 4
          (Within 20 180)
          (create cli u cluster_ns ns_name db_name username password user pass)
  unfolding create provision_user
  create-IsBounded cluster_ns ns_name db_name username password user pass =
      IsBounded-after 1 3 _ _ (IsBounded-attempt _ (send_sql-IsBounded _ _ _ _ _ _)) λ r.
        IsBounded-on_try _ _ _ (fail_with-IsBounded 2 _) λ x.
          IsBounded-after 1 2 _ _ (IsBounded-attempt _ (ensure_secret-IsBounded _)) λ r'.
            IsBounded-on_try _ _ _ (fail_with-IsBounded 1 _) λ y.
              IsBounded-after 1 1 _ _ (IsBounded-attempt _ (ensure_configmap-IsBounded _ _ _))
                λ r''. IsBounded-on_try _ _ _ (fail_with-IsBounded 0 _) λ z.
                  IsBounded-after 1 0 _ _ (IsBounded-ignore _ (set_phase_msg-IsBounded _ _))
                    λ t. IsBounded-pure _ (omega arith, omega arith)

  new-IsBounded : IsBounded 7 (Within 20 180) (reconcile_new cli u)
  unfolding reconcile_new
  new-IsBounded = IsBounded-bind _ _ (search bound_rules) λ ns.
      IsBounded-send
        (get_database (get_or u.spec.database_ref.namespace ns) u.spec.database_ref.name) _
        λ r. IsBounded-bind _ _ (search bound_rules) λ db.
          IsBounded-after 2 4 _ _ (get_root_credentials-IsBounded _ _) λ x.
            IsBounded-bind _ _ (search bound_rules) λ name.
              IsBounded-bind _ _
                (IsBounded-on_option _ _ _ (IsBounded-quiet _ generate_user_password-log)
                  λ p. search bound_rules)
                λ password. create-IsBounded _ _ _ _ password x.0 x.1

  handle-IsBounded : (p : UserPhase) → IsBounded 7 (Within 20 180) (handle cli u p)
  unfolding handle
  handle-IsBounded new = new-IsBounded
  handle-IsBounded error = new-IsBounded
  handle-IsBounded ready = IsBounded-pure _ (omega arith, omega arith)

  -- Whatever the servers answer, a reconciliation of a user sends at most seven requests, and one that
  -- returns asks to be repeated after 20 to 180 seconds.
  pub reconcile_user-IsBounded :
      (s : K.State)
      → (length (trace (reconcile cli u) s) ≤ 7)
        × Returned (Within 20 180) (result (reconcile cli u) s)
  unfolding reconcile
  reconcile_user-IsBounded s =
      let (b, r) = (handle-IsBounded (current u.status)).at (start s) in (omega arith, r)

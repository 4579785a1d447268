-- ===== src/Cluster/Bounds.antt =====
-- src/cluster/crd.rs: how many requests a reconciliation sends, and when it asks to be repeated.
use sdb_controller.Prelude.{ℕ, ◌+◌, ◌≤◌, arith, Bool, true, false, Option, none, some, String, ◌<>◌}
use sdb_controller.Error.{Error}
use sdb_controller.Resources.Core.{ByteString, PropagationPolicy}
use sdb_controller.Resources.Tidb.{TidbCluster}
use sdb_controller.Resources.Cluster.{
  Cluster, Phase, new, preparing, in_creation, not_ready, in_progress, ready, error,
}
use sdb_controller.Password.Quiet.{generate_secure_password-log}
use sdb_controller.Password.{generate_secure_password}
use sdb_controller.Cluster.Actions.{
  root_secret, persist_root_secret_ref, ensure_root_secret, reconcile_surrealdb_with_mode,
  set_phase, check_ready, reconcile_tidb_cluster,
}
use sdb_controller.Cluster.Bootstrap.{credentials, post_root, bootstrap_root_user}
use sdb_controller.Cluster.Reconcile.{
  Action, requeue, await_change, current, mark, start_creation, after_secret, reconcile_new, found,
  wait_for_tidb, reconcile_preparing, promote, when_created, reconcile_in_creation,
  settle_in_progress, settle_ready, settle_not_ready, reconcile_authenticated, reconcile_error,
  handle, reconcile,
}
use sdb_controller.Cluster.Cleanup.{delete_if_exists, cleanup}
use sdb_controller.Api.{
  create_secret, get_opt_tidb_cluster, Kind, Try, ok, err, Kube, M, start, trace, result,
}
use sdb_controller.Api.Bounds.{
  IsBounded, bound_rules, Any, Returned, length, IsBounded-after, IsBounded-attempt,
  IsBounded-on_try, IsBounded-if, IsBounded-bind, IsBounded-pure, IsBounded-send, IsBounded-quiet,
  IsBounded-on_option, IsBounded-ignore,
}

-- A requeue in at least `lo` and at most `hi` seconds.
abbrev pub Within : (lo hi : ℕ) → Action → Type 0
Within lo hi (requeue n) = (lo ≤ n) × (n ≤ hi)
Within lo hi await_change = ⊥

module _ ⦃K : Kube⦄ (c : Cluster) where
  set_phase-IsBounded : (q : Phase) → IsBounded 1 Any (set_phase c q)
  unfolding set_phase
  set_phase-IsBounded q = search bound_rules

  check_ready-IsBounded : (name : String) → IsBounded 1 Any (check_ready c name)
  unfolding check_ready
  check_ready-IsBounded name = search bound_rules depth 8

  mark-IsBounded :
      (k : ℕ) (q : Phase) (n : ℕ)
      → Within 10 120 (requeue n)
      → IsBounded (1 + k) (Within 10 120) (mark c q n)
  unfolding mark
  mark-IsBounded k q n h =
      IsBounded-after 1 k _ _ (search (bound_rules, set_phase-IsBounded)) λ x. IsBounded-pure _ h

  apply-IsBounded :
      (name : String) (mode : Bool) → IsBounded 2 Any (reconcile_surrealdb_with_mode c name mode)
  unfolding reconcile_surrealdb_with_mode
  apply-IsBounded name mode = search bound_rules depth 16

  password-IsBounded : {k : ℕ} (n : ℕ) → IsBounded k Any (generate_secure_password n)
  password-IsBounded n = IsBounded-quiet _ (generate_secure_password-log n)

  persist-IsBounded : (name : String) → IsBounded 1 Any (persist_root_secret_ref c name)
  unfolding persist_root_secret_ref
  persist-IsBounded name = search bound_rules depth 10

  ensure_root_secret-IsBounded : IsBounded 2 Any (ensure_root_secret c)
  unfolding ensure_root_secret
  ensure_root_secret-IsBounded =
      IsBounded-on_option _ _ _
        (IsBounded-bind _ _ (search bound_rules) λ ns.
          IsBounded-bind _ _ (search bound_rules) λ oref.
            IsBounded-bind _ _ (password-IsBounded 32) λ password.
              IsBounded-send
                (create_secret ns
                  (root_secret ns (K.name_any c.metadata <> "-surrealdb-root") oref password))
                _
                λ r.
                  IsBounded-bind _ _ (search bound_rules)
                    λ x. IsBounded-after 1 0 _ _ (persist-IsBounded _) λ y. search bound_rules)
        (λ a. search bound_rules)

  credentials-IsBounded : (user pass : Option ByteString) → IsBounded 0 Any (credentials user pass)
  unfolding credentials
  credentials-IsBounded none pass = search bound_rules
  credentials-IsBounded (some user) none = search bound_rules
  credentials-IsBounded (some user) (some pass) = search bound_rules

  post_root-IsBounded : (ns name user pass : String) → IsBounded 1 Any (post_root ns name user pass)
  unfolding post_root
  post_root-IsBounded ns name user pass = search bound_rules depth 10

  bootstrap_root_user-IsBounded : (name : String) → IsBounded 2 Any (bootstrap_root_user c name)
  unfolding bootstrap_root_user
  bootstrap_root_user-IsBounded name =
      search (bound_rules, credentials-IsBounded, post_root-IsBounded) depth 16

  reconcile_tidb_cluster-IsBounded :
      (name : String) → IsBounded 1 Any (reconcile_tidb_cluster c name)
  unfolding reconcile_tidb_cluster
  reconcile_tidb_cluster-IsBounded name = search bound_rules depth 10

  -- The requests that the handler of a phase sends at most.
  abbrev pub most : Phase → ℕ
  most new = 5
  most preparing = 5
  most in_creation = 6
  most in_progress = 4
  most not_ready = 4
  most ready = 4
  most error = 2

  start_creation-IsBounded :
      (k : ℕ) (name : String) → IsBounded (2 + k) (Within 10 120) (start_creation c name)
  unfolding start_creation
  start_creation-IsBounded k name =
      IsBounded-after 2 k _ _ (apply-IsBounded name true)
        λ x. IsBounded-pure _ (omega arith, omega arith)

  new-IsBounded : (name : String) → IsBounded 5 (Within 10 120) (reconcile_new c name)
  unfolding reconcile_new after_secret
  new-IsBounded name =
      IsBounded-on_try _ _ _
        (λ e.
          IsBounded-after 1 4 _ _ (set_phase-IsBounded error)
            λ x. IsBounded-pure _ (omega arith, omega arith))
        (λ x. IsBounded-after 2 3 _ _ (IsBounded-attempt _ ensure_root_secret-IsBounded) λ r.
          IsBounded-on_try _ _ _ (λ e. mark-IsBounded 2 error 30 (omega arith, omega arith))
            (λ y. IsBounded-if _ _ _ (mark-IsBounded 2 preparing 10 (omega arith, omega arith)) (
              IsBounded-after 1 2 _ _ (set_phase-IsBounded in_creation)
                λ z. start_creation-IsBounded 0 name)))

  found-IsBounded :
      (name : String) (o : Option TidbCluster) → IsBounded 3 (Within 10 120) (found c name o)
  unfolding found
  found-IsBounded name none = IsBounded-pure _ (omega arith, omega arith)
  found-IsBounded name (some tc) =
      IsBounded-if _ _ _
        (IsBounded-after 1 2 _ _ (IsBounded-ignore _ (set_phase-IsBounded in_creation))
          λ x. start_creation-IsBounded 0 name)
        (IsBounded-pure _ (omega arith, omega arith))

  preparing-IsBounded : (name : String) → IsBounded 5 (Within 10 120) (reconcile_preparing c name)
  unfolding reconcile_preparing wait_for_tidb
  preparing-IsBounded name =
      IsBounded-after 1 4 _ _ (IsBounded-attempt _ (reconcile_tidb_cluster-IsBounded name)) λ r.
        IsBounded-on_try _ _ _ (λ e. IsBounded-pure _ (omega arith, omega arith))
          λ x. IsBounded-bind _ _ (search bound_rules) λ ns.
            IsBounded-send (get_opt_tidb_cluster ns name) _ λ r'.
              IsBounded-on_try _ _ _ (λ e. IsBounded-pure _ (omega arith, omega arith))
                (found-IsBounded name)

  promote-IsBounded : (name : String) → IsBounded 5 (Within 10 120) (promote c name)
  unfolding promote
  promote-IsBounded name =
      IsBounded-after 2 3 _ _ (IsBounded-attempt _ (bootstrap_root_user-IsBounded name)) λ r.
        IsBounded-on_try _ _ _ (λ e. IsBounded-pure _ (omega arith, omega arith))
          λ x. IsBounded-after 1 2 _ _ (IsBounded-ignore _ (set_phase-IsBounded in_progress)) λ y.
            IsBounded-after 2 0 _ _ (apply-IsBounded name false)
              λ z. IsBounded-pure _ (omega arith, omega arith)

  when_created-IsBounded :
      (name : String) (r : Try Error Bool) → IsBounded 5 (Within 10 120) (when_created c name r)
  unfolding when_created
  when_created-IsBounded name (ok true) = promote-IsBounded name
  when_created-IsBounded name (ok false) = IsBounded-pure _ (omega arith, omega arith)
  when_created-IsBounded name (err e) = IsBounded-pure _ (omega arith, omega arith)

  authenticated-IsBounded :
      (name : String) (settle : Try Error Bool → M Action)
      → ((r : Try Error Bool) → IsBounded 1 (Within 10 120) (settle r))
      → IsBounded 4 (Within 10 120) (reconcile_authenticated c name settle)
  unfolding reconcile_authenticated
  authenticated-IsBounded name settle h =
      IsBounded-after 2 2 _ _ (apply-IsBounded name false)
        λ x. IsBounded-after 1 1 _ _ (IsBounded-attempt _ (check_ready-IsBounded name)) h

  settle_in_progress-IsBounded :
      (r : Try Error Bool) → IsBounded 1 (Within 10 120) (settle_in_progress c r)
  unfolding settle_in_progress
  settle_in_progress-IsBounded (ok true) = mark-IsBounded 0 _ _ (omega arith, omega arith)
  settle_in_progress-IsBounded (ok false) = mark-IsBounded 0 _ _ (omega arith, omega arith)
  settle_in_progress-IsBounded (err e) = mark-IsBounded 0 _ _ (omega arith, omega arith)

  settle_ready-IsBounded : (r : Try Error Bool) → IsBounded 1 (Within 10 120) (settle_ready c r)
  unfolding settle_ready
  settle_ready-IsBounded (ok true) = IsBounded-pure _ (omega arith, omega arith)
  settle_ready-IsBounded (ok false) = mark-IsBounded 0 _ _ (omega arith, omega arith)
  settle_ready-IsBounded (err e) = mark-IsBounded 0 _ _ (omega arith, omega arith)

  settle_not_ready-IsBounded :
      (r : Try Error Bool) → IsBounded 1 (Within 10 120) (settle_not_ready c r)
  unfolding settle_not_ready
  settle_not_ready-IsBounded (ok true) = mark-IsBounded 0 _ _ (omega arith, omega arith)
  settle_not_ready-IsBounded (ok false) = IsBounded-pure _ (omega arith, omega arith)
  settle_not_ready-IsBounded (err e) = IsBounded-pure _ (omega arith, omega arith)

  handle-IsBounded :
      (name : String) (p : Phase) → IsBounded (most p) (Within 10 120) (handle c name p)
  unfolding handle reconcile_in_creation reconcile_error
  handle-IsBounded name new = new-IsBounded name
  handle-IsBounded name preparing = preparing-IsBounded name
  handle-IsBounded name in_creation =
      IsBounded-after 1 5 _ _ (IsBounded-attempt _ (check_ready-IsBounded name))
        (when_created-IsBounded name)
  handle-IsBounded name in_progress = authenticated-IsBounded name _ settle_in_progress-IsBounded
  handle-IsBounded name not_ready = authenticated-IsBounded name _ settle_not_ready-IsBounded
  handle-IsBounded name ready = authenticated-IsBounded name _ settle_ready-IsBounded
  handle-IsBounded name error =
      IsBounded-after 2 0 _ _ (IsBounded-ignore _ (apply-IsBounded name false))
        λ x. IsBounded-pure _ (omega arith, omega arith)

  deleted-IsBounded :
      (kind : Kind) (name : String) (policy : Option PropagationPolicy)
      → IsBounded 2 Any (delete_if_exists c kind name policy)
  unfolding delete_if_exists
  deleted-IsBounded kind name policy = search bound_rules depth 14

  cleanup-IsBounded : IsBounded 9 Any (cleanup c)
  unfolding cleanup
  cleanup-IsBounded = IsBounded-after 2 7 _ _ (deleted-IsBounded _ _ _) λ x.
      IsBounded-after 2 5 _ _ (deleted-IsBounded _ _ _) λ y.
        IsBounded-after 2 3 _ _ (deleted-IsBounded _ _ _)
          λ z. IsBounded-after 2 1 _ _ (deleted-IsBounded _ _ _) λ u. search bound_rules

  -- Whatever the API server answers, a reconciliation sends no more requests than `most` says for the phase
  -- of the cluster, at most six; and one that returns asks to be repeated, after 10 seconds at the
  -- earliest and 120 at the latest. A cleanup sends at most nine requests.
  pub reconcile_cluster-IsBounded :
      (s : K.State)
      → (length (trace (reconcile c) s) ≤ most (current c.status))
        × Returned (Within 10 120) (result (reconcile c) s)
        × (length (trace (cleanup c) s) ≤ 9)
  unfolding reconcile
  reconcile_cluster-IsBounded s =
      let (b, r) = (handle-IsBounded (K.name_any c.metadata) (current c.status)).at (start s) in
      let (d, x) = cleanup-IsBounded.at (start s) in (omega arith, r, omega arith)

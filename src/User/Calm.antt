-- ===== src/User/Calm.antt =====
-- src/user/crd.rs: the panics that a reconciliation of a user may meet.
use sdb_controller.Prelude.{◌≡◌, Option, some, String}
use sdb_controller.Error.{Error}
use sdb_controller.Resources.User.{User, UserPhase, new, ready, error}
use sdb_controller.Password.Shape.{IsFair}
use sdb_controller.Password.Calm.{generate_user_password-IsCalm}
use sdb_controller.Service.{Client}
use sdb_controller.Credentials.Calm.{TakesBase64, send_sql-IsCalm, get_root_credentials-IsCalm}
use sdb_controller.User.{
  current, set_phase_msg, ensure_secret, ensure_configmap, provision_user, fail_with, create,
  reconcile_new, handle, reconcile,
}
use sdb_controller.Api.{Kube, start}
use sdb_controller.Api.Calm.{Returns, IsCalm, calm_rules}

module _ ⦃K : Kube⦄ (u : User) (ns name : String) where
  set_phase_msg-IsCalm :
      (q : UserPhase) (message : Option String)
      → u.metadata.namespace ≡ some ns
      → IsCalm (set_phase_msg u q message)
  unfolding set_phase_msg
  set_phase_msg-IsCalm q message h = search calm_rules

  fail_with-IsCalm :
      (what : String) (e : Error) → u.metadata.namespace ≡ some ns → IsCalm (fail_with u what e)
  unfolding fail_with
  fail_with-IsCalm what e h = search (calm_rules, set_phase_msg-IsCalm) depth 8

  ensure_secret-IsCalm :
      (password : String) → u.metadata.namespace ≡ some ns → IsCalm (ensure_secret u password)
  unfolding ensure_secret
  ensure_secret-IsCalm password h = search calm_rules depth 8

  ensure_configmap-IsCalm :
      (username cluster_ns cluster_name : String)
      → u.metadata.namespace ≡ some ns
      → IsCalm (ensure_configmap u username cluster_ns cluster_name)
  unfolding ensure_configmap
  ensure_configmap-IsCalm username cluster_ns cluster_name h = search calm_rules depth 8

  provision_user-IsCalm :
      (cli : Client) (cluster_ns cluster_name ns_name db_name username password user pass : String)
      → TakesBase64
      → IsCalm
          (provision_user cli cluster_ns cluster_name ns_name db_name username password user pass)
  unfolding provision_user
  provision_user-IsCalm cli cluster_ns cluster_name ns_name db_name username password user pass t =
      send_sql-IsCalm cli _ _ _ _ _ t

  create-IsCalm :
      (cli : Client) (cluster_ns ns_name db_name username password user pass : String)
      → u.metadata.namespace ≡ some ns
      → TakesBase64
      → IsCalm (create cli u cluster_ns ns_name db_name username password user pass)
  unfolding create
  create-IsCalm cli cluster_ns ns_name db_name username password user pass h t =
      search
        (
          calm_rules, provision_user-IsCalm, ensure_secret-IsCalm, ensure_configmap-IsCalm,
          fail_with-IsCalm, set_phase_msg-IsCalm,
        )
        depth 16

  module _ (home : u.metadata.namespace ≡ some ns) (named : u.metadata.name ≡ some name)
      (fair : IsFair) (t : TakesBase64) where
    reconcile_new-IsCalm : (cli : Client) → IsCalm (reconcile_new cli u)
    unfolding reconcile_new
    reconcile_new-IsCalm cli =
        search
          (calm_rules, get_root_credentials-IsCalm, generate_user_password-IsCalm, create-IsCalm)
          depth 14

    handle-IsCalm : (cli : Client) (p : UserPhase) → IsCalm (handle cli u p)
    unfolding handle
    handle-IsCalm cli new = reconcile_new-IsCalm cli
    handle-IsCalm cli error = reconcile_new-IsCalm cli
    handle-IsCalm cli ready = search calm_rules

-- Where random numbers lie in their ranges and the authorization header accepts the output of
-- base64, the reconciliation of a user that has a name and a namespace returns or fails with an
-- error, whatever the servers answer, and it never panics.
pub reconcile_user-Returns :
    ⦃K : Kube⦄ (cli : Client) (u : User) (ns name : String)
    → u.metadata.namespace ≡ some ns
    → u.metadata.name ≡ some name
    → IsFair
    → TakesBase64
    → (s : K.State) → Returns (reconcile cli u (start s)).0
unfolding reconcile
reconcile_user-Returns cli u ns name home named fair t s =
    (handle-IsCalm u ns name home named fair t cli (current u.status)).at (start s)

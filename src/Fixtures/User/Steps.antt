-- ===== src/Fixtures/User/Steps.antt =====
-- src/user/crd.rs: the steps of a user's reconciliation under the handlers made for them.
use sdb_controller.Prelude.{
  ◌≡◌, refl, false, Option, none, some, get_or, String, ◌<>◌, List, [], ◌∷◌,
}
use sdb_controller.Error.{kube_error, transport}
use sdb_controller.Resources.User.{User, UserPhase, ready}
use sdb_controller.Password.{generate_user_password}
use sdb_controller.Password.Shape.{IsFair, generate_user_password-Shape}
use sdb_controller.Service.{Client}
use sdb_controller.Cluster.Reconcile.{Action, requeue}
use sdb_controller.User.{
  set_phase_msg, credentials_secret, ensure_secret, connection_config, ensure_configmap,
  provision_user, create, reconcile_new, effective_username,
}
use sdb_controller.Api.{
  patch_user_status, create_secret, create_config_map, get_database, Kube, M, Outcome, ok, err,
  done, failed, pure, on_try, on_option, ◌>>=◌,
}
use sdb_controller.Fixtures.Texts.{contains, contains-unmentioned}
use sdb_controller.Fixtures.Wire.{Wire, IsKubernetes}
use sdb_controller.Fixtures.Server.{
  ApiServerVerifier, Handler, IsMocked, Meets, Meets-found, Meets-asked, Meets-replied,
  Meets-lift-err, Meets-pure, Meets-bind, Meets-send-closed, Meets-tried, Meets-ignored-failed,
}
use sdb_controller.Fixtures.Drawn.{Meets-drawn, user-IsUnseen}
use sdb_controller.Fixtures.Credentials.{
  IsReachable, send_sql-Meets, answer_cluster, handle_get_secret_root, get_root_credentials-Meets,
}
use sdb_controller.Fixtures.User.{
  handle_get_database, define_user_ok, handle_create_secret, handle_create_configmap,
}
use sdb_controller.Fixtures.User.Words.{grant}
use sdb_controller.Fixtures.User.Accepted.{
  secret-Accepted, config-Accepted, database-Accepted, user-Accepted,
}

module _ ⦃K : Kube⦄ where
  -- No name and no password has the text that the fixture forbids.
  pub record IsUngranted (u : User) (ns : String) : Type 0 where
    pub of_home : contains grant ns ≡ false
    pub of_username : contains grant (effective_username u.spec (K.name_any u.metadata)) ≡ false
    pub of_password :
        (password : String) → u.spec.password ≡ some password → contains grant password ≡ false

module _ ⦃K : Kube⦄ (verifier : K.State → ApiServerVerifier) (mocked : IsMocked verifier)
    (wire : Wire) (k : IsKubernetes wire) (u : User) (ns : String)
    (home : u.metadata.namespace ≡ some ns) where
  abbrev own : String
  own = K.name_any u.metadata

  set_phase_msg-Closed :
      (q : UserPhase) (message : Option String)
      → Meets verifier mocked []
          (set_phase_msg u q message)
          (failed (kube_error (transport "closed")))
          []
  unfolding set_phase_msg
  set_phase_msg-Closed q message = Meets-found verifier mocked _ ns _ home (
      Meets-bind verifier mocked _ _ (err (transport "closed")) _
        (Meets-send-closed verifier mocked (patch_user_status ns own q message))
        (Meets-lift-err verifier mocked kube_error (transport "closed")))

  ensure_secret-Meets :
      {rest : List Handler} (password : String)
      → u.spec.secret_name ≡ none
      → Meets verifier mocked
          (handle_create_secret wire u ∷ rest)
          (ensure_secret u password)
          (done (own <> "-credentials"))
          rest
  unfolding ensure_secret
  ensure_secret-Meets password default = Meets-found verifier mocked _ ns _ home (
      simp default (
        Meets-asked verifier mocked
          (create_secret ns (credentials_secret u ns (own <> "-credentials") password)) _ (ok tt) _
          (secret-Accepted verifier mocked wire k u ns home password)
          (Meets-replied verifier mocked kube_error tt _
            (Meets-pure verifier mocked (own <> "-credentials")))))

  -- A password that is given or drawn.
  chosen-Meets :
      {before after : List Handler} {p : Outcome Action} (o : Option String) (f : String → M Action)
      → ((password : String) → o ≡ some password → contains grant password ≡ false)
      → IsFair
      → ((password : String)
          → contains grant password ≡ false
          → Meets verifier mocked before (f password) p after)
      → Meets verifier mocked before (on_option o generate_user_password pure >>= f) p after
  unfolding on_option
  chosen-Meets none f quiet fair h =
      Meets-drawn verifier mocked _ _ f (user-IsUnseen verifier mocked)
        (generate_user_password-Shape fair)
        λ password shape. h password (contains-unmentioned " " grant password refl shape.unspaced)
  chosen-Meets (some password) f quiet fair h =
      Meets-bind verifier mocked _ f password _ (Meets-pure verifier mocked password)
        (h password (quiet password refl))

  abbrev cname : String
  cname = u.spec.cluster_ref.name

  -- The username is free of the text that the fixture forbids, and so is the password.
  module _ (cns : String) (far : IsReachable cns cname) (username : String)
      (named : contains grant username ≡ false) (at_home : contains grant ns ≡ false) where
    create-Meets :
        (password : String)
        → contains grant password ≡ false
        → u.spec.secret_name ≡ none
        → Meets verifier mocked
            (define_user_ok wire cns cname
              ∷ handle_create_secret wire u
              ∷ handle_create_configmap wire u
              ∷ [])
            (create Client.kube u cns ns "app" username password "root" "root")
            (done (requeue 120))
            []
    unfolding create provision_user ensure_configmap on_try
    create-Meets password h default =
        Meets-tried verifier mocked _ tt _
          (send_sql-Meets verifier mocked wire k cns cname far _ _ (
            user-Accepted verifier mocked wire k u ns home cns far username named at_home password
              h))
          (Meets-tried verifier mocked _ (own <> "-credentials") _
            (ensure_secret-Meets password default)
            (Meets-tried verifier mocked _ (own <> "-config") _
              (Meets-found verifier mocked _ ns _ home (
                Meets-asked verifier mocked
                  (create_config_map ns
                    (connection_config u ns (own <> "-config") username cns cname))
                  _ (ok tt) _ (config-Accepted verifier mocked wire k u ns home username cns cname)
                  (Meets-replied verifier mocked kube_error tt _
                    (Meets-pure verifier mocked (own <> "-config")))))
              (Meets-ignored-failed verifier mocked _ _ _ (set_phase_msg-Closed ready none)
                (Meets-pure verifier mocked (requeue 120)))))

  abbrev pub cns : String
  cns = get_or u.spec.cluster_ref.namespace ns

  pub reconcile_new-Meets :
      IsReachable cns cname
      → IsFair
      → IsUngranted u ns
      → u.metadata.name ≡ some own
      → u.spec.secret_name ≡ none
      → u.spec.database_ref.namespace ≡ none
      → Meets verifier mocked
          (handle_get_database wire u
            ∷ answer_cluster wire cns cname
            ∷ handle_get_secret_root wire cns
            ∷ define_user_ok wire cns cname
            ∷ handle_create_secret wire u
            ∷ handle_create_configmap wire u
            ∷ [])
          (reconcile_new Client.kube u)
          (done (requeue 120))
          []
  unfolding reconcile_new
  reconcile_new-Meets far fair quiet named default near = Meets-found verifier mocked _ ns _ home (
      simp near (
        Meets-asked verifier mocked (get_database ns u.spec.database_ref.name) _ (ok _) _
          (database-Accepted verifier mocked wire k u ns home)
          (Meets-replied verifier mocked kube_error _ _ (
            Meets-bind verifier mocked _ _ ("root", "root") _
              (get_root_credentials-Meets verifier mocked wire k cns cname)
              (Meets-found verifier mocked _ own _ named (
                chosen-Meets u.spec.password _ quiet.of_password fair λ password h.
                  create-Meets cns far (effective_username u.spec own) quiet.of_username
                    quiet.of_home password h default))))))

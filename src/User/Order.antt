-- ===== src/User/Order.antt =====
-- src/user/crd.rs: what a reconciliation of a user has done before it reports the user ready.
use sdb_controller.Prelude.{
  ◌≡◌, arith, true, ◌<>◌, Option, none, some, get_or, String, List, [], lookup,
}
use sdb_controller.Error.{KubeError, kube_error, has_code}
use sdb_controller.Resources.Core.{utf8}
use sdb_controller.Resources.Database.{Database}
use sdb_controller.Resources.User.{User, UserPhase, new, ready, error}
use sdb_controller.Password.{generate_user_password}
use sdb_controller.Password.Quiet.{generate_user_password-log}
use sdb_controller.Sql.{define_user}
use sdb_controller.Service.{Client}
use sdb_controller.Credentials.{get_root_credentials, decoded}
use sdb_controller.Credentials.Sent.{Accepted, sql_of, sent_Justified, send_sql_lem}
use sdb_controller.User.{
  current, effective_username, set_phase_msg, ensure_secret, ensure_configmap, credentials_secret,
  connection_config, provision_user, fail_with, create, reconcile_new, handle, reconcile,
}
use sdb_controller.Api.{
  Call, patch_user_status, create_secret, create_config_map, get_database, Try, ok, err, Fault,
  Reply, Entry, done, World, start, Kube, is_done, trace, pure, unwrap, send, lift, attempt, on_try,
  on_option, raise, ◌>>=◌,
}
use sdb_controller.Api.Grounds.{Some, Justified, after, after_unwrap}

-- The answer to a request that creates an object: success, or the conflict with one that is there.
abbrev pub IsThere : {A : Type 0} → Try KubeError A → Type 0
IsThere (ok a) = Unit
IsThere (err e) = has_code 409 e ≡ true

module _ ⦃K : Kube⦄ (u : User) where
  -- A secret with this password, under the name of the specification or that of the resource, was to be
  -- created, and now it or another secret of its name is there.
  abbrev pub KeepsPassword : String → (call : Call) → Try (Fault call) (Reply call) → Type 0
  KeepsPassword password (create_secret ns secret) reply =
      (u.metadata.namespace ≡ some ns)
      × (secret.metadata.name
          ≡ some (get_or u.spec.secret_name (K.name_any u.metadata <> "-credentials")))
      × (lookup "password" (get_or secret.bytes []) ≡ some (utf8 password))
      × IsThere reply
  KeepsPassword password other reply = ⊥

  -- The same of a config map with this username.
  abbrev pub NamesUser : String → (call : Call) → Try (Fault call) (Reply call) → Type 0
  NamesUser username (create_config_map ns config) reply =
      (u.metadata.namespace ≡ some ns)
      × (config.metadata.name ≡ some (K.name_any u.metadata <> "-config"))
      × (lookup "username" (get_or config.strings []) ≡ some username)
      × IsThere reply
  NamesUser username other reply = ⊥

  abbrev pub IsProvided : (ns_name db_name username password : String) → List Entry → Type 0
  IsProvided ns_name db_name username password l =
      Accepted (define_user ns_name db_name username password) l
      × Some (λ e. KeepsPassword password e.call e.reply) l
      × Some (λ e. NamesUser username e.call e.reply) l

  -- The SQL that defines the user was answered without an error, under the name of the
  -- specification or, without it, that of the resource, and the requests to create a secret with
  -- the password of that SQL and a config map with that name had success or met a conflict.
  unfoldable pub IsReachable : List Entry → Type 0
  IsReachable l =
      (name : String) × (ns_name : String) × (db_name : String) × (password : String)
      × (u.metadata.name ≡ some name)
      × IsProvided ns_name db_name (effective_username u.spec name) password l

  abbrev pub HasGrounds : Call → List Entry → Type 0
  HasGrounds (patch_user_status ns name ready message) l = IsReachable l
  HasGrounds other l = Unit

  reachable :
      (name ns_name db_name password : String) (l : List Entry)
      → u.metadata.name ≡ some name
      → IsProvided ns_name db_name (effective_username u.spec name) password l
      → IsReachable l
  unfolding IsReachable
  reachable name ns_name db_name password l e h = (name, ns_name, db_name, password, e, h)

  sql_grounds :
      (sql : String) (call : Call) (l : List Entry) → sql_of call ≡ some sql → HasGrounds call l
  sql_grounds sql call l e = ground arith

module _ ⦃K : Kube⦄ (cli : Client) (u : User) where
  module _ (cluster_ns cluster_name ns_name db_name username password user pass : String) where
    user-Accepted :
        (w : World K.State)
        → Justified (HasGrounds u) w.log
        → Justified
            (HasGrounds u)
            (provision_user cli cluster_ns cluster_name ns_name db_name username password user pass
              w).1.log
          × ((provision_user cli cluster_ns cluster_name ns_name db_name username password user pass
                  w).0
                ≡ done tt
              → Accepted
                  (define_user ns_name db_name username password)
                  (provision_user cli cluster_ns cluster_name ns_name db_name username password user
                    pass w).1.log)
    unfolding provision_user
    user-Accepted w j =
        let sql = define_user ns_name db_name username password in
        let (h, a, b) =
          sent_Justified sql _ (sql_grounds u sql)
            (send_sql_lem cli cluster_ns cluster_name user pass sql w) j in
        (h, a)

  secret_kept :
      (sql password : String) (w : World K.State)
      → Justified (HasGrounds u) w.log
      → Accepted sql w.log
      → Justified (HasGrounds u) (ensure_secret u password w).1.log
        × Accepted sql (ensure_secret u password w).1.log
        × (is_done (ensure_secret u password w).0 ≡ true
            → Some
                (λ e. KeepsPassword u password e.call e.reply)
                (ensure_secret u password w).1.log)
  unfolding ensure_secret credentials_secret ◌>>=◌ unwrap send lift pure
  secret_kept sql password w j a = ground arith

  config_kept :
      (sql password username cluster_ns cluster_name : String) (w : World K.State)
      → Justified (HasGrounds u) w.log
      → Accepted sql w.log
      → Some (λ e. KeepsPassword u password e.call e.reply) w.log
      → Justified (HasGrounds u) (ensure_configmap u username cluster_ns cluster_name w).1.log
        × Accepted sql (ensure_configmap u username cluster_ns cluster_name w).1.log
        × Some
            (λ e. KeepsPassword u password e.call e.reply)
            (ensure_configmap u username cluster_ns cluster_name w).1.log
        × (is_done (ensure_configmap u username cluster_ns cluster_name w).0 ≡ true
            → Some
                (λ e. NamesUser u username e.call e.reply)
                (ensure_configmap u username cluster_ns cluster_name w).1.log)
  unfolding ensure_configmap connection_config ◌>>=◌ unwrap send lift pure
  config_kept sql password username cluster_ns cluster_name w j a k = ground arith

  module _ (cluster_ns ns_name db_name name password user pass : String) (w : World K.State) where
    create-Justified :
        u.metadata.name ≡ some name
        → Justified (HasGrounds u) w.log
        → Justified
            (HasGrounds u)
            (create cli u cluster_ns ns_name db_name
              (effective_username u.spec name)
              password
              user
              pass
              w).1.log
    unfolding create fail_with set_phase_msg ◌>>=◌ unwrap send lift attempt pure on_try
    create-Justified e j =
        let username = effective_username u.spec name in
        let cluster_name = u.spec.cluster_ref.name in
        let sql = define_user ns_name db_name username password in
        let w1 =
          (provision_user cli cluster_ns cluster_name ns_name db_name username password user pass
            w).1 in
        let w2 = (ensure_secret u password w1).1 in
        ground (
          arith,
          user-Accepted cluster_ns cluster_name ns_name db_name username password user pass w j,
          secret_kept sql password w1,
          config_kept sql password username cluster_ns cluster_name w2,
          reachable u name ns_name db_name password
              (ensure_configmap u username cluster_ns cluster_name w2).1.log e,
        )

  get_root_credentials-Justified :
      (cluster_ns cluster_name : String) (w : World K.State)
      → Justified (HasGrounds u) w.log
      → Justified (HasGrounds u) (get_root_credentials cluster_ns cluster_name w).1.log
  unfolding get_root_credentials decoded ◌>>=◌ send lift pure raise on_option
  get_root_credentials-Justified cluster_ns cluster_name w j = ground arith

  get_database-Justified :
      (ns name : String) (w : World K.State)
      → Justified (HasGrounds u) w.log
      → Justified (HasGrounds u) (send (get_database ns name) w).1.log
  unfolding send
  get_database-Justified ns name w j = (tt, j)

  lift-Justified :
      (r : Try KubeError Database) (w : World K.State)
      → Justified (HasGrounds u) w.log
      → Justified (HasGrounds u) (lift kube_error r w).1.log
  unfolding lift
  lift-Justified r w j = ground arith

  password-Justified :
      (o : Option String) (w : World K.State)
      → Justified (HasGrounds u) w.log
      → Justified (HasGrounds u) (on_option o generate_user_password pure w).1.log
  unfolding on_option pure
  password-Justified none w j = rw (generate_user_password-log w) j
  password-Justified (some p) w j = j

  reconcile_new-Justified : (s : K.State) → Justified (HasGrounds u) (trace (reconcile_new cli u) s)
  unfolding reconcile_new
  reconcile_new-Justified s = after_unwrap J _ (start s) u.metadata.namespace tt λ k8s_ns _.
      after J _ _
        (send (get_database (get_or u.spec.database_ref.namespace k8s_ns) u.spec.database_ref.name))
        (get_database-Justified _ _ (start s) tt)
        λ r j. after J _ _ (lift kube_error r) (lift-Justified r _ j) λ db j.
          after J _ _
            (get_root_credentials (get_or u.spec.cluster_ref.namespace k8s_ns)
              u.spec.cluster_ref.name)
            (get_root_credentials-Justified _ _ _ j)
            λ root j. after_unwrap J _ _ u.metadata.name j λ name e.
              after J _ _ (on_option u.spec.password generate_user_password pure)
                (password-Justified u.spec.password _ j)
                λ password j. create-Justified _ _ _ name password root.0 root.1 _ e j
    where
      J : List Entry → Type 0
      J = Justified (HasGrounds u)

  handle-Justified :
      (p : UserPhase) (s : K.State) → Justified (HasGrounds u) (trace (handle cli u p) s)
  unfolding handle pure
  handle-Justified new s = reconcile_new-Justified s
  handle-Justified error s = reconcile_new-Justified s
  handle-Justified ready s = tt

  -- A reconciliation of a user reports the user ready only after it sent the SQL that defines the
  -- user and this was answered without an error (through the API server's proxy a status of
  -- success, from the service itself any HTTP response), and after it asked, in the namespace of the
  -- resource, for the creation of a secret with the password of that SQL and of a config map with its
  -- user name, under the names that the resource gives them. Each of the two requests was answered
  -- with success or with a conflict; nothing is said of what an object that was there already holds.
  pub reconcile-IsReachable : (s : K.State) → Justified (HasGrounds u) (trace (reconcile cli u) s)
  unfolding reconcile
  reconcile-IsReachable s = handle-Justified (current u.status) s

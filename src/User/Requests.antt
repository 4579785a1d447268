-- ===== src/User/Requests.antt =====
-- src/user/crd.rs: every request of a user's reconciliation.
use sdb_controller.Error.{Error}
use sdb_controller.Prelude.{◌≡◌, refl, ap, Option, none, some, get_or, String, All, ◌<>◌}
use sdb_controller.Resources.User.{User, UserPhase, new, ready, error}
use sdb_controller.Sql.{define_user}
use sdb_controller.Password.{generate_user_password}
use sdb_controller.Password.Quiet.{generate_user_password-Logs}
use sdb_controller.Service.{Client}
use sdb_controller.Credentials.{get_root_credentials, decoded}
use sdb_controller.Credentials.Sent.{sql_of, Logs-send_sql}
use sdb_controller.User.{
  current, effective_username, set_phase_msg, provision_user, ensure_secret, ensure_configmap,
  credentials_secret, connection_config, fail_with, create, reconcile_new, handle, reconcile,
}
use sdb_controller.Api.{
  Call, patch_user_status, create_secret, create_config_map, get_database, get_cluster, get_secret,
  request_text, execute, Kube, M, send, pure, on_option, ◌>>=◌, trace,
}
use sdb_controller.Api.Logs.{
  Logs, Logs-trace, Logs-send, Logs-bind, Logs-bind-unwrap, Logs-lift, logs_rules, careful_rules,
}

-- The phases in which a user is made.
abbrev pub IsPending : UserPhase → Type 0
IsPending ready = ⊥
IsPending other = Unit

-- A phase that a reconciliation writes, with its message.
abbrev pub IsReport : UserPhase → Option String → Type 0
IsReport ready none = Unit
IsReport error (some message) = Unit
IsReport other message = ⊥

module _ ⦃K : Kube⦄ (u : User) (p : UserPhase) where
  abbrev pub IsHome : String → Type 0
  IsHome ns = u.metadata.namespace ≡ some ns

  -- The namespace of the cluster that the user refers to.
  abbrev pub IsClusterSpace : String → Type 0
  IsClusterSpace ns =
      (k8s_ns : String) × IsHome k8s_ns × (ns ≡ get_or u.spec.cluster_ref.namespace k8s_ns)

  -- The definition of the user with a password, which is the specification's if it has one.
  abbrev pub IsProvision : Option String → Type 0
  IsProvision sql =
      (name : String) × (ns_name : String) × (db_name : String) × (password : String)
      × (u.metadata.name ≡ some name)
      × (get_or u.spec.password password ≡ password)
      × (sql ≡ some (define_user ns_name db_name (effective_username u.spec name) password))

  -- What a reconciliation of `u` from the phase `p` may ask.
  abbrev pub IsPermitted : Call → Type 0
  IsPermitted (patch_user_status ns name q message) =
      IsHome ns × (name ≡ K.name_any u.metadata) × IsReport q message
  IsPermitted (get_database ns name) =
      (name ≡ u.spec.database_ref.name)
      × (k8s_ns : String) × IsHome k8s_ns
      × (ns ≡ get_or u.spec.database_ref.namespace k8s_ns)
  IsPermitted (get_cluster ns name) = (name ≡ u.spec.cluster_ref.name) × IsClusterSpace ns
  IsPermitted (get_secret ns name) = IsClusterSpace ns
  IsPermitted (create_secret ns secret) =
      IsHome ns
      × (secret.metadata.name
          ≡ some (get_or u.spec.secret_name (K.name_any u.metadata <> "-credentials")))
  IsPermitted (create_config_map ns config) =
      IsHome ns × (config.metadata.name ≡ some (K.name_any u.metadata <> "-config"))
  IsPermitted (request_text request) = IsProvision (some request.body)
  IsPermitted (execute request) = IsProvision (some request.body)
  IsPermitted other = ⊥

  abbrev Permits : {A : Type 0} → M A → Type 0
  Permits m = Logs (λ e. IsPermitted e.call × IsPending p) m

  sql-IsPermitted :
      (call : Call) (sql : String)
      → IsProvision (some sql)
      → sql_of call ≡ some sql
      → IsPermitted call
  sql-IsPermitted (request_text request) sql h e = rw e h
  sql-IsPermitted (execute request) sql h e = rw e h
  sql-IsPermitted call sql h e = cc

  module _ (i : IsPending p) where
    set_phase_msg-Permits :
        (q : UserPhase) (message : Option String)
        → IsReport q message
        → Permits (set_phase_msg u q message)
    unfolding set_phase_msg
    set_phase_msg-Permits q message h = search careful_rules

    fail_with-Permits : (what : String) (e : Error) → Permits (fail_with u what e)
    unfolding fail_with
    fail_with-Permits what e = search (logs_rules, set_phase_msg-Permits) depth 8

    ensure_secret-Permits : (password : String) → Permits (ensure_secret u password)
    unfolding ensure_secret credentials_secret
    ensure_secret-Permits password = search careful_rules depth 10

    ensure_configmap-Permits :
        (username cluster_ns cluster_name : String)
        → Permits (ensure_configmap u username cluster_ns cluster_name)
    unfolding ensure_configmap connection_config
    ensure_configmap-Permits username cluster_ns cluster_name = search careful_rules depth 10

    module _ (k8s_ns : String) (h : u.metadata.namespace ≡ some k8s_ns) where
      get_database-Permits : Permits (
          send
            (get_database (get_or u.spec.database_ref.namespace k8s_ns) u.spec.database_ref.name))
      get_database-Permits =
          Logs-send
            (get_database (get_or u.spec.database_ref.namespace k8s_ns) u.spec.database_ref.name)
            λ r. ((refl, k8s_ns, h, refl), i)

      get_cluster-Permits :
          Permits (
            send (get_cluster (get_or u.spec.cluster_ref.namespace k8s_ns) u.spec.cluster_ref.name))
      get_cluster-Permits =
          Logs-send
            (get_cluster (get_or u.spec.cluster_ref.namespace k8s_ns) u.spec.cluster_ref.name)
            λ r. ((refl, (k8s_ns, h, refl)), i)

      get_secret-Permits :
          (name : String)
          → Permits (send (get_secret (get_or u.spec.cluster_ref.namespace k8s_ns) name))
      get_secret-Permits name =
          Logs-send (get_secret (get_or u.spec.cluster_ref.namespace k8s_ns) name)
            λ r. ((k8s_ns, h, refl), i)

      get_root_credentials-Permits : Permits (
          get_root_credentials (get_or u.spec.cluster_ref.namespace k8s_ns) u.spec.cluster_ref.name)
      unfolding get_root_credentials decoded
      get_root_credentials-Permits =
          search (logs_rules, get_cluster-Permits, get_secret-Permits) depth 12

    module _ (cli : Client) (cluster_ns ns_name db_name name password user pass : String) where
      provision_user-Permits :
          (cluster_name : String)
          → u.metadata.name ≡ some name
          → get_or u.spec.password password ≡ password
          → Permits (
              provision_user cli cluster_ns cluster_name ns_name db_name
                (effective_username u.spec name)
                password
                user
                pass)
      unfolding provision_user
      provision_user-Permits cluster_name n g =
          Logs-send_sql cli cluster_ns cluster_name user pass _
            λ e s. (sql-IsPermitted e.call _ (name, ns_name, db_name, password, n, g, refl) s, i)

      create-Permits :
          u.metadata.name ≡ some name
          → get_or u.spec.password password ≡ password
          → Permits (
              create cli u cluster_ns ns_name db_name
                (effective_username u.spec name)
                password
                user
                pass)
      unfolding create
      create-Permits n g =
          search
            (
              logs_rules, provision_user-Permits, ensure_secret-Permits, ensure_configmap-Permits,
              fail_with-Permits, set_phase_msg-Permits,
            )
            depth 16

    -- The password is the specification's, or a new one.
    password-Permits :
        {B : Type 0} (f : String → M B) (o : Option String)
        → u.spec.password ≡ o
        → ((a : String) → get_or u.spec.password a ≡ a → Permits (f a))
        → Permits (on_option o generate_user_password pure >>= f)
    unfolding on_option pure ◌>>=◌
    password-Permits f none e g =
        Logs-bind generate_user_password f generate_user_password-Logs
          λ a. g a (ap (λ o. get_or o a) e)
    password-Permits f (some p) e g = record { at = (g p (ap (λ o. get_or o p) e)).at }

    reconcile_new-Permits : (cli : Client) → Permits (reconcile_new cli u)
    unfolding reconcile_new
    reconcile_new-Permits cli = Logs-bind-unwrap _ _ λ k8s_ns h.
        Logs-bind _ _ (get_database-Permits k8s_ns h) λ r. Logs-bind _ _ (Logs-lift _ _) λ db.
          Logs-bind _ _ (get_root_credentials-Permits k8s_ns h) λ root.
            Logs-bind-unwrap _ _ λ name n.
              password-Permits _ u.spec.password refl
                λ password g. create-Permits cli _ _ _ name password root.0 root.1 n g

handle-Permits : ⦃K : Kube⦄ (cli : Client) (u : User) (p : UserPhase) → Permits u p (handle cli u p)
unfolding handle
handle-Permits cli u new = reconcile_new-Permits u new tt cli
handle-Permits cli u error = reconcile_new-Permits u error tt cli
handle-Permits cli u ready = search logs_rules

-- Whatever the servers answer, a reconciliation of a user asks only what `IsPermitted` lists, and that
-- only in the phases New and Error: it reads the database and the cluster that the user refers to and
-- a secret of that cluster's namespace, sends only the SQL that defines the user with the password
-- of the specification, if it has one, creates only the secret and the config map of the user in its
-- namespace, and writes only its own phase, to Ready without a message or to Error with one. In the
-- phase Ready it sends nothing.
pub reconcile-IsFrugal :
    ⦃K : Kube⦄ (cli : Client) (u : User) (s : K.State)
    → All
        (λ e. IsPermitted u (current u.status) e.call × IsPending (current u.status))
        (trace (reconcile cli u) s)
unfolding reconcile
reconcile-IsFrugal cli u s = Logs-trace _ s (handle-Permits cli u (current u.status))

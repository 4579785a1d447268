-- ===== src/Cluster/Grounds.antt =====
-- src/cluster/crd.rs: what requests show of a cluster, and what a phase that is written needs.
use sdb_controller.Prelude.{
  refl, none, ◌<>◌, Option, ◌≡◌, arith, Bool, true, false, some, String, List,
}
use sdb_controller.Resources.Cluster.{Cluster, not_ready, in_progress, ready}
use sdb_controller.Error.{Error, KubeError, kube_error}
use sdb_controller.Resources.Core.{Secret, ByteString}
use sdb_controller.Api.Grounds.{Some, Later, Justified}
use sdb_controller.Cluster.Objects.{build_surreal_deployment, build_surreal_service}
use sdb_controller.Cluster.Actions.{available}
use sdb_controller.Cluster.Bootstrap.{
  bootstrap_root_user, post_root, built, credentials, IsRootSql, sql_request-IsRootSql,
}
use sdb_controller.Api.{
  Call, patch_cluster_status, apply_deployment, apply_service, get_deployment, get_secret,
  request_text, Try, ok, is_ok, Entry, Outcome, done, failed, panic, continue, World, Reply, Fault,
  Kube, M, pure, raise, unwrap, on_option, send, lift, ◌>>=◌,
}

-- The requests that show something of the cluster: the deployment with or without authentication,
-- and the service, as they are built.
abbrev IsDeployment : ⦃K : Kube⦄ → Cluster → Bool → Call → Type 0
IsDeployment ⦃K⦄ c mode (apply_deployment ns name params dp) =
    (c.metadata.namespace ≡ some ns)
    × (build_surreal_deployment c (K.name_any c.metadata) mode ≡ some dp)
IsDeployment c mode other = ⊥

abbrev IsService : ⦃K : Kube⦄ → Cluster → Call → Type 0
IsService ⦃K⦄ c (apply_service ns name params svc) =
    (c.metadata.namespace ≡ some ns) × (build_surreal_service c (K.name_any c.metadata) ≡ some svc)
IsService c other = ⊥

module _ ⦃K : Kube⦄ (c : Cluster) where
  -- The deployment of the cluster was read with an available replica.
  abbrev Shows : (call : Call) → Try (Fault call) (Reply call) → Type 0
  Shows (get_deployment ns name) (ok dp) =
      (c.metadata.namespace ≡ some ns)
      × (name ≡ K.name_any c.metadata <> "-surrealdb")
      × (available dp ≡ true)
  Shows other reply = ⊥

  abbrev pub IsSeenAvailable : List Entry → Type 0
  IsSeenAvailable l = Some (λ e. Shows e.call e.reply) l

  -- The SQL that defines the root user, at the server of the cluster.
  abbrev pub IsSql : Call → Type 0
  IsSql (request_text request) =
      (ns : String) × (c.metadata.namespace ≡ some ns)
      × IsRootSql ns (K.name_any c.metadata) request
  IsSql other = ⊥

  -- The deployment was seen available, and then the server accepted the SQL.
  abbrev pub IsPromoted : List Entry → Type 0
  IsPromoted l = Later (λ e. IsSql e.call × (is_ok e.reply ≡ true)) IsSeenAvailable l

  -- The authenticated deployment and the service were applied, and the server accepted both.
  abbrev pub IsSecured : List Entry → Type 0
  IsSecured l =
      Some (λ e. IsDeployment c false e.call × (is_ok e.reply ≡ true)) l
      × Some (λ e. IsService c e.call × (is_ok e.reply ≡ true)) l

  -- What the earlier requests show when a phase is written.
  abbrev pub HasGrounds : Call → List Entry → Type 0
  HasGrounds (patch_cluster_status ns name in_progress) l = IsPromoted l
  HasGrounds (patch_cluster_status ns name ready) l = Later (λ e. Shows e.call e.reply) IsSecured l
  HasGrounds (patch_cluster_status ns name not_ready) l = IsSecured l
  HasGrounds other l = Unit

  abbrev pub IsJustified : List Entry → Type 0
  IsJustified l = Justified HasGrounds l

  -- What a run of the bootstrap leaves.
  abbrev pub Seen : Outcome (Unit {0}) × World K.State → Type 0
  Seen (o, w) = IsJustified w.log × IsSeenAvailable w.log × (o ≡ done tt → IsPromoted w.log)

  abbrev pub Stays : List Entry → Type 0
  Stays l = IsJustified l × IsSeenAvailable l

  Seen-step :
      {A : Type 0} (m : M A) (f : A → M (Unit {0})) (w : World K.State)
      → Stays (m w).1.log
      → ((a : A) (w' : World K.State) → Stays w'.log → Seen (f a w'))
      → Seen ((m >>= f) w)
  unfolding ◌>>=◌
  Seen-step {A} m f w k g = next (m w) k
    where
      next : (x : Outcome A × World K.State) → Stays x.1.log → Seen (continue x.0 f x.1)
      next (done a, w') k = g a w' k
      next (failed e, w') (j, a) = (j, a, λ h. cc)
      next (panic, w') (j, a) = (j, a, λ h. cc)

  post_root_lem :
      (ns user pass : String) (w : World K.State)
      → c.metadata.namespace ≡ some ns
      → Stays w.log
      → Seen (post_root ns (K.name_any c.metadata) user pass w)
  unfolding post_root built ◌>>=◌ send lift pure raise on_option
  post_root_lem ns user pass w home k =
      ground (arith, home, k, sql_request-IsRootSql ns (K.name_any c.metadata) user pass)

  Seen-unwrap :
      (o : Option String) (f : String → M (Unit {0})) (w : World K.State)
      → Stays w.log
      → ((a : String) → o ≡ some a → Seen (f a w))
      → Seen ((unwrap o >>= f) w)
  unfolding ◌>>=◌ unwrap
  Seen-unwrap none f w (j, a) g = (j, a, λ h. cc)
  Seen-unwrap (some a) f w k g = g a refl

  kept_option :
      (o : Option String) (e : Error) (w : World K.State)
      → Stays w.log
      → Stays (on_option o (raise e) pure w).1.log
  unfolding on_option raise pure
  kept_option o e w k = ground (arith, k)

  kept_send :
      (ns name : String) (w : World K.State)
      → Stays w.log
      → Stays (send (get_secret ns name) w).1.log
  unfolding send
  kept_send ns name w k = ground (arith, k)

  kept_lift :
      (r : Try KubeError Secret) (w : World K.State)
      → Stays w.log
      → Stays (lift kube_error r w).1.log
  unfolding lift
  kept_lift r w k = ground (arith, k)

  kept_credentials :
      (user pass : Option ByteString) (w : World K.State)
      → Stays w.log
      → Stays (credentials user pass w).1.log
  unfolding credentials raise pure
  kept_credentials user pass w k = ground (arith, k)

  pub bootstrap_lem :
      (w : World K.State) → Stays w.log → Seen (bootstrap_root_user c (K.name_any c.metadata) w)
  unfolding bootstrap_root_user
  bootstrap_lem w k = Seen-unwrap _ _ w k λ ns home.
      Seen-step _ _ w (kept_option _ _ w k) λ sec_name w k.
        Seen-step _ _ w (kept_send ns sec_name w k) λ r w k.
          Seen-step _ _ w (kept_lift r w k) λ sec w k.
            Seen-step _ _ w (kept_credentials _ _ w k)
              λ (user, pass) w k. post_root_lem ns user pass w home k

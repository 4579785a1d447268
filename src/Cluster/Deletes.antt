-- ===== src/Cluster/Deletes.antt =====
-- src/cluster/crd.rs: what a cleanup deletes, and what it has looked up before.
use sdb_controller.Prelude.{
  ◌≡◌, refl, arith, true, Option, none, some, get_or, String, ◌<>◌, List, [], ◌∷◌,
}
use sdb_controller.Resources.Core.{PropagationPolicy, background, orphan}
use sdb_controller.Resources.Cluster.{Cluster}
use sdb_controller.Error.{kube_error}
use sdb_controller.Cluster.Reconcile.{await_change}
use sdb_controller.Cluster.Cleanup.{delete_if_exists, is_owned, cleanup}
use sdb_controller.Api.{
  Call, Event, Kind, deployment, service, secret, tidb_cluster, get_meta, delete, publish, Try, ok,
  Fault, Reply, Entry, is_done, World, start, trace, Kube, pure, unwrap, lift, on_try, raise, send,
  ◌>>=◌, ◌>>◌,
}
use sdb_controller.Api.Grounds.{Some, Justified, after_done}

abbrev pub expected_policy : Kind → PropagationPolicy
expected_policy tidb_cluster = orphan
expected_policy other = background

-- The object was asked for.
abbrev Asks : Kind → String → Call → Type 0
Asks kind name (get_meta k ns n) = (k ≡ kind) × (n ≡ name)
Asks kind name other = ⊥

abbrev pub Asked : Kind → String → List Entry → Type 0
Asked kind name l = Some (λ e. Asks kind name e.call) l

module _ ⦃K : Kube⦄ (c : Cluster) where
  abbrev pub expected_name : Kind → String
  expected_name deployment = K.name_any c.metadata <> "-surrealdb"
  expected_name service = K.name_any c.metadata <> "-surrealdb"
  expected_name secret = K.name_any c.metadata <> "-surrealdb-root"
  expected_name tidb_cluster = K.name_any c.metadata

  -- The reply is an object, of this kind and name, that the cluster owns.
  abbrev pub ShowsOwned :
      Kind → (ns name : String) → (call : Call) → Try (Fault call) (Reply call) → Type 0
  ShowsOwned kind ns name (get_meta k n m) (ok meta) =
      (k ≡ kind) × (n ≡ ns) × (m ≡ name) × (is_owned c meta ≡ true)
  ShowsOwned kind ns name other reply = ⊥

  abbrev pub JustShown : Kind → (ns name : String) → List Entry → Type 0
  JustShown kind ns name [] = ⊥
  JustShown kind ns name (e ∷ l) = ShowsOwned kind ns name e.call e.reply

  abbrev pub HasGrounds : Call → List Entry → Type 0
  HasGrounds (get_meta kind ns name) l =
      (c.metadata.namespace ≡ some ns) × (name ≡ expected_name kind)
  HasGrounds (delete kind ns name policy) l =
      (c.metadata.namespace ≡ some ns)
      × (name ≡ expected_name kind)
      × (policy ≡ expected_policy kind)
      × JustShown kind ns name l
  HasGrounds (publish event meta) l =
      (meta ≡ c.metadata)
      × Asked deployment (expected_name deployment) l
      × Asked service (expected_name service) l
      × Asked secret (expected_name secret) l
      × Asked tidb_cluster (expected_name tidb_cluster) l
  HasGrounds other l = ⊥

  module _ (kind : Kind) (policy : Option PropagationPolicy) (w : World K.State) where
    deleted-Justified :
        get_or policy background ≡ expected_policy kind
        → Justified HasGrounds w.log
        → Justified HasGrounds (delete_if_exists c kind (expected_name kind) policy w).1.log
          × (is_done (delete_if_exists c kind (expected_name kind) policy w).0 ≡ true
              → Asked kind
                  (expected_name kind)
                  (delete_if_exists c kind (expected_name kind) policy w).1.log)
    unfolding delete_if_exists ◌>>=◌ unwrap send lift pure raise on_try
    deleted-Justified e j = ground arith

    deleted-Asked :
        (k : Kind) (n : String)
        → Asked k n w.log
        → Asked k n (delete_if_exists c kind (expected_name kind) policy w).1.log
    unfolding delete_if_exists ◌>>=◌ unwrap send lift pure raise on_try
    deleted-Asked k n a = ground arith

  publish-Justified :
      (event : Event) (w : World K.State)
      → Justified HasGrounds w.log
      → HasGrounds (publish event c.metadata) w.log
      → Justified HasGrounds
          ((send (publish event c.metadata) >>= λ r. do lift kube_error r; pure await_change)
            w).1.log
  unfolding ◌>>=◌ send lift pure
  publish-Justified event w j g = ground arith

  -- A cleanup only looks up and deletes the deployment, the service, the root secret and the TiDB
  -- cluster under the names that the controller gives them, in the cluster's namespace. It deletes an
  -- object only right after the reply that shows it owned by the cluster, the TiDB cluster with
  -- orphaned dependents and the others in the background. It publishes its event only after it has
  -- looked up all four.
  pub cleanup-Justified : (s : K.State) → Justified HasGrounds (trace (cleanup c) s)
  unfolding cleanup
  cleanup-Justified s =
      after_done J _ (start s) (Asked deployment (expected_name deployment)) _
        (deleted-Justified deployment none (start s) refl tt)
        λ _ j a.
          after_done J _ _ (Asked service (expected_name service)) _
            (deleted-Justified service none _ refl j)
            λ _ j b.
              after_done J _ _ (Asked secret (expected_name secret)) _
                (deleted-Justified secret none _ refl j)
                λ _ j d.
                  after_done J _ _ (Asked tidb_cluster (expected_name tidb_cluster)) _
                    (deleted-Justified tidb_cluster (some orphan) _ refl j)
                    λ _ j e. publish-Justified _ _ j (
                      refl,
                      deleted-Asked tidb_cluster (some orphan) _ _ _
                          (deleted-Asked secret none _ _ _ (deleted-Asked service none _ _ _ a)),
                      deleted-Asked tidb_cluster (some orphan) _ _ _
                          (deleted-Asked secret none _ _ _ b),
                      deleted-Asked tidb_cluster (some orphan) _ _ _ d,
                      e,
                    )
    where
      J : List Entry → Type 0
      J = Justified HasGrounds

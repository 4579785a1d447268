-- ===== src/Tests/Scenarios.antt =====
-- The tests of the three controllers, run against the API server of their fixtures.
use sdb_controller.Prelude.{refl, arith, Option, none, some, String, ◌<>◌, List, [], ◌∷◌}
use sdb_controller.Error.{Error, transport}
use sdb_controller.Resources.Core.{PatchOperation}
use sdb_controller.Api.{
  Kube, World, M, ok, done, start, pure, reported, cleaned, removal, err, Try, Finalizer, adding,
  removing,
}
use sdb_controller.Fixtures.Wire.{Wire, IsKubernetes, method_of, path_of, mark}
use sdb_controller.Fixtures.Server.{ApiServerVerifier, respond, IsMocked, Meets}
use sdb_controller.Service.Proxy.{service_url}
use sdb_controller.Tests.Mock.{mock}
use sdb_controller.Password.Shape.{IsFair}
use sdb_controller.Service.{Client}
use sdb_controller.Resources.Cluster.{Cluster}
use sdb_controller.Resources.Cluster as Clusters
use sdb_controller.Resources.Database.{Database}
use sdb_controller.Resources.Database as Databases
use sdb_controller.Resources.User.{User}
use sdb_controller.Resources.User as Users
use sdb_controller.Cluster.Reconcile.{Action, requeue, await_change}
use sdb_controller.Cluster.Objects.{owner_ref}
use sdb_controller.Cluster.Actions.{tikv_backend_configured}
use sdb_controller.Fixtures.Texts.{contains}
use sdb_controller.Api.Still.{IsStill, still_rules, IsStill-if, IsStill-bind, IsStill-attempt}
use sdb_controller.Cluster.Control as ClusterControl
use sdb_controller.Database.Control as DatabaseControl
use sdb_controller.User.{effective_username}
use sdb_controller.User.Control as UserControl
use sdb_controller.Cluster.Control.Measured.{
  handled, entered, IsForeign, IsMeasured, reconcile-IsMeasured,
}
use sdb_controller.Fixtures.Credentials.{IsReachable}
use sdb_controller.Fixtures.Cluster as ClusterTests
use sdb_controller.Fixtures.Cluster.Handlers as ClusterHandlers
use sdb_controller.Fixtures.Cluster.Passes as ClusterPasses
use sdb_controller.Fixtures.Cluster.Passes.{reconcile-Passes}
use sdb_controller.Fixtures.Database as DatabaseTests
use sdb_controller.Fixtures.Database.Passes as DatabasePasses
use sdb_controller.Fixtures.Database.Passes.{reconcile_database-Passes}
use sdb_controller.Fixtures.User as UserTests
use sdb_controller.Fixtures.User.Passes as UserPasses
use sdb_controller.Fixtures.User.Passes.{reconcile_user-Passes}
use sdb_controller.Tests.Finalizers.{text, dispatch, documented, documented-IsFinalizer}

abbrev wire : Wire
wire = record {
  method = method_of;
  uri = λ call. (path_of call <> mark call) <> "";
  query = λ call. "";
  uri_path = λ uri. uri;
  refused = λ status body. transport body;
}

wire-IsKubernetes : IsKubernetes wire
wire-IsKubernetes = record {
  methods = λ call. refl;
  uris = λ call. refl;
  no_query = λ ns name ops. refl;
  no_database_query = λ ns name ops. refl;
  no_event_query = λ event meta. refl;
  plain_path = λ uri h. refl;
}

-- The outside of a test: the verifier is its whole state.
abbrev tested : Kube
tested = record mock {
  State = ApiServerVerifier;
  respond = respond;
  alphanumeric = λ s. ("a", s);
  random_below = λ n s. (0, s);
  now = λ s. (0, s);
  trace_id = λ s. 0;
  parse_url = λ s. ok (service_url "default" "test");
}

tested-IsMocked : IsMocked ⦃K = tested⦄ (λ s. s)
tested-IsMocked = record {
  answers = λ call s. (refl, refl);
  draws = λ s. refl;
  picks = λ n s. refl;
  reads_clock = λ s. refl;
}

tested-IsFair : IsFair ⦃K = tested⦄
tested-IsFair = record { in_range = λ n s h. h; plain = λ s. refl }

tested-IsReachable : IsReachable ⦃K = tested⦄ "default" "test"
tested-IsReachable = record {
  no_dot_ns = refl;
  no_dot_name = refl;
  no_query_ns = refl;
  no_query_name = refl;
  parsed = refl;
  accepted = refl;
  builds = λ request. refl;
}

abbrev new_cluster : Cluster
new_cluster =
    ClusterTests.with_status
      (ClusterTests.needs_tikv_secret_ref
        (ClusterTests.needs_root_credentials (ClusterTests.finalized ClusterTests.test_cluster)))
      (record { phase = some Clusters.Phase.new; tidb_cluster_ref = none })

abbrev cluster_finalizer : Finalizer ⦃K = tested⦄ Cluster Action
cluster_finalizer =
    documented ⦃K = tested⦄ (λ (c : Cluster). c.metadata) (ClusterPasses.patch_own ⦃K = tested⦄)
      await_change

reconcile-Passes_example :
    Meets ⦃K = tested⦄
      (λ s. s)
      tested-IsMocked
      (ClusterHandlers.run ⦃K = tested⦄ wire
        (ClusterTests.status_patch_then_deployment_and_service_creation new_cluster))
      (ClusterControl.reconcile ⦃K = tested⦄ cluster_finalizer new_cluster)
      (done (requeue 20))
      []
unfolding owner_ref tikv_backend_configured
reconcile-Passes_example =
    reconcile-Passes ⦃K = tested⦄ (λ s. s) tested-IsMocked wire wire-IsKubernetes cluster_finalizer
      (documented-IsFinalizer ⦃K = tested⦄ (λ (c : Cluster). c.metadata)
        (ClusterPasses.patch_own ⦃K = tested⦄) await_change)
      new_cluster _ (record { home = refl; named = refl; owned = refl }) (λ request. refl)
      tested-IsFair (ClusterTests.status_patch_then_deployment_and_service_creation new_cluster)
      (requeue 20)
      (ClusterPasses.new_phase _ (record { marked = refl; kept = refl }) refl refl refl refl)

abbrev new_database : Database
new_database =
    DatabaseTests.with_status (DatabaseTests.finalized DatabaseTests.test_database)
      (record { phase = some Databases.DbPhase.new; message = none })

abbrev database_finalizer : Finalizer ⦃K = tested⦄ Database Action
database_finalizer =
    documented ⦃K = tested⦄ (λ (d : Database). d.metadata) (DatabasePasses.patch_own ⦃K = tested⦄)
      await_change

reconcile_database-Passes_example :
    Meets ⦃K = tested⦄
      (λ s. s)
      tested-IsMocked
      (DatabaseTests.run ⦃K = tested⦄ wire (DatabaseTests.database_define_error new_database))
      (DatabaseControl.reconcile ⦃K = tested⦄ Client.kube database_finalizer new_database)
      (done (requeue 20))
      []
reconcile_database-Passes_example =
    reconcile_database-Passes ⦃K = tested⦄ (λ s. s) tested-IsMocked wire wire-IsKubernetes
      database_finalizer
      (documented-IsFinalizer ⦃K = tested⦄ (λ (d : Database). d.metadata)
        (DatabasePasses.patch_own ⦃K = tested⦄) await_change)
      new_database "default" refl refl tested-IsReachable
      (DatabaseTests.database_define_error new_database) (requeue 20)
      (DatabasePasses.database_error (record { marked = refl; kept = refl; begun = refl }) refl)

abbrev new_user : User
new_user =
    UserTests.with_status (UserTests.finalized UserTests.test_user)
      (record { phase = some Users.UserPhase.new; message = none })

abbrev user_finalizer : Finalizer ⦃K = tested⦄ User Action
user_finalizer =
    documented ⦃K = tested⦄ (λ (u : User). u.metadata) (UserPasses.patch_own ⦃K = tested⦄)
      await_change

reconcile_user-Passes_example :
    Meets ⦃K = tested⦄
      (λ s. s)
      tested-IsMocked
      (UserTests.run ⦃K = tested⦄ wire
        (UserTests.new_creates_user_and_secret_and_configmap_default_names new_user))
      (UserControl.reconcile ⦃K = tested⦄ Client.kube user_finalizer new_user)
      (done (requeue 120))
      []
unfolding contains effective_username
reconcile_user-Passes_example =
    reconcile_user-Passes ⦃K = tested⦄ (λ s. s) tested-IsMocked wire wire-IsKubernetes
      user_finalizer
      (documented-IsFinalizer ⦃K = tested⦄ (λ (u : User). u.metadata)
        (UserPasses.patch_own ⦃K = tested⦄) await_change)
      new_user "default" refl refl tested-IsReachable tested-IsFair
      (record {
        of_home = refl;
        of_username = refl;
        of_password = λ password h. let x : ⊥ = ground (arith, h) in absurd x;
      })
      (UserTests.new_creates_user_and_secret_and_configmap_default_names new_user) (requeue 120)
      (UserPasses.new_creates_db_user_and_secret
        (record { marked = refl; kept = refl; begun = refl; default = refl; near = refl }) refl)

patch-IsStill :
    (c : Cluster) (ops : List PatchOperation)
    → IsStill ⦃K = tested⦄ (ClusterPasses.patch_own ⦃K = tested⦄ c ops)
patch-IsStill c ops = search still_rules

reported-IsStill :
    (text : Error → String) (m : M ⦃K = tested⦄ Action)
    → IsStill ⦃K = tested⦄ m
    → IsStill ⦃K = tested⦄ (reported ⦃K = tested⦄ text m)
unfolding reported
reported-IsStill text m h = search still_rules

removal-IsStill :
    (text text' : Error → String) (r : Try Error Action) (patch : M ⦃K = tested⦄ (Unit {0}))
    → IsStill ⦃K = tested⦄ patch
    → IsStill ⦃K = tested⦄ (removal ⦃K = tested⦄ text text' r patch)
unfolding removal
removal-IsStill text text' (ok a) patch g = reported-IsStill text' _ (search still_rules)
removal-IsStill text text' (err e) patch g = search still_rules

cleaned-IsStill :
    (text text' : Error → String) (m : M ⦃K = tested⦄ Action) (patch : M ⦃K = tested⦄ (Unit {0}))
    → IsStill ⦃K = tested⦄ m
    → IsStill ⦃K = tested⦄ patch
    → IsStill ⦃K = tested⦄ (cleaned ⦃K = tested⦄ text text' m patch)
unfolding cleaned
cleaned-IsStill text text' m patch h g =
    IsStill-bind ⦃K = tested⦄ _ _ (IsStill-attempt ⦃K = tested⦄ m h)
      λ r. removal-IsStill text text' r patch g

module _ (name : String) (c : Cluster) (apply cleanup : M ⦃K = tested⦄ Action)
    (h : IsStill ⦃K = tested⦄ apply) (g : IsStill ⦃K = tested⦄ cleanup) where
  unchanged-IsStill : IsStill ⦃K = tested⦄ (
      reported ⦃K = tested⦄
        (text ⦃K = tested⦄
          (λ (c : Cluster). c.metadata)
          (ClusterPasses.patch_own ⦃K = tested⦄)
          await_change
          "apply")
        (pure ⦃K = tested⦄ await_change))
  unchanged-IsStill = reported-IsStill _ _ (search still_rules)

  dispatch-IsStill :
      (f : Option (List String)) (t : Option String)
      → IsStill ⦃K = tested⦄ (
          dispatch ⦃K = tested⦄
            (λ (c : Cluster). c.metadata)
            (ClusterPasses.patch_own ⦃K = tested⦄)
            await_change
            name
            c
            apply
            cleanup
            f
            t)
  dispatch-IsStill none none =
      reported-IsStill _ _
        (IsStill-bind ⦃K = tested⦄ _ _ (patch-IsStill c (adding name)) λ x. search still_rules)
  dispatch-IsStill (some names) none =
      IsStill-if ⦃K = tested⦄ _ _ _ (reported-IsStill _ apply h) unchanged-IsStill
  dispatch-IsStill none (some t) = unchanged-IsStill
  dispatch-IsStill (some []) (some t) = unchanged-IsStill
  dispatch-IsStill (some (n ∷ [])) (some t) =
      IsStill-if ⦃K = tested⦄ _ _ _
        (cleaned-IsStill _ _ cleanup _ g (patch-IsStill c (removing name))) unchanged-IsStill
  dispatch-IsStill (some (n ∷ m ∷ names)) (some t) = unchanged-IsStill

cluster_finalizer-IsForeign : IsForeign ⦃K = tested⦄ cluster_finalizer
cluster_finalizer-IsForeign = record {
  still = λ name c apply cleanup h g. dispatch-IsStill name c apply cleanup h g _ _;
}

abbrev waiting : World ApiServerVerifier
waiting = start ⦃K = tested⦄ (ApiServerVerifier.expecting [])

reconcile-IsMeasured_example :
    IsMeasured ⦃K = tested⦄ waiting
      (handled ⦃K = tested⦄ cluster_finalizer new_cluster (entered ⦃K = tested⦄ waiting)).1.state
      (ClusterControl.reconcile ⦃K = tested⦄ cluster_finalizer new_cluster waiting).1
reconcile-IsMeasured_example =
    reconcile-IsMeasured ⦃K = tested⦄ cluster_finalizer new_cluster cluster_finalizer-IsForeign
      waiting

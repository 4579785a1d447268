-- ===== src/Tests/Calm.antt =====
-- Reconciliations at the concrete resources, and whether they panic.
use sdb_controller.Prelude.{some, refl}
use sdb_controller.Resources.Cluster.{Cluster, in_creation}
use sdb_controller.Service.{Client}
use sdb_controller.Credentials.Calm.{TakesBase64}
use sdb_controller.Password.Shape.{IsFair}
use sdb_controller.Cluster.Objects.{owner_ref}
use sdb_controller.Cluster.Reconcile as Clusters
use sdb_controller.Cluster.Cleanup.{cleanup}
use sdb_controller.Cluster.Calm.{reconcile_cluster-Returns}
use sdb_controller.Database as Db
use sdb_controller.Database.Calm.{reconcile_database-Returns}
use sdb_controller.User as Users
use sdb_controller.User.Calm.{reconcile_user-Returns}
use sdb_controller.Api.{start}
use sdb_controller.Api.Calm.{Returns}
use sdb_controller.Tests.Mock.{mock, own_reference, cluster_in, fresh_database, fresh_user}

abbrev creating : Cluster
creating = cluster_in (some in_creation)

mock-TakesBase64 : TakesBase64 ⦃K = mock⦄
mock-TakesBase64 = record { accepted = λ t. refl }

always_in_range : IsFair ⦃K = mock⦄
always_in_range = record { in_range = λ n s h. h; plain = λ s. refl }

reconcile_cluster-Returns_example :
    Returns (Clusters.reconcile ⦃K = mock⦄ creating (start ⦃K = mock⦄ tt)).0
    × Returns (cleanup ⦃K = mock⦄ creating (start ⦃K = mock⦄ tt)).0
unfolding owner_ref
reconcile_cluster-Returns_example =
    reconcile_cluster-Returns ⦃K = mock⦄ creating "prod" own_reference refl refl always_in_range tt

reconcile_database-Returns_example :
    Returns (Db.reconcile ⦃K = mock⦄ Client.reqwest fresh_database (start ⦃K = mock⦄ tt)).0
reconcile_database-Returns_example =
    reconcile_database-Returns ⦃K = mock⦄ Client.reqwest fresh_database "prod" "shop" refl refl
      mock-TakesBase64 tt

reconcile_user-Returns_example :
    Returns (Users.reconcile ⦃K = mock⦄ Client.kube fresh_user (start ⦃K = mock⦄ tt)).0
reconcile_user-Returns_example =
    reconcile_user-Returns ⦃K = mock⦄ Client.kube fresh_user "prod" "alice" refl refl
      always_in_range mock-TakesBase64 tt

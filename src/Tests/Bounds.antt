-- ===== src/Tests/Bounds.antt =====
-- The bounds at concrete resources.
use sdb_controller.Prelude.{◌≤◌, some}
use sdb_controller.Resources.Cluster.{Cluster, in_creation}
use sdb_controller.Service.{Client}
use sdb_controller.Cluster.Reconcile as Clusters
use sdb_controller.Cluster.Cleanup.{cleanup}
use sdb_controller.Cluster.Bounds.{most, Within, reconcile_cluster-IsBounded}
use sdb_controller.Database as Databases
use sdb_controller.Database.Bounds.{reconcile_database-IsBounded}
use sdb_controller.User as Users
use sdb_controller.User.Bounds.{reconcile_user-IsBounded}
use sdb_controller.Api.{trace, result}
use sdb_controller.Api.Bounds.{length, Returned}
use sdb_controller.Tests.Mock.{mock, cluster_in, fresh_database, fresh_user}

abbrev creating : Cluster
creating = cluster_in (some in_creation)

reconcile_cluster-IsBounded_example :
    (length (trace ⦃K = mock⦄ (Clusters.reconcile ⦃K = mock⦄ creating) tt)
      ≤ most ⦃K = mock⦄ creating in_creation)
    × Returned (Within 10 120) (result ⦃K = mock⦄ (Clusters.reconcile ⦃K = mock⦄ creating) tt)
    × (length (trace ⦃K = mock⦄ (cleanup ⦃K = mock⦄ creating) tt) ≤ 9)
reconcile_cluster-IsBounded_example = reconcile_cluster-IsBounded ⦃K = mock⦄ creating tt

reconcile_database-IsBounded_example :
    (length (trace ⦃K = mock⦄ (Databases.reconcile ⦃K = mock⦄ Client.kube fresh_database) tt) ≤ 5)
    × Returned
        (Within 20 120)
        (result ⦃K = mock⦄ (Databases.reconcile ⦃K = mock⦄ Client.kube fresh_database) tt)
reconcile_database-IsBounded_example =
    reconcile_database-IsBounded ⦃K = mock⦄ Client.kube fresh_database tt

reconcile_user-IsBounded_example :
    (length (trace ⦃K = mock⦄ (Users.reconcile ⦃K = mock⦄ Client.kube fresh_user) tt) ≤ 7)
    × Returned
        (Within 20 180)
        (result ⦃K = mock⦄ (Users.reconcile ⦃K = mock⦄ Client.kube fresh_user) tt)
reconcile_user-IsBounded_example = reconcile_user-IsBounded ⦃K = mock⦄ Client.kube fresh_user tt

-- ===== src/Database/Control.antt =====
-- src/database/crd.rs: the function `reconcile` that the runtime calls.
use sdb_controller.Resources.Database.{Database}
use sdb_controller.Service.{Client}
use sdb_controller.Cluster.Reconcile.{Action}
use sdb_controller.Database as Handlers
use sdb_controller.Api.{Kube, M, unwrap, Finalizer, finalized, ◌>>=◌}

module _ ⦃K : Kube⦄ where
  unfoldable pub reconcile : Client → Finalizer Database Action → Database → M Action
  reconcile cli finalizer object = do
    ns ← unwrap object.metadata.namespace
    finalized finalizer "databases.surrealdb.aexol.com" object (Handlers.reconcile cli object)
        (Handlers.cleanup object)

-- ===== src/User/Control.antt =====
-- src/user/crd.rs: the function `reconcile` that the runtime calls.
use sdb_controller.Resources.User.{User, user_finalizer}
use sdb_controller.Service.{Client}
use sdb_controller.Cluster.Reconcile.{Action}
use sdb_controller.User as Handlers
use sdb_controller.Api.{Kube, M, unwrap, Finalizer, finalized, ◌>>=◌}

module _ ⦃K : Kube⦄ where
  unfoldable pub reconcile : Client → Finalizer User Action → User → M Action
  reconcile cli finalizer object = do
    ns ← unwrap object.metadata.namespace
    finalized finalizer user_finalizer object (Handlers.reconcile cli object)
        (Handlers.cleanup object)

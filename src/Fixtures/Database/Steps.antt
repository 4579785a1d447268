-- ===== src/Fixtures/Database/Steps.antt =====
-- src/database/crd.rs: the steps of a database's reconciliation under the handlers made for them.
use sdb_controller.Prelude.{◌≡◌, Option, none, some, get_or, String, ◌<>◌, List, [], ◌∷◌}
use sdb_controller.Error.{Error, kube_error, transport, display}
use sdb_controller.Resources.Database.{Database, DbPhase, ready, error}
use sdb_controller.Sql.{define_namespace, define_database}
use sdb_controller.Service.{Client}
use sdb_controller.Cluster.Reconcile.{Action, requeue}
use sdb_controller.Database.{
  set_phase_msg, ensure_surreal_namespace, ensure_surreal_database, fail_with, define,
  reconcile_new,
}
use sdb_controller.Api.{patch_database_status, Kube, ok, err, done, failed, on_try}
use sdb_controller.Fixtures.Wire.{Wire, IsKubernetes}
use sdb_controller.Fixtures.Server.{
  ApiServerVerifier, Handler, IsMocked, Meets, Meets-found, Meets-asked, Meets-lift-ok,
  Meets-lift-err, Meets-pure, Meets-bind, Meets-send-closed, Meets-tried, Meets-tried-failed,
  Meets-ignored, Meets-ignored-failed,
}
use sdb_controller.Fixtures.Credentials.{
  IsReachable, send_sql-Meets, send_sql-Refused, answer_cluster, handle_get_secret_root,
  get_root_credentials-Meets,
}
use sdb_controller.Fixtures.Database.{
  phase_text, handle_status_patch_phase, define_namespace_ok, define_database_ok, define_error,
}
use sdb_controller.Fixtures.Database.Accepted.{
  status-Accepted, namespace-Accepted, database-Accepted, error-Accepted,
}

module _ ⦃K : Kube⦄ (verifier : K.State → ApiServerVerifier) (mocked : IsMocked verifier)
    (wire : Wire) (k : IsKubernetes wire) (db : Database) (ns : String)
    (home : db.metadata.namespace ≡ some ns) where
  abbrev own : String
  own = K.name_any db.metadata

  set_phase_msg-Meets :
      {rest : List Handler} (q : DbPhase) (message : Option String)
      → Meets verifier mocked
          (handle_status_patch_phase wire db (phase_text q) ∷ rest)
          (set_phase_msg db q message)
          (done tt)
          rest
  unfolding set_phase_msg
  set_phase_msg-Meets q message = Meets-found verifier mocked _ ns _ home (
      Meets-asked verifier mocked (patch_database_status ns own q message) _ (ok tt) _
        (status-Accepted verifier mocked wire k db ns home q message)
        (Meets-lift-ok verifier mocked kube_error tt))

  set_phase_msg-Closed :
      (q : DbPhase) (message : Option String)
      → Meets verifier mocked []
          (set_phase_msg db q message)
          (failed (kube_error (transport "closed")))
          []
  unfolding set_phase_msg
  set_phase_msg-Closed q message = Meets-found verifier mocked _ ns _ home (
      Meets-bind verifier mocked _ _ (err (transport "closed")) _
        (Meets-send-closed verifier mocked (patch_database_status ns own q message))
        (Meets-lift-err verifier mocked kube_error (transport "closed")))

  fail_with-Closed :
      (what : String) (e : Error)
      → Meets verifier mocked [] (fail_with db what e) (done (requeue 20)) []
  unfolding fail_with
  fail_with-Closed what e =
      Meets-ignored-failed verifier mocked _ _ _
        (set_phase_msg-Closed error (some (what <> display e)))
        (Meets-pure verifier mocked (requeue 20))

  abbrev pub cname : String
  cname = db.spec.cluster_ref.name

  module _ (name cns : String) (far : IsReachable cns db.spec.cluster_ref.name) where
    abbrev surreal_ns : String
    surreal_ns = get_or db.spec.db_namespace ns

    define-Meets :
        db.metadata.name ≡ some name
        → Meets verifier mocked
            (define_namespace_ok wire cns cname
              ∷ define_database_ok wire cns cname
              ∷ handle_status_patch_phase wire db "Ready"
              ∷ [])
            (define Client.kube db cns surreal_ns "root" "root")
            (done (requeue 60))
            []
    unfolding define ensure_surreal_namespace ensure_surreal_database on_try
    define-Meets named =
        Meets-tried verifier mocked _ tt _
          (send_sql-Meets verifier mocked wire k cns cname far _ _
            (namespace-Accepted verifier mocked wire k db ns home cns far surreal_ns))
          (Meets-found verifier mocked _ name _ named (
            Meets-tried verifier mocked _ tt _
              (send_sql-Meets verifier mocked wire k cns cname far _ _ (
                database-Accepted verifier mocked wire k db ns home cns far surreal_ns
                  (get_or db.spec.db_name name)))
              (Meets-ignored verifier mocked _ tt _ (set_phase_msg-Meets ready none)
                (Meets-pure verifier mocked (requeue 60)))))

    define-Unnamed :
        (answer : String)
        → Meets verifier mocked
            (define_error wire answer cns cname ∷ [])
            (define Client.kube db cns surreal_ns "root" "root")
            (done (requeue 20))
            []
    unfolding define ensure_surreal_namespace on_try
    define-Unnamed answer =
        Meets-tried-failed verifier mocked _ _ _
          (send_sql-Refused verifier mocked wire k cns cname far _ _ _ (
            error-Accepted verifier mocked wire k db ns home cns far answer
              (define_namespace surreal_ns)))
          (fail_with-Closed "namespace define failed: " _)

    define-Refused :
        (answer : String)
        → db.metadata.name ≡ some name
        → Meets verifier mocked
            (define_namespace_ok wire cns cname ∷ define_error wire answer cns cname ∷ [])
            (define Client.kube db cns surreal_ns "root" "root")
            (done (requeue 20))
            []
    unfolding define ensure_surreal_namespace ensure_surreal_database on_try
    define-Refused answer named =
        Meets-tried verifier mocked _ tt _
          (send_sql-Meets verifier mocked wire k cns cname far _ _
            (namespace-Accepted verifier mocked wire k db ns home cns far surreal_ns))
          (Meets-found verifier mocked _ name _ named (
            Meets-tried-failed verifier mocked _ _ _
              (send_sql-Refused verifier mocked wire k cns cname far _ _ _ (
                error-Accepted verifier mocked wire k db ns home cns far answer
                  (define_database surreal_ns (get_or db.spec.db_name name))))
              (fail_with-Closed "database define failed: " _)))

  -- The root credentials come first, then the definitions under them.
  module _
      (far : IsReachable (get_or db.spec.cluster_ref.namespace ns) db.spec.cluster_ref.name) where
    abbrev pub cns : String
    cns = get_or db.spec.cluster_ref.namespace ns

    after_credentials :
        {rest : List Handler} (a : Action)
        → Meets verifier mocked rest
            (define Client.kube db cns (get_or db.spec.db_namespace ns) "root" "root")
            (done a)
            []
        → Meets verifier mocked
            (answer_cluster wire cns cname ∷ handle_get_secret_root wire cns ∷ rest)
            (reconcile_new Client.kube db)
            (done a)
            []
    unfolding reconcile_new
    after_credentials a h = Meets-found verifier mocked _ ns _ home (
        Meets-bind verifier mocked _ _ ("root", "root") _
          (get_root_credentials-Meets verifier mocked wire k cns cname) h)

    pub reconcile_new-Meets :
        (name : String)
        → db.metadata.name ≡ some name
        → Meets verifier mocked
            (answer_cluster wire cns cname
              ∷ handle_get_secret_root wire cns
              ∷ define_namespace_ok wire cns cname
              ∷ define_database_ok wire cns cname
              ∷ handle_status_patch_phase wire db "Ready"
              ∷ [])
            (reconcile_new Client.kube db)
            (done (requeue 60))
            []
    reconcile_new-Meets name named =
        after_credentials (requeue 60) (define-Meets name cns far named)

    pub reconcile_new-Unnamed :
        (answer : String)
        → Meets verifier mocked
            (answer_cluster wire cns cname
              ∷ handle_get_secret_root wire cns
              ∷ define_error wire answer cns cname
              ∷ [])
            (reconcile_new Client.kube db)
            (done (requeue 20))
            []
    reconcile_new-Unnamed answer = after_credentials (requeue 20) (define-Unnamed "" cns far answer)

    pub reconcile_new-Refused :
        (answer name : String)
        → db.metadata.name ≡ some name
        → Meets verifier mocked
            (answer_cluster wire cns cname
              ∷ handle_get_secret_root wire cns
              ∷ define_namespace_ok wire cns cname
              ∷ define_error wire answer cns cname
              ∷ [])
            (reconcile_new Client.kube db)
            (done (requeue 20))
            []
    reconcile_new-Refused answer name named =
        after_credentials (requeue 20) (define-Refused name cns far answer named)

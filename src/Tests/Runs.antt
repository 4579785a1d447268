-- ===== src/Tests/Runs.antt =====
-- The properties at a concrete cluster, database and user.
use sdb_controller.Prelude.{
  none, List, inl, inr, ◌≡◌, refl, true, false, some, [], ◌∷◌, All, retain, ◌==◌, is_some,
  split_dots,
}
use sdb_controller.Resources.Core.{EnvVar}
use sdb_controller.Resources.Cluster.{Cluster, new, in_creation, in_progress}
use sdb_controller.Service.{Builder, Client, proxy_post, post}
use sdb_controller.Service.Proxy.{
  Proxied, proxy_post-Proxied, service_url, service_host, post-sql_url,
}
use sdb_controller.Cluster.Objects.{
  surreal_container, build_surreal_deployment, build_surreal_service, owner_ref,
}
use sdb_controller.Cluster.Actions.{
  tikv_backend_configured, ensure_root_secret, reconcile_surrealdb_with_mode, set_phase,
  check_ready,
}
use sdb_controller.Cluster.Bootstrap.{
  sql_request, bootstrap_root_user, post_root, built, credentials,
}
use sdb_controller.Cluster.Reconcile.{
  reconcile, handle, reconcile_new, after_secret, start_creation, reconcile_in_creation,
  when_created, promote,
}
use sdb_controller.Cluster.History.{Writes, fresh, moved, SomeBootstrapped, late-IsBootstrapped}
use sdb_controller.Cluster.Cleanup.{cleanup}
use sdb_controller.Cluster.Requests.{IsPermitted, reconcile-IsPermitted}
use sdb_controller.Cluster.Transitions.{Follows, reconcile-Follows}
use sdb_controller.Cluster.Grounds.{IsJustified}
use sdb_controller.Cluster.Order.{reconcile-IsJustified}
use sdb_controller.Cluster.Deletes as Deletes
use sdb_controller.Cluster.Deletes.{cleanup-Justified}
use sdb_controller.Cluster.Workload.{
  has_variable, container-IsOpen, container-path, Agree, is_owned, service-Selects, has_source,
}
use sdb_controller.Credentials.{sql_url}
use sdb_controller.Database as Db
use sdb_controller.Database.Order as DbOrder
use sdb_controller.Database.Order.{reconcile-IsDefined}
use sdb_controller.User as Users
use sdb_controller.User.Order as UserOrder
use sdb_controller.User.Order.{reconcile-IsReachable}
use sdb_controller.Password.{generate_secure_password, generate_user_password}
use sdb_controller.Password.Shape.{
  Shape, IsFair, Yields, generate_secure_password-Shape, generate_user_password-Shape,
}
use sdb_controller.Sql.{define_user, define_database, define_namespace, define_root_user}
use sdb_controller.Sql.RoundTrips.{
  read_define_user, read-define_user, read_define_database, read-define_database,
  read_define_namespace, read-define_namespace, read_define_root, read-define_root,
}
use sdb_controller.Api.{
  trace, start, done, Entry, ◌>>=◌, pure, unwrap, send, lift, attempt, on_try, on_option, raise,
}
use sdb_controller.Api.Grounds.{Some, Justified}
use sdb_controller.Tests.Mock.{mock, cluster_in, fresh_database, fresh_user}

abbrev creating : Cluster
creating = cluster_in (some in_creation)

reconcile-IsPermitted_example :
    All
      (λ e. IsPermitted ⦃K = mock⦄ creating in_creation e.call)
      (trace ⦃K = mock⦄ (reconcile ⦃K = mock⦄ creating) tt)
reconcile-IsPermitted_example = reconcile-IsPermitted ⦃K = mock⦄ creating tt

reconcile-Follows_example :
    All (λ e. Follows in_creation e.call) (trace ⦃K = mock⦄ (reconcile ⦃K = mock⦄ creating) tt)
reconcile-Follows_example = reconcile-Follows ⦃K = mock⦄ creating tt

reconcile-IsJustified_example :
    IsJustified ⦃K = mock⦄ creating (trace ⦃K = mock⦄ (reconcile ⦃K = mock⦄ creating) tt)
reconcile-IsJustified_example = reconcile-IsJustified ⦃K = mock⦄ creating tt

reconcile-IsReachable_example :
    Justified
      (UserOrder.HasGrounds ⦃K = mock⦄ fresh_user)
      (trace ⦃K = mock⦄ (Users.reconcile ⦃K = mock⦄ Client.kube fresh_user) tt)
reconcile-IsReachable_example = reconcile-IsReachable ⦃K = mock⦄ Client.kube fresh_user tt

reconcile-IsDefined_example :
    Justified
      (DbOrder.HasGrounds fresh_database)
      (trace ⦃K = mock⦄ (Db.reconcile ⦃K = mock⦄ Client.kube fresh_database) tt)
reconcile-IsDefined_example = reconcile-IsDefined ⦃K = mock⦄ Client.kube fresh_database tt

cleanup-Justified_example :
    Justified
      (Deletes.HasGrounds ⦃K = mock⦄ creating)
      (trace ⦃K = mock⦄ (cleanup ⦃K = mock⦄ creating) tt)
cleanup-Justified_example = cleanup-Justified ⦃K = mock⦄ creating tt

read-define_user_example :
    read_define_user (define_user "sales" "shop" "al`ice" "it's")
    ≡ some ("sales", "shop", "al`ice", "it's")
read-define_user_example = read-define_user "sales" "shop" "al`ice" "it's"

read-define_database_example :
    read_define_database (define_database "sales" "sh`op") ≡ some ("sales", "sh`op")
read-define_database_example = read-define_database "sales" "sh`op"

read-define_namespace_example : read_define_namespace (define_namespace "sa`les") ≡ some "sa`les"
read-define_namespace_example = read-define_namespace "sa`les"

read-define_root_example : read_define_root (define_root_user "root" "a!b") ≡ some "a!b"
read-define_root_example = read-define_root "a!b" refl

mock-IsFair : IsFair ⦃K = mock⦄
mock-IsFair = record { in_range = λ n s h. h; plain = λ s. refl }

generate_secure_password-Shape_example :
    Yields (Shape 40 4) (generate_secure_password ⦃K = mock⦄ 40 (start ⦃K = mock⦄ tt)).0
generate_secure_password-Shape_example =
    generate_secure_password-Shape ⦃K = mock⦄ mock-IsFair 40 (start ⦃K = mock⦄ tt)

generate_user_password-Shape_example :
    Yields (Shape 24 4) (generate_user_password ⦃K = mock⦄ (start ⦃K = mock⦄ tt)).0
generate_user_password-Shape_example =
    generate_user_password-Shape ⦃K = mock⦄ mock-IsFair (start ⦃K = mock⦄ tt)

post-sql_url_example :
    post ⦃K = mock⦄ Client.kube (sql_url ⦃K = mock⦄ "prod" "main")
    ≡ done (
        Builder.kube (record {
          method = "POST";
          uri = "/api/v1/namespaces/prod/services/main-surrealdb:8000/proxy/sql";
          headers = [];
        }))
unfolding sql_request
post-sql_url_example = post-sql_url ⦃K = mock⦄ "prod" "main" "" refl refl refl

proxy_post-Proxied_example :
    Proxied
      (service_url "prod" "main")
      (split_dots (service_host "prod" "main"))
      (some 8000)
      (proxy_post (service_url "prod" "main"))
proxy_post-Proxied_example =
    proxy_post-Proxied (service_url "prod" "main") (service_host "prod" "main") refl

container-IsOpen_example :
    (has_variable "SURREAL_UNAUTHENTICATED" (surreal_container ⦃K = mock⦄ creating true).env ≡ true)
    × (has_variable "SURREAL_AUTH" (surreal_container ⦃K = mock⦄ creating true).env ≡ false)
container-IsOpen_example = container-IsOpen ⦃K = mock⦄ creating true

container-path_example :
    (e : EnvVar) × (retain
        (λ (v : EnvVar). v.name == "SURREAL_PATH")
        (surreal_container ⦃K = mock⦄ creating false).env
      ≡ e ∷ [])
    × (has_source e ≡ true)
    × (is_some e.value ≡ false)
    × (e.value_from ≡ some (record { key = "path"; name = "tikv"; optional = none }))
unfolding tikv_backend_configured
container-path_example = container-path ⦃K = mock⦄ creating false

service-Selects_example :
    Agree
      (build_surreal_service ⦃K = mock⦄ creating "main")
      (build_surreal_deployment ⦃K = mock⦄ creating "main" true)
    × (is_some (build_surreal_service ⦃K = mock⦄ creating "main") ≡ is_owned ⦃K = mock⦄ creating)
    × (is_some (build_surreal_deployment ⦃K = mock⦄ creating "main" true)
        ≡ is_owned ⦃K = mock⦄ creating)
service-Selects_example = service-Selects ⦃K = mock⦄ creating "main" true

abbrev first_run : List Entry
first_run = trace ⦃K = mock⦄ (reconcile ⦃K = mock⦄ (cluster_in (some new))) tt

abbrev second_run : List Entry
second_run = trace ⦃K = mock⦄ (reconcile ⦃K = mock⦄ creating) tt

first_run-Writes : Some (λ e. Writes in_creation e.call) first_run
unfolding reconcile handle reconcile_new after_secret start_creation tikv_backend_configured
    ensure_root_secret reconcile_surrealdb_with_mode set_phase build_surreal_deployment
    build_surreal_service owner_ref ◌>>=◌ pure unwrap send lift attempt on_try on_option raise
first_run-Writes = inr (inr (inl refl))

second_run-Writes : Some (λ e. Writes in_progress e.call) second_run
unfolding reconcile handle reconcile_in_creation when_created promote check_ready
    reconcile_surrealdb_with_mode set_phase build_surreal_deployment build_surreal_service owner_ref
    bootstrap_root_user post_root built credentials ◌>>=◌ pure unwrap send lift attempt on_try
    on_option raise
second_run-Writes = inr (inr (inl refl))

late-IsBootstrapped_example : SomeBootstrapped (second_run ∷ first_run ∷ [])
late-IsBootstrapped_example =
    late-IsBootstrapped ⦃K = mock⦄ in_progress (second_run ∷ first_run ∷ [])
      (moved (moved fresh (cluster_in (some new)) tt refl first_run-Writes) creating tt refl
        second_run-Writes)
      tt

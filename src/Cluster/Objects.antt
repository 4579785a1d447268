-- ===== src/Cluster/Objects.antt =====
-- src/cluster/crd.rs: the objects that the controller builds for a cluster. `none` is the panic of
-- `owner_ref`.
use mathlib.Core.Option
use sdb_controller.Prelude.{
  Bool, true, not, Option, none, some, get_or, String, ◌<>◌, ◌==◌, List, [], ◌∷◌, ◌++◌,
  if◌then◌else◌, insert, retain,
}
use sdb_controller.Resources.Core.{
  OwnerReference, EnvVar, ContainerPort, Probe, Container, Deployment, Service,
}
use sdb_controller.Resources.Cluster.{Cluster, cluster_kind, api_version}
use sdb_controller.Api.{Kube}

module _ ⦃K : Kube⦄ where
  unfoldable pub owner_ref : Cluster → Option OwnerReference
  owner_ref c =
      Option.map (λ (oref : OwnerReference). record oref { controller = some true })
        (K.controller_owner_ref api_version cluster_kind c.metadata)

  unfoldable pub labels : Cluster → String → List (String × String)
  labels c suffix =
      let m =
        insert "surrealdb.aexol.com/cluster" (K.name_any c.metadata)
          (insert "app.kubernetes.io/name" "surrealdb" []) in
      if suffix == "" then m else insert "surrealdb.aexol.com/name" suffix m

  unfoldable pub build_surreal_service : Cluster → String → Option Service
  unfolding owner_ref labels
  build_surreal_service c name =
      let svc_name = name <> "-surrealdb" in
      Option.map
        (λ oref. record {
          metadata = record {
            name = some svc_name;
            namespace = c.metadata.namespace;
            uid = none;
            finalizers = none;
            deletion_timestamp = none;
            labels = some (labels c svc_name);
            owner_references = some (oref ∷ []);
          };
          spec = some (record {
            selector = labels c svc_name;
            ports =
                record {
                  name = some "http";
                  port = 8000;
                  target_port = 8000;
                  protocol = some "TCP";
                }
                ∷ [];
            type_ = "ClusterIP";
          });
        })
        (owner_ref c)

  unfoldable pub env_normal : Cluster → List EnvVar
  env_normal c =
      let name = K.name_any c.metadata in
      record { name = "SURREAL_AUTH"; value = some "true"; value_from = none }
      ∷ record {
        name = "SURREAL_PATH";
        value = Option.map (λ _. "tikv://" <> name <> "-pd:2379") c.spec.tidb_cluster;
        value_from = c.spec.tikv_secret_ref;
      }
      ∷ []

  unfoldable pub env_creation : Cluster → List EnvVar
  unfolding env_normal
  env_creation c =
      retain (λ (e : EnvVar). not (e.name == "SURREAL_AUTH")) (env_normal c)
      ++ record { name = "SURREAL_UNAUTHENTICATED"; value = some "true"; value_from = none } ∷ []

  abbrev http_port : ContainerPort
  http_port = record { container_port = 8000; name = some "http"; protocol = some "TCP" }

  abbrev http_probe : Probe
  http_probe = record {
    path = "/health";
    port = 8000;
    scheme = "HTTP";
    initial_delay_seconds = 5;
    period_seconds = 10;
  }

  unfoldable pub surreal_container : Cluster → Bool → Container
  unfolding env_normal env_creation
  surreal_container c creation_mode = record {
    name = "surrealdb";
    image = some (get_or c.spec.surrealdb_image "surrealdb/surrealdb:latest");
    args = "start" ∷ "--bind" ∷ "0.0.0.0:8000" ∷ [];
    env = if creation_mode then env_creation c else env_normal c;
    ports = http_port ∷ [];
    readiness_probe = some http_probe;
    liveness_probe = some http_probe;
  }

  unfoldable pub build_surreal_deployment : Cluster → String → Bool → Option Deployment
  unfolding owner_ref labels surreal_container
  build_surreal_deployment c name creation_mode =
      let deploy_name = name <> "-surrealdb" in
      Option.map
        (λ oref. record {
          metadata = record {
            name = some deploy_name;
            namespace = c.metadata.namespace;
            uid = none;
            finalizers = none;
            deletion_timestamp = none;
            labels = some (labels c deploy_name);
            owner_references = some (oref ∷ []);
          };
          spec = some (record {
            replicas = some (get_or c.spec.replicas 1);
            match_labels = labels c deploy_name;
            template = record {
              labels = labels c deploy_name;
              containers = surreal_container c creation_mode ∷ [];
            };
          });
          status = none;
        })
        (owner_ref c)

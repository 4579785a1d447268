-- ===== src/Cluster/Workload.antt =====
-- src/cluster/crd.rs: what the built deployment and service agree on.
use sdb_controller.Prelude.{
  ◌≡◌, refl, arith, Bool, true, false, not, ◌||◌, Option, none, some, String, ◌==◌, List, [], ◌∷◌,
  is_some, any, retain, eqb, All,
}
use sdb_controller.Resources.Core.{
  EnvVar, Container, Deployment, Service, ServicePort, ServiceSpec, DeploymentSpec, ContainerPort,
}
use sdb_controller.Resources.Cluster.{Cluster, api_version, cluster_kind}
use sdb_controller.Cluster.Objects.{
  owner_ref, env_normal, env_creation, surreal_container, build_surreal_service,
  build_surreal_deployment,
}
use sdb_controller.Cluster.Actions.{tikv_backend_configured}
use sdb_controller.Api.{Kube, is_ok}

abbrev pub has_variable : String → List EnvVar → Bool
has_variable name env = any (λ (e : EnvVar). e.name == name) env

abbrev pub has_source : EnvVar → Bool
has_source e = is_some e.value || is_some e.value_from

abbrev exposes : List Container → ServicePort → Bool
exposes [] port = false
exposes (k ∷ ks) port =
    any (λ (p : ContainerPort). eqb p.container_port port.target_port) k.ports || exposes ks port

abbrev IsExposed : List Container → List ServicePort → Type 0
IsExposed ks ports = All (λ port. exposes ks port ≡ true) ports

abbrev Selects : Option ServiceSpec → Option DeploymentSpec → Type 0
Selects (some s) (some d) =
    (s.selector ≡ d.template.labels)
    × (d.match_labels ≡ d.template.labels)
    × IsExposed d.template.containers s.ports
Selects none d = ⊥
Selects (some s) none = ⊥

abbrev pub Agree : Option Service → Option Deployment → Type 0
Agree (some svc) (some dp) = Selects svc.spec dp.spec
Agree none none = Unit
Agree (some svc) none = ⊥
Agree none (some dp) = ⊥

module _ ⦃K : Kube⦄ (c : Cluster) where
  abbrev pub is_owned : Bool
  is_owned = is_some (K.controller_owner_ref api_version cluster_kind c.metadata)

  -- In creation mode the container has SURREAL_UNAUTHENTICATED and no SURREAL_AUTH, otherwise
  -- SURREAL_AUTH and no SURREAL_UNAUTHENTICATED.
  pub container-IsOpen :
      (mode : Bool)
      → (has_variable "SURREAL_UNAUTHENTICATED" (surreal_container c mode).env ≡ mode)
        × (has_variable "SURREAL_AUTH" (surreal_container c mode).env ≡ not mode)
  unfolding surreal_container env_creation env_normal
  container-IsOpen true = (refl, refl)
  container-IsOpen false = (refl, refl)

  -- In both modes SURREAL_PATH is set once. It has a value or a source for a value exactly if
  -- the check of the configured backend succeeds: a value if a TiDB cluster is given and a source
  -- if a secret is.
  pub container-path :
      (mode : Bool)
      → (e : EnvVar) × (retain
            (λ (v : EnvVar). v.name == "SURREAL_PATH")
            (surreal_container c mode).env
          ≡ e ∷ [])
        × (has_source e ≡ is_ok (tikv_backend_configured c))
        × (is_some e.value ≡ is_some c.spec.tidb_cluster)
        × (e.value_from ≡ c.spec.tikv_secret_ref)
  unfolding surreal_container env_creation env_normal tikv_backend_configured
  container-path true = (_, refl, ground arith, ground arith, refl)
  container-path false = (_, refl, ground arith, ground arith, refl)

  pub service-Selects :
      (name : String) (mode : Bool)
      → Agree (build_surreal_service c name) (build_surreal_deployment c name mode)
        × (is_some (build_surreal_service c name) ≡ is_owned)
        × (is_some (build_surreal_deployment c name mode) ≡ is_owned)
  unfolding build_surreal_deployment build_surreal_service surreal_container owner_ref
  service-Selects name mode = ground arith

-- ===== src/Resources/Cluster.antt =====
-- src/cluster/crd.rs: the `Cluster` resource.
use sdb_controller.Prelude.{ℕ, Option, String}
use sdb_controller.Resources.Core.{ObjectMeta, SecretReference, SecretKeySelector}
use sdb_controller.Resources.Tidb.{TidbClusterSpec}

pub record Spec : Type 0 where
  pub replicas : Option ℕ  -- u8
  pub surrealdb_image : Option String
  pub root_secret : Option SecretReference
  pub tikv_secret_ref : Option SecretKeySelector
  pub tidb_cluster : Option TidbClusterSpec

pub data Phase : Type 0 where
  new preparing in_creation not_ready in_progress ready error : Phase

pub record TidbClusterRef : Type 0 where
  pub name : String
  pub namespace : Option String

pub record Status : Type 0 where
  pub phase : Option Phase
  pub tidb_cluster_ref : Option TidbClusterRef

pub record Cluster : Type 0 where
  pub metadata : ObjectMeta
  pub spec : Spec
  pub status : Option Status

-- `Cluster::kind(&())` and `Cluster::api_version(&())`, from the `kube` attribute.
abbrev pub cluster_kind : String
cluster_kind = "Cluster"

abbrev pub api_version : String
api_version = "surrealdb.aexol.com/v1alpha1"

abbrev pub cluster_finalizer : String
cluster_finalizer = "clusters.surrealdb.aexol.com"

-- ===== src/Resources/Database.antt =====
-- src/database/crd.rs: the `Database` resource.
use sdb_controller.Prelude.{Option, String}
use sdb_controller.Resources.Core.{ObjectMeta}

pub record ClusterRef : Type 0 where
  pub name : String
  pub namespace : Option String

pub record DbSpec : Type 0 where
  pub cluster_ref : ClusterRef
  pub db_namespace : Option String
  pub db_name : Option String

pub data DbPhase : Type 0 where
  new in_progress ready error : DbPhase

pub record DbStatus : Type 0 where
  pub phase : Option DbPhase
  pub message : Option String

pub record Database : Type 0 where
  pub metadata : ObjectMeta
  pub spec : DbSpec
  pub status : Option DbStatus

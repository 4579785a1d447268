-- ===== src/Resources/User.antt =====
-- src/user/crd.rs: the `User` resource.
use sdb_controller.Prelude.{Option, String}
use sdb_controller.Resources.Core.{ObjectMeta}

pub record ClusterRef : Type 0 where
  pub name : String
  pub namespace : Option String

pub record DatabaseRef : Type 0 where
  pub name : String
  pub namespace : Option String

pub record UserSpec : Type 0 where
  pub cluster_ref : ClusterRef
  pub database_ref : DatabaseRef
  pub username : Option String
  pub password : Option String
  pub secret_name : Option String

pub data UserPhase : Type 0 where
  new ready error : UserPhase

pub record UserStatus : Type 0 where
  pub phase : Option UserPhase
  pub message : Option String

pub record User : Type 0 where
  pub metadata : ObjectMeta
  pub spec : UserSpec
  pub status : Option UserStatus

abbrev pub user_kind : String
user_kind = "User"

abbrev pub user_finalizer : String
user_finalizer = "users.surrealdb.aexol.com"

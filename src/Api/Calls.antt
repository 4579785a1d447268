-- ===== src/Api/Calls.antt =====
-- The requests that the controllers send, with all that they carry, and the type of each reply.
use sdb_controller.Prelude.{Bool, Option, String, List}
use sdb_controller.Error.{KubeError}
use sdb_controller.Resources.Core.{
  ObjectMeta, Secret, ConfigMap, Deployment, Service, PatchOperation, PropagationPolicy,
}
use sdb_controller.Resources.Tidb.{TidbCluster}
use sdb_controller.Resources.Cluster.{Cluster, Phase}
use sdb_controller.Resources.Database.{Database, DbPhase}
use sdb_controller.Resources.User.{UserPhase}

-- `http::Request<Vec<u8>>` (its URI may be a path) and `reqwest::Request` (its URI is a URL).
pub record HttpRequest : Type 0 where
  pub method : String
  pub uri : String
  pub headers : List (String × String)
  pub body : String

-- The type of object at which `delete_if_exists` is used.
pub data Kind : Type 0 where
  deployment service secret tidb_cluster : Kind

-- `events::Event`, an event of type Normal with no secondary object.
pub record Event : Type 0 where
  pub reason : String
  pub note : Option String
  pub action : String

-- `PatchParams::apply(manager)`, forced or not.
pub record ApplyParams : Type 0 where
  pub field_manager : String
  pub force : Bool

pub data Call : Type 0 where
  patch_cluster : (ns name : String) → List PatchOperation → Call
  patch_database : (ns name : String) → List PatchOperation → Call
  patch_user : (ns name : String) → List PatchOperation → Call
  patch_cluster_status : (ns name : String) → Phase → Call
  patch_database_status : (ns name : String) → DbPhase → (message : Option String) → Call
  patch_user_status : (ns name : String) → UserPhase → (message : Option String) → Call
  create_secret : (ns : String) → Secret → Call
  create_config_map : (ns : String) → ConfigMap → Call
  create_tidb_cluster : (ns : String) → TidbCluster → Call
  apply_deployment : (ns name : String) → ApplyParams → Deployment → Call
  apply_service : (ns name : String) → ApplyParams → Service → Call
  get_cluster : (ns name : String) → Call
  get_database : (ns name : String) → Call
  get_secret : (ns name : String) → Call
  get_deployment : (ns name : String) → Call
  get_opt_tidb_cluster : (ns name : String) → Call
  get_meta : Kind → (ns name : String) → Call
  delete : Kind → (ns name : String) → PropagationPolicy → Call
  publish : Event → ObjectMeta → Call
  request_text : HttpRequest → Call
  execute : HttpRequest → Call

-- What a reply holds, as far as the controllers read it.
abbrev pub Reply : Call → Type 0
Reply (get_cluster ns name) = Cluster
Reply (get_database ns name) = Database
Reply (get_secret ns name) = Secret
Reply (get_deployment ns name) = Deployment
Reply (get_opt_tidb_cluster ns name) = Option TidbCluster
Reply (get_meta kind ns name) = ObjectMeta
Reply call = Unit {0}

-- A `reqwest::Error` is kept by its text.
abbrev pub Fault : Call → Type 0
Fault (execute request) = String
Fault call = KubeError

-- ===== src/Resources/Tidb.antt =====
-- tidb-api/src/tidb/tidbclusters.rs: the `TidbCluster` of pingcap.com. The controllers copy its
-- spec unread, so a nested struct of it is kept by the JSON value that it serialises to.
use sdb_controller.Prelude.{Bool, Option, String, List}
use sdb_controller.Resources.Core.{ObjectMeta, Json}

pub record TidbClusterSpec : Type 0 where
  pub across_k8s : Option Bool
  pub affinity : Option Json
  pub annotations : Option (List (String × String))
  pub cluster : Option Json
  pub cluster_domain : Option String
  pub config_update_strategy : Option String
  pub discovery : Option Json
  pub dns_config : Option Json
  pub dns_policy : Option String
  pub enable_dynamic_configuration : Option Bool
  pub enable_pvc_replace : Option Bool
  pub enable_pv_reclaim : Option Bool
  pub helper : Option Json
  pub host_network : Option Bool
  pub image_pull_policy : Option String
  pub image_pull_secrets : Option (List Json)
  pub labels : Option (List (String × String))
  pub node_selector : Option (List (String × String))
  pub paused : Option Bool
  pub pd : Option Json
  pub pd_addresses : Option (List String)
  pub pdms : Option (List Json)
  pub pod_management_policy : Option String
  pub pod_security_context : Option Json
  pub prefer_i_pv6 : Option Bool
  pub priority_class_name : Option String
  pub pump : Option Json
  pub pv_reclaim_policy : Option String
  pub recovery_mode : Option Bool
  pub scheduler_name : Option String
  pub service_account : Option String
  pub services : Option (List Json)
  pub start_script_v2_feature_flags : Option (List String)
  pub start_script_version : Option Json
  pub stateful_set_update_strategy : Option String
  pub suspend_action : Option Json
  pub ticdc : Option Json
  pub tidb : Option Json
  pub tiflash : Option Json
  pub tikv : Option Json
  pub timezone : Option String
  pub tiproxy : Option Json
  pub tls_cluster : Option Json
  pub tolerations : Option (List Json)
  pub topology_spread_constraints : Option (List Json)
  pub version : Option String

-- `metav1.Condition`, with the fields that the controllers read.
pub record Condition : Type 0 where
  pub type_ : String
  pub status : String

pub record TidbClusterStatus : Type 0 where
  pub cluster_id : Option String
  pub conditions : Option (List Condition)
  pub pd : Option Json
  pub pdms : Option (List (String × Json))
  pub pump : Option Json
  pub ticdc : Option Json
  pub tidb : Option Json
  pub tiflash : Option Json
  pub tikv : Option Json
  pub tiproxy : Option Json

pub record TidbCluster : Type 0 where
  pub metadata : ObjectMeta
  pub spec : TidbClusterSpec
  pub status : Option TidbClusterStatus

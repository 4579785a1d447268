-- ===== src/Tests/Steps.antt =====
-- Further properties at the concrete resources: single steps and whole frames.
use sdb_controller.Prelude.{String, List, ◌∷◌, none, arith, ◌≡◌, refl, some, [], All}
use sdb_controller.Error.{missing_root_credentials}
use sdb_controller.Metrics.{ErrorLabels}
use sdb_controller.Metrics.Counts.{counter}
use sdb_controller.Resources.Cluster.{Cluster, Phase, in_creation, in_progress}
use sdb_controller.Resources.Database as DbPhases
use sdb_controller.Resources.User as UserPhases
use sdb_controller.Resources.Core.{null}
use sdb_controller.Crdgen.{
  CrdVersion, open_versions, Schema, schema, set, unset, no_items, Table, entry, end, open_fields,
}
use sdb_controller.Crdgen.Lookup.{find}
use sdb_controller.Crdgen.Versions.{Done, AreOpened, are_complete, open_versions-Opened}
use sdb_controller.Crdgen.Opening.{Changes, open_fields-Opens}
use sdb_controller.Service.{Client}
use sdb_controller.Cluster.Actions.{tikv_backend_configured, tidb_ready, is_true}
use sdb_controller.Cluster.Reconcile.{requeue, reconcile, current}
use sdb_controller.Cluster.Control.{error_policy, error_policy-counter}
use sdb_controller.Cluster.Convergence.{rounds, rounds-Settles}
use sdb_controller.Cluster.Progress.{Advances, reconcile-Advances}
use sdb_controller.Cluster.Progress.Steps.{IsAccepting, IsComplete, Accepts}
use sdb_controller.Database as Db
use sdb_controller.Database.Requests as DbRequests
use sdb_controller.Database.Requests.{reconcile-IsModest}
use sdb_controller.User as Users
use sdb_controller.User.Requests as UserRequests
use sdb_controller.User.Requests.{reconcile-IsFrugal}
use sdb_controller.Api.{
  Call, patch_cluster, patch_database, patch_user, patch_cluster_status, patch_database_status,
  patch_user_status, create_secret, create_config_map, create_tidb_cluster, apply_deployment,
  apply_service, get_cluster, get_database, get_secret, get_deployment, get_opt_tidb_cluster,
  get_meta, delete, publish, request_text, execute, done, start, trace,
}
use sdb_controller.Tests.Mock.{mock, answer, own_reference, cluster_in, fresh_database, fresh_user}

abbrev creating : Cluster
creating = cluster_in (some in_creation)

reconcile-IsModest_example :
    All
      (λ e.
        DbRequests.IsPermitted ⦃K = mock⦄ fresh_database DbPhases.new e.call
        × DbRequests.IsPending DbPhases.new)
      (trace ⦃K = mock⦄ (Db.reconcile ⦃K = mock⦄ Client.reqwest fresh_database) tt)
reconcile-IsModest_example = reconcile-IsModest ⦃K = mock⦄ Client.reqwest fresh_database tt

reconcile-IsFrugal_example :
    All
      (λ e.
        UserRequests.IsPermitted ⦃K = mock⦄ fresh_user UserPhases.new e.call
        × UserRequests.IsPending UserPhases.new)
      (trace ⦃K = mock⦄ (Users.reconcile ⦃K = mock⦄ Client.reqwest fresh_user) tt)
reconcile-IsFrugal_example = reconcile-IsFrugal ⦃K = mock⦄ Client.reqwest fresh_user tt

abbrev labels_of_main : ErrorLabels
labels_of_main = record { instance_ = "main"; error = "" }

error_policy-counter_example :
    ((error_policy ⦃K = mock⦄ creating missing_root_credentials (start ⦃K = mock⦄ tt)).0
      ≡ done (requeue 300))
    × (counter labels_of_main
          (error_policy ⦃K = mock⦄ creating missing_root_credentials
            (start ⦃K = mock⦄ tt)).1.metrics.failures
        ≡ 1)
    × ((error_policy ⦃K = mock⦄ creating missing_root_credentials
          (start ⦃K = mock⦄ tt)).1.metrics.runs
        ≡ 0)
    × ((error_policy ⦃K = mock⦄ creating missing_root_credentials
          (start ⦃K = mock⦄ tt)).1.metrics.duration
        ≡ [])
    × ((error_policy ⦃K = mock⦄ creating missing_root_credentials (start ⦃K = mock⦄ tt)).1.log ≡ [])
error_policy-counter_example =
    error_policy-counter ⦃K = mock⦄ creating missing_root_credentials labels_of_main
      (start ⦃K = mock⦄ tt)

answer-Accepts : (call : Call) → Accepts ⦃K = mock⦄ call (answer call)
unfolding tidb_ready is_true
answer-Accepts (get_deployment ns name) = refl
answer-Accepts (get_secret ns name) = (_, _, refl, refl)
answer-Accepts (get_opt_tidb_cluster ns name) = refl
answer-Accepts (patch_cluster ns name ops) = tt
answer-Accepts (patch_database ns name ops) = tt
answer-Accepts (patch_user ns name ops) = tt
answer-Accepts (patch_cluster_status ns name phase) = tt
answer-Accepts (patch_database_status ns name phase message) = tt
answer-Accepts (patch_user_status ns name phase message) = tt
answer-Accepts (create_secret ns s) = tt
answer-Accepts (create_config_map ns c) = tt
answer-Accepts (create_tidb_cluster ns t) = tt
answer-Accepts (apply_deployment ns name params d) = tt
answer-Accepts (apply_service ns name params s) = tt
answer-Accepts (get_cluster ns name) = tt
answer-Accepts (get_database ns name) = tt
answer-Accepts (get_meta kind ns name) = tt
answer-Accepts (delete kind ns name policy) = tt
answer-Accepts (publish event meta) = tt
answer-Accepts (request_text request) = tt
answer-Accepts (execute request) = tt

mock-IsAccepting : IsAccepting ⦃K = mock⦄
mock-IsAccepting = record { accepts = λ call s. answer-Accepts call; builds = λ request. refl }

creating-IsComplete : IsComplete ⦃K = mock⦄ creating "prod" "root" own_reference
unfolding tikv_backend_configured
creating-IsComplete = record { home = refl; owner = refl; root = refl; backend = refl }

reconcile-Advances_example :
    Advances ⦃K = mock⦄ creating "prod"
      (some in_progress)
      (reconcile ⦃K = mock⦄ creating (start ⦃K = mock⦄ tt))
      none
reconcile-Advances_example =
    reconcile-Advances ⦃K = mock⦄ mock-IsAccepting creating "prod" "root" own_reference
      creating-IsComplete tt

rounds-Settles_example : current (rounds ⦃K = mock⦄ "prod" 3 (creating, tt)).0.status ≡ Phase.ready
rounds-Settles_example =
    rounds-Settles ⦃K = mock⦄ mock-IsAccepting "prod" "root" own_reference creating tt
      creating-IsComplete tt 3 (omega arith)

abbrev plain : Schema
plain = schema null none unset no_items

abbrev plain_table : Table
plain_table = entry "pd" plain (entry "version" plain end)

open_fields-Opens_example :
    Changes "pd" "config" (find "pd" plain_table) (find "pd" (open_fields plain_table))
open_fields-Opens_example = open_fields-Opens plain_table "pd" "config"

abbrev table_with : String → Schema → Schema
table_with name s = schema null none (set (entry name s end)) no_items

abbrev only_version : List CrdVersion
only_version =
    record {
      name = "v1alpha1";
      validation =
          some (some (table_with "spec" (table_with "tidbCluster" (table_with "pd" plain))));
    }
    ∷ []

open_versions-Opened_example :
    Done (AreOpened "pd" "config") are_complete only_version (open_versions only_version)
open_versions-Opened_example = open_versions-Opened "pd" "config" only_version

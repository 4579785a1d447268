-- ===== src/Fixtures/User.antt =====
-- src/user/fixtures.rs: the users, the scenarios and the handlers of the user controller's tests.
pub mod Words
pub mod Accepted
pub mod Steps
pub mod Passes
use sdb_controller.Prelude.{
  Bool, true, false, ◌&&◌, ◌||◌, not, Option, none, some, get_or, String, ◌<>◌, ◌==◌, List, [], ◌∷◌,
  ◌++◌, is_some, lookup,
}
use sdb_controller.Resources.Core.{PatchOperation, add}
use sdb_controller.Resources.Database.{Database}
use sdb_controller.Resources.User.{User, UserStatus, user_finalizer}
use sdb_controller.Api.{
  patch_user, get_database, create_secret, create_config_map, request_text, ok, Kube,
}
use sdb_controller.Fixtures.Texts.{contains, ends_with}
use sdb_controller.Fixtures.Wire.{Wire, collection, core, own_group}
use sdb_controller.Fixtures.Server.{Handler, when, asks}
use sdb_controller.Fixtures.Credentials.{
  answer_cluster, handle_get_secret_root, posts_sql, content_type,
}

-- `User::test`
abbrev pub test_user : User
test_user = record {
  metadata = record {
    name = some "test-user";
    namespace = some "default";
    uid = some "2222-22-22-22-222222";
    finalizers = none;
    deletion_timestamp = none;
    labels = none;
    owner_references = none;
  };
  spec = record {
    cluster_ref = record { name = "test"; namespace = none };
    database_ref = record { name = "test-db"; namespace = none };
    username = none;
    password = none;
    secret_name = none;
  };
  status = none;
}

abbrev pub finalized : User → User
finalized u = record u {
  metadata = record u.metadata {
    finalizers = some (get_or u.metadata.finalizers [] ++ user_finalizer ∷ []);
  };
}

abbrev pub with_status : User → UserStatus → User
with_status u status = record u { status = some status }

abbrev pub with_username : User → String → User
with_username u name = record u { spec = record u.spec { username = some name } }

abbrev pub with_password : User → String → User
with_password u pw = record u { spec = record u.spec { password = some pw } }

pub data Scenario : Type 0 where
  finalizer_creation : User → Scenario
  new_creates_user_and_secret_and_configmap_default_names : User → Scenario

abbrev adds_finalizers : List PatchOperation → Bool
adds_finalizers [] = false
adds_finalizers (add path value ∷ ops) = path == "/metadata/finalizers" || adds_finalizers ops
adds_finalizers (op ∷ ops) = adds_finalizers ops

-- The database that the server answers.
abbrev pub referred_database : User → Database
referred_database user = record {
  metadata = record {
    name = some user.spec.database_ref.name;
    namespace = user.metadata.namespace;
    uid = none;
    finalizers = none;
    deletion_timestamp = none;
    labels = none;
    owner_references = none;
  };
  spec = record {
    cluster_ref = record { name = user.spec.cluster_ref.name; namespace = none };
    db_namespace = none;
    db_name = some "app";
  };
  status = none;
}

-- The namespace of the cluster, as in the fixtures of the databases.
abbrev pub cluster_ns_of : User → Option String → String
cluster_ns_of user cluster_ns_override =
    get_or cluster_ns_override
      (get_or user.spec.cluster_ref.namespace (get_or user.metadata.namespace ""))

abbrev pub has_key : String → Option (List (String × String)) → Bool
has_key key none = false
has_key key (some entries) = is_some (lookup key entries)

module _ ⦃K : Kube⦄ (wire : Wire) where
  unfoldable pub handle_get_database : User → Handler
  handle_get_database user (get_database ns n) =
      when
        (asks wire "GET"
          (collection own_group (get_or user.metadata.namespace "default") "databases/"
            <> user.spec.database_ref.name)
          (get_database ns n))
        (ok (referred_database user))
  handle_get_database user other = none

  abbrev pub handle_get_cluster : User → Option String → Handler
  handle_get_cluster user o = answer_cluster wire (cluster_ns_of user o) user.spec.cluster_ref.name

  -- The handler for SQL, by the namespace of the cluster and its name.
  unfoldable pub define_user_ok : (cluster_ns cluster_name : String) → Handler
  define_user_ok cluster_ns cluster_name (request_text req) =
      when
        (posts_sql wire cluster_ns cluster_name req
          && content_type req == "text/plain"
          && contains "DEFINE USER " req.body
          && contains "ON DATABASE" req.body
          && not (contains "GRANT ALL ON DB" req.body))
        (ok tt)
  define_user_ok cluster_ns cluster_name other = none

  abbrev pub handle_proxy_define_user : User → Option String → Handler
  handle_proxy_define_user user o = define_user_ok (cluster_ns_of user o) user.spec.cluster_ref.name

  unfoldable pub handle_create_secret : User → Handler
  handle_create_secret user (create_secret ns s) =
      when
        (asks wire "POST" (collection core (get_or user.metadata.namespace "") "secrets?")
            (create_secret ns s)
          && ends_with "-credentials" (get_or s.metadata.name ""))
        (ok tt)
  handle_create_secret user other = none

  unfoldable pub handle_create_configmap : User → Handler
  handle_create_configmap user (create_config_map ns c) =
      when
        (asks wire "POST" (collection core (get_or user.metadata.namespace "") "configmaps?")
            (create_config_map ns c)
          && ends_with "-config" (get_or c.metadata.name "")
          && has_key "username" c.strings
          && has_key "url" c.strings)
        (ok tt)
  handle_create_configmap user other = none

  unfoldable pub handle_finalizer_creation : User → Handler
  handle_finalizer_creation user (patch_user ns name ops) =
      when
        (asks wire "PATCH"
            (collection own_group (get_or user.metadata.namespace "") "users/"
              <> K.name_any user.metadata
              <> "?")
            (patch_user ns name ops)
          && adds_finalizers ops)
        (ok tt)
  handle_finalizer_creation user other = none

  -- `ApiServerVerifier::run`: the chain of a scenario.
  unfoldable pub run : Scenario → List Handler
  run (finalizer_creation user) = handle_finalizer_creation user ∷ []
  run (new_creates_user_and_secret_and_configmap_default_names user) =
      handle_get_database user
      ∷ handle_get_cluster user none
      ∷ handle_get_secret_root wire "default"
      ∷ handle_proxy_define_user user none
      ∷ handle_create_secret user
      ∷ handle_create_configmap user
      ∷ []

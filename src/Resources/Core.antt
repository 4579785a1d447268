-- ===== src/Resources/Core.antt =====
-- The structs of k8s_openapi, each with the fields that the controllers set or read. What the
-- source leaves to `..Default::default()` is absent.
use sdb_controller.Prelude.{ℕ, Bool, Option, String, List}

pub record OwnerReference : Type 0 where
  pub api_version : String
  pub kind : String
  pub name : String
  pub uid : String
  pub controller : Option Bool

pub record ObjectMeta : Type 0 where
  pub name : Option String
  pub namespace : Option String
  pub uid : Option String
  pub finalizers : Option (List String)
  pub deletion_timestamp : Option String
  pub labels : Option (List (String × String))
  pub owner_references : Option (List OwnerReference)

-- A byte string as the controllers see it: the text that it encodes, or no UTF-8.
pub data ByteString : Type 0 where
  utf8 : String → ByteString
  not_utf8 : ByteString

-- `String::from_utf8(bytes).unwrap_or_default()`
abbrev pub from_utf8_or_default : ByteString → String
from_utf8_or_default (utf8 text) = text
from_utf8_or_default not_utf8 = ""

pub record Secret : Type 0 where
  pub metadata : ObjectMeta
  pub type_ : Option String
  pub bytes : Option (List (String × ByteString))  -- `data`
  pub string_data : Option (List (String × String))

pub record ConfigMap : Type 0 where
  pub metadata : ObjectMeta
  pub strings : Option (List (String × String))  -- `data`

pub record SecretReference : Type 0 where
  pub name : Option String
  pub namespace : Option String

pub record SecretKeySelector : Type 0 where
  pub key : String
  pub name : String
  pub optional : Option Bool

pub record EnvVar : Type 0 where
  pub name : String
  pub value : Option String
  pub value_from : Option SecretKeySelector  -- `EnvVarSource::secret_key_ref`

pub record ContainerPort : Type 0 where
  pub container_port : ℕ
  pub name : Option String
  pub protocol : Option String

pub record Probe : Type 0 where
  pub path : String
  pub port : ℕ
  pub scheme : String
  pub initial_delay_seconds : ℕ
  pub period_seconds : ℕ

pub record Container : Type 0 where
  pub name : String
  pub image : Option String
  pub args : List String
  pub env : List EnvVar
  pub ports : List ContainerPort
  pub readiness_probe : Option Probe
  pub liveness_probe : Option Probe

pub record PodTemplateSpec : Type 0 where
  pub labels : List (String × String)
  pub containers : List Container

pub record DeploymentSpec : Type 0 where
  pub replicas : Option ℕ
  pub match_labels : List (String × String)
  pub template : PodTemplateSpec

pub record Deployment : Type 0 where
  pub metadata : ObjectMeta
  pub spec : Option DeploymentSpec
  pub status : Option (Option ℕ)  -- `DeploymentStatus::available_replicas`, no negative number

pub record ServicePort : Type 0 where
  pub name : Option String
  pub port : ℕ
  pub target_port : ℕ
  pub protocol : Option String

pub record ServiceSpec : Type 0 where
  pub selector : List (String × String)
  pub ports : List ServicePort
  pub type_ : String

pub record Service : Type 0 where
  pub metadata : ObjectMeta
  pub spec : Option ServiceSpec

-- `serde_json::Value`, a number by its text.
mutual
  pub data Json : Type 0 where
    null : Json
    boolean : Bool → Json
    number : String → Json
    string : String → Json
    array : Items → Json
    object : Fields → Json

  pub data Items : Type 0 where
    nil : Items
    cons : Json → Items → Items

  pub data Fields : Type 0 where
    end : Fields
    field : String → Json → Fields → Fields

-- `json_patch::PatchOperation`, as far as the controllers and the finalizer helper use it.
pub data PatchOperation : Type 0 where
  test add : (path : String) → (value : Json) → PatchOperation
  remove : (path : String) → PatchOperation
  replace : (path : String) → (value : Json) → PatchOperation

pub data PropagationPolicy : Type 0 where
  background orphan : PropagationPolicy

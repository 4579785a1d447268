-- ===== src/Crdgen.antt =====
-- src/crdgen.rs: the schema of the Cluster resource, opened where its generator closed it. `none` is a
-- panic of `expect`.
pub mod Lookup
pub mod Opening
pub mod Versions
use mathlib.Core.Option
use sdb_controller.Prelude.{
  Bool, true, Option, none, some, String, ◌==◌, List, [], ◌∷◌, if◌then◌else◌,
}
use sdb_controller.Resources.Core.{Json, null}

-- `JSONSchemaProps`, its attributes that the program does not touch kept as one JSON value, and its
-- map of properties with one entry for a name.
mutual
  pub data Schema : Type 0 where
    schema : (rest : Json) → (preserve : Option Bool) → Properties → Items → Schema

  pub data Properties : Type 0 where
    unset : Properties
    set : Table → Properties

  pub data Table : Type 0 where
    end : Table
    entry : String → Schema → Table → Table

  -- `Option<JSONSchemaPropsOrArray>`
  pub data Items : Type 0 where
    no_items : Items
    one : Schema → Items
    many : Schemas → Items

  pub data Schemas : Type 0 where
    nil : Schemas
    cons : Schema → Schemas → Schemas

abbrev pub default_schema : Schema
default_schema = schema null none unset no_items

-- `JSONSchemaProps { x_kubernetes_preserve_unknown_fields: Some(true), ..Default::default() }`
abbrev pub open_schema : Schema
open_schema = schema null (some true) unset no_items

-- `properties.insert(name, value)`
unfoldable pub put : String → Schema → Table → Table
put name value end = entry name value end
put name value (entry key s t) =
    let later = put name value t in if key == name then entry name value t else entry key s later

-- `props.entry(name).and_modify(f)`
unfoldable pub modify : String → (Schema → Schema) → Table → Table
modify name f end = end
modify name f (entry key s t) =
    let later = modify name f t in if key == name then entry key (f s) t else entry key s later

-- `get_or_insert_default()`
abbrev pub table_of : Properties → Table
table_of unset = end
table_of (set t) = t

-- `v.properties.get_or_insert_default().insert(name, …)`
unfoldable pub open_field : String → Schema → Schema
open_field name (schema rest preserve properties items) =
    schema rest preserve (set (put name open_schema (table_of properties))) items

-- The closure for "pdms": the schema of the items is made if it is missing, and an array of schemas
-- is left.
unfoldable pub open_items : Schema → Schema
unfolding open_field
open_items (schema rest preserve properties no_items) =
    schema rest preserve properties (one (open_field "config" default_schema))
open_items (schema rest preserve properties (one s)) =
    schema rest preserve properties (one (open_field "config" s))
open_items (schema rest preserve properties (many ss)) = schema rest preserve properties (many ss)

-- The body of the loop, from the properties of "tidbCluster" on.
unfoldable pub open_fields : Table → Table
unfolding modify open_field open_items
open_fields t = modify "tiproxy" (open_field "config") (
    modify "tikv" (open_field "config") (
      modify "tiflash" (λ s. open_field "proxy" (open_field "config" s))
        (modify "tidb" (open_field "config") (
          modify "ticdc" (open_field "config") (
            modify "pump" (open_field "config")
              (modify "pdms" open_items (modify "pd" (open_field "config") t)))))))

-- `.get_mut(name).expect(…)`, and the change of what it finds.
unfoldable pub at_key : String → (Schema → Option Schema) → Table → Option Table
at_key name f end = none
at_key name f (entry key s t) =
    let later = at_key name f t in
    if key == name then Option.map (λ s'. entry key s' t) (f s) else Option.map (entry key s) later

abbrev with_properties : (Table → Option Table) → Schema → Option Schema
with_properties f (schema rest preserve unset items) = none
with_properties f (schema rest preserve (set t) items) =
    Option.map (λ t'. schema rest preserve (set t') items) (f t)

unfoldable pub open_schema_of_cluster : Schema → Option Schema
unfolding at_key open_fields
open_schema_of_cluster s =
    with_properties
      (at_key "spec"
        (with_properties (at_key "tidbCluster" (with_properties (λ t. some (open_fields t))))))
      s

-- `CustomResourceDefinitionVersion`; the schema stands in two options.
pub record CrdVersion : Type 0 where
  pub name : String
  pub validation : Option (Option Schema)

unfoldable pub open_version : CrdVersion → Option CrdVersion
unfolding open_schema_of_cluster
open_version v = elim v.validation [
  | none ↦ none
  | some inner ↦ elim inner [
    | none ↦ none
    | some s ↦
        Option.map (λ s'. record v { validation = some (some s') }) (open_schema_of_cluster s)
  ]
]

-- `for v in &mut crd.spec.versions`
unfoldable pub open_versions : List CrdVersion → Option (List CrdVersion)
open_versions [] = some []
open_versions (v ∷ vs) = elim (open_version v) [
  | none ↦ none
  | some v' ↦ Option.map (λ vs'. v' ∷ vs') (open_versions vs)
]

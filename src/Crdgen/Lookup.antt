-- ===== src/Crdgen/Lookup.antt =====
-- src/crdgen.rs: looking up a property after the changes of the generator.
use mathlib.Core.Option
use sdb_controller.Prelude.{
  ◌≡◌, refl, arith, Option, none, some, String, ◌==◌, eq_iff, false, Bool-cases, inl, inr,
  if◌then◌else◌,
}
use sdb_controller.Crdgen.{
  Schema, schema, Table, end, entry, open_schema, table_of, put, modify, open_field, open_items,
  open_fields,
}

abbrev pub find : String → Table → Option Schema
find name end = none
find name (entry key s t) = let later = find name t in if key == name then some s else later

find-modify :
    (name other : String) (f : Schema → Schema) (t : Table)
    → find other (modify name f t)
      ≡ (if other == name then Option.map f (find other t) else find other t)
unfolding modify
find-modify name other f end = ground arith
find-modify name other f (entry key s t) =
    ground (arith, eq_iff other name, eq_iff key name, eq_iff key other, find-modify name other f t)

pub find-put :
    (name other : String) (s : Schema) (t : Table)
    → find other (put name s t) ≡ (if name == other then some s else find other t)
unfolding put
find-put name other s end = ground arith
find-put name other s (entry key r t) =
    ground (arith, eq_iff name other, eq_iff key name, eq_iff key other, find-put name other s t)

abbrev pub fields_of : Schema → Table
fields_of (schema rest preserve properties items) = table_of properties

find-open_field :
    (name other : String) (s : Schema)
    → find other (fields_of (open_field name s))
      ≡ (if name == other then some open_schema else find other (fields_of s))
unfolding open_field
find-open_field name other (schema rest preserve properties items) =
    find-put name other open_schema (table_of properties)

-- What the changes in a row do to the schema of each field of "tidbCluster".
abbrev pub opened : String → Schema → Schema
opened name s =
    if name == "pd"
    then open_field "config" s
    else if name == "pdms"
    then open_items s
    else if name == "pump"
    then open_field "config" s
    else if name == "ticdc"
    then open_field "config" s
    else if name == "tidb"
    then open_field "config" s
    else if name == "tiflash"
    then open_field "proxy" (open_field "config" s)
    else if name == "tikv"
    then open_field "config" s
    else if name == "tiproxy"
    then open_field "config" s
    else s

abbrev Opens : Table → String → Type 0
Opens t name = find name (open_fields t) ≡ Option.map (opened name) (find name t)

module _ (t : Table) where
  open-pd : Opens t "pd"
  unfolding open_fields
  open-pd = simp (find-modify)

  open-pdms : Opens t "pdms"
  unfolding open_fields
  open-pdms = simp (find-modify)

  open-pump : Opens t "pump"
  unfolding open_fields
  open-pump = simp (find-modify)

  open-ticdc : Opens t "ticdc"
  unfolding open_fields
  open-ticdc = simp (find-modify)

  open-tidb : Opens t "tidb"
  unfolding open_fields
  open-tidb = simp (find-modify)

  open-tiflash : Opens t "tiflash"
  unfolding open_fields
  open-tiflash = simp (find-modify)

  open-tikv : Opens t "tikv"
  unfolding open_fields
  open-tikv = simp (find-modify)

  open-tiproxy : Opens t "tiproxy"
  unfolding open_fields
  open-tiproxy = simp (find-modify)

  unless :
      (name other : String)
      → Opens t other
      → ((name == other) ≡ false → Opens t name)
      → Opens t name
  unless name other h g = elim (Bool-cases (name == other)) [
    | inl e ↦ let p : name ≡ other = (eq_iff name other).0 e in rw p h
    | inr e ↦ g e
  ]

  open-other :
      (name : String)
      → (name == "pd") ≡ false
      → (name == "pdms") ≡ false
      → (name == "pump") ≡ false
      → (name == "ticdc") ≡ false
      → (name == "tidb") ≡ false
      → (name == "tiflash") ≡ false
      → (name == "tikv") ≡ false
      → (name == "tiproxy") ≡ false
      → Opens t name
  unfolding open_fields
  open-other name a b c d e f g h =
      simp (find-modify, a, b, c, d, e, f, g, h) (unchanged (find name t))
    where
      unchanged : (o : Option Schema) → o ≡ Option.map (opened name) o
      unchanged none = refl
      unchanged (some s) = simp (a, b, c, d, e, f, g, h)

  pub find-open_fields : (name : String) → Opens t name
  find-open_fields name = unless name "pd" open-pd λ a. unless name "pdms" open-pdms λ b.
      unless name "pump" open-pump λ c. unless name "ticdc" open-ticdc λ d.
        unless name "tidb" open-tidb λ e. unless name "tiflash" open-tiflash λ f.
          unless name "tikv" open-tikv
            λ g. unless name "tiproxy" open-tiproxy λ h. open-other name a b c d e f g h

-- ===== src/Crdgen/Opening.antt =====
-- src/crdgen.rs: which schemas the generator changes.
use mathlib.Core.Option
use mathlib.Core.Path.{subst}
use sdb_controller.Resources.Core.{null}
use sdb_controller.Prelude.{
  ◌≡◌, refl, sym, arith, Option, none, some, String, ◌==◌, eq_iff, false, Bool-cases, inl, inr,
  if◌then◌else◌, Bool, true, ◌⊎◌, ◌&&◌, ◌||◌, any, [], ◌∷◌,
}
use sdb_controller.Crdgen.{
  Schema, schema, unset, Items, no_items, one, many, Table, open_schema, default_schema, table_of,
  put, open_field, open_items, open_fields,
}
use sdb_controller.Crdgen.Lookup.{find, find-put, opened, find-open_fields}

-- `s'` is `s` but for its property `field`: this is open if `b`, and as in `s` otherwise.
abbrev pub IsOpened : (b : Bool) (field : String) (s s' : Schema) → Type 0
IsOpened b field (schema rest preserve ps items) (schema rest' preserve' ps' items') =
    (rest' ≡ rest)
    × (preserve' ≡ preserve)
    × (items' ≡ items)
    × (find field (table_of ps')
        ≡ (if b then some (schema null (some true) unset no_items) else find field (table_of ps)))

-- A missing schema of the items counts as empty, and an array of schemas stays as it is.
abbrev pub HasOpenItems : (field : String) → Items → Items → Type 0
HasOpenItems field no_items (one s') =
    IsOpened (field == "config") field (schema null none unset no_items) s'
HasOpenItems field (one s) (one s') = IsOpened (field == "config") field s s'
HasOpenItems field (many ss) items = items ≡ many ss
HasOpenItems field no_items no_items = ⊥
HasOpenItems field no_items (many ss) = ⊥
HasOpenItems field (one s) no_items = ⊥
HasOpenItems field (one s) (many ss) = ⊥

abbrev pub IsOpenedInItems : (field : String) (s s' : Schema) → Type 0
IsOpenedInItems field (schema rest preserve ps items) (schema rest' preserve' ps' items') =
    (rest' ≡ rest) × (preserve' ≡ preserve) × (ps' ≡ ps) × HasOpenItems field items items'

-- The properties that get an open property `field`.
abbrev pub is_to_open : (name field : String) → Bool
is_to_open name field =
    (field == "config"
      && any (λ n. name == n)
          ("pd" ∷ "pump" ∷ "ticdc" ∷ "tidb" ∷ "tiflash" ∷ "tikv" ∷ "tiproxy" ∷ []))
    || (field == "proxy" && name == "tiflash")

-- The schema of the property `name` before and after, as far as its property `field` goes.
abbrev pub Changes : (name field : String) → Option Schema → Option Schema → Type 0
Changes name field none o = o ≡ none
Changes name field (some s) none = ⊥
Changes name field (some s) (some s') =
    ((name ≡ "pdms") × IsOpenedInItems field s s')
    ⊎ (((name == "pdms") ≡ false) × IsOpened (is_to_open name field) field s s')

field-IsOpened :
    (b : Bool) (name field : String) (s : Schema)
    → b ≡ (field == name)
    → IsOpened b field s (open_field name s)
unfolding open_field
field-IsOpened b name field (schema rest preserve ps items) e =
    ground (
      arith,
      e,
      eq_iff name field,
      eq_iff field name,
      find-put name field open_schema (table_of ps),
    )

both-IsOpened :
    (b : Bool) (field : String) (s : Schema)
    → b ≡ (field == "config" || field == "proxy")
    → IsOpened b field s (open_field "proxy" (open_field "config" s))
unfolding open_field
both-IsOpened b field (schema rest preserve ps items) e = ground (
  arith,
  e,
  eq_iff "config" field,
  eq_iff field "config",
  eq_iff "proxy" field,
  eq_iff field "proxy",
  find-put "config" field open_schema (table_of ps),
  find-put "proxy" field open_schema (put "config" open_schema (table_of ps)),
)

items-AreOpened : (field : String) (s : Schema) → IsOpenedInItems field s (open_items s)
unfolding open_items
items-AreOpened field (schema rest preserve ps no_items) =
    (refl, refl, refl, field-IsOpened _ "config" field default_schema refl)
items-AreOpened field (schema rest preserve ps (one s)) =
    (refl, refl, refl, field-IsOpened _ "config" field s refl)
items-AreOpened field (schema rest preserve ps (many ss)) = (refl, refl, refl, refl)

same-IsOpened :
    (b : Bool) (field : String) (s s' : Schema) → b ≡ false → s' ≡ s → IsOpened b field s s'
same-IsOpened b field (schema rest preserve ps items) s' e h = rw (e, h) (refl, refl, refl, refl)

by_name :
    (P : String → Type 0) (name other : String)
    → P other
    → ((name == other) ≡ false → P name)
    → P name
by_name P name other h g = elim (Bool-cases (name == other)) [
  | inl e ↦ let p : other ≡ name = sym ((eq_iff name other).0 e) in subst P p h
  | inr e ↦ g e
]

module _ (field : String) (s : Schema) where
  abbrev Changed : String → Type 0
  Changed name = Changes name field (some s) (some (opened name s))

  other-Changed :
      (name : String)
      → (name == "pd") ≡ false
      → (name == "pdms") ≡ false
      → (name == "pump") ≡ false
      → (name == "ticdc") ≡ false
      → (name == "tidb") ≡ false
      → (name == "tiflash") ≡ false
      → (name == "tikv") ≡ false
      → (name == "tiproxy") ≡ false
      → Changed name
  other-Changed name a b c d e f g h = inr (
    b,
    same-IsOpened _ field s _ (ground (arith, a, c, d, e, f, g, h)) (simp (a, b, c, d, e, f, g, h)),
  )

  opened-Changed : (name : String) → Changed name
  opened-Changed name =
      by_name Changed name "pd" (inr (refl, field-IsOpened _ "config" field s (ground arith))) λ a.
        by_name Changed name "pdms" (inl (refl, items-AreOpened field s)) λ b.
          by_name Changed name "pump" (inr (refl, field-IsOpened _ "config" field s (ground arith)))
            λ c.
              by_name Changed name "ticdc"
                (inr (refl, field-IsOpened _ "config" field s (ground arith)))
                λ d.
                  by_name Changed name "tidb"
                    (inr (refl, field-IsOpened _ "config" field s (ground arith)))
                    λ e.
                      by_name Changed name "tiflash"
                        (inr (refl, both-IsOpened _ field s (ground arith)))
                        λ f.
                          by_name Changed name "tikv"
                            (inr (refl, field-IsOpened _ "config" field s (ground arith)))
                            λ g.
                              by_name Changed name "tiproxy"
                                (inr (refl, field-IsOpened _ "config" field s (ground arith)))
                                λ h. other-Changed name a b c d e f g h

-- The generator changes exactly eight properties of "tidbCluster", those that are there. In "pd",
-- "pump", "ticdc", "tidb", "tikv" and "tiproxy" the property "config" becomes the schema that only
-- preserves unknown fields, whether it was there or not, in "tiflash" also the property "proxy", and in
-- "pdms" the property "config" of its items, if these are not an array of schemas. Every other property
-- of these and the rest of their schemas stay as they are, and so do all other properties of
-- "tidbCluster"; none is added and none removed.
pub open_fields-Opens :
    (t : Table) (name field : String) → Changes name field (find name t) (find name (open_fields t))
open_fields-Opens t name field = rw (find-open_fields t name) (kept (find name t))
  where
    kept : (o : Option Schema) → Changes name field o (Option.map (opened name) o)
    kept none = refl
    kept (some s) = opened-Changed field s name

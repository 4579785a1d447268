-- ===== src/Crdgen/Versions.antt =====
-- src/crdgen.rs: what the generator does to all versions, and when its `expect` panics. A table has
-- one entry for a name.
use mathlib.Core.Option
use sdb_controller.Prelude.{
  ◌≡◌, refl, Option, none, some, String, ◌==◌, false, true, Bool, Bool-cases, inl, inr, ◌⊎◌, ◌&&◌,
  List, [], ◌∷◌,
}
use sdb_controller.Crdgen.{
  Schema, schema, unset, set, Table, end, entry, open_fields, at_key, with_properties,
  open_schema_of_cluster, CrdVersion, open_version, open_versions,
}
use sdb_controller.Crdgen.Lookup.{find}
use sdb_controller.Crdgen.Opening.{Changes, open_fields-Opens}

-- Two tables that differ only in the schema of the first entry with the name `key`, as `R` says.
abbrev pub At : String → (Schema → Schema → Type 0) → Table → Table → Type 0
At key R end t' = ⊥
At key R (entry k s t) end = ⊥
At key R (entry k s t) (entry k' s' t') =
    (k' ≡ k)
    × ((((k == key) ≡ true) × R s s' × (t' ≡ t))
        ⊎ (((k == key) ≡ false) × (s' ≡ s) × At key R t t'))

-- Two schemas that differ only in their properties, as `R` says.
abbrev pub Inside : (Table → Table → Type 0) → Schema → Schema → Type 0
Inside R (schema rest preserve unset items) s' = ⊥
Inside R (schema rest preserve (set t) items) (schema rest' preserve' unset items') = ⊥
Inside R (schema rest preserve (set t) items) (schema rest' preserve' (set t') items') =
    (rest' ≡ rest) × (preserve' ≡ preserve) × (items' ≡ items) × R t t'

abbrev pub has_at : String → (Schema → Bool) → Table → Bool
has_at key p t = elim (find key t) [ none ↦ false | some s ↦ p s ]

abbrev pub has_inside : (Table → Bool) → Schema → Bool
has_inside p (schema rest preserve unset items) = false
has_inside p (schema rest preserve (set t) items) = p t

-- A change that is made as `R` says where `p` holds, and fails where it does not.
abbrev pub Done : {A : Type 0} → (A → A → Type 0) → (A → Bool) → A → Option A → Type 0
Done R p a none = p a ≡ false
Done R p a (some a') = (p a ≡ true) × R a a'

module _ (key : String) (R : Schema → Schema → Type 0) (p : Schema → Bool)
    (f : Schema → Option Schema) (h : (s : Schema) → Done R p s (f s)) where
  entry-Done :
      (k : String) (s : Schema) (t : Table) (o : Option Schema)
      → (k == key) ≡ true
      → Done R p s o
      → Done (At key R) (has_at key p) (entry k s t) (Option.map (λ s'. entry k s' t) o)
  entry-Done k s t none e g = rw (e, has_at) g
  entry-Done k s t (some s') e (q, g) = (rw (e, has_at) q, (refl, inl (e, g, refl)))

  later-Done :
      (k : String) (s : Schema) (t : Table) (o : Option Table)
      → (k == key) ≡ false
      → Done (At key R) (has_at key p) t o
      → Done (At key R) (has_at key p) (entry k s t) (Option.map (entry k s) o)
  later-Done k s t none e g = rw (e, has_at) g
  later-Done k s t (some t') e (q, g) = (rw (e, has_at) q, (refl, inr (e, refl, g)))

  at_key-Done : (t : Table) → Done (At key R) (has_at key p) t (at_key key f t)
  unfolding at_key
  at_key-Done end = refl
  at_key-Done (entry k s t) = elim (Bool-cases (k == key)) [
    | inl e ↦ rw e (entry-Done k s t (f s) e (h s))
    | inr e ↦ rw e (later-Done k s t (at_key key f t) e (at_key-Done t))
  ]

module _ (R : Table → Table → Type 0) (p : Table → Bool) (f : Table → Option Table)
    (h : (t : Table) → Done R p t (f t)) where
  properties-Done : (s : Schema) → Done (Inside R) (has_inside p) s (with_properties f s)
  properties-Done (schema rest preserve unset items) = refl
  properties-Done (schema rest preserve (set t) items) = mapped (f t) (h t)
    where
      mapped :
          (o : Option Table)
          → Done R p t o
          → Done
              (Inside R)
              (has_inside p)
              (schema rest preserve (set t) items)
              (Option.map (λ t'. schema rest preserve (set t') items) o)
      mapped none g = g
      mapped (some t') (q, g) = (q, (refl, refl, refl, g))

-- The root schema has the properties of "spec", and these of "tidbCluster".
abbrev pub is_complete : Schema → Bool
is_complete s =
    has_inside (has_at "spec" (has_inside (has_at "tidbCluster" (has_inside (λ t. true))))) s

module _ (name field : String) where
  abbrev pub Opened : Table → Table → Type 0
  Opened t t' = Changes name field (find name t) (find name t')

  -- The root schemas before and after, as far as the property `field` of the property `name` of
  -- "tidbCluster" goes.
  abbrev pub IsOpenedRoot : Schema → Schema → Type 0
  IsOpenedRoot = Inside (At "spec" (Inside (At "tidbCluster" (Inside Opened))))

  cluster-Done : (s : Schema) → Done IsOpenedRoot is_complete s (open_schema_of_cluster s)
  unfolding open_schema_of_cluster
  cluster-Done = properties-Done _ _ _ (
      at_key-Done "spec" _ _ _ (
        properties-Done _ _ _ (
          at_key-Done "tidbCluster" _ _ _ (
            properties-Done Opened (λ t. true) (λ t. some (open_fields t))
              λ t. (refl, open_fields-Opens t name field)))))

  abbrev pub IsOpenedValidation : Option (Option Schema) → Option (Option Schema) → Type 0
  IsOpenedValidation (some (some s)) (some (some s')) = IsOpenedRoot s s'
  IsOpenedValidation (some (some s)) (some none) = ⊥
  IsOpenedValidation (some (some s)) none = ⊥
  IsOpenedValidation (some none) o = ⊥
  IsOpenedValidation none o = ⊥

  abbrev pub IsOpenedVersion : CrdVersion → CrdVersion → Type 0
  IsOpenedVersion v v' = (v'.name ≡ v.name) × IsOpenedValidation v.validation v'.validation

  abbrev pub AreOpened : List CrdVersion → List CrdVersion → Type 0
  AreOpened [] [] = Unit
  AreOpened [] (v ∷ vs) = ⊥
  AreOpened (v ∷ vs) [] = ⊥
  AreOpened (v ∷ vs) (v' ∷ vs') = IsOpenedVersion v v' × AreOpened vs vs'

-- The version has a schema, and this the properties of "tidbCluster".
abbrev pub is_complete_version : Option (Option Schema) → Bool
is_complete_version (some (some s)) = is_complete s
is_complete_version (some none) = false
is_complete_version none = false

abbrev pub are_complete : List CrdVersion → Bool
are_complete [] = true
are_complete (v ∷ vs) = let later = are_complete vs in is_complete_version v.validation && later

module _ (name field : String) where
  version-Done :
      (v : String) (o : Option (Option Schema))
      → Done
          (IsOpenedVersion name field)
          (λ (v : CrdVersion). is_complete_version v.validation)
          (record { name = v; validation = o })
          (open_version (record { name = v; validation = o }))
  unfolding open_version
  version-Done v none = refl
  version-Done v (some none) = refl
  version-Done v (some (some s)) = mapped (open_schema_of_cluster s) (cluster-Done name field s)
    where
      mapped :
          (o : Option Schema)
          → Done (IsOpenedRoot name field) is_complete s o
          → Done
              (IsOpenedVersion name field)
              (λ (v : CrdVersion). is_complete_version v.validation)
              (record { name = v; validation = some (some s) })
              (Option.map (λ s'. record { name = v; validation = some (some s') }) o)
      mapped none g = g
      mapped (some s') (q, g) = (q, (refl, g))

  all-Done :
      (v : CrdVersion) (vs : List CrdVersion) (o : Option CrdVersion)
      (os : Option (List CrdVersion))
      → Done (IsOpenedVersion name field) (λ (v : CrdVersion). is_complete_version v.validation) v o
      → Done (AreOpened name field) are_complete vs os
      → Done
          (AreOpened name field)
          are_complete
          (v ∷ vs)
          (elim o [ none ↦ none | some v' ↦ Option.map (λ vs'. v' ∷ vs') os ])
  all-Done v vs none os g h = rw g refl
  all-Done v vs (some v') none (p, g) h = rw (p, h) refl
  all-Done v vs (some v') (some vs') (p, g) (q, h) = (rw (p, q) refl, (g, h))

  -- The generator panics exactly if some version has no schema, or one in which "tidbCluster" in
  -- "spec", or one of the two, is missing or has no properties. Otherwise it returns as many versions,
  -- each with its name and a schema that differs from the one before only in the properties of
  -- "tidbCluster": the property `field` of the property `name` there is open, a change in the items
  -- or as before, as `Changes` says.
  pub open_versions-Opened :
      (versions : List CrdVersion)
      → Done (AreOpened name field) are_complete versions (open_versions versions)
  unfolding open_versions
  open_versions-Opened [] = (refl, tt)
  open_versions-Opened (v ∷ vs) =
      all-Done v vs (open_version v) (open_versions vs) (version-Done v.name v.validation)
        (open_versions-Opened vs)

-- ===== src/Prelude/Tables.antt =====
-- `BTreeMap<String, V>` as an association list with one entry for a key, and searches in a list.
-- The program never depends on the order of a map's entries.
use Prim.Native.String.{String}
use mathlib.Core.Bool.{Bool, false, ◌||◌}
use mathlib.Core.Option.{Option, none, some}
use mathlib.Core.List.{List, [], ◌∷◌}
use text.Mathlib.Text.{◌==◌}
use sdb_controller.Prelude.Tests.{if◌then◌else◌}

abbrev pub lookup {ℓ} : {V : Type ℓ} → String → List (String × V) → Option V
lookup key [] = none
lookup key (entry ∷ table) =
    let later = lookup key table in if entry.0 == key then some entry.1 else later

abbrev pub insert {ℓ} : {V : Type ℓ} → String → V → List (String × V) → List (String × V)
insert key value [] = (key, value) ∷ []
insert key value (entry ∷ table) =
    let changed = insert key value table in
    if entry.0 == key then (key, value) ∷ table else entry ∷ changed

module _ {ℓ} {A : Type ℓ} where
  -- `iter().any(p)`
  abbrev pub any : (A → Bool) → List A → Bool
  any p [] = false
  any p (x ∷ xs) = p x || any p xs

  -- `Vec::retain(p)`
  abbrev pub retain : (A → Bool) → List A → List A
  retain p [] = []
  retain p (x ∷ xs) = let rest = retain p xs in if p x then x ∷ rest else rest

abbrev pub All {ℓ κ} : {A : Type ℓ} → (A → Type κ) → List A → Type κ
All P [] = Unit
All P (x ∷ xs) = P x × All P xs

-- ===== src/Tests/Finalizers.antt =====
-- A concrete finalizer helper.
use sdb_controller.Prelude.{
  ◌≡◌, refl, arith, true, Option, none, some, get_or, String, ◌==◌, List, [], ◌∷◌, any, is_some,
  if◌then◌else◌, eq_refl,
}
use sdb_controller.Error.{Error}
use sdb_controller.Resources.Core.{ObjectMeta, PatchOperation}
use sdb_controller.Api.{
  Kube, M, Try, pure, reported, cleaned, Finalizer, IsFinalizer, adding, removing, ◌>>◌,
}

-- A finalizer helper that does what its documentation says.
module _ ⦃K : Kube⦄ {Object Action : Type 0} (meta : Object → ObjectMeta)
    (patch : Object → List PatchOperation → M (Unit {0})) (unchanged : Action) where
  abbrev pub text : String → Error → String
  text part e = part

  abbrev pub dispatch :
      String
      → Object
      → (apply cleanup : M Action) → (finalizers : Option (List String))
      → (deletion_timestamp : Option String) → M (Try String Action)
  dispatch name o apply cleanup none none =
      reported (text "add") (patch o (adding name) >> pure unchanged)
  dispatch name o apply cleanup (some names) none =
      if any (λ n. n == name) names
      then reported (text "apply") apply
      else reported (text "apply") (pure unchanged)
  dispatch name o apply cleanup (some (n ∷ [])) (some t) =
      if n == name
      then cleaned (text "cleanup") (text "remove") cleanup (patch o (removing name))
      else reported (text "apply") (pure unchanged)
  dispatch name o apply cleanup other (some t) = reported (text "apply") (pure unchanged)

  abbrev pub documented : Finalizer Object Action
  documented name o apply cleanup =
      dispatch name o apply cleanup (meta o).finalizers (meta o).deletion_timestamp

  dispatch-applied :
      (name : String) (o : Object) (apply cleanup : M Action) (f : Option (List String))
      (t : Option String)
      → any (λ n. n == name) (get_or f []) ≡ true
      → t ≡ none
      → dispatch name o apply cleanup f t ≡ reported (text "apply") apply
  dispatch-applied name o apply cleanup none t h e = let x : ⊥ = ground (arith, h) in absurd x
  dispatch-applied name o apply cleanup (some names) t h e = rw (e, h) refl

  dispatch-removed :
      (name : String) (o : Object) (apply cleanup : M Action) (f : Option (List String))
      (t : Option String)
      → f ≡ some (name ∷ [])
      → is_some t ≡ true
      → dispatch name o apply cleanup f t
        ≡ cleaned (text "cleanup") (text "remove") cleanup (patch o (removing name))
  dispatch-removed name o apply cleanup f none e h = let x : ⊥ = ground (arith, h) in absurd x
  dispatch-removed name o apply cleanup f (some t) e h = rw (e, eq_refl name) refl

  pub documented-IsFinalizer : IsFinalizer meta patch unchanged documented
  documented-IsFinalizer = record {
    apply_failed = text "apply";
    add_failed = text "add";
    cleanup_failed = text "cleanup";
    remove_failed = text "remove";
    applied = λ name o apply cleanup h e. dispatch-applied name o apply cleanup _ _ h e;
    added = λ name o apply cleanup h e. rw (h, e) refl;
    removed = λ name o apply cleanup h e. dispatch-removed name o apply cleanup _ _ h e;
  }

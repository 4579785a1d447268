-- ===== src/Api/Finalization.antt =====
-- The finalizer helper of kube-rs, as far as its callers see it: it may run either of two actions on
-- the object, any number of times, send requests of its own, and fail with an error of which the
-- text is kept; the texts of its four errors say which part failed. `IsFinalizer` is what its documentation says where the object has no finalizer or
-- only that of the caller.
use sdb_controller.Prelude.{
  ◌≡◌, true, none, some, get_or, String, ◌==◌, List, [], ◌∷◌, any, is_some,
}
use sdb_controller.Error.{Error, finalizer_error}
use sdb_controller.Resources.Core.{
  ObjectMeta, PatchOperation, test, add, remove, null, string, array, cons, nil,
}
use sdb_controller.Api.Effects.{Kube, M, Try, ok, err, pure, attempt, lift, ◌>>=◌, ◌>>◌}

module _ ⦃K : Kube⦄ (Object Action : Type 0) where
  abbrev pub Finalizer : Type 0
  Finalizer = (name : String) → Object → (apply cleanup : M Action) → M (Try String Action)

module _ ⦃K : Kube⦄ {Object Action : Type 0} where
  -- `finalizer(…).await.map_err(|e| Error::FinalizerError(Box::new(e)))`
  unfoldable pub finalized :
      Finalizer Object Action → String → Object → (apply cleanup : M Action) → M Action
  finalized finalizer name object apply cleanup = do
    r ← finalizer name object apply cleanup
    lift finalizer_error r

abbrev pub adding : String → List PatchOperation
adding name =
    test "/metadata/finalizers" null
    ∷ add "/metadata/finalizers" (array (cons (string name) nil))
    ∷ []

abbrev pub removing : String → List PatchOperation
removing name = test "/metadata/finalizers/0" (string name) ∷ remove "/metadata/finalizers/0" ∷ []

module _ {A : Type 0} where
  abbrev relabel : (Error → String) → Try Error A → Try String A
  relabel text (ok a) = ok a
  relabel text (err e) = err (text e)

  -- The result of an action, its error by the helper's own text.
  unfoldable pub reported : ⦃K : Kube⦄ → (Error → String) → M A → M (Try String A)
  reported text m = do r ← attempt m; pure (relabel text r)

  -- The removal of the finalizer, once the cleanup has ended.
  unfoldable pub removal :
      ⦃K : Kube⦄ → (text text' : Error → String) → Try Error A → M (Unit {0}) → M (Try String A)
  unfolding reported
  removal text text' (ok a) patch = reported text' (patch >> pure a)
  removal text text' (err e) patch = pure (err (text e))

  -- The cleanup and the removal of the finalizer, an error by the text of the part that failed.
  unfoldable pub cleaned :
      ⦃K : Kube⦄ → (text text' : Error → String) → M A → M (Unit {0}) → M (Try String A)
  unfolding removal
  cleaned text text' cleanup patch = do r ← attempt cleanup; removal text text' r patch

-- `patch` sends a JSON patch of the object, and `unchanged` is the action to await the next change.
pub record IsFinalizer ⦃K : Kube⦄ {Object Action : Type 0} (meta : Object → ObjectMeta)
    (patch : Object → List PatchOperation → M (Unit {0})) (unchanged : Action)
    (finalizer : Finalizer Object Action) : Type 0 where
  pub apply_failed : Error → String
  pub add_failed : Error → String
  pub cleanup_failed : Error → String
  pub remove_failed : Error → String
  pub applied :
      (name : String) (o : Object) (apply cleanup : M Action)
      → any (λ n. n == name) (get_or (meta o).finalizers []) ≡ true
      → (meta o).deletion_timestamp ≡ none
      → finalizer name o apply cleanup ≡ reported apply_failed apply
  pub added :
      (name : String) (o : Object) (apply cleanup : M Action)
      → (meta o).finalizers ≡ none
      → (meta o).deletion_timestamp ≡ none
      → finalizer name o apply cleanup
        ≡ reported add_failed (patch o (adding name) >> pure unchanged)
  pub removed :
      (name : String) (o : Object) (apply cleanup : M Action)
      → (meta o).finalizers ≡ some (name ∷ [])
      → is_some (meta o).deletion_timestamp ≡ true
      → finalizer name o apply cleanup
        ≡ cleaned cleanup_failed remove_failed cleanup (patch o (removing name))

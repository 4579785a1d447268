-- ===== src/Fixtures/Finalized.antt =====
-- The finalizer helper under the handlers of a fixture.
use sdb_controller.Prelude.{◌≡◌, String, List}
use sdb_controller.Error.{Error, finalizer_error}
use sdb_controller.Api.{
  Kube, M, Try, ok, done, pure, Finalizer, finalized, reported, cleaned, removal, ◌>>◌,
}
use sdb_controller.Fixtures.Server.{
  ApiServerVerifier, Handler, IsMocked, Meets, Meets-pure, Meets-bind, Meets-tried, Meets-lift-ok,
}

module _ ⦃K : Kube⦄ (verifier : K.State → ApiServerVerifier) (mocked : IsMocked verifier)
    {before after : List Handler} where
  pub reported-Meets :
      {Action : Type 0} (text : Error → String) (m : M Action) (a : Action)
      → Meets verifier mocked before m (done a) after
      → Meets verifier mocked before (reported text m) (done (ok a)) after
  unfolding reported
  reported-Meets text m a h =
      Meets-tried verifier mocked m a _ h (Meets-pure verifier mocked (ok a))

  pub cleaned-Meets :
      {middle : List Handler} {Action : Type 0} (text text' : Error → String) (cleanup : M Action)
      (patch : M (Unit {0})) (a : Action)
      → Meets verifier mocked before cleanup (done a) middle
      → Meets verifier mocked middle patch (done tt) after
      → Meets verifier mocked before (cleaned text text' cleanup patch) (done (ok a)) after
  unfolding cleaned removal reported
  cleaned-Meets text text' cleanup patch a h g = Meets-tried verifier mocked cleanup a _ h (
      Meets-tried verifier mocked (patch >> pure a) a _
        (Meets-bind verifier mocked _ _ tt _ g (Meets-pure verifier mocked a))
        (Meets-pure verifier mocked (ok a)))

  -- Where the helper does what `m` does, its caller meets what `m` meets.
  pub finalized-Meets :
      {Object Action : Type 0} (finalizer : Finalizer Object Action) (name : String) (o : Object)
      (apply cleanup : M Action) (m : M (Try String Action)) (a : Action)
      → finalizer name o apply cleanup ≡ m
      → Meets verifier mocked before m (done (ok a)) after
      → Meets verifier mocked before (finalized finalizer name o apply cleanup) (done a) after
  unfolding finalized
  finalized-Meets finalizer name o apply cleanup m a e h =
      rw e (
        Meets-bind verifier mocked _ _ (ok a) _ h (Meets-lift-ok verifier mocked finalizer_error a))

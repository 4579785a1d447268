-- ===== src/Fixtures/Server.antt =====
-- `tower_test::mock::Handle` as the fixtures use it, and how an action meets what it expects.
use sdb_controller.Prelude.{
  ℕ, ◌≡◌, refl, ◌∙◌, ap, Bool, false, Option, none, some, List, [], ◌∷◌, if◌then◌else◌, ◌&&◌, ◌==◌,
  String,
}
use sdb_controller.Fixtures.Texts.{contains}
use sdb_controller.Fixtures.Wire.{Wire}
use sdb_controller.Error.{Error, transport}
use sdb_controller.Api.{
  Call, execute, Reply, Fault, Try, ok, err, Kube, World, Outcome, done, failed, M, pure, raise,
  settled, unwrap, lift, send, attempt, ignore, on_option, ◌>>=◌,
}

-- `handle_…`: a response if all assertions on the request hold.
abbrev pub Handler : Type 0
Handler = (call : Call) → Option (Try (Fault call) (Reply call))

abbrev pub when {ℓ} : {A : Type ℓ} → Bool → A → Option A
when b a = if b then some a else none

-- `assert_eq!(req.method(), method)` and `assert!(req.uri().to_string().contains(text))`
unfoldable pub asks : Wire → (method text : String) → Call → Bool
asks wire method text call = wire.method call == method && contains text (wire.uri call)

-- `assert_eq!(request.uri().to_string(), text)`
unfoldable pub asks_exactly : Wire → (method text : String) → Call → Bool
asks_exactly wire method text call = wire.method call == method && wire.uri call == text

-- The chain of handlers that still runs, or the panic of one of them.
pub data ApiServerVerifier : Type 0 where
  expecting : List Handler → ApiServerVerifier
  panicked : ApiServerVerifier

-- The error of a request after the handle is dropped.
abbrev pub closed : (call : Call) → Fault call
closed (execute request) = "closed"
closed call = transport "closed"

abbrev answered :
    (call : Call)
    → Option (Try (Fault call) (Reply call))
    → List Handler
    → Try (Fault call) (Reply call) × ApiServerVerifier
answered call none rest = (err (closed call), panicked)
answered call (some r) rest = (r, expecting rest)

-- `next_request` and `send_response`.
unfoldable pub respond :
    (call : Call) → ApiServerVerifier → Try (Fault call) (Reply call) × ApiServerVerifier
respond call (expecting []) = (err (closed call), expecting [])
respond call (expecting (h ∷ rest)) = answered call (h call) rest
respond call panicked = (err (closed call), panicked)

-- The outside answers as the verifier in its state does, and drawing random numbers and reading the
-- clock leave the verifier alone.
pub record IsMocked ⦃K : Kube⦄ (verifier : K.State → ApiServerVerifier) : Type 0 where
  pub answers :
      (call : Call) (s : K.State)
      → ((K.respond call s).0 ≡ (respond call (verifier s)).0)
        × (verifier (K.respond call s).1 ≡ (respond call (verifier s)).1)
  pub draws : (s : K.State) → verifier (K.alphanumeric s).1 ≡ verifier s
  pub picks : (n : ℕ) (s : K.State) → verifier (K.random_below n s).1 ≡ verifier s
  pub reads_clock : (s : K.State) → verifier (K.now s).1 ≡ verifier s

module _ ⦃K : Kube⦄ (verifier : K.State → ApiServerVerifier) (mocked : IsMocked verifier) where
  -- The action meets all that the verifier expects but the last `after`, and has the outcome `o`.
  pub record Meets {A : Type 0} (before : List Handler) (m : M A) (o : Outcome A)
      (after : List Handler) : Type 0 where
    pub at :
        (w : World K.State)
        → verifier w.state ≡ expecting before
        → ((m w).0 ≡ o) × (verifier (m w).1.state ≡ expecting after)

  module _ {A : Type 0} {before : List Handler} where
    pub Meets-pure : (a : A) → Meets before (pure a) (done a) before
    unfolding pure
    Meets-pure a = record { at = λ w h. (refl, h) }

    pub Meets-raise : (e : Error) → Meets before (raise {A = A} e) (failed e) before
    unfolding raise
    Meets-raise e = record { at = λ w h. (refl, h) }

    pub Meets-settled : (o p : Outcome A) → o ≡ p → Meets before (settled o) p before
    unfolding settled
    Meets-settled o p e = record { at = λ w h. (e, h) }

    pub Meets-unwrap : (o : Option A) (a : A) → o ≡ some a → Meets before (unwrap o) (done a) before
    unfolding unwrap
    Meets-unwrap o a e = record { at = λ w h. rw e (refl, h) }

    pub Meets-lift-ok :
        {E : Type 0} (f : E → Error) (a : A) → Meets before (lift f (ok a)) (done a) before
    unfolding lift
    Meets-lift-ok f a = record { at = λ w h. (refl, h) }

    pub Meets-lift-err :
        {E : Type 0} (f : E → Error) (e : E)
        → Meets before (lift {A = A} f (err e)) (failed (f e)) before
    unfolding lift
    Meets-lift-err f e = record { at = λ w h. (refl, h) }

    pub Meets-attempt-done :
        {after : List Handler} (m : M A) (a : A)
        → Meets before m (done a) after
        → Meets before (attempt m) (done (ok a)) after
    unfolding attempt
    Meets-attempt-done m a h = record { at = λ w e. let (o, v) = h.at w e in rw o (refl, v) }

    pub Meets-attempt-failed :
        {after : List Handler} (m : M A) (x : Error)
        → Meets before m (failed x) after
        → Meets before (attempt m) (done (err x)) after
    unfolding attempt
    Meets-attempt-failed m x h = record { at = λ w e. let (o, v) = h.at w e in rw o (refl, v) }

  module _ {A B : Type 0} {before between after : List Handler} where
    pub Meets-bind :
        (m : M A) (f : A → M B) (a : A) (o : Outcome B)
        → Meets before m (done a) between
        → Meets between (f a) o after
        → Meets before (m >>= f) o after
    unfolding ◌>>=◌
    Meets-bind m f a o h g = record { at = λ w e. let (p, v) = h.at w e in rw p (g.at (m w).1 v) }

  module _ {A B : Type 0} {before after : List Handler} where
    pub Meets-bind-failed :
        (m : M A) (f : A → M B) (x : Error)
        → Meets before m (failed x) after
        → Meets before (m >>= f) (failed x) after
    unfolding ◌>>=◌
    Meets-bind-failed m f x h = record { at = λ w e. let (p, v) = h.at w e in rw p (refl, v) }

  module _ (call : Call) where
    pub Meets-send :
        {rest : List Handler} (h : Handler) (r : Try (Fault call) (Reply call))
        → h call ≡ some r
        → Meets (h ∷ rest) (send call) (done r) rest
    unfolding send respond
    Meets-send {rest} h r e = record {
      at = λ w v.
          let (p, q) = mocked.answers call w.state in
          let x = ap (respond call) v in
          (
            ap done (p ∙ ap (λ y. y.0) x ∙ ap (λ o. (answered call o rest).0) e),
            q ∙ ap (λ y. y.1) x ∙ ap (λ o. (answered call o rest).1) e,
          );
    }

    pub Meets-send-closed : Meets [] (send call) (done (err (closed call))) []
    unfolding send respond
    Meets-send-closed = record {
      at = λ w v.
          let (p, q) = mocked.answers call w.state in
          let x = ap (respond call) v in (ap done (p ∙ ap (λ y. y.0) x), q ∙ ap (λ y. y.1) x);
    }

  module _ {A B : Type 0} {before after : List Handler} {p : Outcome B} where
    pub Meets-found :
        (o : Option A) (a : A) (f : A → M B)
        → o ≡ some a
        → Meets before (f a) p after
        → Meets before (unwrap o >>= f) p after
    Meets-found o a f e h = Meets-bind _ f a p (Meets-unwrap o a e) h

    pub Meets-replied :
        {E : Type 0} (g : E → Error) (a : A) (f : A → M B)
        → Meets before (f a) p after
        → Meets before (lift g (ok a) >>= f) p after
    Meets-replied g a f h = Meets-bind _ f a p (Meets-lift-ok g a) h

  pub Meets-asked :
      {B : Type 0} {rest after : List Handler} {p : Outcome B} (call : Call) (h : Handler)
      (r : Try (Fault call) (Reply call)) (f : Try (Fault call) (Reply call) → M B)
      → h call ≡ some r
      → Meets rest (f r) p after
      → Meets (h ∷ rest) (send call >>= f) p after
  Meets-asked call h r f e g = Meets-bind _ f r _ (Meets-send call h r e) g

  -- An action that succeeds, in front of a `do` block that ignores or uses its result as a value.
  pub Meets-tried :
      {A B : Type 0} {before between after : List Handler} {p : Outcome B} (m : M A) (a : A)
      (f : Try Error A → M B)
      → Meets before m (done a) between
      → Meets between (f (ok a)) p after
      → Meets before (attempt m >>= f) p after
  Meets-tried m a f h g = Meets-bind _ f (ok a) _ (Meets-attempt-done m a h) g

  module _ {A B : Type 0} {before after : List Handler} {p : Outcome B} where
    pub Meets-some :
        (o : Option A) (a : A) (m : M B) (f : A → M B)
        → o ≡ some a
        → Meets before (f a) p after
        → Meets before (on_option o m f) p after
    unfolding on_option
    Meets-some o a m f e h = rw e h

    pub Meets-none :
        (o : Option A) (m : M B) (f : A → M B)
        → o ≡ none
        → Meets before m p after
        → Meets before (on_option o m f) p after
    unfolding on_option
    Meets-none o m f e h = rw e h

  -- `.ok();` in front of the rest of a `do` block.
  module _ {A B : Type 0} {before between after : List Handler} {p : Outcome B} where
    pub Meets-ignored :
        (m : M A) (a : A) (f : Unit {0} → M B)
        → Meets before m (done a) between
        → Meets between (f tt) p after
        → Meets before (ignore m >>= f) p after
    Meets-ignored m a f h g = Meets-bind _ f tt p (Meets-tried m a _ h (Meets-pure tt)) g

    pub Meets-ignored-failed :
        (m : M A) (x : Error) (f : Unit {0} → M B)
        → Meets before m (failed x) between
        → Meets between (f tt) p after
        → Meets before (ignore m >>= f) p after
    Meets-ignored-failed m x f h g =
        Meets-bind _ f tt p
          (Meets-bind (attempt m) _ (err x) _ (Meets-attempt-failed m x h) (Meets-pure tt)) g

    pub Meets-tried-failed :
        (m : M A) (x : Error) (f : Try Error A → M B)
        → Meets before m (failed x) between
        → Meets between (f (err x)) p after
        → Meets before (attempt m >>= f) p after
    Meets-tried-failed m x f h g = Meets-bind _ f (err x) _ (Meets-attempt-failed m x h) g

  pub Meets-else :
      {B : Type 0} {before after : List Handler} {p : Outcome B} (b : Bool) (m n : M B)
      → b ≡ false
      → Meets before n p after
      → Meets before (if b then m else n) p after
  Meets-else b m n e h = rw e h

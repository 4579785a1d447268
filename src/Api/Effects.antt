-- ===== src/Api/Effects.antt =====
-- The state that a reconciler runs in, and its actions: they may fail or panic, and what was done
-- before stays done.
use sdb_controller.Prelude.{ℕ, Char, Bool, true, false, Option, none, some, String, List, [], ◌∷◌}
use sdb_controller.Error.{Error}
use sdb_controller.Resources.Core.{ObjectMeta, OwnerReference}
use sdb_controller.Metrics.{ReconcileMetrics}
use sdb_controller.Api.Calls.{Call, Reply, Fault, HttpRequest}

-- `Result<T, E>` of Rust.
pub data Try (E A : Type 0) : Type 0 where
  ok : A → Try E A
  err : E → Try E A

abbrev pub is_ok : {E A : Type 0} → Try E A → Bool
is_ok (ok a) = true
is_ok (err e) = false

-- `url::Url`
pub record Url : Type 0 where
  pub host_str : Option String
  pub port : Option ℕ
  pub path : String

-- The outside. `respond` stands for all that happens until a reply is there, other clients' writes
-- included; `none` of `header_value`, `build_http` and `build_reqwest` is success.
pub record Kube : Type 1 where
  pub State : Type 0
  pub respond : (call : Call) → State → Try (Fault call) (Reply call) × State
  pub alphanumeric : State → Char × State  -- `rng().sample(&Alphanumeric)`
  pub random_below : ℕ → State → ℕ × State  -- `rng().random_range(0..n)`
  pub now : State → ℕ × State
  pub trace_id : State → ℕ
  pub name_any : ObjectMeta → String
  pub controller_owner_ref : (api_version kind : String) → ObjectMeta → Option OwnerReference
  pub trace_text : ℕ → String
  pub error_text : Error → String  -- `format!("{e:?}").to_lowercase()`
  pub base64 : String → String
  pub header_value : String → Option String  -- the error of `HeaderValue::from_str`
  pub parse_url : String → Try String Url
  pub build_http : HttpRequest → Option String
  pub build_reqwest : HttpRequest → Option String

-- A request as it was sent, and the reply that it got.
pub record Entry : Type 0 where
  pub call : Call
  pub reply : Try (Fault call) (Reply call)

-- The log has the latest request first. `last_event` is that of the shared `Diagnostics`.
pub record World (S : Type 0) : Type 0 where
  pub state : S
  pub log : List Entry
  pub metrics : ReconcileMetrics
  pub last_event : ℕ

pub data Outcome (A : Type 0) : Type 0 where
  done : A → Outcome A
  failed : Error → Outcome A
  panic : Outcome A

abbrev pub is_done : {A : Type 0} → Outcome A → Bool
is_done (done a) = true
is_done (failed e) = false
is_done panic = false

module _ ⦃K : Kube⦄ where
  abbrev pub M : Type 0 → Type 0
  M A = World K.State → Outcome A × World K.State

  module _ {A : Type 0} where
    unfoldable pub pure : A → M A
    pure a w = (done a, w)

    unfoldable pub raise : Error → M A
    raise e w = (failed e, w)

    -- A pure function of the crate that may fail or panic.
    unfoldable pub settled : Outcome A → M A
    settled o w = (o, w)

    -- `unwrap` and `expect` on an option
    unfoldable pub unwrap : Option A → M A
    unwrap none w = (panic, w)
    unwrap (some a) w = (done a, w)

  module _ {A B : Type 0} where
    abbrev pub continue : Outcome A → (A → M B) → M B
    continue (done a) f w = f a w
    continue (failed e) f w = (failed e, w)
    continue panic f w = (panic, w)

    infixl 5 ◌>>=◌
    unfoldable pub ◌>>=◌ : M A → (A → M B) → M B
    ◌>>=◌ m f w = let (r, w') = m w in continue r f w'

  module _ {B : Type 0} where
    infixl 5 ◌>>◌
    abbrev pub ◌>>◌ : M (Unit {0}) → M B → M B
    m >> k = m >>= λ _. k

  module _ {A : Type 0} where
    abbrev pub caught : Outcome A → World K.State → Outcome (Try Error A) × World K.State
    caught (done a) w = (done (ok a), w)
    caught (failed e) w = (done (err e), w)
    caught panic w = (panic, w)

    -- The result of an action as a value, for `match` and `if let Err(e)`.
    unfoldable pub attempt : M A → M (Try Error A)
    attempt m w = let (r, w') = m w in caught r w'

    -- `.ok();`
    abbrev pub ignore : M A → M (Unit {0})
    ignore m = attempt m >>= λ _. pure tt

  -- One request, its reply and its entry in the log.
  unfoldable pub send : (call : Call) → M (Try (Fault call) (Reply call))
  send call w =
      let (r, s) = K.respond call w.state in
      (done r, record w { state = s; log = record { call = call; reply = r } ∷ w.log })

  -- `.map_err(f)?`
  module _ {E A : Type 0} where
    unfoldable pub lift : (E → Error) → Try E A → M A
    lift f (ok a) w = (done a, w)
    lift f (err e) w = (failed (f e), w)

  -- `match r { Err(e) => …, Ok(a) => … }` and `match o { None => …, Some(a) => … }`
  module _ {A B E : Type 0} where
    unfoldable pub on_try : Try E A → (E → M B) → (A → M B) → M B
    on_try (ok a) f g = g a
    on_try (err e) f g = f e

  module _ {A B : Type 0} where
    unfoldable pub on_option : Option A → M B → (A → M B) → M B
    on_option none m g = m
    on_option (some a) m g = g a

  abbrev pub start : K.State → World K.State
  start s = record {
    state = s;
    log = [];
    metrics = record { runs = 0; failures = []; duration = [] };
    last_event = 0;
  }

  module _ {A : Type 0} where
    -- The requests that an action sends, the latest first, when it is run in a state of the outside.
    abbrev pub trace : M A → K.State → List Entry
    trace m s = (m (start s)).1.log

    abbrev pub result : M A → K.State → Outcome A
    result m s = (m (start s)).0

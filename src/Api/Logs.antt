-- ===== src/Api/Logs.antt =====
-- What holds of every request that an action sends, by a rule for each way to build an action.
use sdb_controller.Prelude.{
  ◌≡◌, refl, arith, Bool, true, false, Option, none, some, if◌then◌else◌, All,
}
use sdb_controller.Error.{Error}
use sdb_controller.Api.Calls.{Call, Reply, Fault}
use sdb_controller.Api.Effects.{
  Kube, Entry, Try, ok, err, done, failed, panic, World, Outcome, M, pure, raise, settled, unwrap,
  attempt, send, lift, on_try, on_option, caught, continue, ◌>>=◌, start, trace,
}

module _ ⦃K : Kube⦄ (P : Entry → Type 0) where
  pub record Logs {A : Type 0} (m : M A) : Type 0 where
    pub at : (w : World K.State) → All P w.log → All P (m w).1.log

module _ ⦃K : Kube⦄ {A : Type 0} where
  caught-log : (o : Outcome A) (w : World K.State) → (caught o w).1.log ≡ w.log
  caught-log o w = ground arith

module _ ⦃K : Kube⦄ {P : Entry → Type 0} where
  module _ {A : Type 0} where
    pub Logs-pure : (a : A) → Logs P (pure a)
    unfolding pure
    Logs-pure a = record { at = λ w h. h }

    pub Logs-raise : (e : Error) → Logs P (raise {A = A} e)
    unfolding raise
    Logs-raise e = record { at = λ w h. h }

    pub Logs-settled : (o : Outcome A) → Logs P (settled o)
    unfolding settled
    Logs-settled o = record { at = λ w h. h }

    pub Logs-unwrap : (o : Option A) → Logs P (unwrap o)
    unfolding unwrap
    Logs-unwrap none = record { at = λ w h. h }
    Logs-unwrap (some a) = record { at = λ w h. h }

    pub Logs-lift : {E : Type 0} (f : E → Error) (r : Try E A) → Logs P (lift f r)
    unfolding lift
    Logs-lift f (ok a) = record { at = λ w h. h }
    Logs-lift f (err e) = record { at = λ w h. h }

    pub Logs-attempt : (m : M A) → Logs P m → Logs P (attempt m)
    unfolding attempt
    Logs-attempt m h = record { at = λ w g. let (r, w') = m w in rw (caught-log r w') (h.at w g) }

    pub Logs-if : (b : Bool) (m n : M A) → Logs P m → Logs P n → Logs P (if b then m else n)
    Logs-if true m n h g = h
    Logs-if false m n h g = g

  module _ {A B : Type 0} where
    pub Logs-bind : (m : M A) (f : A → M B) → Logs P m → ((a : A) → Logs P (f a)) → Logs P (m >>= f)
    unfolding ◌>>=◌
    Logs-bind m f h g = record { at = λ w k. after (m w) (h.at w k) }
      where
        after : (x : Outcome A × World K.State) → All P x.1.log → All P (continue x.0 f x.1).1.log
        after (done a, w') k = (g a).at w' k
        after (failed e, w') k = k
        after (panic, w') k = k

    -- The rest of the block may use what the option holds.
    pub Logs-bind-unwrap :
        (o : Option A) (f : A → M B)
        → ((a : A) → o ≡ some a → Logs P (f a))
        → Logs P (unwrap o >>= f)
    unfolding ◌>>=◌ unwrap
    Logs-bind-unwrap none f g = record { at = λ w k. k }
    Logs-bind-unwrap (some a) f g = record { at = (g a refl).at }

    pub Logs-bind-option :
        (o : Option A) (e : Error) (f : A → M B)
        → ((a : A) → o ≡ some a → Logs P (f a))
        → Logs P (on_option o (raise e) pure >>= f)
    unfolding ◌>>=◌ on_option raise pure
    Logs-bind-option none e f g = record { at = λ w k. k }
    Logs-bind-option (some a) e f g = record { at = (g a refl).at }

    pub Logs-on_option_eq :
        (o : Option A) (m : M B) (f : A → M B)
        → (o ≡ none → Logs P m)
        → ((a : A) → o ≡ some a → Logs P (f a))
        → Logs P (on_option o m f)
    unfolding on_option
    Logs-on_option_eq none m f h g = h refl
    Logs-on_option_eq (some a) m f h g = g a refl

    pub Logs-on_option :
        (o : Option A) (m : M B) (f : A → M B)
        → Logs P m
        → ((a : A) → Logs P (f a))
        → Logs P (on_option o m f)
    unfolding on_option
    Logs-on_option none m f h g = h
    Logs-on_option (some a) m f h g = g a

  pub Logs-on_try :
      {A B E : Type 0} (r : Try E A) (f : E → M B) (g : A → M B)
      → ((e : E) → Logs P (f e))
      → ((a : A) → Logs P (g a))
      → Logs P (on_try r f g)
  unfolding on_try
  Logs-on_try (ok a) f g h k = k a
  Logs-on_try (err e) f g h k = h e

  pub Logs-send :
      (call : Call)
      → ((r : Try (Fault call) (Reply call)) → P (record { call = call; reply = r }))
      → Logs P (send call)
  unfolding send
  Logs-send call h = record { at = λ w k. (h (K.respond call w.state).0, k) }

  pub Logs-trace : {A : Type 0} (m : M A) (s : K.State) → Logs P m → All P (trace m s)
  Logs-trace m s h = h.at (start s) tt

pub ruleset logs_rules = (
  Logs-pure, Logs-raise, Logs-settled, Logs-unwrap, Logs-lift, Logs-attempt, Logs-if, Logs-bind,
  Logs-on_option, Logs-on_try, Logs-send,
)

-- The same, keeping what an option is known to hold.
pub ruleset careful_rules = (Logs-bind-unwrap, Logs-bind-option, Logs-on_option_eq, logs_rules)

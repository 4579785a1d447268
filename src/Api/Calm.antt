-- ===== src/Api/Calm.antt =====
-- Actions that never panic, by a rule for each way to build one.
use sdb_controller.Prelude.{◌≡◌, Bool, true, false, Option, none, some, if◌then◌else◌}
use sdb_controller.Error.{Error}
use sdb_controller.Api.Calls.{Call}
use sdb_controller.Api.Effects.{
  Kube, Try, ok, err, done, failed, panic, World, Outcome, M, pure, raise, unwrap, attempt, send,
  settled, lift, on_try, on_option, caught, continue, ◌>>=◌,
}

abbrev pub Returns : {A : Type 0} → Outcome A → Type 0
Returns (done a) = Unit
Returns (failed e) = Unit
Returns panic = ⊥

module _ ⦃K : Kube⦄ where
  pub record IsCalm {A : Type 0} (m : M A) : Type 0 where
    pub at : (w : World K.State) → Returns (m w).0

  module _ {A : Type 0} where
    pub IsCalm-pure : (a : A) → IsCalm (pure a)
    unfolding pure
    IsCalm-pure a = record { at = λ w. tt }

    pub IsCalm-raise : (e : Error) → IsCalm (raise {A = A} e)
    unfolding raise
    IsCalm-raise e = record { at = λ w. tt }

    pub IsCalm-lift : {E : Type 0} (f : E → Error) (r : Try E A) → IsCalm (lift f r)
    unfolding lift
    IsCalm-lift f (ok a) = record { at = λ w. tt }
    IsCalm-lift f (err e) = record { at = λ w. tt }

    pub IsCalm-attempt : (m : M A) → IsCalm m → IsCalm (attempt m)
    unfolding attempt
    IsCalm-attempt m h = record { at = λ w. still (m w) (h.at w) }
      where
        still : (x : Outcome A × World K.State) → Returns x.0 → Returns (caught x.0 x.1).0
        still (done a, w') g = tt
        still (failed e, w') g = tt
        still (panic, w') g = g

    pub IsCalm-settled : (o : Outcome A) → Returns o → IsCalm (settled o)
    unfolding settled
    IsCalm-settled o h = record { at = λ w. h }

    pub IsCalm-if : (b : Bool) (m n : M A) → IsCalm m → IsCalm n → IsCalm (if b then m else n)
    IsCalm-if true m n h g = h
    IsCalm-if false m n h g = g

  module _ {A B : Type 0} where
    pub IsCalm-bind :
        (m : M A) (f : A → M B) → IsCalm m → ((a : A) → IsCalm (f a)) → IsCalm (m >>= f)
    unfolding ◌>>=◌
    IsCalm-bind m f h g = record { at = λ w. next (m w) (h.at w) }
      where
        next : (x : Outcome A × World K.State) → Returns x.0 → Returns (continue x.0 f x.1).0
        next (done a, w') k = (g a).at w'
        next (failed e, w') k = tt
        next (panic, w') k = k

    -- What is unwrapped is there.
    pub IsCalm-bind-unwrap :
        (o : Option A) (a : A) (f : A → M B) → o ≡ some a → IsCalm (f a) → IsCalm (unwrap o >>= f)
    unfolding ◌>>=◌ unwrap
    IsCalm-bind-unwrap o a f e h = record { at = λ w. rw e (h.at w) }

    pub IsCalm-on_option :
        (o : Option A) (m : M B) (f : A → M B)
        → IsCalm m
        → ((a : A) → IsCalm (f a))
        → IsCalm (on_option o m f)
    unfolding on_option
    IsCalm-on_option none m f h g = h
    IsCalm-on_option (some a) m f h g = g a

  pub IsCalm-on_try :
      {A B E : Type 0} (r : Try E A) (f : E → M B) (g : A → M B)
      → ((e : E) → IsCalm (f e))
      → ((a : A) → IsCalm (g a))
      → IsCalm (on_try r f g)
  unfolding on_try
  IsCalm-on_try (ok a) f g h k = k a
  IsCalm-on_try (err e) f g h k = h e

  pub IsCalm-send : (call : Call) → IsCalm (send call)
  unfolding send
  IsCalm-send call = record { at = λ w. tt }

pub ruleset calm_rules = (
  IsCalm-pure, IsCalm-raise, IsCalm-lift, IsCalm-attempt, IsCalm-if, IsCalm-bind,
  IsCalm-bind-unwrap, IsCalm-on_option, IsCalm-on_try, IsCalm-send,
)

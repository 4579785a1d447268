-- ===== src/Api/Still.antt =====
-- Actions that leave the metrics and the diagnostics alone, by a rule for each way to build one.
use sdb_controller.Prelude.{◌≡◌, refl, ◌∙◌, Bool, true, false, Option, none, some, if◌then◌else◌}
use sdb_controller.Error.{Error}
use sdb_controller.Api.Calls.{Call}
use sdb_controller.Api.Effects.{
  Kube, Try, ok, err, done, failed, panic, World, Outcome, M, pure, raise, settled, unwrap, attempt,
  send, lift, on_try, on_option, caught, continue, ◌>>=◌,
}

module _ ⦃K : Kube⦄ where
  abbrev pub SameCounts : World K.State → World K.State → Type 0
  SameCounts w w' = (w'.metrics ≡ w.metrics) × (w'.last_event ≡ w.last_event)

  pub record IsStill {A : Type 0} (m : M A) : Type 0 where
    pub at : (w : World K.State) → SameCounts w (m w).1

  module _ {A : Type 0} where
    pub IsStill-pure : (a : A) → IsStill (pure a)
    unfolding pure
    IsStill-pure a = record { at = λ w. (refl, refl) }

    pub IsStill-raise : (e : Error) → IsStill (raise {A = A} e)
    unfolding raise
    IsStill-raise e = record { at = λ w. (refl, refl) }

    pub IsStill-settled : (o : Outcome A) → IsStill (settled o)
    unfolding settled
    IsStill-settled o = record { at = λ w. (refl, refl) }

    pub IsStill-unwrap : (o : Option A) → IsStill (unwrap o)
    unfolding unwrap
    IsStill-unwrap none = record { at = λ w. (refl, refl) }
    IsStill-unwrap (some a) = record { at = λ w. (refl, refl) }

    pub IsStill-lift : {E : Type 0} (f : E → Error) (r : Try E A) → IsStill (lift f r)
    unfolding lift
    IsStill-lift f (ok a) = record { at = λ w. (refl, refl) }
    IsStill-lift f (err e) = record { at = λ w. (refl, refl) }

    pub IsStill-attempt : (m : M A) → IsStill m → IsStill (attempt m)
    unfolding attempt
    IsStill-attempt m h = record { at = λ w. still w (m w) (h.at w) }
      where
        still :
            (w : World K.State) (x : Outcome A × World K.State)
            → SameCounts w x.1
            → SameCounts w (caught x.0 x.1).1
        still w (done a, w') g = g
        still w (failed e, w') g = g
        still w (panic, w') g = g

    pub IsStill-if : (b : Bool) (m n : M A) → IsStill m → IsStill n → IsStill (if b then m else n)
    IsStill-if true m n h g = h
    IsStill-if false m n h g = g

  module _ {A B : Type 0} where
    pub IsStill-bind :
        (m : M A) (f : A → M B) → IsStill m → ((a : A) → IsStill (f a)) → IsStill (m >>= f)
    unfolding ◌>>=◌
    IsStill-bind m f h g = record { at = λ w. next w (m w) (h.at w) }
      where
        next :
            (w : World K.State) (x : Outcome A × World K.State)
            → SameCounts w x.1
            → SameCounts w (continue x.0 f x.1).1
        next w (done a, w') k = let (e, l) = (g a).at w' in (e ∙ k.0, l ∙ k.1)
        next w (failed e, w') k = k
        next w (panic, w') k = k

    pub IsStill-on_option :
        (o : Option A) (m : M B) (f : A → M B)
        → IsStill m
        → ((a : A) → IsStill (f a))
        → IsStill (on_option o m f)
    unfolding on_option
    IsStill-on_option none m f h g = h
    IsStill-on_option (some a) m f h g = g a

  pub IsStill-on_try :
      {A B E : Type 0} (r : Try E A) (f : E → M B) (g : A → M B)
      → ((e : E) → IsStill (f e))
      → ((a : A) → IsStill (g a))
      → IsStill (on_try r f g)
  unfolding on_try
  IsStill-on_try (ok a) f g h k = k a
  IsStill-on_try (err e) f g h k = h e

  pub IsStill-send : (call : Call) → IsStill (send call)
  unfolding send
  IsStill-send call = record { at = λ w. (refl, refl) }

pub ruleset still_rules = (
  IsStill-pure, IsStill-raise, IsStill-settled, IsStill-unwrap, IsStill-lift, IsStill-attempt,
  IsStill-if, IsStill-bind, IsStill-on_option, IsStill-on_try, IsStill-send,
)

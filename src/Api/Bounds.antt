-- ===== src/Api/Bounds.antt =====
-- How many requests an action sends at most, and what it returns, by a rule for each way to build one.
use sdb_controller.Prelude.{
  ℕ, suc, ◌+◌, ◌≤◌, ◌≡◌, arith, Bool, true, false, Option, none, some, List, [], ◌∷◌, if◌then◌else◌,
}
use sdb_controller.Error.{Error}
use sdb_controller.Api.Calls.{Call, Fault, Reply}
use sdb_controller.Api.Effects.{
  Kube, Try, ok, err, done, failed, panic, Entry, World, Outcome, M, pure, raise, settled, unwrap,
  attempt, ignore, send, lift, on_try, on_option, caught, continue, ◌>>=◌,
}

abbrev pub length : List Entry → ℕ
length [] = 0
length (e ∷ l) = let n = length l in suc n

abbrev pub Returned : {A : Type 0} → (A → Type 0) → Outcome A → Type 0
Returned P (done a) = P a
Returned P (failed e) = Unit {0}
Returned P panic = Unit {0}

abbrev pub Any : {A : Type 0} → A → Type 0
Any a = Unit {0}

Returned-Any : {A : Type 0} (o : Outcome A) → Returned Any o
Returned-Any (done a) = tt
Returned-Any (failed e) = tt
Returned-Any panic = tt

module _ ⦃K : Kube⦄ where
  pub record IsBounded {A : Type 0} (n : ℕ) (P : A → Type 0) (m : M A) : Type 0 where
    pub at : (w : World K.State) → (length (m w).1.log ≤ n + length w.log) × Returned P (m w).0

  module _ {A : Type 0} {n : ℕ} where
    pub IsBounded-pure : {P : A → Type 0} (a : A) → P a → IsBounded n P (pure a)
    unfolding pure
    IsBounded-pure a h = record { at = λ w. (omega arith, h) }

    pub IsBounded-raise : {P : A → Type 0} (e : Error) → IsBounded n P (raise {A = A} e)
    unfolding raise
    IsBounded-raise e = record { at = λ w. (omega arith, tt) }

    pub IsBounded-settled : (o : Outcome A) → IsBounded n Any (settled o)
    unfolding settled
    IsBounded-settled (done a) = record { at = λ w. (omega arith, tt) }
    IsBounded-settled (failed e) = record { at = λ w. (omega arith, tt) }
    IsBounded-settled panic = record { at = λ w. (omega arith, tt) }

    pub IsBounded-unwrap : (o : Option A) → IsBounded n Any (unwrap o)
    unfolding unwrap
    IsBounded-unwrap none = record { at = λ w. (omega arith, tt) }
    IsBounded-unwrap (some a) = record { at = λ w. (omega arith, tt) }

    pub IsBounded-lift : {E : Type 0} (f : E → Error) (r : Try E A) → IsBounded n Any (lift f r)
    unfolding lift
    IsBounded-lift f (ok a) = record { at = λ w. (omega arith, tt) }
    IsBounded-lift f (err e) = record { at = λ w. (omega arith, tt) }

    pub IsBounded-attempt : (m : M A) → IsBounded n Any m → IsBounded n Any (attempt m)
    unfolding attempt
    IsBounded-attempt m h = record { at = λ w. kept w (m w) (h.at w) }
      where
        kept :
            (w : World K.State) (x : Outcome A × World K.State)
            → (length x.1.log ≤ n + length w.log) × Returned Any x.0
            → (length (caught x.0 x.1).1.log ≤ n + length w.log) × Returned Any (caught x.0 x.1).0
        kept w (done a, w') (g, r) = (g, tt)
        kept w (failed e, w') (g, r) = (g, tt)
        kept w (panic, w') (g, r) = (g, tt)

    pub IsBounded-quiet :
        (m : M A) → ((w : World K.State) → (m w).1.log ≡ w.log) → IsBounded n Any m
    IsBounded-quiet m h = record { at = λ w. rw (h w) (omega arith, Returned-Any (m w).0) }

    pub IsBounded-if :
        {P : A → Type 0} (b : Bool) (m k : M A)
        → IsBounded n P m
        → IsBounded n P k
        → IsBounded n P (if b then m else k)
    IsBounded-if true m k h g = h
    IsBounded-if false m k h g = g

    pub IsBounded-on_option :
        {B : Type 0} {P : A → Type 0} (o : Option B) (m : M A) (f : B → M A)
        → IsBounded n P m
        → ((b : B) → IsBounded n P (f b))
        → IsBounded n P (on_option o m f)
    unfolding on_option
    IsBounded-on_option none m f h g = h
    IsBounded-on_option (some a) m f h g = g a

    pub IsBounded-on_try :
        {B E : Type 0} {P : A → Type 0} (r : Try E B) (f : E → M A) (g : B → M A)
        → ((e : E) → IsBounded n P (f e))
        → ((b : B) → IsBounded n P (g b))
        → IsBounded n P (on_try r f g)
    unfolding on_try
    IsBounded-on_try (ok a) f g h k = k a
    IsBounded-on_try (err e) f g h k = h e

    pub IsBounded-weaken :
        {P : A → Type 0} (k : ℕ) (m : M A) → k ≤ n → IsBounded k P m → IsBounded n P m
    IsBounded-weaken k m b h = record { at = λ w. let (g, r) = h.at w in (omega arith, r) }

  module _ {A B : Type 0} {P : B → Type 0} where
    -- An action of at most `k` requests in front of one of at most `n`.
    pub IsBounded-after :
        (k n : ℕ) (m : M A) (f : A → M B)
        → IsBounded k Any m
        → ((a : A) → IsBounded n P (f a))
        → IsBounded (k + n) P (m >>= f)
    unfolding ◌>>=◌
    IsBounded-after k n m f h g = record { at = λ w. next w (m w) (h.at w).0 }
      where
        next :
            (w : World K.State) (x : Outcome A × World K.State)
            → length x.1.log ≤ k + length w.log
            → (length (continue x.0 f x.1).1.log ≤ k + n + length w.log)
              × Returned P (continue x.0 f x.1).0
        next w (done a, w') b = let (c, r) = (g a).at w' in (omega arith, r)
        next w (failed e, w') b = (omega arith, tt)
        next w (panic, w') b = (omega arith, tt)

    -- An action without requests in front.
    pub IsBounded-bind :
        {n : ℕ} (m : M A) (f : A → M B)
        → IsBounded 0 Any m
        → ((a : A) → IsBounded n P (f a))
        → IsBounded n P (m >>= f)
    IsBounded-bind {n} m f h g =
        IsBounded-weaken (0 + n) _ (omega arith) (IsBounded-after 0 n m f h g)

  pub IsBounded-send :
      {B : Type 0} {P : B → Type 0} {n : ℕ} (call : Call) (f : Try (Fault call) (Reply call) → M B)
      → ((r : Try (Fault call) (Reply call)) → IsBounded n P (f r))
      → IsBounded (suc n) P (send call >>= f)
  unfolding send
  IsBounded-send {n = n} call f g =
      IsBounded-weaken (1 + n) _ (omega arith) (IsBounded-after 1 n (send call) f one g)
    where
      one : IsBounded 1 Any (send call)
      one = record { at = λ w. (omega arith, tt) }

  pub IsBounded-ignore :
      {A : Type 0} {n : ℕ} (m : M A) → IsBounded n Any m → IsBounded n Any (ignore m)
  IsBounded-ignore {n = n} m h =
      IsBounded-weaken (n + 0) _ (omega arith)
        (IsBounded-after n 0 _ _ (IsBounded-attempt m h) λ x. IsBounded-pure tt tt)

pub ruleset bound_rules = (
  IsBounded-pure, IsBounded-raise, IsBounded-settled, IsBounded-unwrap, IsBounded-lift,
  IsBounded-attempt, IsBounded-if, IsBounded-on_option, IsBounded-on_try, IsBounded-send,
  IsBounded-bind, IsBounded-ignore, tt,
)

-- ===== src/Fixtures/Drawn.antt =====
-- src/cluster/crd.rs and src/user/crd.rs: the password generators next to an API server of a fixture.
use sdb_controller.Prelude.{ℕ, zero, suc, ◌≡◌, refl, ◌∙◌, Option, none, some, String, List}
use sdb_controller.Password.{
  draw, draw_below, sample, insert_symbol, insert_symbols, generate_secure_password,
  generate_user_password,
}
use sdb_controller.Password.Shape.{Yields}
use sdb_controller.Api.{Kube, World, Outcome, M, done, failed, panic, pure, unwrap, continue, ◌>>=◌}
use sdb_controller.Fixtures.Server.{ApiServerVerifier, Handler, IsMocked, Meets, expecting}

module _ ⦃K : Kube⦄ (verifier : K.State → ApiServerVerifier) (mocked : IsMocked verifier) where
  -- An action that the API server does not notice.
  pub record IsUnseen {A : Type 0} (m : M A) : Type 0 where
    pub at : (w : World K.State) → verifier (m w).1.state ≡ verifier w.state

  IsUnseen-pure : {A : Type 0} (a : A) → IsUnseen (pure a)
  unfolding pure
  IsUnseen-pure a = record { at = λ w. refl }

  IsUnseen-bind :
      {A B : Type 0} (m : M A) (f : A → M B)
      → IsUnseen m
      → ((a : A) → IsUnseen (f a))
      → IsUnseen (m >>= f)
  unfolding ◌>>=◌
  IsUnseen-bind {A} m f h g = record { at = λ w. next w (m w) (h.at w) }
    where
      next :
          (w : World K.State) (x : Outcome A × World K.State)
          → verifier x.1.state ≡ verifier w.state
          → verifier (continue x.0 f x.1).1.state ≡ verifier w.state
      next w (done a, w') e = (g a).at w' ∙ e
      next w (failed x, w') e = e
      next w (panic, w') e = e

  draw-IsUnseen : IsUnseen draw
  unfolding draw
  draw-IsUnseen = record { at = λ w. mocked.draws w.state }

  sample-IsUnseen : (n : ℕ) → IsUnseen (sample n)
  unfolding sample
  sample-IsUnseen zero = IsUnseen-pure ""
  sample-IsUnseen (suc n) =
      IsUnseen-bind draw _ draw-IsUnseen
        λ c. IsUnseen-bind (sample n) _ (sample-IsUnseen n) λ s. IsUnseen-pure _

  draw_below-IsUnseen : (n : ℕ) → IsUnseen (draw_below n)
  unfolding draw_below
  draw_below-IsUnseen n = record { at = λ w. mocked.picks n w.state }

  IsUnseen-unwrap : {A : Type 0} (o : Option A) → IsUnseen (unwrap o)
  unfolding unwrap
  IsUnseen-unwrap none = record { at = λ w. refl }
  IsUnseen-unwrap (some a) = record { at = λ w. refl }

  insert_symbol-IsUnseen : (s : String) → IsUnseen (insert_symbol s)
  unfolding insert_symbol
  insert_symbol-IsUnseen s = search (IsUnseen-bind, IsUnseen-unwrap, draw_below-IsUnseen) depth 8

  insert_symbols-IsUnseen : (m : ℕ) (s : String) → IsUnseen (insert_symbols m s)
  unfolding insert_symbols
  insert_symbols-IsUnseen zero s = IsUnseen-pure s
  insert_symbols-IsUnseen (suc m) s =
      IsUnseen-bind (insert_symbol s) _ (insert_symbol-IsUnseen s) (insert_symbols-IsUnseen m)

  pub secure-IsUnseen : (n : ℕ) → IsUnseen (generate_secure_password n)
  unfolding generate_secure_password
  secure-IsUnseen n = IsUnseen-bind _ _ (sample-IsUnseen _) λ s. insert_symbols-IsUnseen 4 s

  pub user-IsUnseen : IsUnseen generate_user_password
  unfolding generate_user_password
  user-IsUnseen = IsUnseen-bind _ _ (sample-IsUnseen 20) λ s. insert_symbols-IsUnseen 4 s

  -- Whatever is drawn, the rest meets what the server expects.
  pub Meets-drawn :
      {A B : Type 0} (P : A → Type 0) {before after : List Handler} {p : Outcome B} (m : M A)
      (f : A → M B)
      → IsUnseen m
      → ((w : World K.State) → Yields P (m w).0)
      → ((a : A) → P a → Meets verifier mocked before (f a) p after)
      → Meets verifier mocked before (m >>= f) p after
  unfolding ◌>>=◌
  Meets-drawn {A} P {before} {after} {p} m f u y g = record {
    at = λ w e. next (m w) (y w) (u.at w ∙ e);
  }
    where
      next :
          (x : Outcome A × World K.State)
          → Yields P x.0
          → verifier x.1.state ≡ expecting before
          → ((continue x.0 f x.1).0 ≡ p) × (verifier (continue x.0 f x.1).1.state ≡ expecting after)
      next (done a, w') y e = (g a y).at w' e
      next (failed x, w') y e = absurd y
      next (panic, w') y e = absurd y

-- ===== src/Password/Still.antt =====
-- src/cluster/crd.rs: the password generator, the metrics and the diagnostics.
use sdb_controller.Prelude.{ℕ, zero, suc, String, refl}
use sdb_controller.Password.{
  draw, draw_below, sample, insert_symbol, insert_symbols, generate_secure_password,
}
use sdb_controller.Api.{Kube}
use sdb_controller.Api.Still.{IsStill, IsStill-bind, still_rules}

module _ ⦃K : Kube⦄ where
  draw-IsStill : IsStill draw
  unfolding draw
  draw-IsStill = record { at = λ w. (refl, refl) }

  draw_below-IsStill : (n : ℕ) → IsStill (draw_below n)
  unfolding draw_below
  draw_below-IsStill n = record { at = λ w. (refl, refl) }

  sample-IsStill : (n : ℕ) → IsStill (sample n)
  unfolding sample
  sample-IsStill zero = search still_rules
  sample-IsStill (suc n) =
      IsStill-bind draw _ draw-IsStill λ c. search (still_rules, sample-IsStill n)

  insert_symbol-IsStill : (s : String) → IsStill (insert_symbol s)
  unfolding insert_symbol
  insert_symbol-IsStill s = search (still_rules, draw_below-IsStill)

  insert_symbols-IsStill : (k : ℕ) (s : String) → IsStill (insert_symbols k s)
  unfolding insert_symbols
  insert_symbols-IsStill zero s = search still_rules
  insert_symbols-IsStill (suc k) s =
      IsStill-bind (insert_symbol s) _ (insert_symbol-IsStill s) (insert_symbols-IsStill k)

  pub generate_secure_password-IsStill : (n : ℕ) → IsStill (generate_secure_password n)
  unfolding generate_secure_password
  generate_secure_password-IsStill n = search (still_rules, sample-IsStill, insert_symbols-IsStill)

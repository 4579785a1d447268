-- ===== src/Password/Quiet.antt =====
-- src/cluster/crd.rs and src/user/crd.rs: the password generators and the log of requests.
use Prim.Native.Nat.{max}
use sdb_controller.Prelude.{arith, ◌-◌, ◌≡◌, refl, ◌∙◌, List, ℕ, zero, suc, String}
use sdb_controller.Password.{
  draw, draw_below, sample, insert_symbol, insert_symbols, generate_secure_password,
  generate_user_password,
}
use sdb_controller.Api.{Entry, Kube, World, ◌>>=◌, pure, unwrap}
use sdb_controller.Api.Grounds.{after}
use sdb_controller.Api.Logs.{Logs, Logs-bind, logs_rules}

module _ ⦃K : Kube⦄ {P : Entry → Type 0} where
  draw-Logs : Logs P draw
  unfolding draw
  draw-Logs = record { at = λ w h. h }

  draw_below-Logs : (n : ℕ) → Logs P (draw_below n)
  unfolding draw_below
  draw_below-Logs n = record { at = λ w h. h }

  sample-Logs : (n : ℕ) → Logs P (sample n)
  unfolding sample
  sample-Logs zero = search logs_rules
  sample-Logs (suc n) = Logs-bind draw _ draw-Logs (λ c. search (logs_rules, sample-Logs n))

  insert_symbol-Logs : (s : String) → Logs P (insert_symbol s)
  unfolding insert_symbol
  insert_symbol-Logs s = search (logs_rules, draw_below-Logs)

  insert_symbols-Logs : (k : ℕ) (s : String) → Logs P (insert_symbols k s)
  unfolding insert_symbols
  insert_symbols-Logs zero s = search logs_rules
  insert_symbols-Logs (suc k) s =
      Logs-bind (insert_symbol s) _ (insert_symbol-Logs s) (insert_symbols-Logs k)

  pub generate_secure_password-Logs : (n : ℕ) → Logs P (generate_secure_password n)
  unfolding generate_secure_password
  generate_secure_password-Logs n = search (logs_rules, sample-Logs, insert_symbols-Logs)

  pub generate_user_password-Logs : Logs P generate_user_password
  unfolding generate_user_password
  generate_user_password-Logs = search (logs_rules, sample-Logs, insert_symbols-Logs)

module _ ⦃K : Kube⦄ where
  draw-log : (w : World K.State) → (draw w).1.log ≡ w.log
  unfolding draw
  draw-log w = refl

  module _ (before : List Entry) where
    abbrev SameLog : List Entry → Type 0
    SameLog l = l ≡ before

    sample-log : (n : ℕ) (w : World K.State) → SameLog w.log → SameLog (sample n w).1.log
    unfolding sample pure
    sample-log zero w h = h
    sample-log (suc n) w h =
        after SameLog _ w draw (draw-log w ∙ h)
          λ c g. after SameLog _ _ (sample n) (sample-log n _ g) λ s k. k

    insert_symbol-log :
        (s : String) (w : World K.State) → SameLog w.log → SameLog (insert_symbol s w).1.log
    unfolding insert_symbol draw_below ◌>>=◌ unwrap
    insert_symbol-log s w h = ground arith

    insert_symbols-log :
        (k : ℕ) (s : String) (w : World K.State)
        → SameLog w.log
        → SameLog (insert_symbols k s w).1.log
    unfolding insert_symbols pure
    insert_symbols-log zero s w h = h
    insert_symbols-log (suc k) s w h =
        after SameLog _ w (insert_symbol s) (insert_symbol-log s w h)
          λ t g. insert_symbols-log k t _ g

  pub generate_user_password-log : (w : World K.State) → (generate_user_password w).1.log ≡ w.log
  unfolding generate_user_password
  generate_user_password-log w =
      after (SameLog w.log) _ w (sample 20) (sample-log w.log 20 w refl)
        λ s h. insert_symbols-log w.log 4 s _ h

  pub generate_secure_password-log :
      (n : ℕ) (w : World K.State) → (generate_secure_password n w).1.log ≡ w.log
  unfolding generate_secure_password
  generate_secure_password-log n w =
      after (SameLog w.log) _ w (sample (max n 32 - 4)) (sample-log w.log _ w refl)
        λ s h. insert_symbols-log w.log 4 s _ h

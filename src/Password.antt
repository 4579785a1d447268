-- ===== src/Password.antt =====
-- src/cluster/crd.rs and src/user/crd.rs: random passwords. All characters are ASCII, so a position
-- in bytes is one in characters.
pub mod Quiet
pub mod Shape
pub mod Calm
pub mod Still
use Prim.Native.Nat.{max}
use Prim.Native.String.{[], ◌∷◌, count}
use mathlib.Core.Option
use sdb_controller.Prelude.{ℕ, zero, suc, ◌-◌, Char, Option, none, some, String}
use sdb_controller.Api.{Kube, done, M, pure, unwrap, ◌>>=◌}

abbrev pub symbols : String
symbols = "!@#$%^&*()-_=+[]{};:,.?~"

-- `SYMBOLS[i]`; `none` is the panic of an index out of bounds.
unfoldable pub char_at : String → ℕ → Option Char
char_at [] i = none
char_at (c ∷ s) zero = some c
char_at (c ∷ s) (suc i) = char_at s i

-- `s.insert(i, c)`; `none` is its panic.
unfoldable pub insert_at : String → ℕ → Char → Option String
insert_at s zero c = some (c ∷ s)
insert_at [] (suc i) c = none
insert_at (d ∷ s) (suc i) c = Option.map (λ t. d ∷ t) (insert_at s i c)

module _ ⦃K : Kube⦄ where
  unfoldable pub draw : M Char
  draw w = let (c, s) = K.alphanumeric w.state in (done c, record w { state = s })

  unfoldable pub draw_below : ℕ → M ℕ
  draw_below n w = let (i, s) = K.random_below n w.state in (done i, record w { state = s })

  unfoldable pub sample : ℕ → M String
  sample zero = pure ""
  sample (suc n) = do c ← draw; s ← sample n; pure (c ∷ s)

  -- One round of `for _ in 0..4`.
  unfoldable pub insert_symbol : String → M String
  unfolding draw_below char_at insert_at
  insert_symbol s = do
    i ← draw_below (max (count s) 1)
    j ← draw_below (count symbols)
    symbol ← unwrap (char_at symbols j)
    unwrap (insert_at s i symbol)

  unfoldable pub insert_symbols : ℕ → String → M String
  insert_symbols zero s = pure s
  insert_symbols (suc k) s = do t ← insert_symbol s; insert_symbols k t

  unfoldable pub generate_secure_password : ℕ → M String
  generate_secure_password length = do let n = max length 32; s ← sample (n - 4); insert_symbols 4 s

  -- The closure of `User::reconcile`.
  unfoldable pub generate_user_password : M String
  generate_user_password = do s ← sample 20; insert_symbols 4 s

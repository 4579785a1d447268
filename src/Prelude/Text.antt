-- ===== src/Prelude/Text.antt =====
-- `str::split` at dots, and the decimal text of a `u16`.
use Prim.Native.Nat.{ℕ, zero, suc, ◌/◌, ◌%◌}
use Prim.Native.Char.{Char, code}
use Prim.Native.String.{String, [] as empty, ◌∷◌ as cons}
use mathlib.Core.Path.{◌≡◌, refl}
use mathlib.Core.Bool.{Bool, false, ◌||◌}
use mathlib.Core.List.{List, [], ◌∷◌}
use native.Mathlib.Omega.{arith}
use text.Mathlib.TextLemmas.{nil-append, cons-append}
use sdb_controller.Prelude.Tests.{ltb, eqb, if◌then◌else◌, ◌<>◌}

-- A character in front of the first piece.
abbrev pub onto_first : Char → List String → List String
onto_first c [] = cons c empty ∷ []
onto_first c (piece ∷ pieces) = cons c piece ∷ pieces

-- `s.split(".")`
unfoldable pub split_dots : String → List String
split_dots empty = "" ∷ []
split_dots (cons c s) =
    let rest = split_dots s in if eqb (code c) b'.' then "" ∷ rest else onto_first c rest

abbrev figures : List String
figures = "0" ∷ "1" ∷ "2" ∷ "3" ∷ "4" ∷ "5" ∷ "6" ∷ "7" ∷ "8" ∷ "9" ∷ []

abbrev pick : List String → ℕ → String
pick [] i = ""
pick (s ∷ rest) zero = s
pick (s ∷ rest) (suc i) = pick rest i

-- At most `more` figures in front of the last one, without zeros at the beginning.
figures_of : (more : ℕ) → ℕ → String
figures_of zero n = pick figures (n % 10)
figures_of (suc more) n =
    let front = figures_of more (n / 10) in (if ltb 9 n then front else "") <> pick figures (n % 10)

-- Five figures are enough below 65536.
unfoldable pub show_u16 : ℕ → String
unfolding figures_of
show_u16 n = figures_of 4 n

abbrev pub length {ℓ} : {A : Type ℓ} → List A → ℕ
length [] = 0
length (x ∷ xs) = suc (length xs)

-- `s.contains(q)`
abbrev pub mentions : Char → String → Bool
mentions q empty = false
mentions q (cons c s) = eqb (code c) (code q) || mentions q s

pub mentions-append :
    (q : Char) (s t : String) → mentions q (s <> t) ≡ (mentions q s || mentions q t)
mentions-append q empty t = rw (nil-append t) refl
mentions-append q (cons c s) t = rw (cons-append c s t) (ground (arith, mentions-append q s t))

-- A text without dots in front of a dot is the first piece.
pub split-label :
    (s t : String) → mentions "." s ≡ false → split_dots (s <> cons "." t) ≡ s ∷ split_dots t
unfolding split_dots
split-label empty t h = rw (nil-append (cons "." t)) refl
split-label (cons c s) t h = rw (cons-append c s (cons "." t)) (ground (arith, h, split-label s t))

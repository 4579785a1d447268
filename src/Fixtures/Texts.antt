-- ===== src/Fixtures/Texts.antt =====
-- `str::starts_with`, `ends_with` and `contains` of a text in a text.
use Prim.Native.String.{[], ◌∷◌}
use text.Mathlib.TextLemmas.{nil-append, cons-append}
use sdb_controller.Prelude.{
  ◌≡◌, refl, arith, Bool, true, false, ◌&&◌, ◌||◌, Char, code, String, mentions, ◌<>◌, ◌==◌,
  eq_refl, eqb,
}

unfoldable pub starts_with : String → String → Bool
starts_with [] s = true
starts_with (c ∷ p) [] = false
starts_with (c ∷ p) (d ∷ s) = eqb (code c) (code d) && starts_with p s

unfoldable pub contains : String → String → Bool
unfolding starts_with
contains p [] = starts_with p []
contains p (d ∷ s) = starts_with p (d ∷ s) || contains p s

unfoldable pub ends_with : String → String → Bool
ends_with p [] = p == ""
ends_with p (d ∷ s) = p == d ∷ s || ends_with p s

pub starts_with-append : (p s : String) → starts_with p (p <> s) ≡ true
unfolding starts_with
starts_with-append [] s = refl
starts_with-append (c ∷ p) s = rw (cons-append c p s) (ground (arith, starts_with-append p s))

contains_of_starts_with : (p s : String) → starts_with p s ≡ true → contains p s ≡ true
unfolding contains
contains_of_starts_with p [] h = h
contains_of_starts_with p (d ∷ s) h = ground (arith, h)

pub contains-front : (p s : String) → contains p (p <> s) ≡ true
contains-front p s = contains_of_starts_with p (p <> s) (starts_with-append p s)

pub contains-append : (p a s : String) → contains p s ≡ true → contains p (a <> s) ≡ true
unfolding contains
contains-append p [] s h = rw (nil-append s) h
contains-append p (c ∷ a) s h = rw (cons-append c a s) (ground (arith, contains-append p a s h))

ends_with_self : (p : String) → ends_with p p ≡ true
unfolding ends_with
ends_with_self [] = refl
ends_with_self (c ∷ p) = rw (eq_refl (c ∷ p)) refl

pub ends_with-append : (p a : String) → ends_with p (a <> p) ≡ true
unfolding ends_with
ends_with-append p [] = rw (nil-append p) (ends_with_self p)
ends_with-append p (c ∷ a) = rw (cons-append c a p) (ground (arith, ends_with-append p a))

-- A text with a character `q` that the sought text does not have is sought on either side of it.
module _ (q : Char) where
  starts_with-apart :
      (p a b : String) → mentions q p ≡ false → starts_with p (a <> (q ∷ b)) ≡ starts_with p a
  unfolding starts_with
  starts_with-apart [] a b h = refl
  starts_with-apart (c ∷ p) [] b h = rw (nil-append (q ∷ b)) (ground (arith, h))
  starts_with-apart (c ∷ p) (d ∷ a) b h =
      rw (cons-append d a (q ∷ b)) (ground (arith, h, starts_with-apart p a b))

  contains-first :
      (p b : String)
      → mentions q p ≡ false
      → contains p (q ∷ b) ≡ (starts_with p [] || contains p b)
  unfolding contains starts_with
  contains-first [] b h = refl
  contains-first (c ∷ p) b h = ground (arith, h)

  pub contains-apart :
      (p a b : String)
      → mentions q p ≡ false
      → contains p (a <> (q ∷ b)) ≡ (contains p a || contains p b)
  unfolding contains
  contains-apart p [] b h = rw (nil-append (q ∷ b)) (contains-first p b h)
  contains-apart p (c ∷ a) b h = rw (cons-append c a (q ∷ b)) (
      ground
        (arith, starts_with-apart p (c ∷ a) b h, cons-append c a (q ∷ b), contains-apart p a b h))

-- A text without the character `q` contains no text with it.
module _ (q : Char) where
  starts_with-unmentioned :
      (p s : String) → mentions q p ≡ true → mentions q s ≡ false → starts_with p s ≡ false
  unfolding starts_with
  starts_with-unmentioned [] s h g = ground (arith, h)
  starts_with-unmentioned (c ∷ p) [] h g = refl
  starts_with-unmentioned (c ∷ p) (d ∷ s) h g = ground (arith, h, g, starts_with-unmentioned p s)

  pub contains-unmentioned :
      (p s : String) → mentions q p ≡ true → mentions q s ≡ false → contains p s ≡ false
  unfolding contains
  contains-unmentioned p [] h g = starts_with-unmentioned p [] h g
  contains-unmentioned p (d ∷ s) h g =
      let g' : mentions q s ≡ false = ground (arith, g) in
      rw (starts_with-unmentioned p (d ∷ s) h g) (contains-unmentioned p s h g')

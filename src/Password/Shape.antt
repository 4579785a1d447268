-- ===== src/Password/Shape.antt =====
-- What a generated password is made of, where the random numbers lie in their ranges.
use Prim.Native.Nat.{max}
use Prim.Native.String.{[], ◌∷◌, count}
use text.Mathlib.TextLemmas.{length-nil, length-cons}
use mathlib.Core.Option
use sdb_controller.Prelude.{
  mentions, ℕ, zero, suc, ◌+◌, ◌-◌, ◌<◌, ◌≤◌, ◌≡◌, refl, sym, ap, ◌∙◌, arith, Bool, true, false,
  ◌&&◌, ◌||◌, not, Char, code, Option, none, some, String, eqb, ltb, if◌then◌else◌,
}
use sdb_controller.Password.{
  symbols, char_at, insert_at, draw, draw_below, sample, insert_symbol, insert_symbols,
  generate_secure_password, generate_user_password,
}
use sdb_controller.Api.{Kube, World, Outcome, done, failed, panic, M, continue, pure, unwrap, ◌>>=◌}

abbrev between : ℕ → ℕ → ℕ → Bool
between a b n = not (ltb n a) && not (ltb b n)

abbrev pub is_alphanumeric : Char → Bool
is_alphanumeric c = between 48 57 (code c) || between 65 90 (code c) || between 97 122 (code c)

-- The characters of a text that are no letters and no digits.
abbrev pub specials : String → ℕ
specials [] = 0
specials (c ∷ s) = let rest = specials s in if is_alphanumeric c then rest else suc rest

-- A text of `n` characters, `k` of them special and none a quote or a blank.
pub record Shape (n k : ℕ) (s : String) : Type 0 where
  pub size : count s ≡ n
  pub special : specials s ≡ k
  pub unquoted : mentions "'" s ≡ false
  pub unspaced : mentions " " s ≡ false

-- The documented ranges of `random_range` and `Alphanumeric`.
pub record IsFair ⦃K : Kube⦄ : Type 0 where
  pub in_range : (n : ℕ) (s : K.State) → 0 < n → (K.random_below n s).0 < n
  pub plain : (s : K.State) → is_alphanumeric (K.alphanumeric s).0 ≡ true

abbrev pub Yields : {A : Type 0} → (A → Type 0) → Outcome A → Type 0
Yields P (done a) = P a
Yields P (failed e) = ⊥
Yields P panic = ⊥

abbrev is_special : Char → Bool
is_special c = not (is_alphanumeric c) && not (eqb (code c) 39) && not (eqb (code c) 32)

unquoted_alphanumeric : (c : Char) → is_alphanumeric c ≡ true → eqb (code c) 39 ≡ false
unquoted_alphanumeric c h = ground arith

unspaced_alphanumeric : (c : Char) → is_alphanumeric c ≡ true → eqb (code c) 32 ≡ false
unspaced_alphanumeric c h = ground arith

abbrev all_special : String → Bool
all_special [] = true
all_special (c ∷ s) = is_special c && all_special s

abbrev SomeSpecial : Option Char → Type 0
SomeSpecial none = ⊥
SomeSpecial (some c) = is_special c ≡ true

char_at-SomeSpecial :
    (s : String) (i : ℕ) → all_special s ≡ true → i < count s → SomeSpecial (char_at s i)
unfolding char_at
char_at-SomeSpecial [] i h b = let e : ⊥ = omega arith in absurd e
char_at-SomeSpecial (c ∷ s) zero h b = ground (arith, h)
char_at-SomeSpecial (c ∷ s) (suc i) h b =
    let h' : all_special s ≡ true = ground (arith, h) in
    let e : count (c ∷ s) ≡ suc (count s) = length-cons c s in
    char_at-SomeSpecial s i h' (omega arith)

-- A special character was put in.
abbrev Inserted : String → Option String → Type 0
Inserted s none = ⊥
Inserted s (some t) =
    (count t ≡ suc (count s))
    × (specials t ≡ suc (specials s))
    × (mentions "'" t ≡ mentions "'" s)
    × (mentions " " t ≡ mentions " " s)

Inserted-first : (s : String) (c : Char) → is_special c ≡ true → Inserted s (some (c ∷ s))
Inserted-first s c h = (length-cons c s, ground (arith, h), ground (arith, h), ground (arith, h))

Inserted-later :
    (d : Char) (s : String) (o : Option String)
    → Inserted s o
    → Inserted (d ∷ s) (Option.map (λ t. d ∷ t) o)
Inserted-later d s none h = h
Inserted-later d s (some t) (a, b, e, f) = (
  length-cons d t ∙ ap suc (a ∙ sym (length-cons d s)),
  ground (arith, b),
  ground (arith, e),
  ground (arith, f),
)

insert_at-Inserted :
    (s : String) (i : ℕ) (c : Char)
    → is_special c ≡ true
    → i ≤ count s
    → Inserted s (insert_at s i c)
unfolding insert_at
insert_at-Inserted s zero c h b = Inserted-first s c h
insert_at-Inserted [] (suc i) c h b = let e : ⊥ = omega arith in absurd e
insert_at-Inserted (d ∷ s) (suc i) c h b =
    let e : count (d ∷ s) ≡ suc (count s) = length-cons d s in
    Inserted-later d s _ (insert_at-Inserted s i c h (omega arith))

pub resized : {n n' k k' : ℕ} {s : String} → n ≡ n' → k ≡ k' → Shape n k s → Shape n' k' s
resized e f h = record {
  size = h.size ∙ e;
  special = h.special ∙ f;
  unquoted = h.unquoted;
  unspaced = h.unspaced;
}

module _ ⦃K : Kube⦄ where
  module _ {A B : Type 0} (P : A → Type 0) (Q : B → Type 0) where
    Yields-bind :
        (m : M A) (f : A → M B) (w : World K.State)
        → Yields P (m w).0
        → ((a : A) (w' : World K.State) → P a → Yields Q (f a w').0)
        → Yields Q ((m >>= f) w).0
    unfolding ◌>>=◌
    Yields-bind m f w h g = next (m w) h
      where
        next : (x : Outcome A × World K.State) → Yields P x.0 → Yields Q (continue x.0 f x.1).0
        next (done a, w') h = g a w' h
        next (failed e, w') h = absurd h
        next (panic, w') h = absurd h

  Yields-more :
      {A : Type 0} {P Q : A → Type 0} (o : Outcome A)
      → ((a : A) → P a → Q a)
      → Yields P o
      → Yields Q o
  Yields-more (done a) g h = g a h
  Yields-more (failed e) g h = h
  Yields-more panic g h = h

  Inserted-Shape :
      {n k : ℕ} (s : String) (o : Option String) (w : World K.State)
      → Shape n k s
      → Inserted s o
      → Yields (Shape (suc n) (suc k)) (unwrap o w).0
  unfolding unwrap
  Inserted-Shape s none w h e = absurd e
  Inserted-Shape s (some t) w h (a, b, e, f) = record {
    size = a ∙ ap suc h.size;
    special = b ∙ ap suc h.special;
    unquoted = e ∙ h.unquoted;
    unspaced = f ∙ h.unspaced;
  }

  put_Shape :
      {n k : ℕ} (s : String) (i : ℕ) (o : Option Char) (w : World K.State)
      → Shape n k s
      → i ≤ count s
      → SomeSpecial o
      → Yields (Shape (suc n) (suc k)) ((unwrap o >>= λ c. unwrap (insert_at s i c)) w).0
  unfolding ◌>>=◌ unwrap
  put_Shape s i none w h b e = absurd e
  put_Shape s i (some c) w h b e = Inserted-Shape s _ w h (insert_at-Inserted s i c e b)

module _ ⦃K : Kube⦄ (fair : IsFair) where
  draw-plain : (w : World K.State) → Yields (λ c. is_alphanumeric c ≡ true) (draw w).0
  unfolding draw
  draw-plain w = fair.plain w.state

  sample-Shape : (n : ℕ) (w : World K.State) → Yields (Shape n 0) (sample n w).0
  unfolding sample pure
  sample-Shape zero w = record {
    size = length-nil;
    special = refl;
    unquoted = refl;
    unspaced = refl;
  }
  sample-Shape (suc n) w =
      Yields-bind (λ c. is_alphanumeric c ≡ true) _ draw _ w (draw-plain w)
        λ c w' p. Yields-bind (Shape n 0) _ (sample n) _ w' (sample-Shape n w') λ s w'' h. record {
          size = length-cons c s ∙ ap suc h.size;
          special = ground (arith, p, h.special);
          unquoted = ground (arith, h.unquoted, unquoted_alphanumeric c p);
          unspaced = ground (arith, h.unspaced, unspaced_alphanumeric c p);
        }

  insert_symbol-Shape :
      {n k : ℕ} (s : String) (w : World K.State)
      → Shape n k s
      → Yields (Shape (suc n) (suc k)) (insert_symbol s w).0
  unfolding insert_symbol draw_below ◌>>=◌
  insert_symbol-Shape s w h =
      let b = fair.in_range (max (count s) 1) w.state (omega arith) in
      put_Shape s _ _ _ h (omega arith)
        (char_at-SomeSpecial symbols _ refl (fair.in_range 24 _ (omega arith)))

  insert_symbols-Shape :
      (m : ℕ) {n k : ℕ} (s : String) (w : World K.State)
      → Shape n k s
      → Yields (Shape (m + n) (m + k)) (insert_symbols m s w).0
  unfolding insert_symbols pure
  insert_symbols-Shape zero s w h = resized (omega arith) (omega arith) h
  insert_symbols-Shape (suc m) s w h =
      Yields-bind _ _ (insert_symbol s) _ w (insert_symbol-Shape s w h) λ t w' g.
        Yields-more _ (λ u. resized (omega arith) (omega arith)) (insert_symbols-Shape m t w' g)

  -- Where random numbers lie in their ranges, a root password for the length `n` is made without
  -- a panic. It has the greater of `n` and 32 characters, four of them special, and no quote and no blank.
  pub generate_secure_password-Shape :
      (n : ℕ) (w : World K.State) → Yields (Shape (max n 32) 4) (generate_secure_password n w).0
  unfolding generate_secure_password
  generate_secure_password-Shape n w =
      Yields-bind (Shape (max n 32 - 4) 0) _ (sample (max n 32 - 4)) _ w (sample-Shape _ w)
        λ s w' h. Yields-more _ (λ u. resized (omega arith) refl) (insert_symbols-Shape 4 s w' h)

  -- Where random numbers lie in their ranges, a password for a user is made without a panic. It has 24
  -- characters, four of them special, and no quote and no blank.
  pub generate_user_password-Shape :
      (w : World K.State) → Yields (Shape 24 4) (generate_user_password w).0
  unfolding generate_user_password
  generate_user_password-Shape w =
      Yields-bind (Shape 20 0) _ (sample 20) _ w (sample-Shape 20 w)
        λ s w' h. insert_symbols-Shape 4 s w' h

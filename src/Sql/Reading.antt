-- ===== src/Sql/Reading.antt =====
-- src/user/crd.rs and src/database/crd.rs, `replace('`', "``")` and `replace('\'', "''")`: what undoes
-- them. The reader takes a doubled quote for one, as the controllers write it; it is not SurrealQL's
-- own parser.
use Prim.Native.String.{[], ◌∷◌}
use text.Mathlib.TextLemmas.{nil-append, cons-append, append_assoc}
use sdb_controller.Prelude.{
  ◌≡◌, refl, arith, Bool, true, false, Char, code, Option, none, some, String, ◌<>◌, eqb,
  if◌then◌else◌, Bool-cases, inl, inr,
}
use sdb_controller.Sql.{double, quote_ident}

-- What follows a given beginning.
abbrev pub after_text : String → String → Option String
after_text [] s = some s
after_text (c ∷ p) [] = none
after_text (c ∷ p) (d ∷ s) =
    let rest = after_text p s in if eqb (code c) (code d) then rest else none

abbrev keep : Char → Option (String × String) → Option (String × String)
keep c none = none
keep c (some (s, rest)) = some (c ∷ s, rest)

-- The content up to the closing quote, and what follows. `pending` says that a quote was just read.
abbrev pub read_quoted : Char → (pending : Bool) → String → Option (String × String)
read_quoted q false [] = none
read_quoted q true [] = some ("", "")
read_quoted q false (c ∷ s) =
    let rest = read_quoted q false s in
    let closed = read_quoted q true s in if eqb (code c) (code q) then closed else keep c rest
read_quoted q true (c ∷ s) =
    let rest = read_quoted q false s in
    if eqb (code c) (code q) then keep c rest else some ("", c ∷ s)

pub after_text-append : (p s : String) → after_text p (p <> s) ≡ some s
after_text-append [] s = rw (nil-append s) refl
after_text-append (c ∷ p) s = rw (cons-append c p s) (ground (arith, after_text-append p s))

pub read-double :
    (q : Char) (s rest : String)
    → read_quoted q true rest ≡ some ("", rest)
    → read_quoted q false (double q s <> (q ∷ rest)) ≡ some (s, rest)
unfolding double
read-double q [] rest h = rw (nil-append (q ∷ rest)) (ground (arith, h))
read-double q (c ∷ s) rest h = elim (Bool-cases (eqb (code c) (code q))) [
  | inl e ↦
      rw (e, cons-append c (c ∷ double q s) (q ∷ rest), cons-append c (double q s) (q ∷ rest))
        (ground (arith, e, read-double q s rest h))
  | inr e ↦
      rw (e, cons-append c (double q s) (q ∷ rest)) (ground (arith, e, read-double q s rest h))
]

abbrev pub and_then {ℓ κ} : {A : Type ℓ} {B : Type κ} → Option A → (A → Option B) → Option B
and_then none f = none
and_then (some a) f = f a

abbrev pub read_ident : String → Option (String × String)
read_ident t = and_then (after_text "`" t) (read_quoted "`" false)

-- The next text does not begin with the quote, so a quote before it closes.
closes :
    (q c : Char) (p rest : String)
    → eqb (code c) (code q) ≡ false
    → read_quoted q true ((c ∷ p) <> rest) ≡ some ("", (c ∷ p) <> rest)
closes q c p rest h = rw (cons-append c p rest) (ground (arith, h))

quote_ident-split :
    (name rest : String) → quote_ident name <> rest ≡ "`" <> (double "`" name <> ("`" ∷ rest))
unfolding quote_ident
quote_ident-split name rest =
    rw
      (
        append_assoc "`" (double "`" name <> "`") rest,
        append_assoc (double "`" name) "`" rest,
        cons-append "`" "" rest,
        nil-append rest,
      )
      refl

pub read-quote_ident :
    (name : String) (c : Char) (p rest : String)
    → eqb (code c) (code "`") ≡ false
    → read_ident (quote_ident name <> ((c ∷ p) <> rest)) ≡ some (name, (c ∷ p) <> rest)
read-quote_ident name c p rest h =
    rw
      (
        quote_ident-split name ((c ∷ p) <> rest),
        after_text-append "`" (double "`" name <> ("`" ∷ ((c ∷ p) <> rest))),
      )
      (read-double "`" name _ (closes "`" c p rest h))

-- ===== src/Fixtures/User/Words.antt =====
-- src/user/crd.rs: words in the SQL that defines a user.
use Prim.Native.String.{[], ◌∷◌}
use text.Mathlib.TextLemmas.{append_assoc, nil-append, cons-append}
use sdb_controller.Prelude.{
  ◌≡◌, refl, ◌∙◌, ap, arith, true, false, ◌||◌, Char, code, String, ◌<>◌, eqb, mentions, Bool-cases,
  inl, inr,
}
use sdb_controller.Sql.{double, quote_ident, define_user}
use sdb_controller.Fixtures.Texts.{
  starts_with, contains, contains-front, contains-append, contains-apart,
}

-- Doubled quotes do not matter to a text without quotes that is sought.
module _ (q : Char) where
  starts_with-double :
      (p s : String) → mentions q p ≡ false → starts_with p (double q s) ≡ starts_with p s
  unfolding starts_with double
  starts_with-double [] s h = refl
  starts_with-double (c ∷ p) [] h = refl
  starts_with-double (c ∷ p) (d ∷ s) h = elim (Bool-cases (eqb (code d) (code q))) [
    | inl e ↦ rw e (ground (arith, h, e))
    | inr e ↦ rw e (ground (arith, h, e, starts_with-double p s))
  ]

  contains-double :
      (c : Char) (p s : String)
      → mentions q (c ∷ p) ≡ false
      → contains (c ∷ p) (double q s) ≡ contains (c ∷ p) s
  unfolding contains double starts_with
  contains-double c p [] h = refl
  contains-double c p (d ∷ s) h = elim (Bool-cases (eqb (code d) (code q))) [
    | inl e ↦ rw e (ground (arith, h, e, contains-double c p s))
    | inr e ↦ rw e (ground (arith, h, e, starts_with-double p s, contains-double c p s))
  ]

  -- A text on both sides of a quote.
  contains-quote :
      (p a b : String)
      → mentions q p ≡ false
      → contains p (a <> ((q ∷ "") <> b)) ≡ (contains p a || contains p b)
  contains-quote p a b h =
      let joined : (q ∷ "") <> b ≡ q ∷ b = cons-append q "" b ∙ ap (λ t. q ∷ t) (nil-append b) in
      ap (λ t. contains p (a <> t)) joined ∙ contains-apart q p a b h

module _ (c : Char) (p : String) (plain : mentions "`" (c ∷ p) ≡ false) where
  contains-quote_ident :
      (a s b : String)
      → contains (c ∷ p) (a <> (quote_ident s <> b))
        ≡ (contains (c ∷ p) a || (contains (c ∷ p) s || contains (c ∷ p) b))
  unfolding quote_ident
  contains-quote_ident a s b =
      rw
        (
          append_assoc "`" (double "`" s <> "`") b,
          append_assoc (double "`" s) "`" b,
          contains-quote "`" (c ∷ p) a (double "`" s <> ("`" <> b)) plain,
          contains-quote "`" (c ∷ p) (double "`" s) b plain,
          contains-double "`" c p s plain,
        )
        refl

abbrev pub grant : String
grant = "GRANT ALL ON DB"

pub define_user-Ungranted :
    (ns db username password : String)
    → contains grant ns ≡ false
    → contains grant db ≡ false
    → contains grant username ≡ false
    → contains grant password ≡ false
    → contains grant (define_user ns db username password) ≡ false
unfolding define_user contains
define_user-Ungranted ns db username password n d u w =
    rw
      (
        contains-quote_ident "G" "RANT ALL ON DB" refl "USE NS " ns _,
        contains-quote_ident "G" "RANT ALL ON DB" refl "; USE DB " db _,
        contains-quote_ident "G" "RANT ALL ON DB" refl "; DEFINE USER " username _,
        n,
        d,
        u,
      )
      (ap (contains grant)
          (append_assoc " ON DATABASE PASSWORD " "'" (double "'" password <> "' ROLES EDITOR;"))
        ∙ contains-quote "'" grant " ON DATABASE PASSWORD "
            (double "'" password <> "' ROLES EDITOR;") refl
        ∙ contains-apart "'" grant (double "'" password) " ROLES EDITOR;" refl
        ∙ ap (λ x. x || false) (contains-double "'" "G" "RANT ALL ON DB" password refl ∙ w))

module _ (ns db username password : String) where
  -- What follows the names of the namespace and the database.
  abbrev named : String
  named =
      quote_ident username
      <> (" ON DATABASE PASSWORD '" <> (double "'" password <> "' ROLES EDITOR;"))

  contains-define_user :
      (t : String)
      → contains t ("; DEFINE USER " <> named) ≡ true
      → contains t (define_user ns db username password) ≡ true
  unfolding define_user
  contains-define_user t h =
      let definition = quote_ident db <> ("; DEFINE USER " <> named) in
      contains-append t "USE NS " (quote_ident ns <> ("; USE DB " <> definition)) (
        contains-append t (quote_ident ns) ("; USE DB " <> definition) (
          contains-append t "; USE DB " definition
            (contains-append t (quote_ident db) ("; DEFINE USER " <> named) h)))

  pub define_user-user : contains "DEFINE USER " (define_user ns db username password) ≡ true
  define_user-user = contains-define_user "DEFINE USER " (
      rw (append_assoc "; " "DEFINE USER " named)
        (contains-append _ "; " ("DEFINE USER " <> named) (contains-front "DEFINE USER " named)))

  pub define_user-database : contains "ON DATABASE" (define_user ns db username password) ≡ true
  define_user-database =
      let rest = double "'" password <> "' ROLES EDITOR;" in
      let found : contains "ON DATABASE" (" ON DATABASE PASSWORD '" <> rest) ≡ true =
        rw
          (
            append_assoc " " "ON DATABASE PASSWORD '" rest,
            append_assoc "ON DATABASE" " PASSWORD '" rest,
          )
          (contains-append _ " " ("ON DATABASE" <> (" PASSWORD '" <> rest))
            (contains-front "ON DATABASE" (" PASSWORD '" <> rest))) in
      contains-define_user "ON DATABASE" (
        contains-append _ "; DEFINE USER " named
          (contains-append _ (quote_ident username) (" ON DATABASE PASSWORD '" <> rest) found))

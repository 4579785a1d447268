-- ===== src/Sql/RoundTrips.antt =====
-- The SQL that the controllers send, read back.
use Prim.Native.String.{[], ◌∷◌}
use text.Mathlib.TextLemmas.{append_assoc}
use sdb_controller.Prelude.{
  mentions, ◌≡◌, refl, arith, false, Char, code, Option, none, some, String, ◌<>◌, eqb, sym, ap,
  ◌∙◌,
}
use sdb_controller.Sql.{
  double, quote_ident, define_user, define_database, define_namespace, define_root_user,
}
use sdb_controller.Sql.Reading.{
  after_text, after_text-append, read_ident, read_quoted, read-quote_ident, read-double, and_then,
}

abbrev pub at_end {ℓ} : {A : Type ℓ} → A → String → Option A
at_end a [] = some a
at_end a (c ∷ s) = none

abbrev pub read_define_namespace : String → Option String
read_define_namespace t =
    and_then (after_text "DEFINE NAMESPACE " t)
      λ t. and_then (read_ident t) λ (ns, t). and_then (after_text ";" t) (at_end ns)

abbrev pub read_define_database : String → Option (String × String)
read_define_database t = and_then (after_text "USE NS " t) λ t. and_then (read_ident t) λ (ns, t).
    and_then (after_text "; DEFINE DATABASE " t)
      λ t. and_then (read_ident t) λ (db, t). and_then (after_text ";" t) (at_end (ns, db))

abbrev pub read_define_user : String → Option (String × String × String × String)
read_define_user t = and_then (after_text "USE NS " t) λ t. and_then (read_ident t) λ (ns, t).
    and_then (after_text "; USE DB " t) λ t. and_then (read_ident t) λ (db, t).
      and_then (after_text "; DEFINE USER " t) λ t. and_then (read_ident t) λ (user, t).
        and_then (after_text " ON DATABASE PASSWORD '" t) λ t.
          and_then (read_quoted "'" false t) λ (password, t).
            and_then (after_text " ROLES EDITOR;" t) (at_end (ns, db, user, password))

-- The SQL that defines a database, read by a reader that undoes the quoting, gives back the two
-- names, whatever characters they have.
pub read-define_database :
    (ns_name db_name : String)
    → read_define_database (define_database ns_name db_name) ≡ some (ns_name, db_name)
unfolding define_database
read-define_database ns_name db_name =
    rw
      (
        after_text-append "USE NS "
            (quote_ident ns_name <> ("; DEFINE DATABASE " <> (quote_ident db_name <> ";"))),
        read-quote_ident ns_name ";" " DEFINE DATABASE " (quote_ident db_name <> ";") refl,
        after_text-append "; DEFINE DATABASE " (quote_ident db_name <> ";"),
        read-quote_ident db_name ";" "" "" refl,
      )
      refl

pub read-define_namespace :
    (ns_name : String) → read_define_namespace (define_namespace ns_name) ≡ some ns_name
unfolding define_namespace
read-define_namespace ns_name =
    rw
      (
        after_text-append "DEFINE NAMESPACE " (quote_ident ns_name <> ";"),
        read-quote_ident ns_name ";" "" "" refl,
      )
      refl

read-quoted_text :
    (q : Char) (text : String) (c : Char) (p : String)
    → eqb (code c) (code q) ≡ false
    → read_quoted q false (double q text <> (q ∷ c ∷ p)) ≡ some (text, c ∷ p)
read-quoted_text q text c p h = read-double q text (c ∷ p) (ground (arith, h))

-- The SQL that provisions a user, read by a reader that undoes the quoting, gives back the four
-- names, whatever characters they have.
pub read-define_user :
    (ns_name db_name username password : String)
    → read_define_user (define_user ns_name db_name username password)
      ≡ some (ns_name, db_name, username, password)
unfolding define_user
read-define_user ns_name db_name username password =
    let tail = double "'" password <> "' ROLES EDITOR;" in
    let user = quote_ident username <> (" ON DATABASE PASSWORD '" <> tail) in
    let db = quote_ident db_name <> ("; DEFINE USER " <> user) in
    rw
      (
        after_text-append "USE NS " (quote_ident ns_name <> ("; USE DB " <> db)),
        read-quote_ident ns_name ";" " USE DB " db refl,
        after_text-append "; USE DB " db,
        read-quote_ident db_name ";" " DEFINE USER " user refl,
        after_text-append "; DEFINE USER " user,
        read-quote_ident username " " "ON DATABASE PASSWORD '" tail refl,
        after_text-append " ON DATABASE PASSWORD '" tail,
        read-quoted_text "'" password " " "ROLES EDITOR;" refl,
      )
      refl

double-unmentioned : (q : Char) (s : String) → mentions q s ≡ false → double q s ≡ s
unfolding double
double-unmentioned q [] h = refl
double-unmentioned q (c ∷ s) h = ground (arith, h, double-unmentioned q s)

-- The password of `DEFINE USER root`, which the bootstrap sends.
abbrev pub read_define_root : String → Option String
read_define_root t = and_then (after_text "DEFINE USER root ON ROOT PASSWORD '" t) λ t.
    and_then (read_quoted "'" false t)
      λ (password, t). and_then (after_text " ROLES OWNER;" t) (at_end password)

define_root-split :
    (pass : String)
    → define_root_user "root" pass
      ≡ "DEFINE USER root ON ROOT PASSWORD '" <> (pass <> "' ROLES OWNER;")
unfolding define_root_user
define_root-split pass =
    let tail = pass <> "' ROLES OWNER;" in
    sym (append_assoc "DEFINE USER " "root" (" ON ROOT PASSWORD '" <> tail))
    ∙ sym (append_assoc "DEFINE USER root" " ON ROOT PASSWORD '" tail)

-- The SQL that the bootstrap sends for the user root, read by a reader that undoes the quoting,
-- gives back a password without quotes.
pub read-define_root :
    (pass : String)
    → mentions "'" pass ≡ false
    → read_define_root (define_root_user "root" pass) ≡ some pass
read-define_root pass h =
    rw
      (
        define_root-split pass,
        after_text-append "DEFINE USER root ON ROOT PASSWORD '" (pass <> "' ROLES OWNER;"),
        sym (ap (λ s. s <> "' ROLES OWNER;") (double-unmentioned "'" pass h)),
        read-quoted_text "'" pass " " "ROLES OWNER;" refl,
      )
      refl

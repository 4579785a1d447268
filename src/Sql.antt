-- ===== src/Sql.antt =====
-- The SurrealQL texts of src/cluster/crd.rs, src/database/crd.rs and src/user/crd.rs, and the quoting
-- of what is put into them.
pub mod Reading
pub mod RoundTrips
use Prim.Native.String.{[], ◌∷◌}
use sdb_controller.Prelude.{Char, code, String, ◌<>◌, eqb, if◌then◌else◌}

-- `s.replace(c, cc)`: each `c` is written twice.
unfoldable pub double : Char → String → String
double q [] = []
double q (c ∷ s) = let rest = double q s in if eqb (code c) (code q) then c ∷ c ∷ rest else c ∷ rest

-- format!("`{}`", name.replace('`', "``"))
unfoldable pub quote_ident : String → String
unfolding double
quote_ident name = "`" <> double "`" name <> "`"

unfoldable pub define_root_user : String → String → String
define_root_user user pass =
    "DEFINE USER " <> user <> " ON ROOT PASSWORD '" <> pass <> "' ROLES OWNER;"

unfoldable pub define_namespace : String → String
unfolding quote_ident
define_namespace ns_name = "DEFINE NAMESPACE " <> quote_ident ns_name <> ";"

unfoldable pub define_database : String → String → String
unfolding quote_ident
define_database ns_name db_name =
    "USE NS " <> quote_ident ns_name <> "; DEFINE DATABASE " <> quote_ident db_name <> ";"

unfoldable pub define_user : String → String → String → String → String
unfolding quote_ident
define_user ns_name db_name username password =
    "USE NS "
    <> quote_ident ns_name
    <> "; USE DB "
    <> quote_ident db_name
    <> "; DEFINE USER "
    <> quote_ident username
    <> " ON DATABASE PASSWORD '"
    <> double "'" password
    <> "' ROLES EDITOR;"

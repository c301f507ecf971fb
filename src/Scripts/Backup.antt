-- ===== src/Scripts/Backup.antt =====
-- The call of pg_dump: backend/app/scripts/db_backup.py. The parts of a URL are urllib's `urlparse`.
pub mod Secret
use eval_ledger.Base.{
  ℕ, Bool, true, false, Option, none, some, List, [], ◌∷◌, ◌++◌, Text, codes, is_empty,
  if◌then◌else◌, or_else, ◌==◌, lstrip,
}
use eval_ledger.Scripts.Dsn.{plain_dsn, first_set, dev_url}

pub record ParsedDsn : Type 0 where
  pub host : Text
  pub port : Text
  pub dbname : Text
  pub user : Text
  pub password : Text

-- What `urlparse` finds; `path` is without the slashes that it starts with.
pub record UrlParts : Type 0 where
  pub hostname : Option Text
  pub port : Option ℕ
  pub path : Text
  pub username : Option Text
  pub password : Option Text

-- A part that is absent or empty has a default.
unfoldable pub or_default : Option Text → Text → Text
or_default none d = d
or_default (some t) d = if is_empty t then d else t

-- `str(parsed.port or 5432)`
unfoldable pub port_text : (ℕ → Text) → Option ℕ → Text
port_text decimal none = decimal 5432
port_text decimal (some n) = decimal (if n == 0 then 5432 else n)

unfoldable pub dsn_of : (ℕ → Text) → UrlParts → Option ParsedDsn
unfolding or_default port_text
dsn_of decimal parts =
    if is_empty (or_default parts.hostname [])
    then none
    else some (record {
      host = or_default parts.hostname (codes "localhost");
      port = port_text decimal parts.port;
      dbname = or_default (some parts.path) (codes "evalledger");
      user = or_default parts.username (codes "evalledger");
      password = or_default parts.password [];
    })

-- `_parse_dsn`; none is a ValueError.
unfoldable pub parse_dsn : (ℕ → Text) → (Text → Option UrlParts) → Text → Option ParsedDsn
unfolding dsn_of
parse_dsn decimal urlparse raw_url =
    if is_empty raw_url
    then none
    else elim (urlparse (plain_dsn raw_url)) [ none ↦ none | some parts ↦ dsn_of decimal parts ]

-- `output_path` counts as absent if it is empty.
unfoldable pub build_pg_dump_command : ParsedDsn → Option Text → Text → List Text
build_pg_dump_command dsn output_path fmt =
    let cmd =
      codes "pg_dump"
      ∷ codes "--host"
      ∷ dsn.host
      ∷ codes "--port"
      ∷ dsn.port
      ∷ codes "--username"
      ∷ dsn.user
      ∷ codes "--dbname"
      ∷ dsn.dbname
      ∷ codes "--format"
      ∷ fmt
      ∷ codes "--no-password"
      ∷ [] in
    elim output_path [
      | none ↦ cmd
      | some path ↦ if is_empty path then cmd else cmd ++ codes "--file" ∷ path ∷ []
    ]

-- What the script does with the command: it prints it, or runs it with a password in the environment.
pub data Effect : Type 0 where
  nothing : Effect
  prints : List Text → Effect
  runs : List Text → Text → Effect

-- How pg_dump ends; none is that there is no such program.
unfoldable pub exit_code : Option ℕ → ℕ
exit_code none = 2
exit_code (some status) = if status == 0 then 0 else 1

-- The arguments: `--print`, or `--output` with its path.
pub record Arguments : Type 0 where
  pub dry_run : Bool
  pub output : Option Text
  pub format : Text

unfoldable pub dump : Arguments → (List Text → Option ℕ) → Option ParsedDsn → ℕ × Effect
unfolding build_pg_dump_command exit_code
dump args run none = (2, nothing)
dump args run (some dsn) =
    let cmd = build_pg_dump_command dsn args.output args.format in
    if args.dry_run
    then (0, prints (codes "PGPASSWORD=***" ∷ cmd))
    else (exit_code (run cmd), runs cmd dsn.password)

unfoldable pub main :
    (ℕ → Text)
    → (Text → Option UrlParts)
    → Option Text
    → Option Text
    → Arguments
    → (List Text → Option ℕ)
    → ℕ × Effect
unfolding dump parse_dsn
main decimal urlparse database_url sync_database_url args run =
    dump args run
      (parse_dsn decimal urlparse (first_set database_url (first_set sync_database_url dev_url)))

-- ===== src/Db.antt =====
-- internal/db/dsn.go: which connection string is used, and how a connection is named in a message.
-- The environment is an argument; a warning is a text returned beside the result. `warn` is nil where
-- `warns` is false.
pub mod Redaction
use pgfathom.Base.{
  ℕ, Bool, not, ◌&&◌, Option, none, some, List, [], ◌∷◌, ◌++◌, itoa, text_eq, any, ◌==◌,
  if◌then◌else◌, Unicode, Str, codes, str_eq, trim_space,
}
use pgfathom.Model.Refs.{join}

-- what os.Getenv gives
abbrev pub Environment : Type 0
Environment = Str → Str

abbrev pub env_dsn : Str
env_dsn = codes "PGFATHOM_DSN"

abbrev pub libpq_vars : List Str
libpq_vars =
    codes "PGHOST"
    ∷ codes "PGPORT"
    ∷ codes "PGUSER"
    ∷ codes "PGDATABASE"
    ∷ codes "PGPASSWORD"
    ∷ codes "PGPASSFILE"
    ∷ codes "PGSERVICE"
    ∷ []

unfoldable pub has_libpq_env : Environment → Bool
has_libpq_env env = any (λ v. not (str_eq (env v) [])) libpq_vars

-- a connection string, empty where pgx reads the libpq variables, or ErrNoConnectionInfo
pub data Resolution : Type 0 where
  use_dsn : Str → Resolution
  no_connection_info : Resolution

abbrev pub warning_if : Bool → Str → List Str
warning_if b text = if b then text ∷ [] else []

module _ ⦃u : Unicode⦄ where
  unfoldable pub resolve_dsn : Environment → Str → Bool → Resolution × List Str
  resolve_dsn env flag warns =
      let from_env = trim_space (env env_dsn) in
      let from_flag = trim_space flag in
      if not (str_eq from_env [])
      then (
        Resolution.use_dsn from_env,
        warning_if (not (str_eq from_flag []) && warns)
            (codes "both PGFATHOM_DSN and --dsn are set; using PGFATHOM_DSN"),
      )
      else if not (str_eq from_flag [])
      then (
        Resolution.use_dsn from_flag,
        warning_if warns (codes "--dsn is visible in ps and in shell history; prefer PGFATHOM_DSN"),
      )
      else if has_libpq_env env
      then (Resolution.use_dsn [], [])
      else (Resolution.no_connection_info, [])

-- the fields of pgconn.Config that are read
pub record Config : Type 0 where
  pub host : Str
  pub port : ℕ
  pub user : Str
  pub database : Str
  pub password : Str

abbrev pub part_if : Str → Str → List Str
part_if value part = if str_eq value [] then [] else part ∷ []

abbrev pub with_parts : Str → List Str → Str
with_parts target [] = target
with_parts target (p ∷ ps) = target ++ (codes " (" ++ (join (codes ", ") (p ∷ ps) ++ codes ")"))

-- none is the nil configuration
unfoldable pub describe : Option Config → Str
describe none = codes "(unknown server)"
describe (some cfg) =
    with_parts (if cfg.port == 0 then cfg.host else cfg.host ++ (codes ":" ++ itoa cfg.port)) (
      part_if cfg.user (codes "user=" ++ cfg.user)
      ++ (part_if cfg.database (codes "database=" ++ cfg.database)
          ++ part_if cfg.password (codes "password=[redacted]")))

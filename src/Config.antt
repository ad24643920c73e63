-- ===== src/Config.antt =====
-- The settings of the program: src/config/env.validation.ts, which checks the environment when it
-- starts, and src/config/configuration.ts, which reads it. A text is the list of its character codes.
-- A value of the environment is a text or absent. What class-transformer makes of the text of a
-- number is the parameter `convert`.
pub mod Secrets
use gameclub_backend.Prelude.{
  ℕ, zero, suc, Option, none, some, Bool, true, false, not, ◌&&◌, ◌||◌, String, List, [], ◌∷◌, ◌++◌,
  length, leb, ltb, ◌==◌, if◌then◌else◌, codes, is_space,
}
use gameclub_backend.Prelude.Int.{ℤ, pos, leb_ℤ}
use gameclub_backend.Common.Errors.{Result, ok, throw, error, lit, Exception}
use gameclub_backend.Money.{JsNumber, integer, other}
use gameclub_backend.Money.Column.{parse_int, skip_spaces}

abbrev pub Text : Type 0
Text = List ℕ

-- `process.env`, as far as the program reads it.
pub record Environment : Type 0 where
  pub node_env : Option Text
  pub port : Option Text
  pub api_prefix : Option Text
  pub api_version : Option Text
  pub cors_origins : Option Text
  pub trust_proxy : Option Text
  pub db_host : Option Text
  pub db_port : Option Text
  pub db_username : Option Text
  pub db_password : Option Text
  pub db_database : Option Text
  pub db_synchronize : Option Text
  pub db_logging : Option Text
  pub jwt_access_secret : Option Text
  pub jwt_refresh_secret : Option Text
  pub jwt_access_ttl : Option Text
  pub jwt_refresh_ttl : Option Text
  pub jwt_refresh_ttl_ms : Option Text
  pub cookie_domain : Option Text
  pub cookie_secure : Option Text

unfoldable pub same_codes : Text → Text → Bool
same_codes [] [] = true
same_codes [] (d ∷ t) = false
same_codes (c ∷ s) [] = false
same_codes (c ∷ s) (d ∷ t) = (c == d) && same_codes s t

unfoldable pub starts_with : Text → Text → Bool
starts_with [] t = true
starts_with (p ∷ ps) [] = false
starts_with (p ∷ ps) (c ∷ t) = (p == c) && starts_with ps t

-- `t.includes(part)`.
unfoldable pub includes : Text → Text → Bool
unfolding starts_with
includes part [] = starts_with part []
includes part (c ∷ t) = starts_with part (c ∷ t) || includes part t

pub data NodeEnv : Type 0 where
  development production test : NodeEnv

-- `@IsEnum(NodeEnv) @IsOptional()`, with its default.
unfoldable pub read_node_env : Option Text → Option NodeEnv
unfolding same_codes
read_node_env none = some development
read_node_env (some t) =
    if same_codes t (codes "development")
    then some development
    else if same_codes t (codes "production")
    then some production
    else if same_codes t (codes "test")
    then some test
    else none

-- `@IsInt() @Min(1) @Max(65535)`.
unfoldable pub is_port : (Text → JsNumber) → Option Text → Bool
is_port convert none = false
is_port convert (some t) = elim (convert t) [
  | other ↦ false
  | integer n ↦ leb_ℤ (pos 1) n && leb_ℤ n (pos 65535)
]

abbrev pub is_given : Option Text → Bool
is_given none = false
is_given (some t) = true

-- `@IsString() @MinLength(16) @IsOptional()`.
abbrev pub is_secret : Option Text → Bool
is_secret none = true
is_secret (some t) = leb 16 (length t)

-- The rules of `EnvironmentVariables`.
unfoldable pub is_valid : (Text → JsNumber) → Environment → Bool
unfolding is_port
is_valid convert env =
    is_port convert env.port
    && is_given env.db_host
    && is_port convert env.db_port
    && is_given env.db_username
    && is_given env.db_password
    && is_given env.db_database
    && is_secret env.jwt_access_secret
    && is_secret env.jwt_refresh_secret

unfoldable pub weak : Option Text → Bool
unfolding includes
weak none = true
weak (some s) = ltb (length s) 32 || includes (codes "change-me") s || includes (codes "dev-") s

abbrev pub is_true : Option Text → Bool
is_true none = false
is_true (some t) = same_codes t (codes "true")

-- The details of class-validator are left out of the first message.
abbrev pub invalid_environment : Exception
invalid_environment = error (lit "Invalid environment configuration" ∷ [])

abbrev pub weak_access_secret : Exception
weak_access_secret =
    error (lit "JWT_ACCESS_SECRET must be a strong (>=32 char) secret in production" ∷ [])

abbrev pub weak_refresh_secret : Exception
weak_refresh_secret =
    error (lit "JWT_REFRESH_SECRET must be a strong (>=32 char) secret in production" ∷ [])

abbrev pub synchronize_on : Exception
synchronize_on =
    error (lit "DB_SYNCHRONIZE must be false in production; use migrations instead" ∷ [])

-- The rails of production.
unfoldable pub check_production : Environment → Result NodeEnv
unfolding weak same_codes
check_production env =
    if weak env.jwt_access_secret
    then throw weak_access_secret
    else if weak env.jwt_refresh_secret
    then throw weak_refresh_secret
    else if is_true env.db_synchronize
    then throw synchronize_on
    else ok production

-- `validateEnv`: of the validated values the program uses none further; `NODE_ENV` stands for them.
unfoldable pub validate_env : (Text → JsNumber) → Environment → Result NodeEnv
unfolding is_valid read_node_env check_production
validate_env convert env =
    if not (is_valid convert env)
    then throw invalid_environment
    else elim (read_node_env env.node_env) [
      | none ↦ throw invalid_environment
      | some production ↦ check_production env
      | some e ↦ ok e
    ]

abbrev pub or_default : Option Text → String → Text
or_default none d = codes d
or_default (some t) d = t

-- `databaseConfig`.
pub record DatabaseConfig : Type 0 where
  pub host : Text
  pub port : JsNumber
  pub username : Text
  pub password : Text
  pub database : Text
  pub synchronize : Bool
  pub logging : Bool

unfoldable pub database_config : Environment → DatabaseConfig
unfolding same_codes parse_int
database_config env = record {
  host = or_default env.db_host "localhost";
  port = parse_int (or_default env.db_port "5432");
  username = or_default env.db_username "postgres";
  password = or_default env.db_password "postgres";
  database = or_default env.db_database "gameclub";
  synchronize = is_true env.db_synchronize;
  logging = is_true env.db_logging;
}

-- `authConfig`.
pub record AuthConfiguration : Type 0 where
  pub access_secret : Text
  pub refresh_secret : Text
  pub access_ttl : Text
  pub refresh_ttl : Text
  pub refresh_ttl_ms : JsNumber
  pub cookie_domain : Option Text
  pub cookie_secure : Bool

unfoldable pub auth_config : Environment → AuthConfiguration
unfolding same_codes parse_int
auth_config env = record {
  access_secret = or_default env.jwt_access_secret "dev-access-secret-change-me";
  refresh_secret = or_default env.jwt_refresh_secret "dev-refresh-secret-change-me";
  access_ttl = or_default env.jwt_access_ttl "900s";
  refresh_ttl = or_default env.jwt_refresh_ttl "30d";
  refresh_ttl_ms = parse_int (or_default env.jwt_refresh_ttl_ms "2592000000");
  cookie_domain = env.cookie_domain;
  cookie_secure = is_true env.cookie_secure;
}

-- `text.split(',')`.
unfoldable pub split_commas : Text → List Text
split_commas [] = [] ∷ []
split_commas (c ∷ t) =
    let parts = split_commas t in
    if c == b',' then [] ∷ parts else (elim parts [ [] ↦ (c ∷ []) ∷ [] | (p ∷ ps) ↦ (c ∷ p) ∷ ps ])

unfoldable pub trim_end : Text → Text
trim_end [] = []
trim_end (c ∷ t) = elim (trim_end t) [
  | [] ↦ if is_space c then [] else c ∷ []
  | (d ∷ more) ↦ c ∷ d ∷ more
]

-- `.map((o) => o.trim()).filter(Boolean)`.
unfoldable pub trimmed : List Text → List Text
unfolding trim_end skip_spaces
trimmed [] = []
trimmed (t ∷ parts) =
    let rest = trimmed parts in
    elim (trim_end (skip_spaces t)) [ [] ↦ rest | (c ∷ more) ↦ (c ∷ more) ∷ rest ]

-- `appConfig`.
pub record AppConfig : Type 0 where
  pub env : Text
  pub port : JsNumber
  pub api_prefix : Text
  pub default_version : Text
  pub cors_origins : List Text
  pub trust_proxy : JsNumber

unfoldable pub app_config : Environment → AppConfig
unfolding split_commas trimmed parse_int
app_config env = record {
  env = or_default env.node_env "development";
  port = parse_int (or_default env.port "4040");
  api_prefix = or_default env.api_prefix "api";
  default_version = or_default env.api_version "1";
  cors_origins = trimmed (split_commas (or_default env.cors_origins "http://localhost:3000"));
  trust_proxy = parse_int (or_default env.trust_proxy "1");
}

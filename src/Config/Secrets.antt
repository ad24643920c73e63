-- ===== src/Config/Secrets.antt =====
-- What the program may rely on once the check of its environment has passed in production
-- (src/config/env.validation.ts and src/config/configuration.ts).
use gameclub_backend.Prelude.{◌≤◌, ◌≡◌, refl, Option, none, some, true, false, arith, length, codes}
use gameclub_backend.Common.Errors.{ok}
use gameclub_backend.Money.{JsNumber}
use gameclub_backend.Config.{
  Text, Environment, production, includes, is_port, is_valid, weak, is_true, check_production,
  validate_env, auth_config, database_config,
}

-- A secret that signs tokens in production.
abbrev pub IsStrong : Text → Type 0
IsStrong s =
    (32 ≤ length s) × (includes (codes "change-me") s ≡ false) × (includes (codes "dev-") s ≡ false)

weak-IsStrong :
    (secret : Option Text) → weak secret ≡ false → (s : Text) × (secret ≡ some s) × IsStrong s
unfolding weak
weak-IsStrong none h = absurd (ground arith)
weak-IsStrong (some s) h = (s, refl, ground arith)

check_production-rails :
    (env : Environment)
    → check_production env ≡ ok production
    → (weak env.jwt_access_secret ≡ false)
      × (weak env.jwt_refresh_secret ≡ false)
      × (is_true env.db_synchronize ≡ false)
unfolding check_production
check_production-rails env h = ground arith

validate_env-production :
    (convert : Text → JsNumber) (env : Environment)
    → validate_env convert env ≡ ok production
    → (is_valid convert env ≡ true) × (check_production env ≡ ok production)
unfolding validate_env
validate_env-production convert env h = ground arith

-- If the check of the environment passes as production, then the secrets that the program signs its
-- tokens with are those of the environment, never its defaults, have at least 32 characters and
-- contain neither `change-me` nor `dev-`; the schema is not synchronised; and the two ports are
-- ports.
pub validate_env-IsStrong :
    (convert : Text → JsNumber) (env : Environment)
    → validate_env convert env ≡ ok production
    → (env.jwt_access_secret ≡ some (auth_config env).access_secret)
      × IsStrong (auth_config env).access_secret
      × (env.jwt_refresh_secret ≡ some (auth_config env).refresh_secret)
      × IsStrong (auth_config env).refresh_secret
      × ((database_config env).synchronize ≡ false)
      × (is_port convert env.port ≡ true)
      × (is_port convert env.db_port ≡ true)
unfolding auth_config database_config is_valid
validate_env-IsStrong convert env h =
    let (valid, checked) = validate_env-production convert env h in
    let (access, refresh, off) = check_production-rails env checked in
    let (s, given, strong) = weak-IsStrong env.jwt_access_secret access in
    let (t, given', strong') = weak-IsStrong env.jwt_refresh_secret refresh in
    (
      rw given refl,
      rw given strong,
      rw given' refl,
      rw given' strong',
      off,
      ground arith,
      ground arith,
    )

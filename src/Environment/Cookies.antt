-- ===== src/Environment/Cookies.antt =====
-- FromEnv: what it takes to start, and to send cookies without Secure.
use nx_remote_cache.Base.{[], arith, bytes, false, some, text_eq, true, ◌≡◌, ◌⊎◌}
use nx_remote_cache.Environment.{Config, Environment, from_env}

module _ (e : Environment) where
  -- If FromEnv succeeds, the database URL and the encryption key are those of the environment and
  -- not empty, and cookies lack Secure only if COOKIE_SECURE is set to what parses as false.
  pub from_env-ok :
      (cfg : Config)
      → from_env e ≡ some cfg
      → (cfg.database_url ≡ e.getenv (bytes "DATABASE_URL"))
        × (text_eq cfg.database_url [] ≡ false)
        × (cfg.settings_encryption_key ≡ e.getenv (bytes "SETTINGS_ENCRYPTION_KEY"))
        × (text_eq cfg.settings_encryption_key [] ≡ false)
        × ((cfg.cookie_secure ≡ true)
            ⊎ (e.parse_bool (e.getenv (bytes "COOKIE_SECURE")) ≡ some false))
  unfolding from_env
  from_env-ok cfg ready = ground arith

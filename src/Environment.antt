-- ===== src/Environment.antt =====
-- internal/config/config.go. The environment, strconv.ParseBool and time.ParseDuration are
-- parameters; a variable that is not set is empty, as os.Getenv gives it.
pub mod Cookies
use nx_remote_cache.Base.{
  Bool, Option, Text, [], bytes, if◌then◌else◌, none, pos, some, text_eq, true, ℤ, ◌++◌, ◌||◌,
}

-- Durations are nanoseconds.
pub record Config : Type 0 where
  pub addr : Text
  pub database_url : Text
  pub settings_encryption_key : Text
  pub cookie_secure : Bool
  pub admin_bootstrap_email : Text
  pub admin_bootstrap_password : Text
  pub read_timeout : ℤ
  pub write_timeout : ℤ
  pub shutdown_grace : ℤ

-- A parse is none for an error.
pub record Environment : Type 0 where
  pub getenv : Text → Text
  pub parse_bool : Text → Option Bool
  pub parse_duration : Text → Option ℤ

abbrev pub parsed_or : {A : Type 0} → Option A → A → A
parsed_or none fallback = fallback
parsed_or (some a) fallback = a

module _ (e : Environment) where
  unfoldable pub get_env : Text → Text → Text
  get_env key fallback = if text_eq (e.getenv key) [] then fallback else e.getenv key

  unfoldable pub get_env_bool : Text → Bool → Bool
  get_env_bool key fallback =
      if text_eq (e.getenv key) []
      then fallback
      else parsed_or (e.parse_bool (e.getenv key)) fallback

  unfoldable pub get_env_duration : Text → ℤ → ℤ
  get_env_duration key fallback =
      if text_eq (e.getenv key) []
      then fallback
      else parsed_or (e.parse_duration (e.getenv key)) fallback

  -- The result is none for an error.
  unfoldable pub from_env : Option Config
  unfolding get_env get_env_bool get_env_duration
  from_env =
      let cfg : Config = record {
        addr = get_env (bytes "PORT_ADDR") (bytes ":" ++ get_env (bytes "PORT") (bytes "3000"));
        database_url = e.getenv (bytes "DATABASE_URL");
        settings_encryption_key = e.getenv (bytes "SETTINGS_ENCRYPTION_KEY");
        cookie_secure = get_env_bool (bytes "COOKIE_SECURE") true;
        admin_bootstrap_email = e.getenv (bytes "ADMIN_BOOTSTRAP_EMAIL");
        admin_bootstrap_password = e.getenv (bytes "ADMIN_BOOTSTRAP_PASSWORD");
        read_timeout = get_env_duration (bytes "READ_TIMEOUT") (pos 30000000000);
        write_timeout = get_env_duration (bytes "WRITE_TIMEOUT") (pos 60000000000);
        shutdown_grace = get_env_duration (bytes "SHUTDOWN_GRACE") (pos 15000000000);
      } in
      if text_eq cfg.database_url [] || text_eq cfg.settings_encryption_key []
      then none
      else some cfg

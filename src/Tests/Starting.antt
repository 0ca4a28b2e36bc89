-- ===== src/Tests/Starting.antt =====
-- The start of the program on concrete inputs.
use nx_remote_cache.Base.{
  Text, [], bytes, false, if◌then◌else◌, leb, length, none, ok, pos, refl, some, text_eq,
  trim_prefix, true, ◌<◌, ◌≡◌,
}
use nx_remote_cache.Store.{Db}
use nx_remote_cache.Store.Users.{count_users, create_user}
use nx_remote_cache.Session.{hash_password}
use nx_remote_cache.Environment.{Config, Environment, from_env}
use nx_remote_cache.Start.{Attempts, wait_for_db, bootstrap_admin}
use nx_remote_cache.Start.Run.{Surroundings, run, run_healthcheck, run-listens}
use nx_remote_cache.Storage.Disk.{Disk}
use nx_remote_cache.Storage.Local.{new_local}
use nx_remote_cache.Store.AppSettings.{get_settings}
use nx_remote_cache.Settings.{Settings}
use nx_remote_cache.Settings.Crypto.{Cipher, encryptor_key}
use nx_remote_cache.Settings.Storage.{decrypt_row, decrypt_secret}
use nx_remote_cache.Settings.Manager.{Builders, build_backend, load, install}
use nx_remote_cache.Database.{migrate_url}
use nx_remote_cache.Admin.Spa.{asset_path}
use nx_remote_cache.World.{World}
use nx_remote_cache.Tests.{plain, db, disk, world}

-- The database is ready from the third attempt on.
abbrev third : Attempts
third = record { migrate = λ k. leb 3 k; is_done = λ k. false }

waited : wait_for_db third ≡ ok tt
unfolding wait_for_db
waited = refl

abbrev fresh : Db
fresh = record db { users = [] }

-- Every variable is "x", which is no Boolean and no duration.
abbrev surroundings : Environment
surroundings = record {
  getenv = λ key. bytes "x";
  parse_bool = λ s. none;
  parse_duration = λ s. none;
}

abbrev configured : Config
configured = record {
  addr = bytes "x";
  database_url = bytes "x";
  settings_encryption_key = bytes "x";
  cookie_secure = true;
  admin_bootstrap_email = bytes "x";
  admin_bootstrap_password = bytes "x";
  read_timeout = pos 30000000000;
  write_timeout = pos 60000000000;
  shutdown_grace = pos 15000000000;
}

abbrev clear : Cipher
clear = record {
  nonce_size = 0;
  seal = λ nonce s. s;
  open_sealed = λ nonce s. some s;
  encode = λ s. s;
  decode = λ s. some s;
}

abbrev builders : Builders Disk
builders = record {
  new_local = new_local (λ dir d. (true, d));
  new_s3 = λ bucket region prefix endpoint path_style id secret d. (none, d);
  new_gcs = λ bucket prefix credentials d. (none, d);
}

abbrev pub outside : Surroundings
outside = record {
  environment = surroundings;
  decode = λ s. some (bytes "0123456789abcdef0123456789abcdef");
  cipher = λ key. clear;
  attempts = third;
  connects = true;
  has_assets = true;
  salt = 0;
}

abbrev first_run : World Disk
first_run = record world { db = fresh }

run-listens_example :
    (0 < length (run plain outside builders first_run).1.db.users)
    × (key : Text) × (s : Settings) × (encryptor_key outside.decode (bytes "x") ≡ some key)
    × (decrypt_row (outside.cipher key) fresh.settings ≡ some s)
    × ((build_backend (outside.cipher key) builders s disk).0
        ≡ some (run plain outside builders first_run).1.backend)
    × ((run plain outside builders first_run).1.session_ttl ≡ s.session_ttl)
    × ((run plain outside builders first_run).1.max_entry_bytes ≡ s.max_cache_entry_bytes)
unfolding run from_env encryptor_key wait_for_db bootstrap_admin count_users create_user
    hash_password text_eq load get_settings decrypt_row build_backend install new_local
    decrypt_secret
run-listens_example = run-listens plain outside builders first_run refl refl refl

healthy :
    run_healthcheck
      (λ key. [])
      (λ url. if text_eq url (bytes "http://localhost:3000/health") then some 200 else none)
    ≡ 0
unfolding run_healthcheck text_eq
healthy = refl

migrated : migrate_url (bytes "postgres://u@h/d") ≡ bytes "pgx5://u@h/d"
unfolding migrate_url trim_prefix
migrated = refl

assets_paths :
    (asset_path (bytes "/admin/") ≡ bytes "index.html")
    × (asset_path (bytes "/admin/assets/a.js") ≡ bytes "assets/a.js")
unfolding asset_path trim_prefix text_eq
assets_paths = (refl, refl)

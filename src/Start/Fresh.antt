-- ===== src/Start/Fresh.antt =====
-- The database as the migrations of internal/db/migrations leave it, and what the start of the
-- program does to it.
use nx_remote_cache.Base.{
  Bool-cases, Option-cases, Result-cases, Text, [], arith, bytes, false, inl, inr, none, pos, refl,
  ℕ, ℤ, ◌&&◌,
}
use nx_remote_cache.Primitives.{Primitives}
use nx_remote_cache.Store.{SettingsRow, StorageBackendType, Db, Fate}
use nx_remote_cache.Store.Users.{count_users}
use nx_remote_cache.Store.AppSettings.{get_settings}
use nx_remote_cache.Store.Queries.{Query}
use nx_remote_cache.Store.Queries as Queries
use nx_remote_cache.Store.Consistency.{IsConsistent}
use nx_remote_cache.Session.{hash_password}
use nx_remote_cache.Settings.Crypto.{Cipher, encryptor_key}
use nx_remote_cache.Settings.Storage.{decrypt_row}
use nx_remote_cache.Settings.Manager.{Builders, load, install, build_backend}
use nx_remote_cache.Environment.{Config, from_env}
use nx_remote_cache.World.{World}
use nx_remote_cache.Start.{insert_admin, bootstrap_admin, wait_for_db}
use nx_remote_cache.Start.Run.{Surroundings, run_connected, run}

-- INSERT INTO app_settings (id) VALUES (true), with the defaults of the columns.
abbrev default_row : ℤ → SettingsRow
default_row time = record {
  storage_backend = StorageBackendType.local;
  local_dir = bytes "./data";
  s3_bucket = [];
  s3_region = [];
  s3_prefix = [];
  s3_endpoint = [];
  s3_use_path_style = false;
  s3_access_key_id_enc = none;
  s3_secret_access_key_enc = none;
  gcs_bucket = [];
  gcs_prefix = [];
  gcs_credentials_json_enc = none;
  session_ttl_seconds = pos 86400;
  max_cache_entry_bytes = pos 524288000;
  updated_at = time;
  updated_by = none;
}

-- Empty tables but for the settings, which were inserted at `time`; the sequences start at 1.
unfoldable pub migrated : ℤ → (ℕ → Fate) → (ℕ → ℤ) → Db
migrated time fate clock = record {
  users = [];
  sessions = [];
  tokens = [];
  reads = [];
  settings = default_row time;
  next_user = 1;
  next_token = 1;
  fate = fate;
  clock = clock;
  tick = 0;
}

pub migrated-IsConsistent :
    (time : ℤ) (fate : ℕ → Fate) (clock : ℕ → ℤ) → IsConsistent (migrated time fate clock)
unfolding migrated
migrated-IsConsistent time fate clock = record {
  users = record { emails = tt; ids = tt; drawn = refl };
  sessions = record { keys = tt; owners = refl };
  tokens = record { hashes = tt; ids = tt; drawn = refl; creators = refl };
  reads = tt;
  settings = record { backend = refl; ttl = refl; updater = refl };
}

-- What every statement keeps, the start of the program keeps.
module _ (P : Db → Type 0) (closed : (q : Query) (d : Db) → P d → P (Queries.run q d))
    (p : Primitives) where
  keep-bootstrap_admin :
      (salt : ℕ) (email password : Text) (d : Db)
      → P d
      → P (bootstrap_admin p salt email password d).1
  unfolding Queries.run bootstrap_admin insert_admin
  keep-bootstrap_admin salt email password d k =
      let k' = closed Query.counting_users d k in
      elim (Option-cases (hash_password p salt password)) [
        | inl bad ↦ ground (arith, k')
        | inr (hash, e) ↦
            ground (arith, k', closed (Query.creating_user email hash) (count_users d).1 k')
      ]

  keep-load :
      {S : Type 0} (c : Cipher) (builders : Builders S) (w : World S)
      → P w.db
      → P (load c builders w).1.db
  unfolding Queries.run load install
  keep-load c builders w k =
      let k' = closed Query.getting_settings w.db k in
      elim (Result-cases (get_settings w.db).0) [
        | inr (x, e) ↦ rw (e, load) k'
        | inl (row, e) ↦ elim (Option-cases (decrypt_row c row)) [
          | inl bad ↦ rw (e, bad, load) k'
          | inr (s, f) ↦ elim (Option-cases (build_backend c builders s w.storage).0) [
            | inl fails ↦ rw (e, f, fails, load) k'
            | inr (b, built) ↦ rw (e, f, built, load) k'
          ]
        ]
      ]

  keep-run_connected :
      {S : Type 0} (o : Surroundings) (builders : Builders S) (cfg : Config) (key : Text)
      (w : World S)
      → P w.db
      → P (run_connected p o builders cfg key w).1.db
  unfolding run_connected
  keep-run_connected o builders cfg key w k =
      let email = cfg.admin_bootstrap_email in
      let made = bootstrap_admin p o.salt email cfg.admin_bootstrap_password w.db in
      let k' = keep-bootstrap_admin o.salt email cfg.admin_bootstrap_password w.db k in
      let w' = record w { db = made.1; session_ttl = pos 0; max_entry_bytes = pos 0 } in
      elim (Bool-cases (made.0 && o.has_assets)) [
        | inl fine ↦ rw (fine, run_connected) (keep-load (o.cipher key) builders w' k')
        | inr bad ↦ rw (bad, run_connected) k'
      ]

  pub keep-start :
      {S : Type 0} (o : Surroundings) (builders : Builders S) (w : World S)
      → P w.db
      → P (run p o builders w).1.db
  unfolding run
  keep-start o builders w k = elim (Option-cases (from_env o.environment)) [
    | inl bad ↦ rw (bad, run) k
    | inr (cfg, e) ↦ elim (Option-cases (encryptor_key o.decode cfg.settings_encryption_key)) [
      | inl bad ↦ rw (e, bad, run) k
      | inr (key, f) ↦ elim (Result-cases (wait_for_db o.attempts)) [
        | inr (x, bad) ↦ rw (e, f, bad, run) k
        | inl (done, up) ↦ elim (Bool-cases o.connects) [
          | inl there ↦ rw (e, f, up, there, run) (keep-run_connected o builders cfg key w k)
          | inr gone ↦ rw (e, f, up, gone, run) k
        ]
      ]
    ]
  ]

-- ===== src/Settings/Manager.antt =====
-- Manager of internal/settings/settings.go. What NewLocal, NewS3 and NewGCS give is a parameter:
-- none stands for an error.
use nx_remote_cache.Base.{
  Bool, Option, Result, Text, [], err, false, if◌then◌else◌, ltb_ℤ, none, not, ok, pos, some,
  text_eq, true, ℕ, ℤ, ◌&&◌, ◌∷◌,
}
use nx_remote_cache.Storage.{Backend}
use nx_remote_cache.Store.{StorageBackendType}
use nx_remote_cache.Store.AppSettings.{get_settings, update_settings}
use nx_remote_cache.Settings.{Settings, redacted}
use nx_remote_cache.Settings.Crypto.{Cipher}
use nx_remote_cache.Settings.Storage.{encrypt_for_storage, decrypt_row}
use nx_remote_cache.World.{World, swap}
use nx_remote_cache.Server.{set_max_entry_bytes}

-- ErrInvalidSettings, and any other error.
pub data ApplyError : Type 0 where
  invalid_settings failure : ApplyError

-- A secret is none for "leave unchanged", and empty for "clear".
pub record ApplyInput : Type 0 where
  pub storage_backend : StorageBackendType
  pub local_dir : Text
  pub s3_bucket : Text
  pub s3_region : Text
  pub s3_prefix : Text
  pub s3_endpoint : Text
  pub s3_use_path_style : Bool
  pub s3_access_key_id : Option Text
  pub s3_secret_access_key : Option Text
  pub gcs_bucket : Text
  pub gcs_prefix : Text
  pub gcs_credentials_json : Option Text
  pub session_ttl : ℤ
  pub max_cache_entry_bytes : ℤ
  pub updated_by : ℤ

abbrev pub secret_or : Option Text → Text → Text
secret_or none old = old
secret_or (some new) old = new

abbrev pub set_or : Option Text → Bool → Bool
set_or none old = old
set_or (some []) old = false
set_or (some (_ ∷ _)) old = true

-- The settings that Apply goes for.
unfoldable pub merge : Settings → ApplyInput → Settings
merge s i = record {
  storage_backend = i.storage_backend;
  local_dir = i.local_dir;
  s3_bucket = i.s3_bucket;
  s3_region = i.s3_region;
  s3_prefix = i.s3_prefix;
  s3_endpoint = i.s3_endpoint;
  s3_use_path_style = i.s3_use_path_style;
  s3_access_key_id = secret_or i.s3_access_key_id s.s3_access_key_id;
  s3_access_key_id_set = set_or i.s3_access_key_id s.s3_access_key_id_set;
  s3_secret_access_key = secret_or i.s3_secret_access_key s.s3_secret_access_key;
  s3_secret_access_key_set = set_or i.s3_secret_access_key s.s3_secret_access_key_set;
  gcs_bucket = i.gcs_bucket;
  gcs_prefix = i.gcs_prefix;
  gcs_credentials_json = secret_or i.gcs_credentials_json s.gcs_credentials_json;
  gcs_credentials_json_set = set_or i.gcs_credentials_json s.gcs_credentials_json_set;
  session_ttl = i.session_ttl;
  max_cache_entry_bytes = i.max_cache_entry_bytes;
  updated_at = s.updated_at;
  updated_by = s.updated_by;
}

-- The name that the chosen backend needs is there.
abbrev pub has_place : Settings → Bool
has_place s = elim s.storage_backend [
  | StorageBackendType.local ↦ not (text_eq s.local_dir [])
  | StorageBackendType.s3 ↦ not (text_eq s.s3_bucket [])
  | StorageBackendType.gcs ↦ not (text_eq s.gcs_bucket [])
  | StorageBackendType.unknown _ ↦ false
]

-- Whether `validate` returns nil.
unfoldable pub validate : Settings → Bool
validate s = has_place s && ltb_ℤ (pos 0) s.session_ttl && ltb_ℤ (pos 0) s.max_cache_entry_bytes

pub record Builders (S : Type 0) : Type 0 where
  pub new_local : Text → S → Option (Backend S) × S
  pub new_s3 : Text → Text → Text → Text → Bool → Text → Text → S → Option (Backend S) × S
  pub new_gcs : Text → Text → Option Text → S → Option (Backend S) × S

abbrev pub credentials : Text → Option Text
credentials [] = none
credentials (x ∷ xs) = some (x ∷ xs)

module _ (c : Cipher) {S : Type 0} (builders : Builders S) where
  unfoldable pub build_backend : Settings → S → Option (Backend S) × S
  build_backend s = elim s.storage_backend [
    | StorageBackendType.s3 ↦
        builders.new_s3 s.s3_bucket s.s3_region s.s3_prefix s.s3_endpoint s.s3_use_path_style
          s.s3_access_key_id s.s3_secret_access_key
    | StorageBackendType.gcs ↦
        builders.new_gcs s.gcs_bucket s.gcs_prefix (credentials s.gcs_credentials_json)
    | _ ↦ builders.new_local s.local_dir
  ]

  -- The backend, the session lifetime, the size limit and the settings, all at once.
  unfoldable pub install : Backend S → Settings → World S → World S
  unfolding swap set_max_entry_bytes
  install b s w = record (set_max_entry_bytes s.max_cache_entry_bytes (swap b w)) {
    session_ttl = s.session_ttl;
    settings = s;
  }

  -- Load, which is true if it succeeds.
  unfoldable pub load : World S → Bool × World S
  unfolding install
  load w =
      let (raw, db') = get_settings w.db in
      let w₁ = record w { db = db' } in
      elim raw [
        | err _ ↦ (false, w₁)
        | ok row ↦ elim (decrypt_row c row) [
          | none ↦ (false, w₁)
          | some s ↦
              let (built, storage') = build_backend s w₁.storage in
              let w₂ = record w₁ { storage = storage' } in
              elim built [ none ↦ (false, w₂) | some b ↦ (true, install b s w₂) ]
        ]
      ]

  -- From encryption on: persist, then install.
  unfoldable pub persist :
      (ℕ → Option Text)
      → ℤ
      → ApplyInput
      → Settings
      → Backend S
      → World S
      → Result ApplyError Settings × World S
  unfolding install
  persist nonce time i next b w = elim (encrypt_for_storage c nonce next) [
    | none ↦ (err failure, w)
    | some row ↦
        let (stored, db') = update_settings row i.updated_by w.db in
        let w' = record w { db = db' } in
        let final = record next { updated_at = time } in
        elim stored [ err _ ↦ (err failure, w') | ok _ ↦ (ok (redacted final), install b final w') ]
  ]

  -- The connectivity check.
  unfoldable pub try_backend :
      (ℕ → Option Text)
      → ℤ
      → ApplyInput
      → Settings
      → Backend S
      → World S
      → Result ApplyError Settings × World S
  unfolding persist
  try_backend nonce time i next b w =
      let (listed, storage') = b.list [] (pos 1) w.storage in
      let w' = record w { storage = storage' } in
      elim listed [ err _ ↦ (err invalid_settings, w') | ok _ ↦ persist nonce time i next b w' ]

  -- Apply at the time `time`.
  unfoldable pub apply :
      (ℕ → Option Text) → ℤ → ApplyInput → World S → Result ApplyError Settings × World S
  unfolding try_backend persist install
  apply nonce time i w =
      let next = merge w.settings i in
      let (built, storage') = build_backend next w.storage in
      let w' = record w { storage = storage' } in
      if not (validate next) then (err invalid_settings, w) else elim built [
        | none ↦ (err invalid_settings, w')
        | some b ↦ try_backend nonce time i next b w'
      ]

-- Current.
unfoldable pub current : {S : Type 0} → World S → Settings
unfolding redacted
current w = redacted w.settings

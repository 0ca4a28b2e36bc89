-- ===== src/Settings.antt =====
-- internal/settings/settings.go: the settings in memory.
pub mod Crypto
pub mod Storage
pub mod Manager
pub mod RoundTrip
pub mod Seconds
pub mod Apply
use nx_remote_cache.Base.{Bool, Option, Text, [], ℤ}
use nx_remote_cache.Store.{StorageBackendType}

-- Secrets stand here in plaintext. Durations are nanoseconds.
pub record Settings : Type 0 where
  pub storage_backend : StorageBackendType
  pub local_dir : Text
  pub s3_bucket : Text
  pub s3_region : Text
  pub s3_prefix : Text
  pub s3_endpoint : Text
  pub s3_use_path_style : Bool
  pub s3_access_key_id : Text
  pub s3_access_key_id_set : Bool
  pub s3_secret_access_key : Text
  pub s3_secret_access_key_set : Bool
  pub gcs_bucket : Text
  pub gcs_prefix : Text
  pub gcs_credentials_json : Text
  pub gcs_credentials_json_set : Bool
  pub session_ttl : ℤ
  pub max_cache_entry_bytes : ℤ
  pub updated_at : ℤ
  pub updated_by : Option ℤ

-- What the admin API may see.
unfoldable pub redacted : Settings → Settings
redacted s = record s {
  s3_access_key_id = [];
  s3_secret_access_key = [];
  gcs_credentials_json = [];
}

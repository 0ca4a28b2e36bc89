-- ===== src/Admin/Config.antt =====
-- internal/adminapi/settings_handlers.go.
pub mod RoundTrip
use nx_remote_cache.Base.{Bool, Option, Text, err, none, ok, some, ℕ, ℤ}
use nx_remote_cache.Store.{User, StorageBackendType}
use nx_remote_cache.Settings.{Settings}
use nx_remote_cache.Settings.Crypto.{Cipher}
use nx_remote_cache.Settings.Storage.{from_seconds, to_seconds}
use nx_remote_cache.Settings.Manager.{
  ApplyInput, ApplyError, invalid_settings, Builders, apply, current,
}
use nx_remote_cache.World.{World}
use nx_remote_cache.Admin.{Answer, write_json, write_error, internal_error}

pub record SettingsResponse : Type 0 where
  pub storage_backend : StorageBackendType
  pub local_dir : Text
  pub s3_bucket : Text
  pub s3_region : Text
  pub s3_prefix : Text
  pub s3_endpoint : Text
  pub s3_use_path_style : Bool
  pub s3_access_key_id_set : Bool
  pub s3_secret_access_key_set : Bool
  pub gcs_bucket : Text
  pub gcs_prefix : Text
  pub gcs_credentials_set : Bool
  pub session_ttl_seconds : ℤ
  pub max_cache_entry_bytes : ℤ
  pub updated_at : ℤ

abbrev pub settings_dto : Settings → SettingsResponse
settings_dto s = record {
  storage_backend = s.storage_backend;
  local_dir = s.local_dir;
  s3_bucket = s.s3_bucket;
  s3_region = s.s3_region;
  s3_prefix = s.s3_prefix;
  s3_endpoint = s.s3_endpoint;
  s3_use_path_style = s.s3_use_path_style;
  s3_access_key_id_set = s.s3_access_key_id_set;
  s3_secret_access_key_set = s.s3_secret_access_key_set;
  gcs_bucket = s.gcs_bucket;
  gcs_prefix = s.gcs_prefix;
  gcs_credentials_set = s.gcs_credentials_json_set;
  session_ttl_seconds = to_seconds s.session_ttl;
  max_cache_entry_bytes = s.max_cache_entry_bytes;
  updated_at = s.updated_at;
}

-- A secret is none for null, and the backend's name is already a StorageBackendType.
pub record UpdateSettingsRequest : Type 0 where
  pub storage_backend : StorageBackendType
  pub local_dir : Text
  pub s3_bucket : Text
  pub s3_region : Text
  pub s3_prefix : Text
  pub s3_endpoint : Text
  pub s3_use_path_style : Bool
  pub s3_access_key_id : Option Text
  pub s3_secret_access_key : Option Text
  pub gcs_bucket : Text
  pub gcs_prefix : Text
  pub gcs_credentials_json : Option Text
  pub session_ttl_seconds : ℤ
  pub max_cache_entry_bytes : ℤ

-- The argument of Apply.
unfoldable pub apply_input : UpdateSettingsRequest → User → ApplyInput
apply_input req user = record {
  storage_backend = req.storage_backend;
  local_dir = req.local_dir;
  s3_bucket = req.s3_bucket;
  s3_region = req.s3_region;
  s3_prefix = req.s3_prefix;
  s3_endpoint = req.s3_endpoint;
  s3_use_path_style = req.s3_use_path_style;
  s3_access_key_id = req.s3_access_key_id;
  s3_secret_access_key = req.s3_secret_access_key;
  gcs_bucket = req.gcs_bucket;
  gcs_prefix = req.gcs_prefix;
  gcs_credentials_json = req.gcs_credentials_json;
  session_ttl = from_seconds req.session_ttl_seconds;
  max_cache_entry_bytes = req.max_cache_entry_bytes;
  updated_by = user.id;
}

unfoldable pub handle_get_settings :
    {S : Type 0} → User → World S → Answer SettingsResponse × World S
handle_get_settings user w = (write_json 200 (settings_dto (current w)), w)

module _ (c : Cipher) {S : Type 0} (builders : Builders S) (nonce : ℕ → Option Text)
    (time : ℤ) where
  -- The message of a 400 is err.Error().
  unfoldable pub handle_update_settings :
      Option UpdateSettingsRequest → User → World S → Answer SettingsResponse × World S
  handle_update_settings none user w = (write_error 400 "invalid request body", w)
  handle_update_settings (some req) user w =
      let (res, w') = apply c builders nonce time (apply_input req user) w in
      elim res [
        | ok applied ↦ (write_json 200 (settings_dto applied), w')
        | err invalid_settings ↦ (write_error 400 "invalid settings", w')
        | err _ ↦ (internal_error, w')
      ]

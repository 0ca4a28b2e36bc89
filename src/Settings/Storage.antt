-- ===== src/Settings/Storage.antt =====
-- encryptForStorage and decrypt of internal/settings/settings.go. The three secrets are encrypted
-- under the nonces `nonce 0`, `nonce 1` and `nonce 2`.
use nx_remote_cache.Base.{
  Bool, Option, Text, [], false, negsuc, none, pos, some, sub_ℕ, suc, true, wrap64, ℕ, ℤ, ◌*ℤ◌, ◌/◌,
  ◌∷◌,
}
use nx_remote_cache.Store.{SettingsRow}
use nx_remote_cache.Settings.{Settings}
use nx_remote_cache.Settings.Crypto.{Cipher, encrypt, decrypt}

-- time.Second.
abbrev pub second : ℕ
second = 1000000000

-- d / time.Second, cut toward zero.
abbrev pub to_seconds : ℤ → ℤ
to_seconds (pos n) = pos (n / second)
to_seconds (negsuc n) = sub_ℕ 0 (suc n / second)

-- time.Duration(n) * time.Second, in an int64.
unfoldable pub from_seconds : ℤ → ℤ
from_seconds n = wrap64 (n *ℤ pos second)

module _ (c : Cipher) where
  -- An empty secret is stored as NULL; the outer none is an error.
  unfoldable pub encrypt_secret : Option Text → Text → Option (Option Text)
  encrypt_secret drawn [] = some none
  encrypt_secret drawn (x ∷ xs) = elim (encrypt c drawn (x ∷ xs)) [
    | none ↦ none
    | some blob ↦ some (some blob)
  ]

  -- The secret and its flag.
  unfoldable pub decrypt_secret : Option Text → Option (Text × Bool)
  decrypt_secret none = some ([], false)
  decrypt_secret (some blob) = elim (decrypt c blob) [ none ↦ none | some s ↦ some (s, true) ]

  -- updated_at and updated_by are set by UpdateSettings.
  abbrev pub row_of : Settings → Option Text → Option Text → Option Text → SettingsRow
  row_of s id secret json = record {
    storage_backend = s.storage_backend;
    local_dir = s.local_dir;
    s3_bucket = s.s3_bucket;
    s3_region = s.s3_region;
    s3_prefix = s.s3_prefix;
    s3_endpoint = s.s3_endpoint;
    s3_use_path_style = s.s3_use_path_style;
    s3_access_key_id_enc = id;
    s3_secret_access_key_enc = secret;
    gcs_bucket = s.gcs_bucket;
    gcs_prefix = s.gcs_prefix;
    gcs_credentials_json_enc = json;
    session_ttl_seconds = to_seconds s.session_ttl;
    max_cache_entry_bytes = s.max_cache_entry_bytes;
    updated_at = pos 0;
    updated_by = none;
  }

  infixl 5 ◌>>=◌
  abbrev ◌>>=◌ : {A B : Type 0} → Option A → (A → Option B) → Option B
  none >>= f = none
  some a >>= f = f a

  unfoldable pub encrypt_for_storage : (ℕ → Option Text) → Settings → Option SettingsRow
  encrypt_for_storage nonce s = do
    id ← encrypt_secret (nonce 0) s.s3_access_key_id
    secret ← encrypt_secret (nonce 1) s.s3_secret_access_key
    json ← encrypt_secret (nonce 2) s.gcs_credentials_json
    some (row_of s id secret json)

  abbrev pub settings_of : SettingsRow → Text × Bool → Text × Bool → Text × Bool → Settings
  settings_of raw id secret json = record {
    storage_backend = raw.storage_backend;
    local_dir = raw.local_dir;
    s3_bucket = raw.s3_bucket;
    s3_region = raw.s3_region;
    s3_prefix = raw.s3_prefix;
    s3_endpoint = raw.s3_endpoint;
    s3_use_path_style = raw.s3_use_path_style;
    s3_access_key_id = id.0;
    s3_access_key_id_set = id.1;
    s3_secret_access_key = secret.0;
    s3_secret_access_key_set = secret.1;
    gcs_bucket = raw.gcs_bucket;
    gcs_prefix = raw.gcs_prefix;
    gcs_credentials_json = json.0;
    gcs_credentials_json_set = json.1;
    session_ttl = from_seconds raw.session_ttl_seconds;
    max_cache_entry_bytes = raw.max_cache_entry_bytes;
    updated_at = raw.updated_at;
    updated_by = raw.updated_by;
  }

  unfoldable pub decrypt_row : SettingsRow → Option Settings
  decrypt_row raw = do
    id ← decrypt_secret raw.s3_access_key_id_enc
    secret ← decrypt_secret raw.s3_secret_access_key_enc
    json ← decrypt_secret raw.gcs_credentials_json_enc
    some (settings_of raw id secret json)

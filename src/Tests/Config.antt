-- ===== src/Tests/Config.antt =====
-- Settings on concrete inputs.
use nx_remote_cache.Base.{
  Result, Text, [], arith, bytes, false, ltb_ℤ, none, pos, refl, some, text_eq, true, ℕ, ◌*◌, ◌-◌,
  ◌^◌, ◌∷◌, ◌≡◌, ◌≢◌, ◌⊎◌,
}
use nx_remote_cache.Storage.{Backend}
use nx_remote_cache.Storage.Disk.{Disk, stat, read_dir}
use nx_remote_cache.Storage.Local
use nx_remote_cache.Storage.Local.{local}
use nx_remote_cache.Store.{SettingsRow, StorageBackendType}
use nx_remote_cache.Store.AppSettings.{update_settings}
use nx_remote_cache.Settings.{Settings, redacted}
use nx_remote_cache.Settings.Crypto.{Cipher, IsCipher, encrypt}
use nx_remote_cache.Settings.Storage.{encrypt_secret, encrypt_for_storage, decrypt_row}
use nx_remote_cache.Settings.Manager.{
  ApplyError, invalid_settings, ApplyInput, merge, validate, Builders, build_backend, apply,
  current,
}
use nx_remote_cache.Settings.RoundTrip.{decrypt_row-encrypt_for_storage, IsStorable, unstamped}
use nx_remote_cache.Settings.Apply.{SameInstalled, InForce, apply-err, apply-ok}
use nx_remote_cache.Settings.Storage.{from_seconds}
use nx_remote_cache.Admin.{Answer}
use nx_remote_cache.Admin.Config.{
  SettingsResponse, UpdateSettingsRequest, handle_get_settings, handle_update_settings,
}
use nx_remote_cache.Admin.Config.RoundTrip.{handle_update_settings-effect}
use nx_remote_cache.Settings.Seconds.{Lifetime, from_seconds_overflow}
use nx_remote_cache.World.{World}
use nx_remote_cache.Tests.{ann, disk, row, settings, world}

-- A cipher that hides nothing.
abbrev pub cipher : Cipher
cipher = record {
  nonce_size = 2;
  seal = λ nonce s. s;
  open_sealed = λ nonce s. some s;
  encode = λ s. s;
  decode = λ s. some s;
}

cipher-IsCipher : IsCipher cipher
cipher-IsCipher = record { opens = λ nonce s. refl; decodes = λ s. refl }

abbrev nonces : ℕ → Text
nonces n = 1 ∷ 2 ∷ []

settings-IsStorable : IsStorable settings
unfolding text_eq
settings-IsStorable = record {
  seconds = 3600;
  whole = refl;
  small = omega arith;
  id = refl;
  secret = refl;
  json = refl;
}

abbrev pub builders : Builders Disk
builders = record {
  new_local = λ dir d. (some local, d);
  new_s3 = λ bucket region prefix endpoint path_style id secret d. (none, d);
  new_gcs = λ bucket prefix credentials d. (none, d);
}

abbrev input : ApplyInput
input = record {
  storage_backend = StorageBackendType.local;
  local_dir = bytes "/cache";
  s3_bucket = [];
  s3_region = [];
  s3_prefix = [];
  s3_endpoint = [];
  s3_use_path_style = false;
  s3_access_key_id = some (bytes "key");
  s3_secret_access_key = none;
  gcs_bucket = [];
  gcs_prefix = [];
  gcs_credentials_json = none;
  session_ttl = pos 7200000000000;
  max_cache_entry_bytes = pos 20;
  updated_by = pos 1;
}

abbrev applied : Result ApplyError Settings × World Disk
applied = apply cipher builders (λ n. some (nonces n)) (pos 9) input world

abbrev bad : ApplyInput
bad = record input { max_cache_entry_bytes = pos 0 }

abbrev refused : Result ApplyError Settings × World Disk
refused = apply cipher builders (λ n. some (nonces n)) (pos 9) bad world

program : Unit {0}
unfolding apply build_backend validate merge encrypt_for_storage encrypt_secret encrypt
    update_settings current redacted Local.list stat read_dir text_eq
program = tt

apply-err_example :
    SameInstalled refused.1 world × (invalid_settings ≡ invalid_settings → refused.1.db ≡ world.db)
unfolding program
apply-err_example =
    apply-err cipher builders (λ n. some (nonces n)) (pos 9) bad world invalid_settings refl

abbrev shown : Settings
shown = redacted (record (merge settings input) { updated_at = pos 9 })

apply-ok_example :
    (validate (merge settings input) ≡ true)
    × ((b : Backend Disk) × ((build_backend cipher builders (merge settings input) disk).0 ≡ some b)
        × InForce b (merge settings input) shown applied.1)
unfolding program
apply-ok_example = apply-ok cipher builders (λ n. some (nonces n)) (pos 9) input world shown refl

abbrev stored : SettingsRow
stored = record row { s3_access_key_id_enc = some (1 ∷ 2 ∷ bytes "k") }

decrypt_row-encrypt_for_storage_example : decrypt_row cipher stored ≡ some (unstamped settings)
unfolding program
decrypt_row-encrypt_for_storage_example =
    decrypt_row-encrypt_for_storage cipher cipher-IsCipher nonces settings stored (λ n. refl)
      settings-IsStorable refl

abbrev request : UpdateSettingsRequest
request = record {
  storage_backend = StorageBackendType.local;
  local_dir = bytes "/cache";
  s3_bucket = [];
  s3_region = [];
  s3_prefix = [];
  s3_endpoint = [];
  s3_use_path_style = false;
  s3_access_key_id = none;
  s3_secret_access_key = none;
  gcs_bucket = [];
  gcs_prefix = [];
  gcs_credentials_json = none;
  session_ttl_seconds = pos 7200;
  max_cache_entry_bytes = pos 20;
}

abbrev answered : Answer SettingsResponse × World Disk
answered =
    handle_update_settings cipher builders (λ n. some (nonces n)) (pos 9) (some request) ann world

handle_update_settings-effect_example :
    ((answered.0.status ≡ 200)
      × ((handle_get_settings ann answered.1).0.body ≡ answered.0.body)
      × (answered.1.max_entry_bytes ≡ pos 20)
      × (answered.1.session_ttl ≡ from_seconds (pos 7200))
      × Lifetime (pos 7200) answered.1.session_ttl)
    ⊎ ((answered.0.status ≢ 200) × SameInstalled answered.1 world)
handle_update_settings-effect_example =
    handle_update_settings-effect cipher builders (λ n. some (nonces n)) (pos 9) request ann world
      ann

from_seconds_overflow_example :
    (from_seconds (pos 20000000000) ≡ pos (20000000000 * 1000000000 - 2 ^ 64))
    × (ltb_ℤ (pos 0) (from_seconds (pos 20000000000)) ≡ true)
from_seconds_overflow_example = from_seconds_overflow 20000000000 (omega arith) (omega arith)

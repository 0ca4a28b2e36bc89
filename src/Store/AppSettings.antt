-- ===== src/Store/AppSettings.antt =====
-- internal/store/settings.go: the one row of app_settings.
use nx_remote_cache.Base.{
  Bool, Result, err, false, if◌then◌else◌, is_some, leb, ltb, neg_part, ok, pos_part, some, true, ℤ,
  ◌&&◌, ◌^◌,
}
use nx_remote_cache.Store.{Error, failure, SettingsRow, StorageBackendType, Db, bump, now, exec}
use nx_remote_cache.Store.Users.{find_id}

unfoldable pub get_settings : Db → Result Error SettingsRow × Db
get_settings d = exec d (ok d.settings, bump d)

-- CHECK (storage_backend IN ('local', 's3', 'gcs')).
abbrev pub is_known : StorageBackendType → Bool
is_known (StorageBackendType.unknown _) = false
is_known StorageBackendType.local = true
is_known StorageBackendType.s3 = true
is_known StorageBackendType.gcs = true

-- session_ttl_seconds is an INT, of 32 bits; a value out of range is refused. So is an updater who
-- is no user.
abbrev pub fits_int4 : ℤ → Bool
fits_int4 n = ltb (pos_part n) (2 ^ 31) && leb (neg_part n) (2 ^ 31)

unfoldable pub update_settings : SettingsRow → ℤ → Db → Result Error (Unit {0}) × Db
update_settings row updated_by d = exec d (
    if is_known row.storage_backend
      && fits_int4 row.session_ttl_seconds
      && is_some (find_id updated_by d.users)
    then (
      ok tt,
      record (bump d) {
        settings = record row { updated_at = now d; updated_by = some updated_by };
      },
    )
    else (err failure, bump d))

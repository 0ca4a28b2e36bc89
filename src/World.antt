-- ===== src/World.antt =====
-- The state that the servers of cmd/server/main.go share: the storage and the backend that is
-- current (internal/storage/dynamic.go), the database, and the settings that take effect at once.
use nx_remote_cache.Base.{List, Text, ℤ}
use nx_remote_cache.Storage.{Backend}
use nx_remote_cache.Store.{Db}
use nx_remote_cache.Settings.{Settings}

-- `pending` holds the hashes whose read a goroutine has still to record.
pub record World (S : Type 0) : Type 0 where
  pub storage : S
  pub backend : Backend S
  pub db : Db
  pub max_entry_bytes : ℤ
  pub session_ttl : ℤ
  pub settings : Settings
  pub pending : List Text

module _ {S : Type 0} where
  -- Dynamic.Swap.
  unfoldable pub swap : Backend S → World S → World S
  swap next w = record w { backend = next }

  -- Dynamic.Active.
  abbrev pub active : World S → Backend S
  active w = w.backend

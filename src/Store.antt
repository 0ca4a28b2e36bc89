-- ===== src/Store.antt =====
-- internal/store: the tables of internal/db/migrations, and how one SQL statement runs. The text
-- of each statement is modelled on lists of rows, with the constraints that the schema declares.
pub mod Users
pub mod Sessions
pub mod Tokens
pub mod Reads
pub mod AppSettings
pub mod Queries
pub mod Tables
pub mod Consistency
use nx_remote_cache.Base.{Bool, List, Option, Result, Text, arith, err, ok, ℕ, ℤ, ◌+◌, ◌≡◌}

-- ErrNotFound, ErrConflict, and any other error.
pub data Error : Type 0 where
  not_found conflict failure : Error

pub record User : Type 0 where
  pub id : ℤ
  pub email : Text
  pub password_hash : Text
  pub created_at : ℤ

pub record Session : Type 0 where
  pub id_hash : Text
  pub user_id : ℤ
  pub expires_at : ℤ

pub data TokenScope : Type 0 where
  read write : TokenScope

pub record Token : Type 0 where
  pub id : ℤ
  pub name : Text
  pub scope : TokenScope
  pub created_by : Option ℤ
  pub created_at : ℤ
  pub last_used_at : Option ℤ
  pub revoked_at : Option ℤ

-- A row of `tokens`; the statements never return its token_hash.
pub record TokenRow : Type 0 where
  pub token : Token
  pub token_hash : Text

pub record CacheReadStats : Type 0 where
  pub read_count : ℕ
  pub last_read_at : Option ℤ

pub record ReadRow : Type 0 where
  pub hash : Text
  pub stats : CacheReadStats

pub data StorageBackendType : Type 0 where
  local s3 gcs : StorageBackendType
  unknown : Text → StorageBackendType

-- Secret fields hold ciphertext, or none.
pub record SettingsRow : Type 0 where
  pub storage_backend : StorageBackendType
  pub local_dir : Text
  pub s3_bucket : Text
  pub s3_region : Text
  pub s3_prefix : Text
  pub s3_endpoint : Text
  pub s3_use_path_style : Bool
  pub s3_access_key_id_enc : Option Text
  pub s3_secret_access_key_enc : Option Text
  pub gcs_bucket : Text
  pub gcs_prefix : Text
  pub gcs_credentials_json_enc : Option Text
  pub session_ttl_seconds : ℤ
  pub max_cache_entry_bytes : ℤ
  pub updated_at : ℤ
  pub updated_by : Option ℤ

-- What becomes of a statement: it runs, it never reaches the database, or it runs and its reply
-- is lost.
pub data Fate : Type 0 where
  delivered unsent unanswered : Fate

-- `next_user` and `next_token` are the sequences of the BIGSERIAL keys. The n-th statement meets
-- `fate n`, and `now()` in it is `clock n`.
pub record Db : Type 0 where
  pub users : List User
  pub sessions : List Session
  pub tokens : List TokenRow
  pub reads : List ReadRow
  pub settings : SettingsRow
  pub next_user : ℕ
  pub next_token : ℕ
  pub fate : ℕ → Fate
  pub clock : ℕ → ℤ
  pub tick : ℕ

abbrev pub bump : Db → Db
bump d = record d { tick = d.tick + 1 }

abbrev pub now : Db → ℤ
now d = d.clock d.tick

abbrev meet : {A : Type 0} → Fate → Db → Result Error A × Db → Result Error A × Db
meet delivered d done = done
meet unsent d done = (err failure, d)
meet unanswered d done = (err failure, done.1)

-- A statement on `d`, whose result and effect are `done` once it runs.
abbrev pub exec : {A : Type 0} → Db → Result Error A × Db → Result Error A × Db
exec d done = meet (d.fate d.tick) (bump d) done

-- What holds after the statement and if it never runs holds in any case.
pub exec_ind {ℓ} :
    {A : Type 0} (P : Db → Type ℓ) (d : Db) (done : Result Error A × Db)
    → P (bump d)
    → P done.1
    → P (exec d done).1
exec_ind {A} P d done p q = go (d.fate d.tick)
  where
    go : (f : Fate) → P (meet f (bump d) done).1
    go delivered = q
    go unsent = p
    go unanswered = q

-- A statement that reports success has run.
pub exec-ok :
    {A : Type 0} (d : Db) (done : Result Error A × Db) {a : A}
    → (exec d done).0 ≡ ok a
    → exec d done ≡ done
exec-ok d done h = ground arith

pub exec-not_found :
    {A : Type 0} (d : Db) (done : Result Error A × Db)
    → (exec d done).0 ≡ err not_found
    → exec d done ≡ done
exec-not_found d done h = ground arith

-- ===== src/Storage.antt =====
-- internal/storage/storage.go: hashes, entries, errors, and the interface that every backend
-- implements. `S` is the state of the outside world that a backend works on.
pub mod Contract
pub mod Disk
pub mod Local
pub mod Paging
pub mod Path
pub mod Keys
pub mod S3
pub mod Gcs
use nx_remote_cache.Base.{Bool, List, Result, Text, all, leb, length, ℕ, ℤ, ◌&&◌, ◌==◌, ◌||◌}

-- ErrNotFound, ErrAlreadyExists, and any other error.
pub data Error : Type 0 where
  not_found already_exists failure : Error

pub record Entry : Type 0 where
  pub hash : Text
  pub size : ℕ
  pub mod_time : ℤ

-- `next_cursor` is empty once there are no more entries.
pub record ListPage : Type 0 where
  pub entries : List Entry
  pub next_cursor : Text

-- An io.Reader: the bytes that it delivers, and whether an error follows them instead of EOF.
pub record Reader : Type 0 where
  pub content : List ℕ
  pub broken : Bool

pub record Backend (S : Type 0) : Type 0 where
  pub exists : Text → S → Result Error Bool × S
  pub put : Text → Reader → ℤ → S → Result Error (Unit {0}) × S
  pub get : Text → S → Result Error (List ℕ × ℕ) × S
  pub delete : Text → S → Result Error (Unit {0}) × S
  pub list : Text → ℤ → S → Result Error ListPage × S

-- [a-zA-Z0-9_-]
abbrev pub is_hash_byte : ℕ → Bool
is_hash_byte c =
    leb b'a' c && leb c b'z'
    || leb b'A' c && leb c b'Z'
    || leb b'0' c && leb c b'9'
    || c == b'_'
    || c == b'-'

-- ^[a-zA-Z0-9_-]{1,128}$
unfoldable pub valid_hash : Text → Bool
valid_hash hash = leb 1 (length hash) && leb (length hash) 128 && all is_hash_byte hash

-- ===== src/Tests.antt =====
-- Concrete inputs, and a run of every kind of request on them.
pub mod Buckets
pub mod Caching
pub mod Admins
pub mod Config
pub mod Starting
pub mod Uploads
pub mod Serving
use nx_remote_cache.Base.{
  List, Text, [], bytes, false, none, pos, some, text_eq, true, ℕ, ℤ, ◌+◌, ◌∷◌,
}
use nx_remote_cache.Primitives.{Primitives}
use nx_remote_cache.Storage.{Reader}
use nx_remote_cache.Storage.Disk.{Node, Disk}
use nx_remote_cache.Storage.Local.{local}
use nx_remote_cache.Store
use nx_remote_cache.Store.{
  User, Session, Token, TokenRow, SettingsRow, StorageBackendType, Db, Fate,
}
use nx_remote_cache.Settings.{Settings}
use nx_remote_cache.World.{World}
use nx_remote_cache.Server.{Request}

-- Functions that are easy to run: no hashing at all.
abbrev pub plain : Primitives
plain = record {
  sha256_hex = λ s. s;
  base64url = λ bs. bs;
  bcrypt_generate = λ salt password. some password;
  bcrypt_compare = λ hash password. text_eq hash password;
}

abbrev pub file : Text → List ℕ → ℤ → Node
file name bs t = record { name = name; content = bs; mod_time = t; is_dir = false }

-- The bytes of the artifact "old".
abbrev pub old_bytes : List ℕ
old_bytes = 7 ∷ 8 ∷ []

abbrev pub disk : Disk
disk = record {
  nodes = file (bytes "old") old_bytes (pos 1000) ∷ [];
  fault = λ n. false;
  clock = λ n. pos (1000 + n);
  suffix = λ n. bytes "1";
  tick = 0;
}

abbrev pub ann : User
ann = record {
  id = pos 1;
  email = bytes "a@b";
  password_hash = bytes "secret12";
  created_at = pos 0;
}

abbrev pub open_login : Session
open_login = record { id_hash = bytes "sid"; user_id = pos 1; expires_at = pos 100 }

abbrev pub writer : TokenRow
writer = record {
  token = record {
    id = pos 1;
    name = bytes "ci";
    scope = Store.TokenScope.write;
    created_by = some (pos 1);
    created_at = pos 0;
    last_used_at = none;
    revoked_at = none;
  };
  token_hash = bytes "w";
}

abbrev pub row : SettingsRow
row = record {
  storage_backend = StorageBackendType.local;
  local_dir = bytes "/cache";
  s3_bucket = [];
  s3_region = [];
  s3_prefix = [];
  s3_endpoint = [];
  s3_use_path_style = false;
  s3_access_key_id_enc = none;
  s3_secret_access_key_enc = none;
  gcs_bucket = [];
  gcs_prefix = [];
  gcs_credentials_json_enc = none;
  session_ttl_seconds = pos 3600;
  max_cache_entry_bytes = pos 10;
  updated_at = pos 0;
  updated_by = none;
}

abbrev pub db : Db
db = record {
  users = ann ∷ [];
  sessions = open_login ∷ [];
  tokens = writer ∷ [];
  reads = [];
  settings = row;
  next_user = 2;
  next_token = 2;
  fate = λ n. Fate.delivered;
  clock = λ n. pos n;
  tick = 0;
}

abbrev pub settings : Settings
settings = record {
  storage_backend = StorageBackendType.local;
  local_dir = bytes "/cache";
  s3_bucket = [];
  s3_region = [];
  s3_prefix = [];
  s3_endpoint = [];
  s3_use_path_style = false;
  s3_access_key_id = bytes "k";
  s3_access_key_id_set = true;
  s3_secret_access_key = [];
  s3_secret_access_key_set = false;
  gcs_bucket = [];
  gcs_prefix = [];
  gcs_credentials_json = [];
  gcs_credentials_json_set = false;
  session_ttl = pos 3600000000000;
  max_cache_entry_bytes = pos 10;
  updated_at = pos 0;
  updated_by = none;
}

abbrev pub world : World Disk
world = record {
  storage = disk;
  backend = local;
  db = db;
  max_entry_bytes = pos 10;
  session_ttl = pos 50;
  settings = settings;
  pending = [];
}

abbrev pub upload_new : Request
upload_new = record {
  hash = bytes "new";
  authorization = bytes "Bearer w";
  content_length = pos 3;
  body = record { content = 1 ∷ 2 ∷ 3 ∷ 4 ∷ []; broken = false };
}

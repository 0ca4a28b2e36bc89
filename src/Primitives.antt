-- ===== src/Primitives.antt =====
-- What the program takes from cryptographic packages: crypto/sha256 with encoding/hex,
-- encoding/base64, and golang.org/x/crypto/bcrypt. `bcrypt_generate` is none for an error, such as
-- a password of more than 72 bytes; its first argument is the salt that it draws.
use nx_remote_cache.Base.{Bool, List, Option, Text, ℕ}

pub record Primitives : Type 0 where
  pub sha256_hex : Text → Text
  pub base64url : List ℕ → Text
  pub bcrypt_generate : ℕ → Text → Option Text
  pub bcrypt_compare : Text → Text → Bool

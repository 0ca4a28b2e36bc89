-- ===== src/Auth.antt =====
-- internal/auth/auth.go: bearer tokens of the cache API.
pub mod Laws
use nx_remote_cache.Base.{
  Bool, List, Option, Result, Text, [], bytes, err, false, has_prefix, if◌then◌else◌, none, ok,
  some, trim_prefix, trim_space, true, ℕ, ◌++◌, ◌∷◌,
}
use nx_remote_cache.Primitives.{Primitives}
use nx_remote_cache.Store
use nx_remote_cache.Store.{TokenScope, Token, Db}
use nx_remote_cache.Store.Tokens.{authenticate}

pub data Scope : Type 0 where
  scope_read scope_write : Scope

-- tok.Scope == store.ScopeWrite
abbrev pub may_write : TokenScope → Bool
may_write TokenScope.write = true
may_write TokenScope.read = false

abbrev pub allows : Scope → Token → Bool
allows scope_write t = may_write t.scope
allows scope_read t = true

module _ (p : Primitives) where
  unfoldable pub hash_token : Text → Text
  hash_token token = p.sha256_hex token

  -- Whether the token is valid, and whether it has the scope.
  unfoldable pub authorize : Text → Scope → Db → Result Store.Error (Bool × Bool) × Db
  authorize [] scope d = (ok (false, false), d)
  authorize (c ∷ cs) scope d =
      let (t, d') = authenticate (hash_token (c ∷ cs)) d in
      elim t [
        | ok tok ↦ (ok (true, allows scope tok), d')
        | err Store.Error.not_found ↦ (ok (false, false), d')
        | err _ ↦ (err Store.Error.failure, d')
      ]

  -- The 32 random bytes are none if rand.Read fails.
  unfoldable pub generate_token : Option (List ℕ) → Option Text
  generate_token none = none
  generate_token (some buf) = some (bytes "nxc_" ++ p.base64url buf)

-- The token of an "Authorization: Bearer <token>" header, which is empty if it is missing.
unfoldable pub extract_bearer : Text → Text
extract_bearer h =
    if has_prefix h (bytes "Bearer ") then trim_space (trim_prefix h (bytes "Bearer ")) else []

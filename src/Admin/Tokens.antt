-- ===== src/Admin/Tokens.antt =====
-- internal/adminapi/tokens_handlers.go.
pub mod Laws
use nx_remote_cache.Base.{
  List, Option, Text, [], bytes, err, if◌then◌else◌, map, none, ok, some, text_eq, trim_space, ℕ, ℤ,
}
use nx_remote_cache.Primitives.{Primitives}
use nx_remote_cache.Store
use nx_remote_cache.Store.{User, Token, TokenScope}
use nx_remote_cache.Store.Tokens.{list_tokens, create_token, revoke_token}
use nx_remote_cache.Auth.{generate_token, hash_token}
use nx_remote_cache.World.{World}
use nx_remote_cache.Admin.{Answer, write_json, write_error, no_content, internal_error}

pub record TokenResponse : Type 0 where
  pub id : ℤ
  pub name : Text
  pub scope : Text
  pub created_at : ℤ
  pub last_used_at : Option ℤ
  pub revoked_at : Option ℤ

abbrev pub scope_text : TokenScope → Text
scope_text TokenScope.read = bytes "read"
scope_text TokenScope.write = bytes "write"

abbrev pub token_dto : Token → TokenResponse
token_dto t = record {
  id = t.id;
  name = t.name;
  scope = scope_text t.scope;
  created_at = t.created_at;
  last_used_at = t.last_used_at;
  revoked_at = t.revoked_at;
}

pub record CreateTokenRequest : Type 0 where
  pub name : Text
  pub scope : Text

-- The raw token is shown once.
pub record CreateTokenResponse : Type 0 where
  pub details : TokenResponse
  pub token : Text

-- store.TokenScope(req.Scope), if it is one of the two.
unfoldable pub parse_scope : Text → Option TokenScope
parse_scope s =
    if text_eq s (bytes "read")
    then some TokenScope.read
    else if text_eq s (bytes "write")
    then some TokenScope.write
    else none

module _ (p : Primitives) {S : Type 0} where
  unfoldable pub handle_list_tokens : User → World S → Answer (List TokenResponse) × World S
  handle_list_tokens current w =
      let (found, db') = list_tokens w.db in
      let w' = record w { db = db' } in
      elim found [ err _ ↦ (internal_error, w') | ok ts ↦ (write_json 200 (map token_dto ts), w') ]

  unfoldable pub store_token :
      Text → TokenScope → Text → ℤ → World S → Answer CreateTokenResponse × World S
  store_token name scope raw by w =
      let (made, db') = create_token name scope (hash_token p raw) by w.db in
      let w' = record w { db = db' } in
      elim made [
        | ok t ↦ (write_json 201 (record { details = token_dto t; token = raw }), w')
        | err Store.Error.conflict ↦ (write_error 409 "token collision, please retry", w')
        | err _ ↦ (internal_error, w')
      ]

  unfoldable pub handle_create_token :
      Option (List ℕ)
      → Option CreateTokenRequest
      → User
      → World S
      → Answer CreateTokenResponse × World S
  unfolding store_token
  handle_create_token random none current w = (write_error 400 "invalid request body", w)
  handle_create_token random (some req) current w =
      let name = trim_space req.name in
      if text_eq name []
      then (write_error 400 "name is required", w)
      else elim (parse_scope req.scope) [
        | none ↦ (write_error 400 "scope must be \"read\" or \"write\"", w)
        | some scope ↦ elim (generate_token p random) [
          | none ↦ (internal_error, w)
          | some raw ↦ store_token name scope raw current.id w
        ]
      ]

  -- The id in the path is none if it is no int64.
  unfoldable pub handle_revoke_token : Option ℤ → User → World S → Answer (Unit {0}) × World S
  handle_revoke_token none current w = (write_error 400 "invalid token id", w)
  handle_revoke_token (some id) current w =
      let (done, db') = revoke_token id w.db in
      let w' = record w { db = db' } in
      elim done [
        | ok _ ↦ (no_content, w')
        | err Store.Error.not_found ↦ (write_error 404 "token not found", w')
        | err _ ↦ (internal_error, w')
      ]

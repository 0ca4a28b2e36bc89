-- ===== src/Store/Tokens.antt =====
-- internal/store/tokens.go.
pub mod Revocation
use nx_remote_cache.Base.{
  Bool, List, Option, Result, Text, [], any, eq_ℤ, err, find, if◌then◌else◌, is_some, leb_ℤ, map,
  none, not, ok, pos, some, sort_by, text_eq, ℤ, ◌&&◌, ◌++◌, ◌+◌, ◌∷◌,
}
use nx_remote_cache.Store.{
  Error, not_found, conflict, failure, TokenScope, Token, TokenRow, Db, bump, now, exec,
}
use nx_remote_cache.Store.Users.{find_id}

-- The key is drawn from the sequence also if the hash is taken or the creator is gone.
unfoldable pub insert_token : Text → TokenScope → Text → ℤ → Db → Result Error Token × Db
insert_token name scope token_hash created_by d =
    let t : Token = record {
      id = pos d.next_token;
      name = name;
      scope = scope;
      created_by = some created_by;
      created_at = now d;
      last_used_at = none;
      revoked_at = none;
    } in
    let drawn = record (bump d) { next_token = d.next_token + 1 } in
    let row : TokenRow = record { token = t; token_hash = token_hash } in
    if any (λ r. text_eq r.token_hash token_hash) d.tokens
    then (err conflict, drawn)
    else if is_some (find_id created_by d.users)
    then (ok t, record drawn { tokens = d.tokens ++ row ∷ [] })
    else (err failure, drawn)

unfoldable pub create_token : Text → TokenScope → Text → ℤ → Db → Result Error Token × Db
unfolding insert_token
create_token name scope token_hash created_by d =
    exec d (insert_token name scope token_hash created_by d)

-- ORDER BY created_at DESC.
unfoldable pub list_tokens : Db → Result Error (List Token) × Db
list_tokens d =
    exec d
      (ok (sort_by (λ s t. leb_ℤ t.created_at s.created_at) (map (λ r. r.token) d.tokens)), bump d)

-- WHERE id = $1 AND revoked_at IS NULL.
abbrev pub is_revocable : ℤ → TokenRow → Bool
is_revocable id r = eq_ℤ r.token.id id && not (is_some r.token.revoked_at)

abbrev pub revoke_row : ℤ → ℤ → TokenRow → TokenRow
revoke_row id time r =
    if is_revocable id r then record r { token = record r.token { revoked_at = some time } } else r

unfoldable pub revoke_token : ℤ → Db → Result Error (Unit {0}) × Db
revoke_token id d = exec d (
    if any (is_revocable id) d.tokens
    then (ok tt, record (bump d) { tokens = map (revoke_row id (now d)) d.tokens })
    else (err not_found, bump d))

-- WHERE token_hash = $1 AND revoked_at IS NULL.
abbrev pub is_active : Text → TokenRow → Bool
is_active token_hash r = text_eq r.token_hash token_hash && not (is_some r.token.revoked_at)

abbrev pub stamp_row : Text → ℤ → TokenRow → TokenRow
stamp_row token_hash time r =
    if is_active token_hash r
    then record r { token = record r.token { last_used_at = some time } }
    else r

returned : Option TokenRow → Result Error Token
returned none = err not_found
returned (some r) = ok r.token

unfoldable pub authenticate : Text → Db → Result Error Token × Db
unfolding returned
authenticate token_hash d =
    let rows = map (stamp_row token_hash (now d)) d.tokens in
    exec d (returned (find (is_active token_hash) rows), record (bump d) { tokens = rows })

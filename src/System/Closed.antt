-- ===== src/System/Closed.antt =====
-- What every statement of internal/store keeps, every handler keeps.
pub mod Admins
pub mod Entries
pub mod Routes
use nx_remote_cache.Base.{
  List, Option, Option-cases, Result-cases, Text, [], arith, inl, inr, ℕ, ℤ, ◌+ℤ◌, ◌∷◌,
}
use nx_remote_cache.Primitives.{Primitives}
use nx_remote_cache.Store
use nx_remote_cache.Store.{Db, User, Session, TokenScope}
use nx_remote_cache.Store.Users.{
  create_user, get_user_by_email, get_user_by_id, list_users, delete_user, count_users,
  update_password,
}
use nx_remote_cache.Store.Sessions.{create_session, get_session, delete_session}
use nx_remote_cache.Store.Tokens.{create_token, list_tokens, revoke_token, authenticate}
use nx_remote_cache.Store.Reads.{
  record_cache_read, delete_cache_read_stats, get_cache_read_stats_batch, list_all_cache_read_stats,
}
use nx_remote_cache.Store.AppSettings.{update_settings}
use nx_remote_cache.Store.Queries.{Query, run}
use nx_remote_cache.Session.{
  hash_id, hash_password, verify_password, generate_id, open_session, login, logout, current_user,
}
use nx_remote_cache.Auth.{Scope, authorize, hash_token, generate_token}
use nx_remote_cache.Storage
use nx_remote_cache.Storage.{Entry, valid_hash}
use nx_remote_cache.World.{World}
use nx_remote_cache.Admin.{Credentials, cookie_value}
use nx_remote_cache.Admin.Users.{
  CreateUserRequest, ChangePasswordRequest, clean_email, is_email, insert_checked, delete_counted,
  store_password, handle_list_users, handle_create_user, handle_delete_user, handle_change_password,
}
use nx_remote_cache.Admin.Tokens.{
  CreateTokenRequest, parse_scope, store_token, handle_list_tokens, handle_create_token,
  handle_revoke_token,
}
use nx_remote_cache.Admin.Login.{
  RateLimiter, LoginRequest, try_login, handle_login, handle_logout, handle_me,
}

module _ (P : Db → Type 0) (closed : (q : Query) (d : Db) → P d → P (run q d))
    (p : Primitives) where
  pub keep-current_user : (raw : Text) (d : Db) → P d → P (current_user p raw d).1
  unfolding run current_user
  keep-current_user [] d k = k
  keep-current_user (c ∷ cs) d k =
      let h = hash_id p (c ∷ cs) in
      let k' = closed (Query.getting_session h) d k in
      elim (Result-cases (get_session h d).0) [
        | inl (s, e) ↦
            ground (arith, closed (Query.getting_user_by_id s.user_id) (get_session h d).1 k')
        | inr (x, e) ↦ ground arith
      ]

  pub keep-logout : (raw : Text) (d : Db) → P d → P (logout p raw d).1
  unfolding run logout
  keep-logout [] d k = k
  keep-logout (c ∷ cs) d k = closed (Query.deleting_session (hash_id p (c ∷ cs))) d k

  pub keep-open_session :
      (u : User) (random : Option (List ℕ)) (time ttl : ℤ) (d : Db)
      → P d
      → P (open_session p u random time ttl d).1
  unfolding run open_session
  keep-open_session u random time ttl d k = elim (Option-cases (generate_id p random)) [
    | inl gone ↦ ground arith
    | inr (raw, e) ↦
        ground (arith, closed (Query.creating_session (hash_id p raw) u.id (time +ℤ ttl)) d k)
  ]

  pub keep-login :
      (email password : Text) (random : Option (List ℕ)) (time ttl : ℤ) (d : Db)
      → P d
      → P (login p email password random time ttl d).1
  unfolding run login
  keep-login email password random time ttl d k =
      let k' = closed (Query.getting_user_by_email email) d k in
      elim (Result-cases (get_user_by_email email d).0) [
        | inl (u, e) ↦
            ground (arith, keep-open_session u random time ttl (get_user_by_email email d).1 k')
        | inr (x, e) ↦ ground arith
      ]

  pub keep-authorize :
      (token : Text) (scope : Scope) (d : Db) → P d → P (authorize p token scope d).1
  unfolding run authorize
  keep-authorize [] scope d k = k
  keep-authorize (c ∷ cs) scope d k =
      ground (arith, closed (Query.authenticating (hash_token p (c ∷ cs))) d k)

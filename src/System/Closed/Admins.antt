-- ===== src/System/Closed/Admins.antt =====
-- What every statement keeps, the handlers of accounts and tokens keep.
use nx_remote_cache.Base.{
  Bool, List, Option, Option-cases, Text, arith, inl, inr, none, some, trim_space, ℕ, ℤ,
}
use nx_remote_cache.Primitives.{Primitives}
use nx_remote_cache.Store.{Db, User, TokenScope}
use nx_remote_cache.Store.Users.{count_users}
use nx_remote_cache.Store.Queries.{Query, run}
use nx_remote_cache.Session.{hash_password}
use nx_remote_cache.Auth.{hash_token, generate_token}
use nx_remote_cache.World.{World}
use nx_remote_cache.Admin.{Credentials}
use nx_remote_cache.Admin.Users.{
  CreateUserRequest, ChangePasswordRequest, clean_email, insert_checked, delete_counted,
  store_password, handle_list_users, handle_create_user, handle_delete_user, handle_change_password,
}
use nx_remote_cache.Admin.Tokens.{
  CreateTokenRequest, parse_scope, store_token, handle_list_tokens, handle_create_token,
  handle_revoke_token,
}
use nx_remote_cache.Admin.Login.{RateLimiter, LoginRequest, try_login, handle_login, handle_logout}
use nx_remote_cache.System.Closed.{keep-login, keep-logout}

module _ (P : Db → Type 0) (closed : (q : Query) (d : Db) → P d → P (run q d)) (p : Primitives)
    {S : Type 0} where
  keep-try_login :
      (secure : Bool) (req : Option LoginRequest) (random : Option (List ℕ)) (time : ℤ)
      (w : World S)
      → P w.db
      → P (try_login p secure req random time w).1.db
  unfolding try_login
  keep-try_login secure none random time w k = k
  keep-try_login secure (some req) random time w k =
      ground (arith, keep-login P closed p req.email req.password random time w.session_ttl w.db k)

  pub keep-handle_login :
      {L : Type 0} (rate : RateLimiter L) (secure : Bool) (ip : Text) (req : Option LoginRequest)
      (random : Option (List ℕ)) (time : ℤ) (ls : List (Text × L)) (w : World S)
      → P w.db
      → P (handle_login p secure rate ip req random time ls w).2.db
  unfolding handle_login
  keep-handle_login rate secure ip req random time ls w k =
      ground (arith, keep-try_login secure req random time w k)

  pub keep-handle_logout :
      (secure : Bool) (c : Credentials) (u : User) (w : World S)
      → P w.db
      → P (handle_logout p secure c u w).1.db
  unfolding handle_logout
  keep-handle_logout secure c u w k = elim (Option-cases c.session) [
    | inl gone ↦ ground arith
    | inr (raw, e) ↦ ground (arith, keep-logout P closed p raw w.db k)
  ]

  pub keep-list_users : (u : User) (w : World S) → P w.db → P (handle_list_users p u w).1.db
  unfolding run handle_list_users
  keep-list_users u w k = ground (arith, closed Query.listing_users w.db k)

  keep-insert_checked :
      (email hash : Text) (w : World S) → P w.db → P (insert_checked p email hash w).1.db
  unfolding run insert_checked
  keep-insert_checked email hash w k =
      ground (arith, closed (Query.creating_user email hash) w.db k)

  pub keep-create_user :
      (salt : ℕ) (req : Option CreateUserRequest) (u : User) (w : World S)
      → P w.db
      → P (handle_create_user p salt req u w).1.db
  unfolding handle_create_user
  keep-create_user salt none u w k = k
  keep-create_user salt (some req) u w k = elim (Option-cases (hash_password p salt req.password)) [
    | inl bad ↦ ground arith
    | inr (hash, e) ↦ ground (arith, keep-insert_checked (clean_email req.email) hash w k)
  ]

  keep-delete_counted : (id : ℤ) (w : World S) → P w.db → P (delete_counted p id w).1.db
  unfolding run delete_counted
  keep-delete_counted id w k = ground (arith, closed (Query.deleting_user id) w.db k)

  pub keep-delete_user :
      (id : Option ℤ) (u : User) (w : World S) → P w.db → P (handle_delete_user p id u w).1.db
  unfolding run handle_delete_user
  keep-delete_user none u w k = k
  keep-delete_user (some id) u w k =
      let k' = closed Query.counting_users w.db k in
      ground (arith, k', keep-delete_counted id (record w { db = (count_users w.db).1 }) k')

  keep-store_password :
      (id : ℤ) (hash : Text) (w : World S) → P w.db → P (store_password p id hash w).1.db
  unfolding run store_password
  keep-store_password id hash w k = ground (arith, closed (Query.updating_password id hash) w.db k)

  pub keep-change_password :
      (salt : ℕ) (req : Option ChangePasswordRequest) (u : User) (w : World S)
      → P w.db
      → P (handle_change_password p salt req u w).1.db
  unfolding handle_change_password
  keep-change_password salt none u w k = k
  keep-change_password salt (some req) u w k =
      elim (Option-cases (hash_password p salt req.new_password)) [
        | inl bad ↦ ground arith
        | inr (hash, e) ↦ ground (arith, keep-store_password u.id hash w k)
      ]

  pub keep-list_tokens : (u : User) (w : World S) → P w.db → P (handle_list_tokens p u w).1.db
  unfolding run handle_list_tokens
  keep-list_tokens u w k = ground (arith, closed Query.listing_tokens w.db k)

  keep-store_token :
      (name : Text) (scope : TokenScope) (raw : Text) (by : ℤ) (w : World S)
      → P w.db
      → P (store_token p name scope raw by w).1.db
  unfolding run store_token
  keep-store_token name scope raw by w k =
      ground (arith, closed (Query.creating_token name scope (hash_token p raw) by) w.db k)

  pub keep-create_token :
      (random : Option (List ℕ)) (req : Option CreateTokenRequest) (u : User) (w : World S)
      → P w.db
      → P (handle_create_token p random req u w).1.db
  unfolding handle_create_token
  keep-create_token random none u w k = k
  keep-create_token random (some req) u w k = elim (Option-cases (parse_scope req.scope)) [
    | inl bad ↦ ground arith
    | inr (scope, e) ↦ elim (Option-cases (generate_token p random)) [
      | inl dry ↦ ground arith
      | inr (raw, f) ↦ ground (arith, keep-store_token (trim_space req.name) scope raw u.id w k)
    ]
  ]

  pub keep-revoke_token :
      (id : Option ℤ) (u : User) (w : World S) → P w.db → P (handle_revoke_token p id u w).1.db
  unfolding run handle_revoke_token
  keep-revoke_token none u w k = k
  keep-revoke_token (some id) u w k = ground (arith, closed (Query.revoking_token id) w.db k)

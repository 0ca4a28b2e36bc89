-- ===== src/System/Still.antt =====
-- The handlers of accounts and tokens leave the storage and the backend alone.
use nx_remote_cache.Base.{Bool, List, Option, Text, arith, ℕ, ℤ, ◌≡◌}
use nx_remote_cache.Primitives.{Primitives}
use nx_remote_cache.Store.{User}
use nx_remote_cache.Storage.Contract.{Artifact, IsStore}
use nx_remote_cache.World.{World}
use nx_remote_cache.Server.{run_pending}
use nx_remote_cache.Admin.{Credentials}
use nx_remote_cache.Admin.Login.{handle_login, handle_logout, RateLimiter, LoginRequest}
use nx_remote_cache.Admin.Users.{
  handle_list_users, handle_create_user, handle_delete_user, handle_change_password,
  CreateUserRequest, ChangePasswordRequest,
}
use nx_remote_cache.Admin.Tokens.{
  handle_list_tokens, handle_create_token, handle_revoke_token, CreateTokenRequest,
}
use nx_remote_cache.Admin.Cache.{handle_list_cache, list_limit}

module _ {S : Type 0} (w w' : World S) where
  -- Neither the storage nor the current backend has changed.
  abbrev pub IsStill : Type 0
  IsStill = (w'.storage ≡ w.storage) × (w'.backend ≡ w.backend)

pub still-run_pending : {S : Type 0} (n : ℕ) (w : World S) → IsStill w (run_pending n w)
unfolding run_pending
still-run_pending n w = ground arith

pub still-handle_login :
    (p : Primitives) {S : Type 0} (w : World S) {L : Type 0} (rate : RateLimiter L) (secure : Bool)
    (ip : Text) (req : Option LoginRequest) (random : Option (List ℕ)) (time : ℤ)
    (ls : List (Text × L))
    → IsStill w (handle_login p secure rate ip req random time ls w).2
unfolding handle_login
still-handle_login p w rate secure ip req random time ls = ground arith

module _ (p : Primitives) {S : Type 0} (u : User) (w : World S) where
  pub still-handle_logout :
      (secure : Bool) (c : Credentials) → IsStill w (handle_logout p secure c u w).1
  unfolding handle_logout
  still-handle_logout secure c = ground arith

  pub still-list_users : IsStill w (handle_list_users p u w).1
  unfolding handle_list_users
  still-list_users = ground arith

  pub still-create_user :
      (salt : ℕ) (req : Option CreateUserRequest) → IsStill w (handle_create_user p salt req u w).1
  unfolding handle_create_user
  still-create_user salt req = ground arith

  pub still-delete_user : (id : Option ℤ) → IsStill w (handle_delete_user p id u w).1
  unfolding handle_delete_user
  still-delete_user id = ground arith

  pub still-change_password :
      (salt : ℕ) (req : Option ChangePasswordRequest)
      → IsStill w (handle_change_password p salt req u w).1
  unfolding handle_change_password
  still-change_password salt req = ground arith

  pub still-list_tokens : IsStill w (handle_list_tokens p u w).1
  unfolding handle_list_tokens
  still-list_tokens = ground arith

  pub still-create_token :
      (random : Option (List ℕ)) (req : Option CreateTokenRequest)
      → IsStill w (handle_create_token p random req u w).1
  unfolding handle_create_token
  still-create_token random req = ground arith

  pub still-revoke_token : (id : Option ℤ) → IsStill w (handle_revoke_token p id u w).1
  unfolding handle_revoke_token
  still-revoke_token id = ground arith

  module _ {holds : S → Text → Option Artifact} {names : Text → Bool}
      (law : IsStore w.backend holds names) (j : Text) where
    pub list_cache-keeps :
        (cursor : Text) (limit : Option ℤ)
        → ((handle_list_cache cursor limit u w).1.backend ≡ w.backend)
          × (holds (handle_list_cache cursor limit u w).1.storage j ≡ holds w.storage j)
    unfolding handle_list_cache
    list_cache-keeps cursor limit =
        ground (arith, law.list_keeps cursor (list_limit limit) w.storage j)

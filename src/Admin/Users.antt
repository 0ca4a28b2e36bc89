-- ===== src/Admin/Users.antt =====
-- internal/adminapi/users_handlers.go. The salt of bcrypt is the argument `salt`.
pub mod Laws
pub mod Race
use nx_remote_cache.Base.{
  Bool, List, Option, Text, bytes, contains, eq_ℤ, err, if◌then◌else◌, leb, length, ltb, map, none,
  not, ok, some, to_lower, trim_space, ℕ, ℤ, ◌&&◌,
}
use nx_remote_cache.Primitives.{Primitives}
use nx_remote_cache.Store
use nx_remote_cache.Store.{User}
use nx_remote_cache.Store.Users.{list_users, create_user, delete_user, count_users, update_password}
use nx_remote_cache.Session.{hash_password, verify_password}
use nx_remote_cache.World.{World}
use nx_remote_cache.Admin.{Answer, Body, empty, write_json, write_error, no_content, internal_error}
use nx_remote_cache.Admin.Login.{UserResponse, user_dto, status_ok}

pub record CreateUserRequest : Type 0 where
  pub email : Text
  pub password : Text

pub record ChangePasswordRequest : Type 0 where
  pub current_password : Text
  pub new_password : Text

unfoldable pub clean_email : Text → Text
clean_email email = trim_space (to_lower email)

abbrev pub is_email : Text → Bool
is_email email = contains email (bytes "@") && not (ltb (length email) 3)

module _ (p : Primitives) {S : Type 0} where
  unfoldable pub handle_list_users : User → World S → Answer (List UserResponse) × World S
  handle_list_users current w =
      let (found, db') = list_users w.db in
      let w' = record w { db = db' } in
      elim found [ err _ ↦ (internal_error, w') | ok us ↦ (write_json 200 (map user_dto us), w') ]

  unfoldable pub insert_checked : Text → Text → World S → Answer UserResponse × World S
  insert_checked email hash w =
      let (made, db') = create_user email hash w.db in
      let w' = record w { db = db' } in
      elim made [
        | ok u ↦ (write_json 201 (user_dto u), w')
        | err Store.Error.conflict ↦ (write_error 409 "a user with that email already exists", w')
        | err _ ↦ (internal_error, w')
      ]

  unfoldable pub handle_create_user :
      ℕ → Option CreateUserRequest → User → World S → Answer UserResponse × World S
  unfolding insert_checked
  handle_create_user salt none current w = (write_error 400 "invalid request body", w)
  handle_create_user salt (some req) current w =
      let email = clean_email req.email in
      if not (is_email email)
      then (write_error 400 "invalid email", w)
      else if ltb (length req.password) 8
      then (write_error 400 "password must be at least 8 characters", w)
      else elim (hash_password p salt req.password) [
        | none ↦ (internal_error, w)
        | some hash ↦ insert_checked email hash w
      ]

  unfoldable pub delete_counted : ℤ → World S → Answer (Unit {0}) × World S
  delete_counted id w =
      let (gone, db') = delete_user id w.db in
      let w' = record w { db = db' } in
      elim gone [
        | ok _ ↦ (no_content, w')
        | err Store.Error.not_found ↦ (write_error 404 "user not found", w')
        | err _ ↦ (internal_error, w')
      ]

  -- The id in the path is none if it is no int64.
  unfoldable pub handle_delete_user : Option ℤ → User → World S → Answer (Unit {0}) × World S
  unfolding delete_counted
  handle_delete_user none current w = (write_error 400 "invalid user id", w)
  handle_delete_user (some id) current w =
      let (count, db') = count_users w.db in
      let w' = record w { db = db' } in
      if eq_ℤ id current.id
      then (write_error 400 "cannot delete your own account", w)
      else elim count [
        | err _ ↦ (internal_error, w')
        | ok n ↦
            if leb n 1
            then (write_error 400 "cannot delete the last remaining admin", w')
            else delete_counted id w'
      ]

  unfoldable pub store_password : ℤ → Text → World S → Answer (Unit {0}) × World S
  store_password id hash w =
      let (done, db') = update_password id hash w.db in
      let w' = record w { db = db' } in
      elim done [ err _ ↦ (internal_error, w') | ok _ ↦ (status_ok, w') ]

  unfoldable pub handle_change_password :
      ℕ → Option ChangePasswordRequest → User → World S → Answer (Unit {0}) × World S
  unfolding store_password
  handle_change_password salt none current w = (write_error 400 "invalid request body", w)
  handle_change_password salt (some req) current w =
      if not (verify_password p current.password_hash req.current_password)
      then (write_error 401 "current password is incorrect", w)
      else if ltb (length req.new_password) 8
      then (write_error 400 "password must be at least 8 characters", w)
      else elim (hash_password p salt req.new_password) [
        | none ↦ (internal_error, w)
        | some hash ↦ store_password current.id hash w
      ]

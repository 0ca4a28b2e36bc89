-- ===== src/Admin/Users/Laws.antt =====
-- internal/adminapi/users_handlers.go: deletion of users, and the emails of new users.
use nx_remote_cache.Base.{
  List, Option, Option-cases, Result-cases, Text, [], any, ap, arith, eq_ℤ, eq_ℤ_iff, false, inl,
  inr, keep, length, none, not, ok, refl, some, sym, text_eq, true, ℕ, ℤ, ◌++◌, ◌∙◌, ◌∷◌, ◌≡◌, ◌≢◌,
  ◌≤◌,
}
use nx_remote_cache.Primitives.{Primitives}
use nx_remote_cache.Store.{User, Db, exec_ind}
use nx_remote_cache.Store.Users.{find_id, find_email, count_users, delete_user, create_user}
use nx_remote_cache.Session.{login, hash_password}
use nx_remote_cache.Session.Laws.{login_sound}
use nx_remote_cache.World.{World}
use nx_remote_cache.Admin.Users.{
  CreateUserRequest, clean_email, is_email, handle_create_user, handle_delete_user,
}

find_id-keep :
    (id other : ℤ) (us : List User)
    → eq_ℤ id other ≡ false
    → find_id other (keep (λ u. not (eq_ℤ u.id id)) us) ≡ find_id other us
find_id-keep id other [] apart = refl
find_id-keep id other (u ∷ us) apart = ground (
  arith,
  eq_ℤ_iff u.id id,
  eq_ℤ_iff u.id other,
  eq_ℤ_iff id other,
  find_id-keep id other us apart,
)

find_id-delete_user :
    (id other : ℤ) (d : Db)
    → eq_ℤ id other ≡ false
    → find_id other (delete_user id d).1.users ≡ find_id other d.users
unfolding delete_user
find_id-delete_user id other d apart =
    exec_ind (λ x. find_id other x.users ≡ find_id other d.users) d _ refl
      (ground (arith, find_id-keep id other d.users apart))

users-count_users : (d : Db) → (count_users d).1.users ≡ d.users
unfolding count_users
users-count_users d = ground arith

create_user-ok :
    (email hash : Text) (d : Db) {u : User}
    → (create_user email hash d).0 ≡ ok u
    → (u.email ≡ email)
      × (any (λ v. text_eq v.email email) d.users ≡ false)
      × ((create_user email hash d).1.users ≡ d.users ++ u ∷ [])
unfolding create_user
create_user-ok email hash d e = ground arith

find_email-concat :
    (email : Text) (us : List User) (u : User)
    → find_email email us ≡ none
    → text_eq u.email email ≡ false
    → find_email email (us ++ u ∷ []) ≡ none
find_email-concat email [] u gone apart = rw apart
find_email-concat email (v ∷ vs) u gone apart = ground (arith, find_email-concat email vs u)

module _ (p : Primitives) {S : Type 0} where
  -- The admin who deletes users remains, with the same row, whatever id is asked for and whichever
  -- statements fail.
  pub handle_delete_user-keeps_self :
      (id : Option ℤ) (current : User) (w : World S)
      → find_id current.id w.db.users ≡ some current
      → find_id current.id (handle_delete_user p id current w).1.db.users ≡ some current
  unfolding handle_delete_user
  handle_delete_user-keeps_self none current w here = here
  handle_delete_user-keeps_self (some id) current w here =
      ground (arith, find_id-delete_user id current.id (count_users w.db).1, users-count_users w.db)

  -- If handleCreateUser answers 201, it has added one user, with the trimmed, lower-case form of
  -- the email that was given, which no user had before, which holds an "@" and which has at least
  -- 3 bytes; the password has at least 8 bytes.
  pub handle_create_user-ok :
      (salt : ℕ) (req : CreateUserRequest) (current : User) (w : World S)
      → (handle_create_user p salt (some req) current w).0.status ≡ 201
      → (u : User) × (u.email ≡ clean_email req.email)
        × (is_email (clean_email req.email) ≡ true)
        × (8 ≤ length req.password)
        × (any (λ v. text_eq v.email (clean_email req.email)) w.db.users ≡ false)
        × ((handle_create_user p salt (some req) current w).1.db.users ≡ w.db.users ++ u ∷ [])
  unfolding handle_create_user
  handle_create_user-ok salt req current w done =
      let email = clean_email req.email in
      elim (Option-cases (hash_password p salt req.password)) [
        | inl gone ↦ absurd (ground arith)
        | inr (hash, made) ↦ elim (Result-cases (create_user email hash w.db).0) [
          | inl (u, e) ↦
              let (same, free, rows) = create_user-ok email hash w.db e in
              (u, same, ground arith, ground arith, free, ground (arith, rows))
          | inr (x, e) ↦ absurd (ground arith)
        ]
      ]

  -- A user that is created for an email with capitals or outer blanks cannot log in with the email
  -- as it was typed, if no other user has it in that form.
  pub login-ne_ok_of_unclean :
      (salt : ℕ) (req : CreateUserRequest) (current : User) (w : World S) (random : Option (List ℕ))
      (time ttl : ℤ) (raw : Text)
      → (handle_create_user p salt (some req) current w).0.status ≡ 201
      → text_eq (clean_email req.email) req.email ≡ false
      → find_email req.email w.db.users ≡ none
      → (login p req.email req.password random time ttl
          (handle_create_user p salt (some req) current w).1.db).0
        ≢ ok raw
  login-ne_ok_of_unclean salt req current w random time ttl raw done unclean unknown e =
      let (u, same, _, _, _, rows) = handle_create_user-ok salt req current w done in
      let (v, found, _, _, _) = login_sound p req.email req.password random time ttl _ raw e in
      let apart : text_eq u.email req.email ≡ false =
        ap (λ x. text_eq x req.email) same ∙ unclean in
      let gone = find_email-concat req.email w.db.users u unknown apart in
      let bad : none ≡ some v = sym gone ∙ ap (find_email req.email) (sym rows) ∙ found in cc

-- ===== src/Store/Users.antt =====
-- internal/store/users.go.
use nx_remote_cache.Base.{
  List, Option, Result, Text, [], any, eq_ℤ, err, find, if◌then◌else◌, is_some, keep, leb_ℤ, length,
  map, none, not, ok, pos, some, sort_by, text_eq, ℕ, ℤ, ◌++◌, ◌+◌, ◌∷◌,
}
use nx_remote_cache.Store.{Error, not_found, conflict, User, TokenRow, Db, bump, now, exec}

abbrev pub find_email : Text → List User → Option User
find_email email us = find (λ u. text_eq u.email email) us

abbrev pub find_id : ℤ → List User → Option User
find_id id us = find (λ u. eq_ℤ u.id id) us

-- The key is drawn from the sequence also if the email is taken.
unfoldable pub insert_user : Text → Text → Db → Result Error User × Db
insert_user email password_hash d =
    let u : User = record {
      id = pos d.next_user;
      email = email;
      password_hash = password_hash;
      created_at = now d;
    } in
    let drawn = record (bump d) { next_user = d.next_user + 1 } in
    if any (λ v. text_eq v.email email) d.users
    then (err conflict, drawn)
    else (ok u, record drawn { users = d.users ++ u ∷ [] })

unfoldable pub create_user : Text → Text → Db → Result Error User × Db
unfolding insert_user
create_user email password_hash d = exec d (insert_user email password_hash d)

abbrev pub or_not_found : {A : Type 0} → Option A → Result Error A
or_not_found none = err not_found
or_not_found (some a) = ok a

unfoldable pub get_user_by_email : Text → Db → Result Error User × Db
get_user_by_email email d = exec d (or_not_found (find_email email d.users), bump d)

unfoldable pub get_user_by_id : ℤ → Db → Result Error User × Db
get_user_by_id id d = exec d (or_not_found (find_id id d.users), bump d)

-- ORDER BY created_at ASC.
unfoldable pub list_users : Db → Result Error (List User) × Db
list_users d = exec d (ok (sort_by (λ u v. leb_ℤ u.created_at v.created_at) d.users), bump d)

-- ON DELETE SET NULL.
abbrev pub forget : ℤ → Option ℤ → Option ℤ
forget id none = none
forget id (some by) = if eq_ℤ by id then none else some by

abbrev pub forget_token : ℤ → TokenRow → TokenRow
forget_token id t = record t {
  token = record t.token { created_by = forget id t.token.created_by };
}

-- The user goes, and its sessions with it (ON DELETE CASCADE); what it created stays.
abbrev pub without_user : ℤ → Db → Db
without_user id d = record d {
  users = keep (λ u. not (eq_ℤ u.id id)) d.users;
  sessions = keep (λ s. not (eq_ℤ s.user_id id)) d.sessions;
  tokens = map (forget_token id) d.tokens;
  settings = record d.settings { updated_by = forget id d.settings.updated_by };
}

unfoldable pub delete_user : ℤ → Db → Result Error (Unit {0}) × Db
delete_user id d = exec d (
    if is_some (find_id id d.users)
    then (ok tt, without_user id (bump d))
    else (err not_found, bump d))

unfoldable pub count_users : Db → Result Error ℕ × Db
count_users d = exec d (ok (length d.users), bump d)

abbrev pub set_password : ℤ → Text → User → User
set_password id password_hash u =
    if eq_ℤ u.id id then record u { password_hash = password_hash } else u

unfoldable pub update_password : ℤ → Text → Db → Result Error (Unit {0}) × Db
update_password id password_hash d = exec d (
    if is_some (find_id id d.users)
    then (ok tt, record (bump d) { users = map (set_password id password_hash) d.users })
    else (err not_found, bump d))

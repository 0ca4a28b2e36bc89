-- ===== src/Tests/Admins.antt =====
-- Admins' logins and requests on concrete inputs.
use nx_remote_cache.Base.{
  List, [], arith, bytes, contains, ok, pos, refl, some, text_eq, to_lower, trim_space, true, ◌++◌,
  ◌+ℤ◌, ◌-ℤ◌, ◌<ℤ◌, ◌∷◌, ◌≡◌, ◌≢◌, ◌⊎◌,
}
use nx_remote_cache.Storage.{valid_hash}
use nx_remote_cache.Storage.Contract.{Artifact}
use nx_remote_cache.Storage.Disk.{Disk, find_node}
use nx_remote_cache.Storage.Local.Cache.{local-IsStore, holds}
use nx_remote_cache.Store.{User, Session}
use nx_remote_cache.Store.Users.{
  get_user_by_id, find_id, find_email, get_user_by_email, create_user, list_users,
}
use nx_remote_cache.Store.Sessions.{find_session, get_session, create_session}
use nx_remote_cache.Session.{current_user, login, hash_id, generate_id, hash_password}
use nx_remote_cache.Session.Laws.{login_complete, login_sound}
use nx_remote_cache.World.{World}
use nx_remote_cache.Admin
use nx_remote_cache.Admin.{Credentials, Answer, protected, is_mutating}
use nx_remote_cache.Admin.Protected.{protected_sound}
use nx_remote_cache.Admin.Login.{UserResponse}
use nx_remote_cache.Admin.Users.{
  CreateUserRequest, clean_email, handle_list_users, handle_create_user, handle_delete_user,
}
use nx_remote_cache.Admin.Users.Laws.{handle_delete_user-keeps_self, login-ne_ok_of_unclean}
use nx_remote_cache.Admin.Tokens.{CreateTokenRequest}
use nx_remote_cache.Admin.Cache.{prune_cutoff, handle_prune}
use nx_remote_cache.Admin.Cache.Cutoff.{prune_cutoff_overflow}
use nx_remote_cache.Admin.Cache.Pruning.{handle_prune-keeps}
use nx_remote_cache.Tests.{plain, old_bytes, disk, ann, db, world}

-- What a run of a login or of a user's request goes through.
program : Unit {0}
unfolding protected current_user login hash_id generate_id hash_password get_user_by_email
    create_user list_users handle_list_users handle_create_user handle_delete_user clean_email
    get_session get_user_by_id create_session contains trim_space to_lower find_node holds
    valid_hash text_eq ◌-ℤ◌ ◌+ℤ◌
program = tt

login_sound_example :
    (u : User) × (find_email (bytes "a@b") db.users ≡ some u)
    × (plain.bcrypt_compare u.password_hash (bytes "secret12") ≡ true)
    × (generate_id plain (some (bytes "new")) ≡ some (bytes "new"))
    × ((login plain
          (bytes "a@b")
          (bytes "secret12")
          (some (bytes "new"))
          (pos 5)
          (pos 50)
          db).1.sessions
        ≡ db.sessions
          ++ record {
            id_hash = hash_id plain (bytes "new");
            user_id = u.id;
            expires_at = pos 5 +ℤ pos 50;
          }
            ∷ [])
unfolding program
login_sound_example =
    login_sound plain (bytes "a@b") (bytes "secret12") (some (bytes "new")) (pos 5) (pos 50) db
      (bytes "new") refl

abbrev credentials : Credentials
credentials = record { method = Admin.post; csrf = bytes "1"; session = some (bytes "sid") }

abbrev listing : User → World Disk → Answer (List UserResponse) × World Disk
listing u w = handle_list_users plain u w

protected_sound_example :
    ((u : User) × (s : Session) × (find_session (hash_id plain (bytes "sid")) (pos 0) db.sessions
        ≡ some s)
      × (find_id s.user_id db.users ≡ some u)
      × (is_mutating Admin.post ≡ true → bytes "1" ≢ [])
      × (protected plain listing credentials world
          ≡ listing u (record world { db = (current_user plain (bytes "sid") db).1 })))
    ⊎ (((protected plain listing credentials world).1.storage ≡ disk)
        × (((protected plain listing credentials world).0.status ≡ 401)
            ⊎ ((protected plain listing credentials world).0.status ≡ 403)))
protected_sound_example = protected_sound plain listing credentials world

abbrev bob : CreateUserRequest
bob = record { email = bytes " Bob@b "; password = bytes "password" }

handle_delete_user-keeps_self_example :
    find_id (pos 1) (handle_delete_user plain (some (pos 1)) ann world).1.db.users ≡ some ann
unfolding program
handle_delete_user-keeps_self_example =
    handle_delete_user-keeps_self plain (some (pos 1)) ann world refl

login-ne_ok_of_unclean_example :
    (login plain bob.email bob.password
      (some (bytes "new"))
      (pos 5)
      (pos 50)
      (handle_create_user plain 0 (some bob) ann world).1.db).0
    ≢ ok (bytes "new")
unfolding program
login-ne_ok_of_unclean_example =
    login-ne_ok_of_unclean plain 0 bob ann world (some (bytes "new")) (pos 5) (pos 50) (bytes "new")
      refl refl refl

prune_cutoff_overflow_example : pos 5 <ℤ prune_cutoff (pos 5) (pos 200000)
prune_cutoff_overflow_example = prune_cutoff_overflow (pos 5) 200000 (omega arith) (omega arith)

abbrev old : Artifact
old = record { content = old_bytes; mod_time = pos 1000 }

handle_prune-keeps_example :
    holds (handle_prune 5 (pos 2000) (some (pos 30)) ann world).1.storage (bytes "old") ≡ some old
unfolding program
handle_prune-keeps_example =
    handle_prune-keeps holds (λ h. true) (bytes "old") old 5 (pos 2000) 30 ann world local-IsStore
      refl refl (omega arith) refl

abbrev new_token : CreateTokenRequest
new_token = record { name = bytes "ci"; scope = bytes "write" }

login_complete_example :
    (login plain (bytes "a@b") (bytes "secret12") (some (bytes "new")) (pos 5) (pos 50) db).0
    ≡ ok (bytes "new")
unfolding program
login_complete_example =
    login_complete plain (bytes "a@b") (bytes "secret12") (some (bytes "new")) (pos 5) (pos 50) db
      (bytes "new") ann ann (λ n. refl) refl refl refl refl refl

-- ===== src/Session.antt =====
-- internal/session/session.go: admin logins. The lifetime of a session is the argument `ttl`, in
-- nanoseconds, and time.Now() the argument `time`.
pub mod Laws
use nx_remote_cache.Base.{
  Bool, List, Option, Result, Text, [], err, if◌then◌else◌, none, ok, some, ℕ, ℤ, ◌+ℤ◌, ◌∷◌,
}
use nx_remote_cache.Primitives.{Primitives}
use nx_remote_cache.Store
use nx_remote_cache.Store.{User, Session, Db}
use nx_remote_cache.Store.Users.{get_user_by_email, get_user_by_id}
use nx_remote_cache.Store.Sessions.{create_session, get_session, delete_session}

-- ErrInvalidCredentials, and any other error.
pub data LoginError : Type 0 where
  invalid_credentials failure : LoginError

module _ (p : Primitives) where
  unfoldable pub hash_id : Text → Text
  hash_id id = p.sha256_hex id

  unfoldable pub generate_id : Option (List ℕ) → Option Text
  generate_id none = none
  generate_id (some buf) = some (p.base64url buf)

  unfoldable pub hash_password : ℕ → Text → Option Text
  hash_password salt password = p.bcrypt_generate salt password

  unfoldable pub verify_password : Text → Text → Bool
  verify_password hash password = p.bcrypt_compare hash password

  -- Login once the password is verified.
  unfoldable pub open_session : User → Option (List ℕ) → ℤ → ℤ → Db → Result LoginError Text × Db
  open_session u random time ttl d = elim (generate_id random) [
    | none ↦ (err failure, d)
    | some raw ↦
        let (created, d') = create_session (hash_id raw) u.id (time +ℤ ttl) d in
        elim created [ ok _ ↦ (ok raw, d') | err _ ↦ (err failure, d') ]
  ]

  unfoldable pub login : Text → Text → Option (List ℕ) → ℤ → ℤ → Db → Result LoginError Text × Db
  unfolding open_session
  login email password random time ttl d =
      let (found, d') = get_user_by_email email d in
      elim found [
        | err Store.Error.not_found ↦ (err invalid_credentials, d')
        | err _ ↦ (err failure, d')
        | ok u ↦
            if p.bcrypt_compare u.password_hash password
            then open_session u random time ttl d'
            else (err invalid_credentials, d')
      ]

  unfoldable pub logout : Text → Db → Result Store.Error (Unit {0}) × Db
  logout [] d = (ok tt, d)
  logout (c ∷ cs) d = delete_session (hash_id (c ∷ cs)) d

  unfoldable pub current_user : Text → Db → Result Store.Error User × Db
  current_user [] d = (err Store.Error.not_found, d)
  current_user (c ∷ cs) d =
      let (found, d') = get_session (hash_id (c ∷ cs)) d in
      elim found [ ok s ↦ get_user_by_id s.user_id d' | err e ↦ (err e, d') ]

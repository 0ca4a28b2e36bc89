-- ===== src/Store/Sessions.antt =====
-- internal/store/sessions.go.
use nx_remote_cache.Base.{
  List, Option, Result, Text, [], any, err, find, if◌then◌else◌, is_some, keep, ltb_ℤ, not, ok,
  text_eq, ℤ, ◌&&◌, ◌++◌, ◌||◌, ◌∷◌,
}
use nx_remote_cache.Store.{Error, failure, Session, Db, bump, now, exec}
use nx_remote_cache.Store.Users.{find_id, or_not_found}

-- The statement fails if the key is taken, or if there is no such user.
unfoldable pub create_session : Text → ℤ → ℤ → Db → Result Error (Unit {0}) × Db
create_session id_hash user_id expires_at d =
    let s : Session = record { id_hash = id_hash; user_id = user_id; expires_at = expires_at } in
    exec d (
      if any (λ t. text_eq t.id_hash id_hash) d.sessions || not (is_some (find_id user_id d.users))
      then (err failure, bump d)
      else (ok tt, record (bump d) { sessions = d.sessions ++ s ∷ [] }))

-- The session of that key, unless it has expired at `time`.
abbrev pub find_session : Text → ℤ → List Session → Option Session
find_session id_hash time ss = find (λ s. text_eq s.id_hash id_hash && ltb_ℤ time s.expires_at) ss

unfoldable pub get_session : Text → Db → Result Error Session × Db
get_session id_hash d = exec d (or_not_found (find_session id_hash (now d) d.sessions), bump d)

unfoldable pub delete_session : Text → Db → Result Error (Unit {0}) × Db
delete_session id_hash d =
    exec d
      (ok tt, record (bump d) { sessions = keep (λ s. not (text_eq s.id_hash id_hash)) d.sessions })

unfoldable pub delete_expired_sessions : Db → Result Error (Unit {0}) × Db
delete_expired_sessions d =
    exec d (ok tt, record (bump d) { sessions = keep (λ s. ltb_ℤ (now d) s.expires_at) d.sessions })

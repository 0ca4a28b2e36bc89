-- ===== src/Admin/Protected.antt =====
-- protected of internal/adminapi/middleware.go: when a handler runs.
use nx_remote_cache.Base.{
  Bool-cases, Result-cases, Text, [], arith, false, inl, inr, ok, some, text_eq, text_eq_iff, true,
  ◌&&◌, ◌≡◌, ◌≢◌, ◌⊎◌,
}
use nx_remote_cache.Primitives.{Primitives}
use nx_remote_cache.Store.{User, Session, now}
use nx_remote_cache.Store.Users.{find_id}
use nx_remote_cache.Store.Sessions.{find_session}
use nx_remote_cache.Session.{current_user, hash_id}
use nx_remote_cache.Session.Laws.{current_user_sound}
use nx_remote_cache.World.{World}
use nx_remote_cache.Admin.{Answer, Credentials, is_mutating, cookie_value, protected}

module _ (p : Primitives) {S A : Type 0} (next : User → World S → Answer A × World S)
    (c : Credentials) (w : World S) where
  abbrev raw : Text
  raw = cookie_value c.session

  -- The world in which the handler runs.
  abbrev checked : World S
  checked = record w { db = (current_user p raw w.db).1 }

  protected-cases :
      ((u : User) × ((current_user p raw w.db).0 ≡ ok u)
        × ((is_mutating c.method && text_eq c.csrf []) ≡ false)
        × (protected p next c w ≡ next u checked))
      ⊎ (((protected p next c w).1.storage ≡ w.storage)
          × (((protected p next c w).0.status ≡ 401) ⊎ ((protected p next c w).0.status ≡ 403)))
  unfolding protected
  protected-cases = elim (Result-cases (current_user p raw w.db).0) [
    | inl (u, e) ↦ elim (Bool-cases (is_mutating c.method && text_eq c.csrf [])) [
      | inl bad ↦ inr (ground arith)
      | inr fine ↦ inl (u, e, fine, ground arith)
    ]
    | inr (x, e) ↦ inr (ground arith)
  ]

  -- A protected handler either runs, as the user of a stored session that has not expired and, if
  -- the method is mutating, with the CSRF header; or the answer is 401 or 403 and the storage is
  -- left alone.
  pub protected_sound :
      ((u : User) × (s : Session) × (find_session (hash_id p raw) (now w.db) w.db.sessions ≡ some s)
        × (find_id s.user_id w.db.users ≡ some u)
        × (is_mutating c.method ≡ true → c.csrf ≢ [])
        × (protected p next c w ≡ next u checked))
      ⊎ (((protected p next c w).1.storage ≡ w.storage)
          × (((protected p next c w).0.status ≡ 401) ⊎ ((protected p next c w).0.status ≡ 403)))
  protected_sound = elim protected-cases [
    | inl (u, e, fine, runs) ↦
        let (_, s, row, user) = current_user_sound p raw w.db u e in
        inl (u, s, row, user, λ m. λ bad. ground (arith, text_eq_iff c.csrf []), runs)
    | inr refused ↦ inr refused
  ]

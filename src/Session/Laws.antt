-- ===== src/Session/Laws.antt =====
-- Sessions: who a session id stands for, and for how long.
use nx_remote_cache.Base.{
  Bool-cases, List, Option, Option-cases, Result-cases, Text, [], any, ap, arith, false, inl, inr,
  ok, some, sym, text_eq, true, ℕ, ℤ, ◌++◌, ◌+ℤ◌, ◌+◌, ◌∙◌, ◌∷◌, ◌≡◌, ◌≢◌,
}
use nx_remote_cache.Primitives.{Primitives}
use nx_remote_cache.Store.{User, Session, Db, delivered, now}
use nx_remote_cache.Store.Users.{find_id, find_email, get_user_by_email, get_user_by_id}
use nx_remote_cache.Store.Sessions.{find_session, get_session, create_session}
use nx_remote_cache.Session.{login, open_session, current_user, hash_id, generate_id}

get_session-ok :
    (h : Text) (d : Db) {s : Session}
    → (get_session h d).0 ≡ ok s
    → (find_session h (now d) d.sessions ≡ some s) × ((get_session h d).1.users ≡ d.users)
unfolding get_session
get_session-ok h d e = ground arith

get_user_by_id-ok :
    (id : ℤ) (d : Db) {u : User} → (get_user_by_id id d).0 ≡ ok u → find_id id d.users ≡ some u
unfolding get_user_by_id
get_user_by_id-ok id d e = ground arith

get_user_by_email-ok :
    (email : Text) (d : Db) {u : User}
    → (get_user_by_email email d).0 ≡ ok u
    → (find_email email d.users ≡ some u) × ((get_user_by_email email d).1.sessions ≡ d.sessions)
unfolding get_user_by_email
get_user_by_email-ok email d e = ground arith

create_session-ok :
    (h : Text) (id expires : ℤ) (d : Db)
    → (create_session h id expires d).0 ≡ ok tt
    → (create_session h id expires d).1.sessions
      ≡ d.sessions ++ record { id_hash = h; user_id = id; expires_at = expires } ∷ []
unfolding create_session
create_session-ok h id expires d e = ground arith

module _ (p : Primitives) where
  -- CurrentUser gives a user only for a session id of which a row is stored that has not expired
  -- when it is read, and then the user of that row.
  pub current_user_sound :
      (raw : Text) (d : Db) (u : User)
      → (current_user p raw d).0 ≡ ok u
      → (raw ≢ [])
        × (s : Session) × (find_session (hash_id p raw) (now d) d.sessions ≡ some s)
        × (find_id s.user_id d.users ≡ some u)
  unfolding current_user
  current_user_sound [] d u e = absurd (ground arith)
  current_user_sound (c ∷ cs) d u e =
      let h = hash_id p (c ∷ cs) in
      elim (Result-cases (get_session h d).0) [
        | inl (s, q) ↦
            let (row, same) = get_session-ok h d q in
            let got : (get_user_by_id s.user_id (get_session h d).1).0 ≡ ok u = ground arith in
            (λ bad. cc, s, row, ap (find_id s.user_id) (sym same) ∙ get_user_by_id-ok _ _ got)
        | inr (x, q) ↦ absurd (ground arith)
      ]

  abbrev row : Text → User → ℤ → Session
  row raw u expires = record { id_hash = hash_id p raw; user_id = u.id; expires_at = expires }

  open_session-ok :
      (u : User) (random : Option (List ℕ)) (time ttl : ℤ) (d : Db) (raw : Text)
      → (open_session p u random time ttl d).0 ≡ ok raw
      → (generate_id p random ≡ some raw)
        × ((open_session p u random time ttl d).1.sessions
            ≡ d.sessions ++ row raw u (time +ℤ ttl) ∷ [])
  unfolding open_session
  open_session-ok u random time ttl d raw e = elim (Option-cases (generate_id p random)) [
    | inl gone ↦ absurd (ground arith)
    | inr (x, made) ↦
        let same : x ≡ raw = ground arith in
        let done : (create_session (hash_id p x) u.id (time +ℤ ttl) d).0 ≡ ok tt = ground arith in
        let rows = create_session-ok (hash_id p x) u.id (time +ℤ ttl) d done in
        (
          made ∙ ap some same,
          ground (arith, rows) ∙ ap (λ y. d.sessions ++ row y u (time +ℤ ttl) ∷ []) same,
        )
  ]

  -- Login gives a session id only if the email is a user's and the password passes that user's
  -- stored hash; it has then added one session, of that id and that user, which expires after the
  -- lifetime.
  pub login_sound :
      (email password : Text) (random : Option (List ℕ)) (time ttl : ℤ) (d : Db) (raw : Text)
      → (login p email password random time ttl d).0 ≡ ok raw
      → (u : User) × (find_email email d.users ≡ some u)
        × (p.bcrypt_compare u.password_hash password ≡ true)
        × (generate_id p random ≡ some raw)
        × ((login p email password random time ttl d).1.sessions
            ≡ d.sessions
              ++ record { id_hash = hash_id p raw; user_id = u.id; expires_at = time +ℤ ttl } ∷ [])
  unfolding login
  login_sound email password random time ttl d raw e =
      elim (Result-cases (get_user_by_email email d).0) [
        | inl (u, q) ↦ elim (Bool-cases (p.bcrypt_compare u.password_hash password)) [
          | inl fits ↦
              let d' = (get_user_by_email email d).1 in
              let (user, same) = get_user_by_email-ok email d q in
              let runs : login p email password random time ttl d
                  ≡ open_session p u random time ttl d' =
                ground arith in
              let (made, rows) =
                open_session-ok u random time ttl d' raw (ap (λ x. x.0) (sym runs) ∙ e) in
              (
                u,
                user,
                fits,
                made,
                ap (λ x. x.1.sessions) runs
                    ∙ rows
                    ∙ ap (λ ss. ss ++ row raw u (time +ℤ ttl) ∷ []) same,
              )
          | inr bad ↦ absurd (ground arith)
        ]
        | inr (x, q) ↦ absurd (ground arith)
      ]

  -- Login gives the session id that it draws if every statement runs, the first user with that email
  -- has a hash that accepts the password, a user of that id exists, and no session has the hash of
  -- the drawn id yet.
  pub login_complete :
      (email password : Text) (random : Option (List ℕ)) (time ttl : ℤ) (d : Db) (raw : Text)
      (u v : User)
      → ((n : ℕ) → d.fate n ≡ delivered)
      → find_email email d.users ≡ some u
      → find_id u.id d.users ≡ some v
      → p.bcrypt_compare u.password_hash password ≡ true
      → generate_id p random ≡ some raw
      → any (λ s. text_eq s.id_hash (hash_id p raw)) d.sessions ≡ false
      → (login p email password random time ttl d).0 ≡ ok raw
  unfolding login get_user_by_email create_session
  login_complete email password random time ttl d raw u v up named there fits made free =
      ground (arith, up d.tick, up (d.tick + 1))

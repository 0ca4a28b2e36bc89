-- ===== src/Admin/Routes/Refusal.antt =====
-- What the admin server does for a request without a live session, or without the CSRF header.
use nx_remote_cache.Base.{
  Bool, Bool-cases, List, Option, Result-cases, Text, [], any, arith, bytes, false, inl, inr,
  is_some, none, refl, some, text_eq, text_eq_iff, true, ◌&&◌, ◌∷◌, ◌≡◌, ◌≢◌, ◌⊎◌,
}
use nx_remote_cache.Primitives.{Primitives}
use nx_remote_cache.Store.{Db, now}
use nx_remote_cache.Store.Sessions.{get_session, find_session}
use nx_remote_cache.Store.Tables.{
  SameTables, SameTables-refl, SameTables-trans, SameTables-get_session, SameTables-get_user_by_id,
}
use nx_remote_cache.Session.{current_user, hash_id}
use nx_remote_cache.Session.Laws.{current_user_sound}
use nx_remote_cache.World.{World}
use nx_remote_cache.Routing.{
  Request, Segment, lit, find_route-avoids, routed-cases, find_route, match_path,
}
use nx_remote_cache.Admin.{Method, is_mutating, cookie_value, protected}
use nx_remote_cache.Server.{Response, http_error}
use nx_remote_cache.Admin.Spa.{Assets, spa_handler}
use nx_remote_cache.Admin.Routes.{
  Handler, Reply, api_answer, page, Server, State, Draws, admin_routes, Action, login, protect, spa,
  handle, join_path, serve,
}

-- Nothing of the shared state has changed but the count of the statements.
pub record IsUntouched {S : Type 0} (w w' : World S) : Type 0 where
  pub storage : w'.storage ≡ w.storage
  pub backend : w'.backend ≡ w.backend
  pub max_entry_bytes : w'.max_entry_bytes ≡ w.max_entry_bytes
  pub session_ttl : w'.session_ttl ≡ w.session_ttl
  pub settings : w'.settings ≡ w.settings
  pub pending : w'.pending ≡ w.pending
  pub tables : SameTables w.db w'.db

-- An answer of the API, if it is one, is 401 or 403.
abbrev pub IsRefusal : Reply → Type 0
IsRefusal (api_answer a) = (a.status ≡ 401) ⊎ (a.status ≡ 403)
IsRefusal _ = Unit

abbrev is_login : Handler → Bool
is_login login = true
is_login _ = false

pub SameTables-current_user :
    (p : Primitives) (raw : Text) (d : Db) → SameTables d (current_user p raw d).1
unfolding current_user
SameTables-current_user p [] d = SameTables-refl d
SameTables-current_user p (c ∷ cs) d =
    let h = hash_id p (c ∷ cs) in
    let first = SameTables-get_session h d in
    elim (Result-cases (get_session h d).0) [
      | inl (s, e) ↦
          rw (e, current_user)
            (SameTables-trans first (SameTables-get_user_by_id s.user_id (get_session h d).1))
      | inr (x, e) ↦ rw (e, current_user) first
    ]

module _ {S : Type 0} (w : World S) where
  IsUntouched-db : (d' : Db) → SameTables w.db d' → IsUntouched w (record w { db = d' })
  IsUntouched-db d' h = record {
    storage = refl;
    backend = refl;
    max_entry_bytes = refl;
    session_ttl = refl;
    settings = refl;
    pending = refl;
    tables = h;
  }

-- No session with that cookie is live, or a mutating request has no CSRF header.
abbrev pub IsAnonymous : {S L : Type 0} → Server S L → Request → World S → Type 0
IsAnonymous s r w =
    (find_session (hash_id s.primitives (cookie_value r.session)) (now w.db) w.db.sessions ≡ none)
    ⊎ ((is_mutating r.method ≡ true) × (r.csrf ≡ []))

module _ {S L : Type 0} (s : Server S L) (d : Draws) (r : Request) (st : State S L) where
  abbrev pub LeavesAlone : Reply × State S L → Type 0
  LeavesAlone out =
      IsRefusal out.0 × IsUntouched st.world out.1.world × (out.1.limiters ≡ st.limiters)

  LeavesAlone-page : (x : Response) → LeavesAlone (page x, st)
  LeavesAlone-page x = (tt, IsUntouched-db st.world st.world.db (SameTables-refl st.world.db), refl)

  protect-refuses :
      (action : Action) (values : List Text)
      → IsAnonymous s r st.world
      → LeavesAlone (handle s d r (protect action) values st)
  unfolding handle protected
  protect-refuses action values anon =
      let raw = cookie_value r.session in
      let w = st.world in
      elim (Bool-cases (is_mutating r.method && text_eq r.csrf [])) [
        | inl bad ↦
            rw (bad, protected) (inr refl, IsUntouched-db w w.db (SameTables-refl w.db), refl)
        | inr fine ↦ elim (Result-cases (current_user s.primitives raw w.db).0) [
          | inl (u, e) ↦ absurd (elim anon [
            | inl dead ↦
                let (_, row, live, _) = current_user_sound s.primitives raw w.db u e in ground arith
            | inr bare ↦ ground (arith, text_eq_iff r.csrf [])
          ])
          | inr (x, e) ↦
              rw (fine, e, protected)
                (inl refl, IsUntouched-db w _ (SameTables-current_user s.primitives raw w.db), refl)
        ]
      ]

  handle-refuses :
      (h : Handler) (values : List Text)
      → is_login h ≡ false
      → IsAnonymous s r st.world
      → LeavesAlone (handle s d r h values st)
  unfolding handle
  handle-refuses login values e anon = cc
  handle-refuses (protect action) values e anon = protect-refuses action values anon
  handle-refuses (spa files) values e anon = LeavesAlone-page (spa_handler files (join_path r.path))

abbrev pub login_path : List Text
login_path = bytes "admin" ∷ bytes "api" ∷ bytes "auth" ∷ bytes "login" ∷ []

-- A pattern of literals fits its own path only.
abbrev literals : List Text → List Segment
literals [] = []
literals (t ∷ ts) = lit t ∷ literals ts

match-literals : (ts path : List Text) → path ≢ ts → match_path (literals ts) path ≡ none
unfolding match_path
match-literals [] [] h = absurd (h refl)
match-literals [] (x ∷ xs) h = refl
match-literals (t ∷ ts) [] h = refl
match-literals (t ∷ ts) (x ∷ xs) h = elim (Bool-cases (text_eq t x)) [
  | inl same ↦ rw same (match-literals ts xs (λ e. h (ground (arith, e, text_eq_iff t x))))
  | inr apart ↦ rw apart refl
]

login_misses :
    (ui : Option Assets) (path : List Text)
    → path ≢ login_path
    → any (λ x. is_login x.handler && is_some (match_path x.path path)) (admin_routes ui) ≡ false
unfolding admin_routes
login_misses none path apart = rw (match-literals login_path path apart) refl
login_misses (some files) path apart = rw (match-literals login_path path apart) refl

-- Another path than that of the login leads to another handler.
found-ne_login :
    (ui : Option Assets) (m : Method) (path values : List Text) (h : Handler)
    → path ≢ login_path
    → find_route (admin_routes ui) m path ≡ some (h, values)
    → is_login h ≡ false
found-ne_login ui m path values h apart e =
    find_route-avoids is_login (admin_routes ui) m path values h (login_misses ui path apart) e

-- A request other than the login for which no live session is stored, or a mutating one without the
-- CSRF header, gets no API answer but 401 or 403, and changes nothing: neither the storage, nor the
-- current backend, the settings in force or the reads to record, nor a row of the database, nor the
-- limiters.
pub serve-refuses :
    {S L : Type 0} (s : Server S L) (d : Draws) (r : Request) (st : State S L)
    → r.path ≢ login_path
    → IsAnonymous s r st.world
    → LeavesAlone s d r st (serve s d r st)
unfolding serve
serve-refuses s d r st apart anon =
    let rs = admin_routes s.assets in
    elim (routed-cases rs r.method r.path) [
      | inl (h, values, there, e) ↦
          let other = found-ne_login s.assets r.method r.path values h apart there in
          rw (e, serve) (handle-refuses s d r st h values other anon)
      | inr (inl e) ↦
          rw (e, serve)
            (tt, IsUntouched-db st.world st.world.db (SameTables-refl st.world.db), refl)
      | inr (inr (inl e)) ↦
          rw (e, serve) (LeavesAlone-page s d r st (http_error "Method Not Allowed" 405))
      | inr (inr (inr e)) ↦
          rw (e, serve) (LeavesAlone-page s d r st (http_error "404 page not found" 404))
    ]

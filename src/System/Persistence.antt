-- ===== src/System/Persistence.antt =====
-- What becomes of a stored artifact while the program runs.
use nx_remote_cache.Base.{
  Bool, List, Option, Result-cases, Text, [], ap, arith, bytes, false, inl, inr, some, sym, true, ℤ,
  ◌-ℤ◌, ◌∙◌, ◌∷◌, ◌≡◌, ◌≢◌, ◌⊎◌,
}
use nx_remote_cache.Primitives.{Primitives}
use nx_remote_cache.Store.{Db, User}
use nx_remote_cache.Storage.{valid_hash}
use nx_remote_cache.Storage.Contract.{Artifact, IsStore}
use nx_remote_cache.World.{World}
use nx_remote_cache.Janitor
use nx_remote_cache.Janitor.{before, sweep_once}
use nx_remote_cache.Store.Reads.{stats_of}
use nx_remote_cache.Admin.Routes.Refusal.{IsAnonymous, login_path, serve-refuses}
use nx_remote_cache.System
use nx_remote_cache.System.{
  Event, requested, recorded, swept, root, data_server, admin_server, main_routes, dispatch, serve,
  step,
}
use nx_remote_cache.Server.Get.{backend-handle_get, handle_get-keeps}
use nx_remote_cache.Server.Put.{backend-handle_put, handle_put-keeps}
use nx_remote_cache.Session.{current_user}
use nx_remote_cache.Janitor.Safety.{Keeps, Keeps-sweep}
use nx_remote_cache.Server.Routes as DataRoutes
use nx_remote_cache.Routing.{Request, path_value, Routed, found, routed, routed-cases}
use nx_remote_cache.Admin.{Answer, protected, cookie_value, Credentials}
use nx_remote_cache.Admin.Login.{handle_me}
use nx_remote_cache.Admin.Config.{handle_get_settings}
use mathlib.Core.Path.{subst}
use nx_remote_cache.Admin.Routes as AdminRoutes
use nx_remote_cache.Admin.Routes.{
  Server, State, Draws, Handler, Action, logout, me, list_users, create_user, delete_user,
  change_password, list_tokens, create_token, revoke_token, list_cache, delete_cache_entry,
  bulk_delete, prune, get_settings, update_settings, login, protect, spa, encoded, act, logged_in,
  query_limit, credentials_of, admin_routes,
}
use nx_remote_cache.System.Still.{
  IsStill, still-run_pending, still-handle_login, still-handle_logout, still-list_users,
  still-create_user, still-delete_user, still-change_password, still-list_tokens,
  still-create_token, still-revoke_token, list_cache-keeps,
}

-- What does not depend on the database and a handler keeps, it keeps behind `protected`.
keep-protected :
    (p : Primitives) {S A : Type 0} (P : World S → Type 0)
    → ((w : World S) (db' : Db) → P w → P (record w { db = db' }))
    → (next : User → World S → Answer A × World S) (c : Credentials) (w : World S)
    → ((u : User) (w' : World S) → P w' → P (next u w').1)
    → P w
    → P (protected p next c w).1
unfolding protected
keep-protected p P frame next c w keeps k =
    let found = current_user p (cookie_value c.session) w.db in
    let w' = record w { db = found.1 } in
    let k' = frame w found.1 k in
    elim (Result-cases found.0) [
      | inl (u, e) ↦ ground (arith, k', keeps u w' k')
      | inr (x, e) ↦ ground (arith, k')
    ]

-- The handlers that delete no artifact and keep the backend.
abbrev pub spares : Action → Bool
spares delete_cache_entry = false
spares bulk_delete = false
spares prune = false
spares update_settings = false
spares _ = true

abbrev pub spares_at : Routed Handler → Bool
spares_at (found (protect action) values) = spares action
spares_at _ = true

module _ {S : Type 0} (holds : S → Text → Option Artifact) (names : Text → Bool) (j : Text)
    (a : Artifact) where
  abbrev Has : World S → Type 0
  Has w = Keeps holds names j a w

  Has-still : (w w' : World S) → IsStill w w' → Has w → Has w'
  Has-still w w' same k = record {
    law = subst (λ b. IsStore b holds names) (sym same.1) k.law;
    held = ap (λ x. holds x j) same.0 ∙ k.held;
  }

  Has-data :
      (p : Primitives) (r : Request) (w : World S)
      → valid_hash j ≡ true
      → Has w
      → Has (DataRoutes.serve p r w).1
  unfolding DataRoutes.serve DataRoutes.handle
  Has-data p r w jv k = elim (routed-cases DataRoutes.data_routes r.method r.path) [
    | inl (DataRoutes.health, values, _, e) ↦ rw (e, DataRoutes.serve) k
    | inl (DataRoutes.get_artifact, values, _, e) ↦
        let q = DataRoutes.artifact_request (path_value values) r in
        rw (e, DataRoutes.serve)
          (record {
            law = subst (λ b. IsStore b holds names) (sym (backend-handle_get p q w)) k.law;
            held = handle_get-keeps p q w k.law j ∙ k.held;
          })
    | inl (DataRoutes.put_artifact, values, _, e) ↦
        let q = DataRoutes.artifact_request (path_value values) r in
        rw (e, DataRoutes.serve)
          (record {
            law = subst (λ b. IsStore b holds names) (sym (backend-handle_put p q w)) k.law;
            held = handle_put-keeps p q w k.law j a jv k.held;
          })
    | inr (inl e) ↦ rw (e, DataRoutes.serve) k
    | inr (inr (inl e)) ↦ rw (e, DataRoutes.serve) k
    | inr (inr (inr e)) ↦ rw (e, DataRoutes.serve) k
  ]

  module _ {L : Type 0} (s : Server S L) (d : Draws) (r : Request) where
    Has-act :
        (action : Action) (values : List Text) (u : User) (w : World S)
        → spares action ≡ true
        → Has w
        → Has (act s d r action values u w).1
    unfolding act encoded handle_me handle_get_settings
    Has-act logout values u w e k =
        Has-still w _ (still-handle_logout s.primitives u w s.cookie_secure _) k
    Has-act me values u w e k = k
    Has-act list_users values u w e k = Has-still w _ (still-list_users s.primitives u w) k
    Has-act create_user values u w e k =
        Has-still w _ (still-create_user s.primitives u w d.salt _) k
    Has-act delete_user values u w e k = Has-still w _ (still-delete_user s.primitives u w _) k
    Has-act change_password values u w e k =
        Has-still w _ (still-change_password s.primitives u w d.salt _) k
    Has-act list_tokens values u w e k = Has-still w _ (still-list_tokens s.primitives u w) k
    Has-act create_token values u w e k =
        Has-still w _ (still-create_token s.primitives u w d.random _) k
    Has-act revoke_token values u w e k = Has-still w _ (still-revoke_token s.primitives u w _) k
    Has-act list_cache values u w e k =
        let limit = query_limit s.parse_int (r.query (bytes "limit")) in
        let (same, there) =
          list_cache-keeps s.primitives u w k.law j (r.query (bytes "cursor")) limit in
        record { law = subst (λ b. IsStore b holds names) (sym same) k.law; held = there ∙ k.held }
    Has-act delete_cache_entry values u w e k = cc
    Has-act bulk_delete values u w e k = cc
    Has-act prune values u w e k = cc
    Has-act get_settings values u w e k = k
    Has-act update_settings values u w e k = cc

    Has-handle :
        (h : Handler) (values : List Text) (st : State S L)
        → spares_at (found h values) ≡ true
        → Has st.world
        → Has (AdminRoutes.handle s d r h values st).1.world
    unfolding AdminRoutes.handle logged_in
    Has-handle login values st e k =
        Has-still st.world _
          (still-handle_login s.primitives st.world s.rate s.cookie_secure _ _ d.random d.time
            st.limiters)
          k
    Has-handle (protect action) values st e k =
        keep-protected s.primitives Has (λ w db' h. record { law = h.law; held = h.held })
          (act s d r action values) (credentials_of r) st.world
          (λ u w h. Has-act action values u w e h) k
    Has-handle (spa files) values st e k = k

    -- The request does no harm: its handler deletes nothing, or it is refused.
    abbrev pub IsHarmless : State S L → Type 0
    IsHarmless st =
        (spares_at (routed (admin_routes s.assets) r.method r.path) ≡ true)
        ⊎ ((r.path ≢ login_path) × IsAnonymous s r st.world)

    Has-admin :
        (st : State S L) → IsHarmless st → Has st.world → Has (AdminRoutes.serve s d r st).1.world
    unfolding AdminRoutes.serve
    Has-admin st (inr (apart, anon)) k =
        let (_, same, _) = serve-refuses s d r st apart anon in
        Has-still st.world _ (same.storage, same.backend) k
    Has-admin st (inl mild) k = elim (routed-cases (admin_routes s.assets) r.method r.path) [
      | inl (h, values, _, e) ↦
          rw (e, AdminRoutes.serve) (Has-handle h values st (ap spares_at (sym e) ∙ mild) k)
      | inr (inl e) ↦ rw (e, AdminRoutes.serve) k
      | inr (inr (inl e)) ↦ rw (e, AdminRoutes.serve) k
      | inr (inr (inr e)) ↦ rw (e, AdminRoutes.serve) k
    ]

    Has-serve :
        (st : State S L)
        → valid_hash j ≡ true
        → IsHarmless st
        → Has st.world
        → Has (serve s d r st).1.world
    unfolding serve dispatch
    Has-serve st jv harmless k = elim (routed-cases main_routes r.method r.path) [
      | inl (root, values, _, e) ↦ rw (e, serve) k
      | inl (data_server, values, _, e) ↦ rw (e, serve) (Has-data s.primitives r st.world jv k)
      | inl (admin_server, values, _, e) ↦ rw (e, serve) (Has-admin st harmless k)
      | inr (inl e) ↦ rw (e, serve) k
      | inr (inr (inl e)) ↦ rw (e, serve) k
      | inr (inr (inr e)) ↦ rw (e, serve) k
    ]

  module _ {L : Type 0} (s : Server S L) (cfg : Janitor.Config) where
    -- A sweep spares `a` if neither rule dooms it at the time.
    abbrev pub Spares : Event → State S L → Type 0
    Spares (requested d r) st = IsHarmless s d r st
    Spares (recorded n) st = Unit
    Spares (swept time) st =
        (before a.mod_time (time -ℤ cfg.max_age) ≡ false)
        × ((before a.mod_time (time -ℤ cfg.unread_after) ≡ false)
            ⊎ ((t : ℤ) × ((stats_of j st.world.db.reads).last_read_at ≡ some t)
                × (before t (time -ℤ cfg.unread_after) ≡ false)))

    abbrev pub AllSpare : List Event → State S L → Type 0
    AllSpare [] st = Unit
    AllSpare (e ∷ es) st = Spares e st × AllSpare es (step s cfg e st)

    Has-step :
        (e : Event) (st : State S L)
        → valid_hash j ≡ true
        → Spares e st
        → Has st.world
        → Has (step s cfg e st).world
    unfolding step sweep_once
    Has-step (requested d r) st jv fine k = Has-serve s d r st jv fine k
    Has-step (recorded n) st jv fine k = Has-still st.world _ (still-run_pending n st.world) k
    Has-step (swept time) st jv (young, used) k =
        Keeps-sweep holds names j a s.fuel cfg time st.world jv k young used

    pub Has-run :
        (es : List Event) (st : State S L)
        → valid_hash j ≡ true
        → AllSpare es st
        → Has st.world
        → Has (System.run s cfg es st).world
    unfolding System.run
    Has-run [] st jv fine k = k
    Has-run (e ∷ es) st jv fine k =
        Has-run es (step s cfg e st) jv fine.1 (Has-step e st jv fine.0 k)

    -- Over a backend that obeys IsStore, an artifact under a valid hash stays as it is through any
    -- requests to the program, recorded reads and sweeps, except for a prune, a deletion or a change
    -- of the settings by an admin with a live session and the CSRF header, and for a sweep at a time
    -- when a rule dooms it: when it is older than MaxAge, or older than UnreadAfter and not read
    -- since by the statistics then.
    pub system_run-keeps :
        (es : List Event) (st : State S L)
        → valid_hash j ≡ true
        → AllSpare es st
        → IsStore st.world.backend holds names
        → holds st.world.storage j ≡ some a
        → holds (System.run s cfg es st).world.storage j ≡ some a
    system_run-keeps es st jv fine law held =
        (Has-run es st jv fine (record { law = law; held = held })).held

-- ===== src/System/Closed/Routes.antt =====
-- What every statement keeps, every request and every event keeps.
use nx_remote_cache.Base.{
  List, Option, Option-cases, Result-cases, Text, [], arith, inl, inr, none, pos, some, ℕ, ℤ, ◌∷◌,
}
use nx_remote_cache.Store.{Db, User}
use nx_remote_cache.Store.Queries.{Query, run}
use nx_remote_cache.Storage.{Backend}
use nx_remote_cache.Session.{current_user}
use nx_remote_cache.Settings.{Settings}
use nx_remote_cache.Settings.Crypto.{Cipher}
use nx_remote_cache.Settings.Storage.{encrypt_for_storage}
use nx_remote_cache.Settings.Manager.{
  ApplyInput, Builders, merge, build_backend, persist, try_backend, install, apply,
}
use nx_remote_cache.World.{World}
use nx_remote_cache.Janitor
use nx_remote_cache.Server.Routes as DataRoutes
use nx_remote_cache.Routing.{Request, routed-cases}
use nx_remote_cache.Admin.{cookie_value, protected}
use nx_remote_cache.Admin.Config.{
  UpdateSettingsRequest, apply_input, handle_get_settings, handle_update_settings,
}
use nx_remote_cache.Admin.Login.{handle_me}
use nx_remote_cache.Admin.Routes as AdminRoutes
use nx_remote_cache.Admin.Routes.{
  Server, State, Draws, Payload, Action, logout, me, list_users, create_user, delete_user,
  change_password, list_tokens, create_token, revoke_token, list_cache, delete_cache_entry,
  bulk_delete, prune, get_settings, update_settings, login, protect, spa, encoded, pruned, act,
  logged_in, admin_routes,
}
use nx_remote_cache.System
use nx_remote_cache.System.{
  Event, requested, recorded, swept, root, data_server, admin_server, main_routes, dispatch, serve,
  step,
}
use nx_remote_cache.System.Closed.{keep-current_user}
use nx_remote_cache.System.Closed.Admins.{
  keep-handle_login, keep-handle_logout, keep-list_users, keep-create_user, keep-delete_user,
  keep-change_password, keep-list_tokens, keep-create_token, keep-revoke_token,
}
use nx_remote_cache.System.Closed.Entries.{
  keep-list_cache, keep-delete_cache_entry, keep-bulk_delete, keep-prune, keep-sweep_once,
  keep-run_pending, keep-handle_get, keep-handle_put,
}

module _ (P : Db → Type 0) (closed : (q : Query) (d : Db) → P d → P (run q d)) where
  module _ (c : Cipher) {S : Type 0} (builders : Builders S) (nonce : ℕ → Option Text)
      (time : ℤ) where
    keep-persist :
        (i : ApplyInput) (next : Settings) (b : Backend S) (w : World S)
        → P w.db
        → P (persist c builders nonce time i next b w).1.db
    unfolding run persist install
    keep-persist i next b w k = elim (Option-cases (encrypt_for_storage c nonce next)) [
      | inl bad ↦ rw (bad, persist) k
      | inr (row, e) ↦ ground (arith, closed (Query.updating_settings row i.updated_by) w.db k)
    ]

    keep-try_backend :
        (i : ApplyInput) (next : Settings) (b : Backend S) (w : World S)
        → P w.db
        → P (try_backend c builders nonce time i next b w).1.db
    unfolding try_backend
    keep-try_backend i next b w k =
        ground
          (arith, keep-persist i next b (record w { storage = (b.list [] (pos 1) w.storage).1 }) k)

    keep-apply : (i : ApplyInput) (w : World S) → P w.db → P (apply c builders nonce time i w).1.db
    unfolding apply
    keep-apply i w k =
        let next = merge w.settings i in
        let built = build_backend c builders next w.storage in
        elim (Option-cases built.0) [
          | inl bad ↦ ground arith
          | inr (b, e) ↦
              ground (arith, keep-try_backend i next b (record w { storage = built.1 }) k)
        ]

    keep-update_settings :
        (req : Option UpdateSettingsRequest) (u : User) (w : World S)
        → P w.db
        → P (handle_update_settings c builders nonce time req u w).1.db
    unfolding handle_update_settings
    keep-update_settings none u w k = k
    keep-update_settings (some req) u w k = ground (arith, keep-apply (apply_input req u) w k)

  module _ {S L : Type 0} (s : Server S L) (d : Draws) (r : Request) where
    keep-act :
        (a : Action) (values : List Text) (u : User) (w : World S)
        → P w.db
        → P (act s d r a values u w).1.db
    unfolding act encoded pruned handle_me handle_get_settings
    keep-act logout values u w k = keep-handle_logout P closed s.primitives s.cookie_secure _ u w k
    keep-act me values u w k = k
    keep-act list_users values u w k = keep-list_users P closed s.primitives u w k
    keep-act create_user values u w k = keep-create_user P closed s.primitives d.salt _ u w k
    keep-act delete_user values u w k = keep-delete_user P closed s.primitives _ u w k
    keep-act change_password values u w k =
        keep-change_password P closed s.primitives d.salt _ u w k
    keep-act list_tokens values u w k = keep-list_tokens P closed s.primitives u w k
    keep-act create_token values u w k = keep-create_token P closed s.primitives d.random _ u w k
    keep-act revoke_token values u w k = keep-revoke_token P closed s.primitives _ u w k
    keep-act list_cache values u w k = keep-list_cache P closed _ _ u w k
    keep-act delete_cache_entry values u w k = keep-delete_cache_entry P closed _ u w k
    keep-act bulk_delete values u w k = keep-bulk_delete P closed _ u w k
    keep-act prune values u w k = keep-prune P closed s.fuel d.time _ u w k
    keep-act get_settings values u w k = k
    keep-act update_settings values u w k =
        keep-update_settings s.cipher s.builders d.nonce d.time _ u w k

    keep-handle :
        (h : AdminRoutes.Handler) (values : List Text) (st : State S L)
        → P st.world.db
        → P (AdminRoutes.handle s d r h values st).1.world.db
    unfolding AdminRoutes.handle logged_in protected
    keep-handle login values st k =
        keep-handle_login P closed s.primitives s.rate s.cookie_secure _ _ d.random d.time
          st.limiters st.world k
    keep-handle (protect action) values st k =
        let raw = cookie_value r.session in
        let k' = keep-current_user P closed s.primitives raw st.world.db k in
        let w' = record st.world { db = (current_user s.primitives raw st.world.db).1 } in
        elim (Result-cases (current_user s.primitives raw st.world.db).0) [
          | inl (u, e) ↦ ground (arith, keep-act action values u w' k')
          | inr (x, e) ↦ ground arith
        ]
    keep-handle (spa files) values st k = k

    keep-admin : (st : State S L) → P st.world.db → P (AdminRoutes.serve s d r st).1.world.db
    unfolding AdminRoutes.serve
    keep-admin st k = elim (routed-cases (admin_routes s.assets) r.method r.path) [
      | inl (h, values, _, e) ↦ rw (e, AdminRoutes.serve) (keep-handle h values st k)
      | inr (inl e) ↦ rw (e, AdminRoutes.serve) k
      | inr (inr (inl e)) ↦ rw (e, AdminRoutes.serve) k
      | inr (inr (inr e)) ↦ rw (e, AdminRoutes.serve) k
    ]

    keep-data : (w : World S) → P w.db → P (DataRoutes.serve s.primitives r w).1.db
    unfolding DataRoutes.serve DataRoutes.handle
    keep-data w k = elim (routed-cases DataRoutes.data_routes r.method r.path) [
      | inl (DataRoutes.health, values, _, e) ↦ rw (e, DataRoutes.serve) k
      | inl (DataRoutes.get_artifact, values, _, e) ↦
          rw (e, DataRoutes.serve) (keep-handle_get P closed s.primitives _ w k)
      | inl (DataRoutes.put_artifact, values, _, e) ↦
          rw (e, DataRoutes.serve) (keep-handle_put P closed s.primitives _ w k)
      | inr (inl e) ↦ rw (e, DataRoutes.serve) k
      | inr (inr (inl e)) ↦ rw (e, DataRoutes.serve) k
      | inr (inr (inr e)) ↦ rw (e, DataRoutes.serve) k
    ]

    keep-serve : (st : State S L) → P st.world.db → P (serve s d r st).1.world.db
    unfolding serve dispatch
    keep-serve st k = elim (routed-cases main_routes r.method r.path) [
      | inl (root, values, _, e) ↦ rw (e, serve) k
      | inl (data_server, values, _, e) ↦ rw (e, serve) (keep-data st.world k)
      | inl (admin_server, values, _, e) ↦ rw (e, serve) (keep-admin st k)
      | inr (inl e) ↦ rw (e, serve) k
      | inr (inr (inl e)) ↦ rw (e, serve) k
      | inr (inr (inr e)) ↦ rw (e, serve) k
    ]

  module _ {S L : Type 0} (s : Server S L) (cfg : Janitor.Config) where
    keep-step : (e : Event) (st : State S L) → P st.world.db → P (step s cfg e st).world.db
    unfolding step
    keep-step (requested d r) st k = keep-serve s d r st k
    keep-step (recorded n) st k = keep-run_pending P closed n st.world k
    keep-step (swept time) st k = keep-sweep_once P closed s.fuel cfg time st.world k

    -- A property of the database that no statement breaks holds after every run of events, if it
    -- held before.
    pub keep-run :
        (es : List Event) (st : State S L) → P st.world.db → P (System.run s cfg es st).world.db
    unfolding System.run
    keep-run [] st k = k
    keep-run (e ∷ es) st k = keep-run es (step s cfg e st) (keep-step e st k)

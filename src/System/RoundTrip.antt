-- ===== src/System/RoundTrip.antt =====
-- An artifact that is uploaded over HTTP, through everything that follows, until it is downloaded.
use mathlib.Core.Path.{subst}
use nx_remote_cache.Base.{
  Bool, List, Option, Text, [], ap, bytes, refl, some, some_inj, sym, text_eq, ℕ, ◌∙◌, ◌∷◌, ◌≡◌,
  ◌≢◌,
}
use nx_remote_cache.Storage.Contract.{Artifact, IsStore, content_of, upload}
use nx_remote_cache.Janitor
use nx_remote_cache.Janitor.Safety.{Keeps}
use nx_remote_cache.Server.{Response, handle_get, handle_put}
use nx_remote_cache.Server.Put.{backend-handle_put, handle_put-status}
use nx_remote_cache.Server.Get.{handle_get-serves}
use nx_remote_cache.Server.RoundTrip.{ne_none, stored_artifact}
use nx_remote_cache.Server.Routes as DataRoutes
use nx_remote_cache.Server.Routes.{artifact_request, get_artifact, put_artifact, data_routes}
use nx_remote_cache.Routing.{Request, found, routed, find_route, match_path}
use nx_remote_cache.Admin.{Method, get, head, post, put, delete}
use nx_remote_cache.Admin.Routes.{Server, State, Draws, Reply, page}
use nx_remote_cache.System
use nx_remote_cache.System.{Event, data_server, main_routes, dispatch, serve}
use nx_remote_cache.System.Persistence.{AllSpare, Has-run}

abbrev pub cache_path : Text → List Text
cache_path hash = bytes "v1" ∷ bytes "cache" ∷ hash ∷ []

main-cache :
    (m : Method) (hash : Text) → routed main_routes m (cache_path hash) ≡ found data_server []
unfolding main_routes routed find_route match_path text_eq
main-cache get hash = refl
main-cache head hash = refl
main-cache post hash = refl
main-cache put hash = refl
main-cache delete hash = refl

data-put :
    (c : ℕ) (cs : Text)
    → routed data_routes put (cache_path (c ∷ cs)) ≡ found put_artifact ((c ∷ cs) ∷ [])
unfolding data_routes routed find_route match_path text_eq
data-put c cs = refl

data-get :
    (c : ℕ) (cs : Text)
    → routed data_routes get (cache_path (c ∷ cs)) ≡ found get_artifact ((c ∷ cs) ∷ [])
unfolding data_routes routed find_route match_path text_eq
data-get c cs = refl

module _ {S L : Type 0} (s : Server S L) (d : Draws) (r : Request) (st : State S L) (c : ℕ)
    (cs : Text) (path : r.path ≡ cache_path (c ∷ cs)) where
  served : serve s d r st ≡ (
      let (answer, w) = DataRoutes.serve s.primitives r st.world in
      (page answer, record st { world = w }))
  unfolding serve dispatch
  served =
      let outer : routed main_routes r.method r.path ≡ found data_server [] =
        rw path (main-cache r.method (c ∷ cs)) in
      rw (outer, serve) refl

  serve-put :
      r.method ≡ put
      → serve s d r st ≡ (
          let (answer, w) = handle_put s.primitives (artifact_request (c ∷ cs) r) st.world in
          (page answer, record st { world = w }))
  unfolding DataRoutes.serve DataRoutes.handle
  serve-put m =
      let inner : routed data_routes r.method r.path ≡ found put_artifact ((c ∷ cs) ∷ []) =
        rw (m, path) (data-put c cs) in
      served ∙ rw (inner, DataRoutes.serve) refl

  serve-get :
      r.method ≡ get
      → serve s d r st ≡ (
          let (answer, w) = handle_get s.primitives (artifact_request (c ∷ cs) r) st.world in
          (page answer, record st { world = w }))
  unfolding DataRoutes.serve DataRoutes.handle
  serve-get m =
      let inner : routed data_routes r.method r.path ≡ found get_artifact ((c ∷ cs) ∷ []) =
        rw (m, path) (data-get c cs) in
      served ∙ rw (inner, DataRoutes.serve) refl

abbrev pub page_status : Reply → ℕ
page_status (page x) = x.status
page_status _ = 0

module _ {S L : Type 0} (holds : S → Text → Option Artifact) (names : Text → Bool) (s : Server S L)
    (cfg : Janitor.Config) where
  -- Over a backend that obeys IsStore: after a PUT of /v1/cache/{hash} answered 200, and any
  -- requests to the program, recorded reads and sweeps that spare the stored artifact, as AllSpare
  -- says, a GET of the same path is not answered 404, and if it is answered 200 its body is what
  -- was uploaded.
  pub serve-get-after-put :
      (d d' : Draws) (up down : Request) (st : State S L) (c : ℕ) (cs : Text) (es : List Event)
      → up.method ≡ put
      → up.path ≡ cache_path (c ∷ cs)
      → down.method ≡ get
      → down.path ≡ cache_path (c ∷ cs)
      → IsStore st.world.backend holds names
      → page_status (serve s d up st).0 ≡ 200
      → ((a : Artifact)
          → holds (serve s d up st).1.world.storage (c ∷ cs) ≡ some a
          → AllSpare holds names (c ∷ cs) a s cfg es (serve s d up st).1)
      → (x : Response) × ((serve s d' down (System.run s cfg es (serve s d up st).1)).0 ≡ page x)
        × (x.status ≢ 404)
        × (x.status ≡ 200 → x.body ≡ upload up.body up.content_length)
  serve-get-after-put d d' up down st c cs es put_it up_path get_it down_path law done spare =
      let h = c ∷ cs in
      let p = s.primitives in
      let q = artifact_request h up in
      let e = serve-put s d up st c cs up_path put_it in
      let stored : (handle_put p q st.world).0.status ≡ 200 =
        ap (λ x. page_status x.0) (sym e) ∙ done in
      let (a, there, whole) = stored_artifact p q st.world law stored in
      let st₁ = (serve s d up st).1 in
      let new : st₁.world ≡ (handle_put p q st.world).1 = ap (λ x. x.1.world) e in
      let k₁ : Keeps holds names h a st₁.world = record {
        law =
            subst (λ b. IsStore b holds names)
              (sym (ap (λ w. w.backend) new ∙ backend-handle_put p q st.world)) law;
        held = ap (λ w. holds w.storage h) new ∙ there;
      } in
      let jv = ((handle_put-status p q st.world).6.0 stored).0.0 in
      let st₂ = System.run s cfg es st₁ in
      let k₂ = Has-run holds names h a s cfg es st₁ jv (spare a k₁.held) k₁ in
      let ask = artifact_request h down in
      let (found_it, missing) = handle_get-serves p ask st₂.world k₂.law in
      (
        (handle_get p ask st₂.world).0,
        ap (λ x. x.0) (serve-get s d' down st₂ c cs down_path get_it),
        λ bad. ne_none (sym k₂.held ∙ missing bad),
        λ fine. some_inj (sym (found_it fine).0 ∙ ap content_of k₂.held) ∙ whole,
      )

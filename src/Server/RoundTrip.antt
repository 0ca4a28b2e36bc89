-- ===== src/Server/RoundTrip.antt =====
-- Sequences of requests to the cache API, and what an upload and a later download have in common.
use mathlib.Core.Path.{subst}
use nx_remote_cache.Base.{
  Bool, List, Option, Option-cases, Text, [], ap, arith, inl, inr, none, refl, some, some_inj, sym,
  true, ℕ, ◌∙◌, ◌∷◌, ◌≡◌, ◌≢◌,
}
use nx_remote_cache.Primitives.{Primitives}
use nx_remote_cache.Storage.{valid_hash}
use nx_remote_cache.Storage.Contract.{Artifact, IsStore, content_of, upload}
use nx_remote_cache.World.{World}
use nx_remote_cache.Server.{Request, handle_get, handle_put, run_pending}
use nx_remote_cache.Server.Put.{
  backend-handle_put, handle_put-keeps, handle_put-uploads, handle_put-status,
}
use nx_remote_cache.Server.Get.{backend-handle_get, handle_get-keeps, handle_get-serves}

pub ne_none : {a : Artifact} → some a ≢ none
ne_none e = cc

-- A request, or a goroutine of an earlier GET.
pub data Event : Type 0 where
  getting putting : Request → Event
  recording : ℕ → Event

module _ (p : Primitives) {S : Type 0} where
  pub serve : Event → World S → World S
  serve (getting r) w = (handle_get p r w).1
  serve (putting r) w = (handle_put p r w).1
  serve (recording n) w = run_pending n w

  unfoldable pub serve_all : List Event → World S → World S
  unfolding serve
  serve_all [] w = w
  serve_all (e ∷ es) w = serve_all es (serve e w)

  run_pending-frame :
      (n : ℕ) (w : World S)
      → ((run_pending n w).backend ≡ w.backend) × ((run_pending n w).storage ≡ w.storage)
  unfolding run_pending
  run_pending-frame n w = ground arith

  backend-serve : (e : Event) (w : World S) → (serve e w).backend ≡ w.backend
  unfolding serve
  backend-serve (getting r) w = backend-handle_get p r w
  backend-serve (putting r) w = backend-handle_put p r w
  backend-serve (recording n) w = (run_pending-frame n w).0

  backend-serve_all : (es : List Event) (w : World S) → (serve_all es w).backend ≡ w.backend
  unfolding serve_all
  backend-serve_all [] w = refl
  backend-serve_all (e ∷ es) w = backend-serve_all es (serve e w) ∙ backend-serve e w

  module _ {holds : S → Text → Option Artifact} {names : Text → Bool} where
    serve-keeps :
        (e : Event) (w : World S) (j : Text) (a : Artifact)
        → IsStore w.backend holds names
        → valid_hash j ≡ true
        → holds w.storage j ≡ some a
        → holds (serve e w).storage j ≡ some a
    unfolding serve
    serve-keeps (getting r) w j a law jv h = handle_get-keeps p r w law j ∙ h
    serve-keeps (putting r) w j a law jv h = handle_put-keeps p r w law j a jv h
    serve-keeps (recording n) w j a law jv h = rw (run_pending-frame n w).1 h

    -- Over a backend that obeys IsStore, an artifact that is stored under a valid hash stays as it
    -- is through any requests to the cache API and recorded reads.
    pub serve_all-keeps :
        (es : List Event) (w : World S) (j : Text) (a : Artifact)
        → IsStore w.backend holds names
        → valid_hash j ≡ true
        → holds w.storage j ≡ some a
        → holds (serve_all es w).storage j ≡ some a
    unfolding serve_all
    serve_all-keeps [] w j a law jv h = h
    serve_all-keeps (e ∷ es) w j a law jv h =
        serve_all-keeps es (serve e w) j a
          (subst (λ b. IsStore b holds names) (sym (backend-serve e w)) law) jv
          (serve-keeps e w j a law jv h)

    pub stored_artifact :
        (r : Request) (w : World S)
        → IsStore w.backend holds names
        → (handle_put p r w).0.status ≡ 200
        → (a : Artifact) × (holds (handle_put p r w).1.storage r.hash ≡ some a)
          × (a.content ≡ upload r.body r.content_length)
    stored_artifact r w law done =
        let (_, stored) = handle_put-uploads p r w law done in
        elim (Option-cases (holds (handle_put p r w).1.storage r.hash)) [
          | inl gone ↦ absurd (ground arith)
          | inr (a, there) ↦ (a, there, ground arith)
        ]

    -- Over a backend that obeys IsStore: after a PUT answered 200, and any requests to the cache
    -- API and recorded reads that follow it, a GET of the same hash is never answered 404, and if
    -- it is answered 200 its body is what was uploaded.
    pub get-after-put :
        (up down : Request) (es : List Event) (w : World S)
        → IsStore w.backend holds names
        → (handle_put p up w).0.status ≡ 200
        → down.hash ≡ up.hash
        → ((handle_get p down (serve_all es (handle_put p up w).1)).0.status ≢ 404)
          × ((handle_get p down (serve_all es (handle_put p up w).1)).0.status ≡ 200
              → (handle_get p down (serve_all es (handle_put p up w).1)).0.body
                ≡ upload up.body up.content_length)
    get-after-put up down es w law done same =
        let w₁ = (handle_put p up w).1 in
        let law₁ : IsStore w₁.backend holds names =
          subst (λ b. IsStore b holds names) (sym (backend-handle_put p up w)) law in
        let (a, there, whole) = stored_artifact up w law done in
        let w₂ = serve_all es w₁ in
        let law₂ : IsStore w₂.backend holds names =
          subst (λ b. IsStore b holds names) (sym (backend-serve_all es w₁)) law₁ in
        let kept : holds w₂.storage up.hash ≡ some a =
          serve_all-keeps es w₁ up.hash a law₁ ((handle_put-status p up w).6.0 done).0.0 there in
        let here : holds w₂.storage down.hash ≡ some a = ap (holds w₂.storage) same ∙ kept in
        let (found, missing) = handle_get-serves p down w₂ law₂ in
        (
          λ e. ne_none (sym here ∙ missing e),
          λ e. some_inj (sym (found e).0 ∙ ap content_of here) ∙ whole,
        )

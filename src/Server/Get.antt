-- ===== src/Server/Get.antt =====
-- handleGet: which answer a download gets, and what it leaves behind.
use nx_remote_cache.Base.{
  Bool, List, Option, Result, Result-cases, Text, [], arith, err, false, inl, inr, none, ok, some,
  true, ℕ, ◌++◌, ◌↔◌, ◌∷◌, ◌≡◌, ◌⊎◌,
}
use nx_remote_cache.Primitives.{Primitives}
use nx_remote_cache.Storage
use nx_remote_cache.Storage.{Backend, valid_hash}
use nx_remote_cache.Storage.Contract.{Artifact, IsStore, content_of}
use nx_remote_cache.Store
use nx_remote_cache.Auth.{scope_read, authorize, extract_bearer, hash_token}
use nx_remote_cache.Auth.Laws.{Grants, authorize_sound}
use nx_remote_cache.World.{World, active}
use nx_remote_cache.Server.{Request, handle_get}

module _ (p : Primitives) {S : Type 0} (r : Request) (w : World S) where
  abbrev checked : Result Store.Error (Bool × Bool)
  checked = (authorize p (extract_bearer r.authorization) scope_read w.db).0

  abbrev get_result : Result Storage.Error (List ℕ × ℕ)
  get_result = ((active w).get r.hash w.storage).0

  abbrev get_status : ℕ
  get_status = (handle_get p r w).0.status

  abbrev after : S
  after = (handle_get p r w).1.storage

  -- A GET is answered 400 exactly for an invalid hash; then 401 exactly for a token that is not
  -- valid, 403 for one that may not read; and, once all of this has passed, 404 exactly if the
  -- backend's Get reports ErrNotFound.
  pub handle_get-status :
      ((get_status ≡ 400) ↔ (valid_hash r.hash ≡ false))
      × ((get_status ≡ 401) ↔ (
          (valid_hash r.hash ≡ true)
          × ((checked ≡ ok (false, false)) ⊎ (checked ≡ ok (false, true)))))
      × ((get_status ≡ 403) ↔ ((valid_hash r.hash ≡ true) × (checked ≡ ok (true, false))))
      × ((get_status ≡ 404) ↔ (
          (valid_hash r.hash ≡ true)
          × (checked ≡ ok (true, true))
          × (get_result ≡ err Storage.Error.not_found)))
  unfolding handle_get
  handle_get-status = ground arith

  get_ok_inv :
      get_status ≡ 200
      → (valid_hash r.hash ≡ true)
        × (checked ≡ ok (true, true))
        × (bs : List ℕ) × (n : ℕ) × (get_result ≡ ok (bs, n))
        × ((handle_get p r w).0.body ≡ bs)
        × ((handle_get p r w).1.pending ≡ w.pending ++ r.hash ∷ [])
  unfolding handle_get
  get_ok_inv e = elim (Result-cases get_result) [
    | inl (b, q) ↦ (ground arith, ground arith, b.0, b.1, q, ground arith, ground arith)
    | inr (x, q) ↦ absurd (ground arith)
  ]

  handle_get-storage : (after ≡ w.storage) ⊎ (after ≡ ((active w).get r.hash w.storage).1)
  unfolding handle_get
  handle_get-storage = ground arith

  pub backend-handle_get : (handle_get p r w).1.backend ≡ w.backend
  unfolding handle_get
  backend-handle_get = ground arith

  module _ {holds : S → Text → Option Artifact} {names : Text → Bool}
      (law : IsStore w.backend holds names) where
    -- A GET changes no artifact.
    pub handle_get-keeps : (j : Text) → holds after j ≡ holds w.storage j
    handle_get-keeps j = elim handle_get-storage [
      | inl same ↦ rw same
      | inr new ↦ rw new (law.get_keeps r.hash w.storage j)
    ]

    -- Over a backend that obeys IsStore, a GET answered 200 has the stored artifact for its body,
    -- carries a token that is valid, and leaves one read to record; one answered 404 asks for a
    -- hash under which nothing is stored.
    pub handle_get-serves :
        (get_status ≡ 200
          → (content_of (holds w.storage r.hash) ≡ some (handle_get p r w).0.body)
            × Grants (hash_token p (extract_bearer r.authorization)) scope_read true w.db.tokens
            × ((handle_get p r w).1.pending ≡ w.pending ++ r.hash ∷ []))
        × (get_status ≡ 404 → holds w.storage r.hash ≡ none)
    handle_get-serves = (
      λ e.
          let (v, token, bs, n, got, body, queued) = get_ok_inv e in
          (
            rw body (law.get_ok r.hash w.storage bs n v got),
            authorize_sound p (extract_bearer r.authorization) scope_read w.db true token,
            queued,
          ),
      λ e.
          let (v, _, missing) = handle_get-status.3.0 e in
          law.get_not_found r.hash w.storage v missing,
    )

-- ===== src/Server/Put.antt =====
-- handlePut: what an upload needs, what it stores, and which answer it gets.
use nx_remote_cache.Base.{
  Bool, Option, Result, Text, ap, arith, err, false, inl, inr, leb_ℤ, length, ltb_ℤ, none, ok, pos,
  some, true, ℕ, ◌↔◌, ◌≡◌, ◌≢◌, ◌⊎◌,
}
use nx_remote_cache.Primitives.{Primitives}
use nx_remote_cache.Storage
use nx_remote_cache.Storage.{Backend, valid_hash}
use nx_remote_cache.Storage.Contract.{Artifact, IsStore, IsCache, content_of, upload}
use nx_remote_cache.Store
use nx_remote_cache.Store.{TokenRow}
use nx_remote_cache.Auth.{scope_write, authorize, extract_bearer, hash_token}
use nx_remote_cache.Auth.Laws.{Grants, authorize_sound}
use nx_remote_cache.World.{World, active}
use nx_remote_cache.Server.{Request, handle_put}

module _ (p : Primitives) {S : Type 0} (r : Request) (w : World S) where
  -- The answer of Authorize to the request's token.
  abbrev checked : Result Store.Error (Bool × Bool)
  checked = (authorize p (extract_bearer r.authorization) scope_write w.db).0

  -- The checks that come before the backend.
  abbrev IsAdmitted : Type 0
  IsAdmitted =
      (valid_hash r.hash ≡ true)
      × (checked ≡ ok (true, true))
      × (leb_ℤ r.content_length (pos 0) ≡ false)
      × (ltb_ℤ w.max_entry_bytes r.content_length ≡ false)

  abbrev put_result : Result Storage.Error (Unit {0})
  put_result = ((active w).put r.hash r.body r.content_length w.storage).0

  abbrev put_storage : S
  put_storage = ((active w).put r.hash r.body r.content_length w.storage).1

  abbrev put_status : ℕ
  put_status = (handle_put p r w).0.status

  abbrev after : S
  after = (handle_put p r w).1.storage

  -- A PUT is answered 400 exactly for an invalid hash; then 401 exactly for a token that is not
  -- valid, 403 for one without the write scope, 411 for a length that is missing or not positive,
  -- 413 for one above the limit; and, once all of this has passed, 409 exactly if the backend's
  -- Put reports ErrAlreadyExists, and 200 exactly if it reports success.
  pub handle_put-status :
      ((put_status ≡ 400) ↔ (valid_hash r.hash ≡ false))
      × ((put_status ≡ 401) ↔ (
          (valid_hash r.hash ≡ true)
          × ((checked ≡ ok (false, false)) ⊎ (checked ≡ ok (false, true)))))
      × ((put_status ≡ 403) ↔ ((valid_hash r.hash ≡ true) × (checked ≡ ok (true, false))))
      × ((put_status ≡ 411) ↔ (
          (valid_hash r.hash ≡ true)
          × (checked ≡ ok (true, true))
          × (leb_ℤ r.content_length (pos 0) ≡ true)))
      × ((put_status ≡ 413) ↔ (
          (valid_hash r.hash ≡ true)
          × (checked ≡ ok (true, true))
          × (leb_ℤ r.content_length (pos 0) ≡ false)
          × (ltb_ℤ w.max_entry_bytes r.content_length ≡ true)))
      × ((put_status ≡ 409) ↔ (IsAdmitted × (put_result ≡ err Storage.Error.already_exists)))
      × ((put_status ≡ 200) ↔ (IsAdmitted × (put_result ≡ ok tt)))
  unfolding handle_put
  handle_put-status = ground arith

  -- The storage changes only by the backend's Put, once every check has passed.
  handle_put-storage : (after ≡ w.storage) ⊎ (IsAdmitted × (after ≡ put_storage))
  unfolding handle_put
  handle_put-storage = ground arith

  new_storage : IsAdmitted → after ≡ put_storage
  unfolding handle_put
  new_storage admitted = ground arith

  pub backend-handle_put : (handle_put p r w).1.backend ≡ w.backend
  unfolding handle_put
  backend-handle_put = ground arith

  -- A PUT that changes the storage, or is answered 200, carries a token of which the first active
  -- row has the write scope.
  pub handle_put-needs_write :
      (after ≢ w.storage) ⊎ (put_status ≡ 200)
      → Grants (hash_token p (extract_bearer r.authorization)) scope_write true w.db.tokens
  handle_put-needs_write h =
      authorize_sound p (extract_bearer r.authorization) scope_write w.db true (granted h)
    where
      granted : (after ≢ w.storage) ⊎ (put_status ≡ 200) → checked ≡ ok (true, true)
      granted (inl changed) = elim handle_put-storage [
        | inl same ↦ absurd (changed same)
        | inr (admitted, _) ↦ admitted.1
      ]
      granted (inr done) = ((handle_put-status).6.0 done).0.1

  module _ {holds : S → Text → Option Artifact} {names : Text → Bool}
      (law : IsStore w.backend holds names) where
    -- Over a backend that obeys IsStore, an artifact under a valid hash stays as it is, whatever a
    -- PUT is answered.
    pub handle_put-keeps :
        (j : Text) (a : Artifact)
        → valid_hash j ≡ true
        → holds w.storage j ≡ some a
        → holds after j ≡ some a
    handle_put-keeps j a jv e = elim handle_put-storage [
      | inl same ↦ rw same e
      | inr (admitted, new) ↦
          rw new (law.put_keeps r.hash r.body r.content_length w.storage j a admitted.0 jv e)
    ]

    pub handle_put-uploads :
        put_status ≡ 200
        → (holds w.storage r.hash ≡ none)
          × (content_of (holds after r.hash) ≡ some (upload r.body r.content_length))
    handle_put-uploads done =
        let (admitted, stored) = handle_put-status.6.0 done in
        rw (new_storage admitted)
          (law.put_ok r.hash r.body r.content_length w.storage admitted.0 stored)

  module _ {holds : S → Text → Option Artifact} {names : Text → Bool}
      (law : IsCache w.backend holds names) where
    -- Over a backend that obeys IsCache, a PUT answered 200 has stored, under a hash that was
    -- free, exactly the Content-Length bytes that the client sent first.
    pub handle_put-stores :
        put_status ≡ 200
        → (holds w.storage r.hash ≡ none)
          × (content_of (holds after r.hash) ≡ some (upload r.body r.content_length))
          × (pos (length (upload r.body r.content_length)) ≡ r.content_length)
    handle_put-stores done =
        let (admitted, stored) = handle_put-status.6.0 done in
        let (free, whole) = handle_put-uploads law.store done in
        (free, whole, law.put_sized r.hash r.body r.content_length w.storage admitted.0 stored)

    -- Over a backend that obeys IsCache, a PUT to a valid hash has changed nothing under it, or has
    -- stored the whole upload there, with as many bytes as its Content-Length, whatever it is
    -- answered.
    pub handle_put-whole :
        valid_hash r.hash ≡ true
        → (holds after r.hash ≡ holds w.storage r.hash)
          ⊎ ((content_of (holds after r.hash) ≡ some (upload r.body r.content_length))
              × (pos (length (upload r.body r.content_length)) ≡ r.content_length))
    handle_put-whole v = elim handle_put-storage [
      | inl same ↦ inl (ap (λ s. holds s r.hash) same)
      | inr (_, new) ↦ rw new (law.put_whole r.hash r.body r.content_length w.storage v)
    ]

-- ===== src/Storage/S3/Race.antt =====
-- Two calls of S3.Put for one hash whose requests interleave.
use nx_remote_cache.Base.{
  Bool, Bool-cases, Option, Result, Result-cases, Text, arith, err, false, inl, inr, none, ok, refl,
  some, sym, true, ℤ, ◌≡◌,
}
use nx_remote_cache.Storage.{Error, already_exists, failure, Reader}
use nx_remote_cache.Storage.Contract.{Artifact, content_of, upload}
use nx_remote_cache.Storage.Keys.{key}
use nx_remote_cache.Storage.S3
use nx_remote_cache.Storage.S3.{S3Client, upload_object}
use nx_remote_cache.Storage.Keys.Names.{is_some-none}
use nx_remote_cache.Storage.S3.Client.{IsBucket, IsWhole}
use nx_remote_cache.Storage.S3.Ops.{exists-ok, upload-whole}

-- A Put before HeadObject, before PutObject, and after its end.
pub data PutState : Type 0 where
  checking : PutState
  uploading : PutState
  returned : Result Error (Unit {0}) → PutState

abbrev pub seen : Result Error Bool → PutState
seen (err _) = returned (err failure)
seen (ok true) = returned (err already_exists)
seen (ok false) = uploading

module _ {S : Type 0} (client : S3Client S) (prefix hash : Text) (r : Reader) (size : ℤ) where
  -- The next request of a Put.
  unfoldable pub put_step : PutState → S → PutState × S
  put_step checking s = let (found, s') = S3.exists client prefix hash s in (seen found, s')
  put_step uploading s =
      let (res, s') = upload_object client prefix hash r size s in (returned res, s')
  put_step (returned res) s = (returned res, s)

  -- A Put whose two requests nothing separates is S3.Put.
  pub put_step_twice :
      (s : S)
      → (let (p, s') = put_step checking s in put_step p s')
        ≡ (let (res, s') = S3.put client prefix hash r size s in (returned res, s'))
  unfolding put_step S3.put
  put_step_twice s = elim (Result-cases (S3.exists client prefix hash s).0) [
    | inr (x, e) ↦ ground arith
    | inl (there, e) ↦ elim (Bool-cases there) [ inl t ↦ ground arith | inr t ↦ ground arith ]
  ]

module _ {S : Type 0} (client : S3Client S) (objects : S → Text → Option Artifact)
    (law : IsBucket client objects) (prefix hash : Text) where
  stored :
      (r : Reader) (size : ℤ) (x : Result Error Bool) (s : S)
      → (put_step client prefix hash r size (seen x) s).0 ≡ returned (ok tt)
      → (x ≡ ok false)
        × IsWhole
            (objects (put_step client prefix hash r size (seen x) s).1 (key prefix hash))
            r
            size
  unfolding put_step
  stored r size (err x) s e = absurd (ground arith)
  stored r size (ok true) s e = absurd (ground arith)
  stored r size (ok false) s e =
      (refl, upload-whole client objects law prefix hash r size s (ground arith))

  -- When two Puts of one hash both look for the object before either uploads it, and both then
  -- succeed, the hash was free, the first Put has stored its upload, and the second has replaced it
  -- by its own.
  pub put_step-overwrites :
      (r₁ r₂ : Reader) (n₁ n₂ : ℤ) (s : S)
      → let a₁ = put_step client prefix hash r₁ n₁ checking s in
        let b₁ = put_step client prefix hash r₂ n₂ checking a₁.1 in
        let a₂ = put_step client prefix hash r₁ n₁ a₁.0 b₁.1 in
        let b₂ = put_step client prefix hash r₂ n₂ b₁.0 a₂.1 in
        a₂.0 ≡ returned (ok tt)
        → b₂.0 ≡ returned (ok tt)
        → (objects s (key prefix hash) ≡ none)
          × (content_of (objects a₂.1 (key prefix hash)) ≡ some (upload r₁ n₁))
          × (content_of (objects b₂.1 (key prefix hash)) ≡ some (upload r₂ n₂))
  unfolding put_step
  put_step-overwrites r₁ r₂ n₁ n₂ s first second =
      let found = S3.exists client prefix hash s in
      let (free, whole₁) = stored r₁ n₁ found.0 (S3.exists client prefix hash found.1).1 first in
      let (_, whole₂) = stored r₂ n₂ (S3.exists client prefix hash found.1).0 _ second in
      (
        is_some-none (objects s (key prefix hash))
            (sym (exists-ok client objects law prefix hash s false free)),
        whole₁.0,
        whole₂.0,
      )

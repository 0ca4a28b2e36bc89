-- ===== src/Storage/S3/Ops.antt =====
-- What each operation of the S3 backend does to the objects of the bucket.
use nx_remote_cache.Base.{
  Bool, Bool-cases, List, Option, Result-cases, Text, ap, arith, err, false, inl, inr, is_some,
  none, ok, some, sym, text_eq, true, ℕ, ℤ, ◌∙◌, ◌≡◌, ◌≢◌, ◌⊎◌,
}
use nx_remote_cache.Storage.{not_found, already_exists, Reader}
use nx_remote_cache.Storage.Contract.{Artifact, content_of}
use nx_remote_cache.Storage.Keys.{key}
use nx_remote_cache.Storage.Keys.Names.{is_some-none}
use nx_remote_cache.Storage.S3
use nx_remote_cache.Storage.S3.{
  S3Client, Object, ObjectPage, is_not_found, upload_object, entries_of, add_object, given, or_zero,
  s3,
}
use nx_remote_cache.Storage.S3.Client.{IsWhole, IsBucket}

module _ {S : Type 0} (c : S3Client S) (objects : S → Text → Option Artifact)
    (law : IsBucket c objects) (prefix : Text) where
  pub objects-exists :
      (h : Text) (s : S) (k : Text) → objects (S3.exists c prefix h s).1 k ≡ objects s k
  unfolding S3.exists
  objects-exists h s k = ground (arith, law.head_keeps (key prefix h) s k)

  pub exists-ok :
      (h : Text) (s : S) (found : Bool)
      → (S3.exists c prefix h s).0 ≡ ok found
      → found ≡ is_some (objects s (key prefix h))
  unfolding S3.exists
  exists-ok h s found e = elim (Result-cases (c.head_object (key prefix h) s).0) [
    | inl (u, q) ↦ ground (arith, law.head_ok (key prefix h) s)
    | inr (x, q) ↦ ground (arith, law.head_missing (key prefix h) s x q)
  ]

  pub objects-get : (h : Text) (s : S) (k : Text) → objects (S3.get c prefix h s).1 k ≡ objects s k
  unfolding S3.get
  objects-get h s k = ground (arith, law.get_keeps (key prefix h) s k)

  pub get-ok :
      (h : Text) (s : S) (bs : List ℕ) (n : ℕ)
      → (S3.get c prefix h s).0 ≡ ok (bs, n)
      → content_of (objects s (key prefix h)) ≡ some bs
  unfolding S3.get
  get-ok h s bs n e = elim (Result-cases (c.get_object (key prefix h) s).0) [
    | inl ((body, size), q) ↦ law.get_ok (key prefix h) s bs size (ground arith)
    | inr (x, q) ↦ absurd (ground arith)
  ]

  pub get-not_found :
      (h : Text) (s : S) → (S3.get c prefix h s).0 ≡ err not_found → objects s (key prefix h) ≡ none
  unfolding S3.get
  get-not_found h s e = elim (Result-cases (c.get_object (key prefix h) s).0) [
    | inl (b, q) ↦ absurd (ground arith)
    | inr (x, q) ↦ law.get_missing (key prefix h) s x q (ground arith)
  ]

  objects-upload :
      (h : Text) (r : Reader) (size : ℤ) (s : S)
      → (upload_object c prefix h r size s).1 ≡ (c.put_object (key prefix h) r size s).1
  unfolding upload_object
  objects-upload h r size s = ground arith

  upload-ok :
      (h : Text) (r : Reader) (size : ℤ) (s : S)
      → (upload_object c prefix h r size s).0 ≡ ok tt
      → (c.put_object (key prefix h) r size s).0 ≡ ok tt
  unfolding upload_object
  upload-ok h r size s e = ground arith

  pub upload-whole :
      (h : Text) (r : Reader) (size : ℤ) (s : S)
      → (upload_object c prefix h r size s).0 ≡ ok tt
      → IsWhole (objects (upload_object c prefix h r size s).1 (key prefix h)) r size
  upload-whole h r size s e =
      rw (objects-upload h r size s) (law.put_ok (key prefix h) r size s (upload-ok h r size s e))

  upload-ne-exists :
      (h : Text) (r : Reader) (size : ℤ) (s : S)
      → (upload_object c prefix h r size s).0 ≢ err already_exists
  unfolding upload_object
  upload-ne-exists h r size s e = ground arith

  module _ (h : Text) (r : Reader) (size : ℤ) (s : S) where
    -- Put ends at the check, or nothing is found and it goes on to PutObject.
    put-cases :
        (((S3.put c prefix h r size s).1 ≡ (S3.exists c prefix h s).1)
          × ((S3.put c prefix h r size s).0 ≢ ok tt)
          × ((S3.put c prefix h r size s).0 ≡ err already_exists
              → (S3.exists c prefix h s).0 ≡ ok true))
        ⊎ (((S3.exists c prefix h s).0 ≡ ok false)
            × (S3.put c prefix h r size s
                ≡ upload_object c prefix h r size (S3.exists c prefix h s).1))
    unfolding S3.put
    put-cases = elim (Result-cases (S3.exists c prefix h s).0) [
      | inr (x, q) ↦ inl (ground arith, λ e. ground arith, λ e. ground arith)
      | inl (there, q) ↦ elim (Bool-cases there) [
        | inl taken ↦ inl (ground arith, λ e. ground arith, λ e. ground arith)
        | inr free ↦ inr (ground arith, ground arith)
      ]
    ]

    pub put-others :
        (k : Text)
        → text_eq (key prefix h) k ≡ false
        → objects (S3.put c prefix h r size s).1 k ≡ objects s k
    put-others k apart = elim put-cases [
      | inl (same, _, _) ↦ rw same (objects-exists h s k)
      | inr (_, goes) ↦
          rw (goes, objects-upload h r size (S3.exists c prefix h s).1)
            (law.put_others (key prefix h) r size (S3.exists c prefix h s).1 k apart
              ∙ objects-exists h s k)
    ]

    pub put-taken :
        (a : Artifact)
        → objects s (key prefix h) ≡ some a
        → objects (S3.put c prefix h r size s).1 (key prefix h) ≡ some a
    put-taken a there = elim put-cases [
      | inl (same, _, _) ↦ rw same (objects-exists h s (key prefix h) ∙ there)
      | inr (missing, _) ↦
          let bad : false ≡ true = exists-ok h s false missing ∙ ap is_some there in cc
    ]

    pub put-ok :
        (S3.put c prefix h r size s).0 ≡ ok tt
        → (objects s (key prefix h) ≡ none)
          × IsWhole (objects (S3.put c prefix h r size s).1 (key prefix h)) r size
    put-ok done = elim put-cases [
      | inl (_, bad, _) ↦ absurd (bad done)
      | inr (missing, goes) ↦
          let s' = (S3.exists c prefix h s).1 in
          (
            is_some-none (objects s (key prefix h)) (sym (exists-ok h s false missing)),
            rw goes (upload-whole h r size s' (ap (λ x. x.0) (sym goes) ∙ done)),
          )
    ]

    pub put-exists :
        (S3.put c prefix h r size s).0 ≡ err already_exists
        → is_some (objects s (key prefix h)) ≡ true
    put-exists e = elim put-cases [
      | inl (_, _, there) ↦ sym (exists-ok h s true (there e))
      | inr (_, goes) ↦
          absurd
            (upload-ne-exists h r size (S3.exists c prefix h s).1 (ap (λ x. x.0) (sym goes) ∙ e))
    ]

    pub put-whole :
        (objects (S3.put c prefix h r size s).1 (key prefix h) ≡ objects s (key prefix h))
        ⊎ IsWhole (objects (S3.put c prefix h r size s).1 (key prefix h)) r size
    put-whole = elim put-cases [
      | inl (same, _, _) ↦
          inl (ap (λ x. objects x (key prefix h)) same ∙ objects-exists h s (key prefix h))
      | inr (_, goes) ↦
          let s' = (S3.exists c prefix h s).1 in
          let new : (S3.put c prefix h r size s).1 ≡ (c.put_object (key prefix h) r size s').1 =
            ap (λ x. x.1) goes ∙ objects-upload h r size s' in
          rw new (elim (law.put_atomic (key prefix h) r size s') [
            | inl same ↦ inl (same ∙ objects-exists h s (key prefix h))
            | inr whole ↦ inr whole
          ])
    ]

  module _ (h : Text) (s : S) where
    delete-cases :
        (((S3.delete c prefix h s).1 ≡ (S3.exists c prefix h s).1)
          × ((S3.delete c prefix h s).0 ≢ ok tt)
          × ((S3.delete c prefix h s).0 ≡ err not_found → (S3.exists c prefix h s).0 ≡ ok false))
        ⊎ (((S3.exists c prefix h s).0 ≡ ok true)
            × ((S3.delete c prefix h s).1
                ≡ (c.delete_object (key prefix h) (S3.exists c prefix h s).1).1)
            × ((S3.delete c prefix h s).0 ≡ ok tt
                → (c.delete_object (key prefix h) (S3.exists c prefix h s).1).0 ≡ ok tt)
            × ((S3.delete c prefix h s).0 ≢ err not_found))
    unfolding S3.delete
    delete-cases = elim (Result-cases (S3.exists c prefix h s).0) [
      | inr (x, q) ↦ inl (ground arith, λ e. ground arith, λ e. ground arith)
      | inl (there, q) ↦ elim (Bool-cases there) [
        | inl taken ↦ inr (ground arith, ground arith, λ e. ground arith, λ e. ground arith)
        | inr free ↦ inl (ground arith, λ e. ground arith, λ e. ground arith)
      ]
    ]

    pub delete-others :
        (k : Text)
        → text_eq (key prefix h) k ≡ false
        → objects (S3.delete c prefix h s).1 k ≡ objects s k
    delete-others k apart = elim delete-cases [
      | inl (same, _, _) ↦ rw same (objects-exists h s k)
      | inr (_, new, _, _) ↦ rw new (
          law.delete_others (key prefix h) (S3.exists c prefix h s).1 k apart
          ∙ objects-exists h s k)
    ]

    pub delete-ok :
        (S3.delete c prefix h s).0 ≡ ok tt
        → (is_some (objects s (key prefix h)) ≡ true)
          × (objects (S3.delete c prefix h s).1 (key prefix h) ≡ none)
    delete-ok e = elim delete-cases [
      | inl (_, bad, _) ↦ absurd (bad e)
      | inr (there, new, done, _) ↦ (
        sym (exists-ok h s true there),
        rw new (law.delete_ok (key prefix h) (S3.exists c prefix h s).1 (done e)),
      )
    ]

    pub delete-not_found :
        (S3.delete c prefix h s).0 ≡ err not_found
        → (objects s (key prefix h) ≡ none)
          × (objects (S3.delete c prefix h s).1 (key prefix h) ≡ none)
    delete-not_found e = elim delete-cases [
      | inl (same, _, missing) ↦
          let free =
            is_some-none (objects s (key prefix h)) (sym (exists-ok h s false (missing e))) in
          (free, rw same (objects-exists h s (key prefix h) ∙ free))
      | inr (_, _, _, bad) ↦ absurd (bad e)
    ]

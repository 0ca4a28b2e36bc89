-- ===== src/Storage/Gcs/Ops.antt =====
-- What each operation of the GCS backend does to the objects of the bucket.
use nx_remote_cache.Base.{
  Bool, List, Option, Result, Result-cases, Text, ap, arith, err, false, inl, inr, is_some, none,
  ok, some, sym, text_eq, true, ℕ, ℤ, ◌++◌, ◌∙◌, ◌≡◌, ◌≢◌,
}
use nx_remote_cache.Storage.{not_found, already_exists, failure, Reader}
use nx_remote_cache.Storage.Contract.{Artifact, content_of, upload}
use nx_remote_cache.Storage.Keys.{key}
use nx_remote_cache.Storage.Gcs
use nx_remote_cache.Storage.Gcs.{
  GcsClient, GcsError, copy_in, finalize, is_not_exist, is_precondition_failed,
}
use nx_remote_cache.Storage.Gcs.Client.{Writing, IsBucket}

module _ {S W : Type 0} (c : GcsClient S W) (state : W → Writing)
    (objects : S → Text → Option Artifact) (law : IsBucket c state objects) (prefix : Text) where
  pub objects-exists :
      (h : Text) (s : S) (k : Text) → objects (Gcs.exists c prefix h s).1 k ≡ objects s k
  unfolding Gcs.exists
  objects-exists h s k = ground (arith, law.attrs_keeps (key prefix h) s k)

  pub exists-ok :
      (h : Text) (s : S) (found : Bool)
      → (Gcs.exists c prefix h s).0 ≡ ok found
      → found ≡ is_some (objects s (key prefix h))
  unfolding Gcs.exists
  exists-ok h s found e = elim (Result-cases (c.attrs (key prefix h) s).0) [
    | inl (u, q) ↦ ground (arith, law.attrs_ok (key prefix h) s)
    | inr (x, q) ↦ ground (arith, law.attrs_missing (key prefix h) s x q)
  ]

  pub objects-get : (h : Text) (s : S) (k : Text) → objects (Gcs.get c prefix h s).1 k ≡ objects s k
  unfolding Gcs.get
  objects-get h s k = ground (arith, law.read_keeps (key prefix h) s k)

  pub get-ok :
      (h : Text) (s : S) (bs : List ℕ) (n : ℕ)
      → (Gcs.get c prefix h s).0 ≡ ok (bs, n)
      → content_of (objects s (key prefix h)) ≡ some bs
  unfolding Gcs.get
  get-ok h s bs n e = elim (Result-cases (c.new_reader (key prefix h) s).0) [
    | inl (got, q) ↦ law.read_ok (key prefix h) s bs n (ground arith)
    | inr (x, q) ↦ absurd (ground arith)
  ]

  pub get-not_found :
      (h : Text) (s : S)
      → (Gcs.get c prefix h s).0 ≡ err not_found
      → objects s (key prefix h) ≡ none
  unfolding Gcs.get
  get-not_found h s e = elim (Result-cases (c.new_reader (key prefix h) s).0) [
    | inl (b, q) ↦ absurd (ground arith)
    | inr (x, q) ↦ law.read_missing (key prefix h) s x q (ground arith)
  ]

  pub delete-others :
      (h : Text) (s : S) (k : Text)
      → text_eq (key prefix h) k ≡ false
      → objects (Gcs.delete c prefix h s).1 k ≡ objects s k
  unfolding Gcs.delete
  delete-others h s k apart = ground (arith, law.delete_others (key prefix h) s k apart)

  pub delete-ok :
      (h : Text) (s : S)
      → (Gcs.delete c prefix h s).0 ≡ ok tt
      → (is_some (objects s (key prefix h)) ≡ true)
        × (objects (Gcs.delete c prefix h s).1 (key prefix h) ≡ none)
  unfolding Gcs.delete
  delete-ok h s e = elim (Result-cases (c.delete (key prefix h) s).0) [
    | inl (u, q) ↦ let (there, gone) = law.delete_ok (key prefix h) s q in (there, ground arith)
    | inr (x, q) ↦ absurd (ground arith)
  ]

  pub delete-not_found :
      (h : Text) (s : S)
      → (Gcs.delete c prefix h s).0 ≡ err not_found
      → (objects s (key prefix h) ≡ none)
        × (objects (Gcs.delete c prefix h s).1 (key prefix h) ≡ none)
  unfolding Gcs.delete
  delete-not_found h s e = elim (Result-cases (c.delete (key prefix h) s).0) [
    | inl (u, q) ↦ absurd (ground arith)
    | inr (x, q) ↦
        let (free, gone) = law.delete_missing (key prefix h) s x q (ground arith) in
        (free, ground arith)
  ]

  finalize-ok : (w : W) (s : S) → (finalize c w s).0 ≡ ok tt → (c.close w s).0 ≡ ok tt
  unfolding finalize
  finalize-ok w s e = ground arith

  finalize-exists :
      (w : W) (s : S)
      → (finalize c w s).0 ≡ err already_exists
      → (x : GcsError) × ((c.close w s).0 ≡ err x) × (is_precondition_failed x ≡ true)
  unfolding finalize
  finalize-exists w s e = elim (Result-cases (c.close w s).0) [
    | inl (u, q) ↦ absurd (ground arith)
    | inr (x, q) ↦ (x, q, ground arith)
  ]

  module _ (h : Text) (r : Reader) (size : ℤ) (s : S) where
    -- The writer and the bucket once the copy is over.
    abbrev pub copied : Result GcsError (Unit {0}) × W × S
    copied = copy_in c r size (c.new_writer (key prefix h) true) s

    objects-copied : (k : Text) → objects copied.2 k ≡ objects s k
    unfolding copy_in
    objects-copied k = law.write_keeps (upload r size) (c.new_writer (key prefix h) true) s k

    target-copied : (state copied.1).target ≡ key prefix h
    unfolding copy_in
    target-copied =
        law.write_target (upload r size) (c.new_writer (key prefix h) true) s
        ∙ ap (λ x. x.target) (law.new_writer_state (key prefix h) true)

    condition-copied : (state copied.1).does_not_exist ≡ true
    unfolding copy_in
    condition-copied =
        law.write_condition (upload r size) (c.new_writer (key prefix h) true) s
        ∙ ap (λ x. x.does_not_exist) (law.new_writer_state (key prefix h) true)

    pub written-copied :
        (c.write (upload r size) (c.new_writer (key prefix h) true) s).0 ≡ ok tt
        → (state copied.1).written ≡ upload r size
    unfolding copy_in
    written-copied e =
        law.write_ok (upload r size) (c.new_writer (key prefix h) true) s e
        ∙ ap (λ x. x.written ++ upload r size) (law.new_writer_state (key prefix h) true)

    pub copied-ok :
        copied.0 ≡ ok tt → (c.write (upload r size) (c.new_writer (key prefix h) true) s).0 ≡ ok tt
    unfolding copy_in
    copied-ok e = ground arith

    -- Whatever the copy came to, Close is what Put ends with.
    pub put-disk : (Gcs.put c prefix h r size s).1 ≡ (c.close copied.1 copied.2).1
    unfolding Gcs.put finalize
    put-disk = ground arith

    put-result :
        (Gcs.put c prefix h r size s).0 ≢ err failure
        → (copied.0 ≡ ok tt) × ((Gcs.put c prefix h r size s).0 ≡ (finalize c copied.1 copied.2).0)
    unfolding Gcs.put
    put-result e = elim (Result-cases copied.0) [
      | inl (u, q) ↦ (ground arith, ground arith)
      | inr (x, q) ↦ absurd (e (ground arith))
    ]

    pub put-others :
        (k : Text)
        → text_eq (key prefix h) k ≡ false
        → objects (Gcs.put c prefix h r size s).1 k ≡ objects s k
    put-others k apart = rw put-disk (
        law.close_others copied.1 copied.2 k (ap (λ x. text_eq x k) target-copied ∙ apart)
        ∙ objects-copied k)

    pub put-taken :
        (a : Artifact)
        → objects s (key prefix h) ≡ some a
        → objects (Gcs.put c prefix h r size s).1 (key prefix h) ≡ some a
    put-taken a there =
        let kept = law.close_keeps copied.1 copied.2 a condition-copied in
        rw put-disk ((rw target-copied at kept) (objects-copied (key prefix h) ∙ there))

    pub closed-ok :
        (c.close copied.1 copied.2).0 ≡ ok tt
        → (objects s (key prefix h) ≡ none)
          × (content_of (objects (Gcs.put c prefix h r size s).1 (key prefix h))
              ≡ some (state copied.1).written)
    closed-ok e =
        let free = law.close_free copied.1 copied.2 condition-copied e in
        let stored = law.close_ok copied.1 copied.2 e in
        (
          sym (objects-copied (key prefix h)) ∙ rw target-copied at free,
          rw put-disk (rw target-copied at stored),
        )

    pub put-ok :
        (Gcs.put c prefix h r size s).0 ≡ ok tt
        → (objects s (key prefix h) ≡ none)
          × (content_of (objects (Gcs.put c prefix h r size s).1 (key prefix h))
              ≡ some (upload r size))
    put-ok e =
        let (whole, same) = put-result (λ bad. cc (e, bad)) in
        let (free, stored) = closed-ok (finalize-ok copied.1 copied.2 (sym same ∙ e)) in
        (free, stored ∙ ap some (written-copied (copied-ok whole)))

    pub put-exists :
        (Gcs.put c prefix h r size s).0 ≡ err already_exists
        → is_some (objects s (key prefix h)) ≡ true
    put-exists e =
        let (whole, same) = put-result (λ bad. cc (e, bad)) in
        let (x, closed, taken) = finalize-exists copied.1 copied.2 (sym same ∙ e) in
        let there = law.close_failed copied.1 copied.2 x condition-copied closed taken in
        ap is_some (sym (objects-copied (key prefix h))) ∙ rw target-copied at there

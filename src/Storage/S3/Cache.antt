-- ===== src/Storage/S3/Cache.antt =====
-- The S3 backend against the promises of the Backend interface.
use nx_remote_cache.Base.{
  All, Bool-cases, Option, Result-cases, Text, ap, arith, inl, inr, ok, some, sym, text_eq,
  text_eq_iff, true, ℤ, ◌∙◌, ◌≡◌,
}
use nx_remote_cache.Storage.{valid_hash}
use nx_remote_cache.Storage.Contract.{Artifact, IsStore, IsCache}
use nx_remote_cache.Storage.Keys.{key}
use nx_remote_cache.Storage.Keys.Prefix.{IsPlain, key-apart}
use nx_remote_cache.Storage.Keys.Names.{held, names, IsTidy, IsEntry, held-change, names-apart}
use nx_remote_cache.Storage.S3
use nx_remote_cache.Storage.{ListPage, Reader}
use nx_remote_cache.Storage.Keys.{list_prefix}
use nx_remote_cache.Storage.S3.{S3Client, s3, given, max_keys, entries_of}
use nx_remote_cache.Storage.S3.Client.{IsBucket}
use nx_remote_cache.Storage.S3.Ops
use nx_remote_cache.Storage.S3.Listing.{entries_of-IsEntry}

module _ {S : Type 0} (c : S3Client S) (objects : S → Text → Option Artifact)
    (law : IsBucket c objects) (prefix : Text) (plain : IsPlain prefix)
    (tidy : IsTidy objects prefix) where
  put-keeps :
      (h : Text) (r : Reader) (size : ℤ) (s : S) (j : Text) (a : Artifact)
      → valid_hash h ≡ true
      → valid_hash j ≡ true
      → objects s (key prefix j) ≡ some a
      → objects (S3.put c prefix h r size s).1 (key prefix j) ≡ some a
  put-keeps h r size s j a hv jv e = elim (Bool-cases (text_eq h j)) [
    | inr apart ↦
        Ops.put-others c objects law prefix h r size s (key prefix j)
          (key-apart prefix h j hv jv apart)
        ∙ e
    | inl same ↦
        let q = (text_eq_iff h j).0 same in
        ap (λ x. objects (S3.put c prefix h r size s).1 (key prefix x)) (sym q)
        ∙ Ops.put-taken c objects law prefix h r size s a (ap (λ x. objects s (key prefix x)) q ∙ e)
  ]

  objects-list :
      (cursor : Text) (limit : ℤ) (s : S) (k : Text)
      → objects (S3.list c prefix cursor limit s).1 k ≡ objects s k
  unfolding S3.list
  objects-list cursor limit s k =
      ground
        (arith, law.list_keeps (max_keys limit) (given (list_prefix prefix)) (given cursor) s k)

  list-IsEntry :
      (cursor : Text) (limit : ℤ) (s : S) (page : ListPage)
      → (S3.list c prefix cursor limit s).0 ≡ ok page
      → All (IsEntry objects prefix s) page.entries
  unfolding S3.list
  list-IsEntry cursor limit s page e =
      elim (Result-cases
        (c.list_objects (max_keys limit) (given (list_prefix prefix)) (given cursor) s).0) [
          | inr (x, q) ↦ absurd (ground arith)
          | inl (out, q) ↦
              let same : page.entries ≡ entries_of prefix out.contents = ground arith in
              rw same (
                entries_of-IsEntry objects prefix tidy s out.contents (
                  law.list_ok (max_keys limit) (given (list_prefix prefix)) (given cursor) s out q))
        ]

  s3-IsStore : IsStore (s3 c prefix) (held objects prefix) (names prefix)
  s3-IsStore = record {
    names_valid = λ h v. ground arith;
    put_keeps = λ h r size s j a hv jv e. rw jv (put-keeps h r size s j a hv jv (ground arith));
    put_others = λ h r size s j hv jv apart. rw jv (
        Ops.put-others c objects law prefix h r size s (key prefix j)
          (key-apart prefix h j hv jv apart));
    put_ok = λ h r size s hv e.
        let (free, whole) = Ops.put-ok c objects law prefix h r size s e in rw hv (free, whole.0);
    put_exists = λ h r size s hv e. rw hv (Ops.put-exists c objects law prefix h r size s e);
    get_keeps = λ h s j.
        held-change objects prefix s _ j
          (λ v. Ops.objects-get c objects law prefix h s (key prefix j));
    get_ok = λ h s bs n v e. rw v (Ops.get-ok c objects law prefix h s bs n e);
    get_not_found = λ h s v e. rw v (Ops.get-not_found c objects law prefix h s e);
    exists_keeps = λ h s j.
        held-change objects prefix s _ j
          (λ v. Ops.objects-exists c objects law prefix h s (key prefix j));
    exists_ok = λ h s found v e. rw v (Ops.exists-ok c objects law prefix h s found e);
    delete_others = λ h s j named apart. held-change objects prefix s _ j (λ v.
        Ops.delete-others c objects law prefix h s (key prefix j)
          (names-apart prefix h j plain named v apart));
    delete_ok = λ h s v e. rw v (Ops.delete-ok c objects law prefix h s e);
    delete_not_found = λ h s v e. rw v (Ops.delete-not_found c objects law prefix h s e);
    list_keeps = λ cursor limit s j.
        held-change objects prefix s _ j (λ v. objects-list cursor limit s (key prefix j));
    list_ok = λ cursor limit s page e. list-IsEntry cursor limit s page e;
  }

  -- The S3 backend keeps every promise of IsCache to one caller at a time: over a client that
  -- obeys IsBucket, with no prefix or a clean one, and as long as no key of the bucket under the
  -- prefix has a component that path.Join would take out.
  pub s3-IsCache : IsCache (s3 c prefix) (held objects prefix) (names prefix)
  s3-IsCache = record {
    store = s3-IsStore;
    put_sized = λ h r size s hv e.
        let (free, whole) = Ops.put-ok c objects law prefix h r size s e in whole.1;
    put_whole = λ h r size s hv. rw hv (Ops.put-whole c objects law prefix h r size s);
  }

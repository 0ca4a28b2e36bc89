-- ===== src/Storage/Gcs/Cache.antt =====
-- The GCS backend against the promises of the Backend interface.
use nx_remote_cache.Base.{
  All, Bool-cases, List, Option, Result-cases, Text, [], ap, arith, inl, inr, map, ok, refl, some,
  sym, text_eq, text_eq_iff, true, ℤ, ◌∙◌, ◌∷◌, ◌≡◌,
}
use nx_remote_cache.Storage.{ListPage, Reader, valid_hash}
use nx_remote_cache.Storage.Contract.{Artifact, IsStore}
use nx_remote_cache.Storage.Keys.{key, list_prefix}
use nx_remote_cache.Storage.Keys.Prefix.{IsPlain, key-apart}
use nx_remote_cache.Storage.Keys.Names.{
  held, names, IsTidy, IsEntry, held-change, unkey-IsEntry, names-apart,
}
use nx_remote_cache.Storage.Local.{effective_limit}
use nx_remote_cache.Storage.Gcs
use nx_remote_cache.Storage.Gcs.{GcsClient, ObjectAttrs, gcs, entry_of}
use nx_remote_cache.Storage.Gcs.Client.{Writing, IsBucket, IsListed}
use nx_remote_cache.Storage.Gcs.Ops

module _ {S W : Type 0} (c : GcsClient S W) (state : W → Writing)
    (objects : S → Text → Option Artifact) (law : IsBucket c state objects) (prefix : Text)
    (plain : IsPlain prefix) (tidy : IsTidy objects prefix) where
  put-keeps :
      (h : Text) (r : Reader) (size : ℤ) (s : S) (j : Text) (a : Artifact)
      → valid_hash h ≡ true
      → valid_hash j ≡ true
      → objects s (key prefix j) ≡ some a
      → objects (Gcs.put c prefix h r size s).1 (key prefix j) ≡ some a
  put-keeps h r size s j a hv jv e = elim (Bool-cases (text_eq h j)) [
    | inr apart ↦
        Ops.put-others c state objects law prefix h r size s (key prefix j)
          (key-apart prefix h j hv jv apart)
        ∙ e
    | inl same ↦
        let q = (text_eq_iff h j).0 same in
        ap (λ x. objects (Gcs.put c prefix h r size s).1 (key prefix x)) (sym q)
        ∙ Ops.put-taken c state objects law prefix h r size s a
            (ap (λ x. objects s (key prefix x)) q ∙ e)
  ]

  objects-list :
      (cursor : Text) (limit : ℤ) (s : S) (k : Text)
      → objects (Gcs.list c prefix cursor limit s).1 k ≡ objects s k
  unfolding Gcs.list
  objects-list cursor limit s k =
      ground (arith, law.page_keeps (list_prefix prefix) (effective_limit limit) cursor s k)

  entries-IsEntry :
      (s : S) (objs : List ObjectAttrs)
      → All (IsListed (objects s) (list_prefix prefix)) objs
      → All (IsEntry objects prefix s) (map (entry_of prefix) objs)
  entries-IsEntry s [] h = tt
  entries-IsEntry s (obj ∷ objs) ((under, a, found, timed), h) = (
    unkey-IsEntry objects prefix s obj.name a (entry_of prefix obj) tidy under found refl timed,
    entries-IsEntry s objs h,
  )

  list-IsEntry :
      (cursor : Text) (limit : ℤ) (s : S) (page : ListPage)
      → (Gcs.list c prefix cursor limit s).0 ≡ ok page
      → All (IsEntry objects prefix s) page.entries
  unfolding Gcs.list
  list-IsEntry cursor limit s page e =
      elim (Result-cases (c.next_page (list_prefix prefix) (effective_limit limit) cursor s).0) [
        | inr (x, q) ↦ absurd (ground arith)
        | inl ((objs, next), q) ↦
            let same : page.entries ≡ map (entry_of prefix) objs = ground arith in
            rw same (
              entries-IsEntry s objs
                (law.page_ok (list_prefix prefix) (effective_limit limit) cursor s objs next q))
      ]

  -- The GCS backend keeps every promise of IsStore to one caller at a time, so that an upload
  -- never replaces what is stored, and one that succeeds has stored all that the limit lets
  -- through: over a client that obeys IsBucket, with no prefix or a clean one, and as long as no
  -- name in the bucket under the prefix has a component that path.Join would take out.
  pub gcs-IsStore : IsStore (gcs c prefix) (held objects prefix) (names prefix)
  gcs-IsStore = record {
    names_valid = λ h v. ground arith;
    put_keeps = λ h r size s j a hv jv e. rw jv (put-keeps h r size s j a hv jv (ground arith));
    put_others = λ h r size s j hv jv apart. rw jv (
        Ops.put-others c state objects law prefix h r size s (key prefix j)
          (key-apart prefix h j hv jv apart));
    put_ok = λ h r size s hv e.
        let (free, whole) = Ops.put-ok c state objects law prefix h r size s e in
        rw hv (free, whole);
    put_exists = λ h r size s hv e. rw hv (Ops.put-exists c state objects law prefix h r size s e);
    get_keeps = λ h s j.
        held-change objects prefix s _ j
          (λ v. Ops.objects-get c state objects law prefix h s (key prefix j));
    get_ok = λ h s bs n v e. rw v (Ops.get-ok c state objects law prefix h s bs n e);
    get_not_found = λ h s v e. rw v (Ops.get-not_found c state objects law prefix h s e);
    exists_keeps = λ h s j.
        held-change objects prefix s _ j
          (λ v. Ops.objects-exists c state objects law prefix h s (key prefix j));
    exists_ok = λ h s found v e. rw v (Ops.exists-ok c state objects law prefix h s found e);
    delete_others = λ h s j named apart. held-change objects prefix s _ j (λ v.
        Ops.delete-others c state objects law prefix h s (key prefix j)
          (names-apart prefix h j plain named v apart));
    delete_ok = λ h s v e. rw v (Ops.delete-ok c state objects law prefix h s e);
    delete_not_found = λ h s v e. rw v (Ops.delete-not_found c state objects law prefix h s e);
    list_keeps = λ cursor limit s j.
        held-change objects prefix s _ j (λ v. objects-list cursor limit s (key prefix j));
    list_ok = λ cursor limit s page e. list-IsEntry cursor limit s page e;
  }

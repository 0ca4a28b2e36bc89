-- ===== src/Storage/S3/Listing.antt =====
-- What S3.List makes of the objects that the client lists.
use nx_remote_cache.Base.{
  All, List, Option, Option-cases, Text, [], ap, has_prefix, inl, inr, refl, sym, ◌∙◌, ◌∷◌, ◌≡◌,
}
use nx_remote_cache.Storage.{Entry}
use nx_remote_cache.Storage.Contract.{Artifact}
use nx_remote_cache.Storage.Keys.{list_prefix, unkey}
use nx_remote_cache.Storage.Keys.Names.{IsTidy, IsEntry, unkey-IsEntry}
use nx_remote_cache.Storage.S3.{Object, entries_of, add_object, given, or_zero}
use nx_remote_cache.Storage.S3.Client.{IsListed}

given-prefix : (prefix : Text) → or_zero [] (given prefix) ≡ prefix
given-prefix [] = refl
given-prefix (c ∷ p) = refl

module _ {S : Type 0} (objects : S → Text → Option Artifact) (prefix : Text)
    (tidy : IsTidy objects prefix) (s : S) where
  add_object-IsEntry :
      (obj : Object) (rest : List Entry)
      → IsListed (objects s) (given (list_prefix prefix)) obj
      → All (IsEntry objects prefix s) rest
      → All (IsEntry objects prefix s) (add_object prefix obj rest)
  unfolding add_object
  add_object-IsEntry obj rest there h = elim (Option-cases obj.key) [
    | inl missing ↦ rw (missing, add_object) h
    | inr (k, e) ↦
        let (under, a, found, timed) = there k e in
        let under' = ap (has_prefix k) (sym (given-prefix (list_prefix prefix))) ∙ under in
        rw (e, add_object, timed)
          (
            unkey-IsEntry objects prefix s k a
                (record { hash = unkey prefix k; size = or_zero 0 obj.size; mod_time = a.mod_time })
                tidy under' found refl refl,
            h,
          )
  ]

  pub entries_of-IsEntry :
      (objs : List Object)
      → All (IsListed (objects s) (given (list_prefix prefix))) objs
      → All (IsEntry objects prefix s) (entries_of prefix objs)
  unfolding entries_of
  entries_of-IsEntry [] h = tt
  entries_of-IsEntry (obj ∷ objs) (there, h) =
      add_object-IsEntry obj (entries_of prefix objs) there (entries_of-IsEntry objs h)

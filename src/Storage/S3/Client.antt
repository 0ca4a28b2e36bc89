-- ===== src/Storage/S3/Client.antt =====
-- What the documentation of S3 says of the operations that the client calls.
use nx_remote_cache.Base.{
  All, List, Option, Text, [], err, false, has_prefix, is_some, length, none, ok, pos, some,
  text_eq, true, ℕ, ℤ, ◌≡◌, ◌⊎◌,
}
use nx_remote_cache.Storage.{Reader}
use nx_remote_cache.Storage.Contract.{Artifact, content_of, upload}
use nx_remote_cache.Storage.S3.{Object, ObjectPage, S3Error, S3Client, is_not_found, or_zero}

-- The object of that key is there, with the time that is listed, and its key has the prefix.
abbrev pub IsListed : (Text → Option Artifact) → Option Text → Object → Type 0
IsListed view prefix obj =
    (k : Text)
    → obj.key ≡ some k
    → (has_prefix k (or_zero [] prefix) ≡ true)
      × (a : Artifact) × (view k ≡ some a)
      × (obj.last_modified ≡ some a.mod_time)

-- The upload is stored whole, with all the bytes that its ContentLength announces.
abbrev pub IsWhole : Option Artifact → Reader → ℤ → Type 0
IsWhole found r size =
    (content_of found ≡ some (upload r size)) × (pos (length (upload r size)) ≡ size)

-- `objects s k` is the object under the key `k`.
pub record IsBucket {S : Type 0} (c : S3Client S) (objects : S → Text → Option Artifact)
    : Type 0 where
  pub head_keeps : (k : Text) (s : S) (j : Text) → objects (c.head_object k s).1 j ≡ objects s j
  pub head_ok : (k : Text) (s : S) → (c.head_object k s).0 ≡ ok tt → is_some (objects s k) ≡ true
  pub head_missing :
      (k : Text) (s : S) (e : S3Error)
      → (c.head_object k s).0 ≡ err e
      → is_not_found e ≡ true
      → objects s k ≡ none
  pub put_ok :
      (k : Text) (r : Reader) (size : ℤ) (s : S)
      → (c.put_object k r size s).0 ≡ ok tt
      → IsWhole (objects (c.put_object k r size s).1 k) r size
  -- An upload is all or nothing, also if its reply is lost.
  pub put_atomic :
      (k : Text) (r : Reader) (size : ℤ) (s : S)
      → (objects (c.put_object k r size s).1 k ≡ objects s k)
        ⊎ IsWhole (objects (c.put_object k r size s).1 k) r size
  pub put_others :
      (k : Text) (r : Reader) (size : ℤ) (s : S) (j : Text)
      → text_eq k j ≡ false
      → objects (c.put_object k r size s).1 j ≡ objects s j
  pub get_keeps : (k : Text) (s : S) (j : Text) → objects (c.get_object k s).1 j ≡ objects s j
  pub get_ok :
      (k : Text) (s : S) (bs : List ℕ) (n : Option ℕ)
      → (c.get_object k s).0 ≡ ok (bs, n)
      → content_of (objects s k) ≡ some bs
  pub get_missing :
      (k : Text) (s : S) (e : S3Error)
      → (c.get_object k s).0 ≡ err e
      → is_not_found e ≡ true
      → objects s k ≡ none
  pub delete_ok :
      (k : Text) (s : S)
      → (c.delete_object k s).0 ≡ ok tt
      → objects (c.delete_object k s).1 k ≡ none
  pub delete_others :
      (k : Text) (s : S) (j : Text)
      → text_eq k j ≡ false
      → objects (c.delete_object k s).1 j ≡ objects s j
  pub list_keeps :
      (n : ℤ) (prefix token : Option Text) (s : S) (j : Text)
      → objects (c.list_objects n prefix token s).1 j ≡ objects s j
  pub list_ok :
      (n : ℤ) (prefix token : Option Text) (s : S) (page : ObjectPage)
      → (c.list_objects n prefix token s).0 ≡ ok page
      → All (IsListed (objects s) prefix) page.contents

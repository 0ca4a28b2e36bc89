-- ===== src/Storage/Contract.antt =====
-- What the comments of the Backend interface promise, against an abstract map from valid hashes
-- to artifacts, for one caller at a time.
use nx_remote_cache.Base.{
  All, Bool, List, Option, Text, err, false, is_some, length, none, ok, pos, pos_part, some, take,
  text_eq, true, ℕ, ℤ, ◌≡◌, ◌⊎◌,
}
use nx_remote_cache.Storage.{
  not_found, already_exists, Entry, ListPage, Reader, Backend, valid_hash,
}

pub record Artifact : Type 0 where
  pub content : List ℕ
  pub mod_time : ℤ

abbrev pub content_of : Option Artifact → Option (List ℕ)
content_of none = none
content_of (some a) = some a.content

abbrev pub mod_time_of : Option Artifact → Option ℤ
mod_time_of none = none
mod_time_of (some a) = some a.mod_time

-- Under a valid hash the entry gives the time of the artifact that is stored.
abbrev pub Describes : (Text → Option Artifact) → Entry → Type 0
Describes view e = valid_hash e.hash ≡ true → mod_time_of (view e.hash) ≡ some e.mod_time

-- The bytes that an upload of `size` bytes stores.
abbrev pub upload : Reader → ℤ → List ℕ
upload r size = take (pos_part size) r.content

-- `holds s h` is the artifact under the valid hash `h`. The names that pass `names`, hashes and what
-- is listed, are those that a Delete tells apart.
pub record IsStore {S : Type 0} (b : Backend S) (holds : S → Text → Option Artifact)
    (names : Text → Bool) : Type 0 where
  pub names_valid : (h : Text) → valid_hash h ≡ true → names h ≡ true
  -- What is stored is never overwritten.
  pub put_keeps :
      (h : Text) (r : Reader) (size : ℤ) (s : S) (j : Text) (a : Artifact)
      → valid_hash h ≡ true
      → valid_hash j ≡ true
      → holds s j ≡ some a
      → holds (b.put h r size s).1 j ≡ some a
  pub put_others :
      (h : Text) (r : Reader) (size : ℤ) (s : S) (j : Text)
      → valid_hash h ≡ true
      → valid_hash j ≡ true
      → text_eq h j ≡ false
      → holds (b.put h r size s).1 j ≡ holds s j
  pub put_ok :
      (h : Text) (r : Reader) (size : ℤ) (s : S)
      → valid_hash h ≡ true
      → (b.put h r size s).0 ≡ ok tt
      → (holds s h ≡ none) × (content_of (holds (b.put h r size s).1 h) ≡ some (upload r size))
  pub put_exists :
      (h : Text) (r : Reader) (size : ℤ) (s : S)
      → valid_hash h ≡ true
      → (b.put h r size s).0 ≡ err already_exists
      → is_some (holds s h) ≡ true
  pub get_keeps : (h : Text) (s : S) (j : Text) → holds (b.get h s).1 j ≡ holds s j
  pub get_ok :
      (h : Text) (s : S) (bs : List ℕ) (n : ℕ)
      → valid_hash h ≡ true
      → (b.get h s).0 ≡ ok (bs, n)
      → content_of (holds s h) ≡ some bs
  pub get_not_found :
      (h : Text) (s : S) → valid_hash h ≡ true → (b.get h s).0 ≡ err not_found → holds s h ≡ none
  pub exists_keeps : (h : Text) (s : S) (j : Text) → holds (b.exists h s).1 j ≡ holds s j
  pub exists_ok :
      (h : Text) (s : S) (found : Bool)
      → valid_hash h ≡ true
      → (b.exists h s).0 ≡ ok found
      → found ≡ is_some (holds s h)
  pub delete_others :
      (h : Text) (s : S) (j : Text)
      → names h ≡ true
      → text_eq h j ≡ false
      → holds (b.delete h s).1 j ≡ holds s j
  pub delete_ok :
      (h : Text) (s : S)
      → valid_hash h ≡ true
      → (b.delete h s).0 ≡ ok tt
      → (is_some (holds s h) ≡ true) × (holds (b.delete h s).1 h ≡ none)
  pub delete_not_found :
      (h : Text) (s : S)
      → valid_hash h ≡ true
      → (b.delete h s).0 ≡ err not_found
      → (holds s h ≡ none) × (holds (b.delete h s).1 h ≡ none)
  pub list_keeps :
      (cursor : Text) (limit : ℤ) (s : S) (j : Text) → holds (b.list cursor limit s).1 j ≡ holds s j
  pub list_ok :
      (cursor : Text) (limit : ℤ) (s : S) (page : ListPage)
      → (b.list cursor limit s).0 ≡ ok page
      → All (λ e. (names e.hash ≡ true) × Describes (holds s) e) page.entries

-- A store in which no part of an upload is ever found under its hash.
pub record IsCache {S : Type 0} (b : Backend S) (holds : S → Text → Option Artifact)
    (names : Text → Bool) : Type 0 where
  pub store : IsStore b holds names
  -- An upload that succeeds has all the bytes that were announced.
  pub put_sized :
      (h : Text) (r : Reader) (size : ℤ) (s : S)
      → valid_hash h ≡ true
      → (b.put h r size s).0 ≡ ok tt
      → pos (length (upload r size)) ≡ size
  -- Whatever Put returns, it has changed nothing under the hash, or has stored all those bytes.
  pub put_whole :
      (h : Text) (r : Reader) (size : ℤ) (s : S)
      → valid_hash h ≡ true
      → (holds (b.put h r size s).1 h ≡ holds s h)
        ⊎ ((content_of (holds (b.put h r size s).1 h) ≡ some (upload r size))
            × (pos (length (upload r size)) ≡ size))

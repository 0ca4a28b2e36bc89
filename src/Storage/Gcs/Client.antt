-- ===== src/Storage/Gcs/Client.antt =====
-- What the documentation of the GCS client says of the operations that gcs.go calls.
use nx_remote_cache.Base.{
  All, Bool, List, Option, Text, [], err, false, has_prefix, is_some, none, ok, some, text_eq, true,
  ℕ, ◌++◌, ◌≡◌,
}
use nx_remote_cache.Storage.Contract.{Artifact, content_of}
use nx_remote_cache.Storage.Gcs.{
  GcsClient, GcsError, ObjectAttrs, is_not_exist, is_precondition_failed,
}

-- The object of that name is there, with the time that is listed, and its name has the prefix.
abbrev pub IsListed : (Text → Option Artifact) → Text → ObjectAttrs → Type 0
IsListed view prefix obj =
    (has_prefix obj.name prefix ≡ true)
    × (a : Artifact) × (view obj.name ≡ some a)
    × (obj.updated ≡ a.mod_time)

-- What a writer is for: its object, whether that must not exist, and the bytes written so far.
pub record Writing : Type 0 where
  pub target : Text
  pub does_not_exist : Bool
  pub written : List ℕ

-- `objects s k` is the object under the name `k`; `state` is what a writer is for.
pub record IsBucket {S W : Type 0} (c : GcsClient S W) (state : W → Writing)
    (objects : S → Text → Option Artifact) : Type 0 where
  pub attrs_keeps : (k : Text) (s : S) (j : Text) → objects (c.attrs k s).1 j ≡ objects s j
  pub attrs_ok : (k : Text) (s : S) → (c.attrs k s).0 ≡ ok tt → is_some (objects s k) ≡ true
  pub attrs_missing :
      (k : Text) (s : S) (e : GcsError)
      → (c.attrs k s).0 ≡ err e
      → is_not_exist e ≡ true
      → objects s k ≡ none
  pub new_writer_state :
      (k : Text) (fresh : Bool)
      → state (c.new_writer k fresh) ≡ record { target = k; does_not_exist = fresh; written = [] }
  -- Until Close nothing is stored.
  pub write_keeps :
      (bs : List ℕ) (w : W) (s : S) (j : Text) → objects (c.write bs w s).2 j ≡ objects s j
  pub write_target :
      (bs : List ℕ) (w : W) (s : S) → (state (c.write bs w s).1).target ≡ (state w).target
  pub write_condition :
      (bs : List ℕ) (w : W) (s : S)
      → (state (c.write bs w s).1).does_not_exist ≡ (state w).does_not_exist
  pub write_ok :
      (bs : List ℕ) (w : W) (s : S)
      → (c.write bs w s).0 ≡ ok tt
      → (state (c.write bs w s).1).written ≡ (state w).written ++ bs
  pub close_ok :
      (w : W) (s : S)
      → (c.close w s).0 ≡ ok tt
      → content_of (objects (c.close w s).1 (state w).target) ≡ some (state w).written
  pub close_free :
      (w : W) (s : S)
      → (state w).does_not_exist ≡ true
      → (c.close w s).0 ≡ ok tt
      → objects s (state w).target ≡ none
  pub close_keeps :
      (w : W) (s : S) (a : Artifact)
      → (state w).does_not_exist ≡ true
      → objects s (state w).target ≡ some a
      → objects (c.close w s).1 (state w).target ≡ some a
  pub close_failed :
      (w : W) (s : S) (e : GcsError)
      → (state w).does_not_exist ≡ true
      → (c.close w s).0 ≡ err e
      → is_precondition_failed e ≡ true
      → is_some (objects s (state w).target) ≡ true
  pub close_others :
      (w : W) (s : S) (j : Text)
      → text_eq (state w).target j ≡ false
      → objects (c.close w s).1 j ≡ objects s j
  pub read_keeps : (k : Text) (s : S) (j : Text) → objects (c.new_reader k s).1 j ≡ objects s j
  pub read_ok :
      (k : Text) (s : S) (bs : List ℕ) (n : ℕ)
      → (c.new_reader k s).0 ≡ ok (bs, n)
      → content_of (objects s k) ≡ some bs
  pub read_missing :
      (k : Text) (s : S) (e : GcsError)
      → (c.new_reader k s).0 ≡ err e
      → is_not_exist e ≡ true
      → objects s k ≡ none
  pub delete_ok :
      (k : Text) (s : S)
      → (c.delete k s).0 ≡ ok tt
      → (is_some (objects s k) ≡ true) × (objects (c.delete k s).1 k ≡ none)
  pub delete_missing :
      (k : Text) (s : S) (e : GcsError)
      → (c.delete k s).0 ≡ err e
      → is_not_exist e ≡ true
      → (objects s k ≡ none) × (objects (c.delete k s).1 k ≡ none)
  pub delete_others :
      (k : Text) (s : S) (j : Text) → text_eq k j ≡ false → objects (c.delete k s).1 j ≡ objects s j
  pub page_keeps :
      (prefix : Text) (n : ℕ) (token : Text) (s : S) (j : Text)
      → objects (c.next_page prefix n token s).1 j ≡ objects s j
  pub page_ok :
      (prefix : Text) (n : ℕ) (token : Text) (s : S) (objs : List ObjectAttrs) (next : Text)
      → (c.next_page prefix n token s).0 ≡ ok (objs, next)
      → All (IsListed (objects s) prefix) objs

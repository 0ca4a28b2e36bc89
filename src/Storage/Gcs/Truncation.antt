-- ===== src/Storage/Gcs/Truncation.antt =====
-- What GCS.Put leaves behind when its reader fails: io.Copy gives up, and Close still commits.
use nx_remote_cache.Base.{
  Option, Text, ap, arith, err, length, ltb, none, ok, pos_part, some, take_all, true, ℤ, ◌∙◌, ◌≡◌,
}
use nx_remote_cache.Storage.{failure, Reader, valid_hash}
use nx_remote_cache.Storage.Contract.{Artifact, content_of, upload}
use nx_remote_cache.Storage.Disk.{copy_fails}
use nx_remote_cache.Storage.Keys.{key}
use nx_remote_cache.Storage.Keys.Names.{held}
use nx_remote_cache.Storage.Gcs
use nx_remote_cache.Storage.Gcs.{GcsClient, copy_in}
use nx_remote_cache.Storage.Gcs.Client.{Writing, IsBucket}
use nx_remote_cache.Storage.Gcs.Ops.{written-copied, closed-ok}

module _ {S W : Type 0} (c : GcsClient S W) (prefix h : Text) (r : Reader) (size : ℤ) (s : S)
    (broken : r.broken ≡ true) (short : ltb (length r.content) (pos_part size) ≡ true) where
  fails : copy_fails r size ≡ true
  fails = ground arith

  put-failed : (Gcs.put c prefix h r size s).0 ≡ err failure
  unfolding Gcs.put copy_in
  put-failed = ground (arith, fails)

  upload-short : upload r size ≡ r.content
  upload-short = take_all (pos_part size) r.content (ground arith)

  -- When the reader of an upload to a valid hash fails before `size` bytes, the writer of a client
  -- that obeys IsBucket has taken the bytes that came, and the Close that follows succeeds, then
  -- Put fails, but the hash was free and the bytes that came are now stored under it.
  pub put-stores_part :
      (state : W → Writing) (objects : S → Text → Option Artifact)
      → IsBucket c state objects
      → valid_hash h ≡ true
      → (c.write (upload r size) (c.new_writer (key prefix h) true) s).0 ≡ ok tt
      → (let (_, w, s') = copy_in c r size (c.new_writer (key prefix h) true) s in
          (c.close w s').0 ≡ ok tt)
      → ((Gcs.put c prefix h r size s).0 ≡ err failure)
        × (held objects prefix s h ≡ none)
        × (content_of (held objects prefix (Gcs.put c prefix h r size s).1 h) ≡ some r.content)
  put-stores_part state objects law hv wrote closed =
      let (free, stored) = closed-ok c state objects law prefix h r size s closed in
      let part = written-copied c state objects law prefix h r size s wrote in
      (put-failed, rw hv free, rw hv (stored ∙ ap some (part ∙ upload-short)))

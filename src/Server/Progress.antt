-- ===== src/Server/Progress.antt =====
-- The cache API over the local backend, on a disk where nothing fails.
use nx_remote_cache.Base.{
  arith, bytes, false, length, ltb_ℤ, none, ok, pos, some, true, ℕ, ◌++◌, ◌+◌, ◌<◌, ◌≡◌, ◌≤◌,
}
use nx_remote_cache.Primitives.{Primitives}
use nx_remote_cache.Storage.{valid_hash}
use nx_remote_cache.Storage.Disk.{Node, Disk, find_node}
use nx_remote_cache.Storage.Local.{local}
use nx_remote_cache.Storage.Local.Progress.{IsHealthy, get-found, put_complete}
use nx_remote_cache.Auth.{scope_read, scope_write, authorize, extract_bearer}
use nx_remote_cache.World.{World}
use nx_remote_cache.Server.{Request, handle_get, handle_put}
use nx_remote_cache.Server.Put.{handle_put-status}

module _ (p : Primitives) (r : Request) (w : World Disk) where
  -- Over the local backend, a PUT is answered 200 if no system call fails, the hash is valid and
  -- neither it nor the temporary name exists, the token may write, the Content-Length is positive
  -- and within the limit, and the body has that many bytes.
  pub handle_put-accepts :
      (n : ℕ)
      → w.backend ≡ local
      → IsHealthy w.storage
      → valid_hash r.hash ≡ true
      → (authorize p (extract_bearer r.authorization) scope_write w.db).0 ≡ ok (true, true)
      → r.content_length ≡ pos n
      → 0 < n
      → ltb_ℤ w.max_entry_bytes (pos n) ≡ false
      → n ≤ length r.body.content
      → find_node r.hash w.storage.nodes ≡ none
      → find_node
          ((r.hash ++ bytes ".tmp-") ++ w.storage.suffix (w.storage.tick + 1))
          w.storage.nodes
        ≡ none
      → (handle_put p r w).0.status ≡ 200
  handle_put-accepts n b up v token sized some_bytes small whole free unused =
      let stored : (w.backend.put r.hash r.body r.content_length w.storage).0 ≡ ok tt =
        rw (b, sized) (put_complete r.hash v r.body n whole w.storage up free unused) in
      (handle_put-status p r w).6.1 ((v, token, rw sized (ground arith), rw sized small), stored)

  -- Over the local backend, a GET of a file that exists is answered 200 with its bytes, if no
  -- system call fails, the hash is valid and the token may read.
  pub handle_get-answers :
      (m : Node)
      → w.backend ≡ local
      → IsHealthy w.storage
      → valid_hash r.hash ≡ true
      → (authorize p (extract_bearer r.authorization) scope_read w.db).0 ≡ ok (true, true)
      → find_node r.hash w.storage.nodes ≡ some m
      → ((handle_get p r w).0.status ≡ 200) × ((handle_get p r w).0.body ≡ m.content)
  unfolding handle_get
  handle_get-answers m b up v token there =
      let got : (w.backend.get r.hash w.storage).0 ≡ ok (m.content, length m.content) =
        rw b (get-found r.hash w.storage m up there) in
      ground arith

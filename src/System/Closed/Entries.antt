-- ===== src/System/Closed/Entries.antt =====
-- What every statement keeps, the handlers of cache entries keep, and so does a sweep.
use nx_remote_cache.Base.{
  Bool-cases, List, Option, Option-cases, Result, Result-cases, Text, [], arith, err, inl, inr,
  leb_ℤ, map, none, ok, pick, pos, some, suc, zero, ℕ, ℤ, ◌+◌, ◌∷◌,
}
use nx_remote_cache.Primitives.{Primitives}
use nx_remote_cache.Storage
use nx_remote_cache.Storage.{Backend, Entry, ListPage, valid_hash}
use nx_remote_cache.Store.{Db, User, ReadRow}
use nx_remote_cache.Store.Reads.{list_all_cache_read_stats}
use nx_remote_cache.Store.Queries.{Query, run}
use nx_remote_cache.Auth.{Scope, scope_read, scope_write, authorize, extract_bearer}
use nx_remote_cache.World.{World}
use nx_remote_cache.Server.{
  Request, Response, with_token, serve_artifact, store_artifact, check_length, handle_get,
  handle_put, run_pending,
}
use nx_remote_cache.Admin.Cache.{
  list_limit, page_response, handle_list_cache, clear_read_stats, delete_stored,
  handle_delete_cache_entry, bulk_step, bulk_loop, handle_bulk_delete, prune_next, prune_entries,
  prune_older_than, prune_cutoff, prune_answer, handle_prune,
}
use nx_remote_cache.Janitor.{Config, delete_entry, sweep_entries, sweep_pages, sweep, sweep_once}
use nx_remote_cache.System.Closed.{keep-authorize}

module _ (P : Db → Type 0) (closed : (q : Query) (d : Db) → P d → P (run q d)) where
  module _ {S : Type 0} where
    keep-clear : (hash : Text) (w : World S) → P w.db → P (clear_read_stats hash w).db
    unfolding run
    keep-clear hash w k = closed (Query.deleting_cache_read_stats hash) w.db k

    keep-page_response : (page : ListPage) (w : World S) → P w.db → P (page_response page w).1.db
    unfolding run page_response
    keep-page_response page w k =
        closed (Query.getting_cache_read_stats_batch (map (λ e. e.hash) page.entries)) w.db k

    pub keep-list_cache :
        (cursor : Text) (limit : Option ℤ) (u : User) (w : World S)
        → P w.db
        → P (handle_list_cache cursor limit u w).1.db
    unfolding handle_list_cache
    keep-list_cache cursor limit u w k =
        elim (Result-cases (w.backend.list cursor (list_limit limit) w.storage).0) [
          | inl (page, e) ↦
              rw (e, handle_list_cache)
                (keep-page_response page
                  (record w { storage = (w.backend.list cursor (list_limit limit) w.storage).1 }) k)
          | inr (x, e) ↦ rw (e, handle_list_cache) k
        ]

    pub keep-delete_cache_entry :
        (hash : Text) (u : User) (w : World S)
        → P w.db
        → P (handle_delete_cache_entry hash u w).1.db
    unfolding handle_delete_cache_entry
    keep-delete_cache_entry hash u w k = ground (arith, keep-clear hash w k)

    keep-bulk_step : (h : Text) (w : World S) → P w.db → P (bulk_step h w).1.db
    unfolding bulk_step
    keep-bulk_step h w k = ground (arith, keep-clear h w k)

    keep-bulk_loop : (hs : List Text) (n : ℕ) (w : World S) → P w.db → P (bulk_loop hs n w).1.db
    unfolding bulk_loop
    keep-bulk_loop [] n w k = k
    keep-bulk_loop (h ∷ hs) n w k = keep-bulk_loop hs _ (bulk_step h w).1 (keep-bulk_step h w k)

    pub keep-bulk_delete :
        (hashes : Option (List Text)) (u : User) (w : World S)
        → P w.db
        → P (handle_bulk_delete hashes u w).1.db
    unfolding handle_bulk_delete
    keep-bulk_delete none u w k = k
    keep-bulk_delete (some hashes) u w k = ground (arith, keep-bulk_loop hashes 0 w k)

    keep-prune_entries :
        (cutoff : ℤ) (es : List Entry) (n : ℕ) (w : World S)
        → P w.db
        → P (prune_entries cutoff es n w).1.db
    unfolding prune_entries prune_next
    keep-prune_entries cutoff [] n w k = k
    keep-prune_entries cutoff (e ∷ es) n w k =
        let w' = (delete_stored e.hash w).1 in
        ground (
          arith,
          keep-prune_entries cutoff es n w k,
          keep-prune_entries cutoff es (n + 1) (clear_read_stats e.hash w')
              (keep-clear e.hash w' k),
        )

    keep-prune_older_than :
        (fuel : ℕ) (cutoff : ℤ) (cursor : Text) (n : ℕ) (w : World S)
        → P w.db
        → P (prune_older_than fuel cutoff cursor n w).1.db
    unfolding prune_older_than
    keep-prune_older_than zero cutoff cursor n w k = k
    keep-prune_older_than (suc fuel) cutoff cursor n w k =
        let w' = record w { storage = (w.backend.list cursor (pos 200) w.storage).1 } in
        elim (Result-cases (w.backend.list cursor (pos 200) w.storage).0) [
          | inl (page, e) ↦
              let k' = keep-prune_entries cutoff page.entries n w' k in
              elim (Result-cases (prune_entries cutoff page.entries n w').0) [
                | inl (m, f) ↦ ground (
                  arith,
                  k',
                  keep-prune_older_than fuel cutoff page.next_cursor m
                      (prune_entries cutoff page.entries n w').1 k',
                )
                | inr (x, f) ↦ rw (e, f, prune_older_than) k'
              ]
          | inr (x, e) ↦ rw (e, prune_older_than) k
        ]

    keep-prune_answer :
        (out : Option (Result Storage.Error ℕ) × World S) → P out.1.db → P (prune_answer out).1.db
    unfolding prune_answer
    keep-prune_answer (none, w) k = k
    keep-prune_answer (some (err x), w) k = k
    keep-prune_answer (some (ok n), w) k = k

    pub keep-prune :
        (fuel : ℕ) (time : ℤ) (days : Option ℤ) (u : User) (w : World S)
        → P w.db
        → P (handle_prune fuel time days u w).1.db
    unfolding handle_prune
    keep-prune fuel time none u w k = k
    keep-prune fuel time (some days) u w k =
        let k' = keep-prune_older_than fuel (prune_cutoff time days) [] 0 w k in
        elim (Bool-cases (leb_ℤ days (pos 0))) [
          | inl bad ↦ rw (bad, handle_prune) k
          | inr fine ↦ rw (fine, handle_prune) (keep-prune_answer _ k')
        ]

    keep-delete_entry : (hash : Text) (w : World S) → P w.db → P (delete_entry hash w).1.db
    unfolding run delete_entry
    keep-delete_entry hash w k =
        ground (arith, closed (Query.deleting_cache_read_stats hash) w.db k)

    keep-sweep_entries :
        (reads : List ReadRow) (age unread : ℤ) (es : List Entry) (n : ℕ) (w : World S)
        → P w.db
        → P (sweep_entries reads age unread es n w).1.db
    unfolding sweep_entries
    keep-sweep_entries reads age unread [] n w k = k
    keep-sweep_entries reads age unread (e ∷ es) n w k =
        keep-sweep_entries reads age unread es _ _ (ground (arith, keep-delete_entry e.hash w k))

    keep-sweep_pages :
        (fuel : ℕ) (reads : List ReadRow) (age unread : ℤ) (cursor : Text) (n : ℕ) (w : World S)
        → P w.db
        → P (sweep_pages fuel reads age unread cursor n w).1.db
    unfolding sweep_pages
    keep-sweep_pages zero reads age unread cursor n w k = k
    keep-sweep_pages (suc fuel) reads age unread cursor n w k =
        let w' = record w { storage = (w.backend.list cursor (pos 200) w.storage).1 } in
        elim (Result-cases (w.backend.list cursor (pos 200) w.storage).0) [
          | inl (page, e) ↦
              let out = sweep_entries reads age unread page.entries n w' in
              let k' = keep-sweep_entries reads age unread page.entries n w' k in
              ground
                (arith, k', keep-sweep_pages fuel reads age unread page.next_cursor out.0 out.1 k')
          | inr (x, e) ↦ rw (e, sweep_pages) k
        ]

    pub keep-sweep_once :
        (fuel : ℕ) (cfg : Config) (time : ℤ) (w : World S)
        → P w.db
        → P (sweep_once fuel cfg time w).db
    unfolding run sweep_once sweep
    keep-sweep_once fuel cfg time w k =
        let k' = closed Query.listing_all_cache_read_stats w.db k in
        let w' = record w { db = (list_all_cache_read_stats w.db).1 } in
        elim (Result-cases (list_all_cache_read_stats w.db).0) [
          | inl (rows, e) ↦ rw (e, sweep_once) (keep-sweep_pages fuel rows _ _ [] 0 w' k')
          | inr (x, e) ↦ rw (e, sweep_once) k'
        ]

    pub keep-run_pending : (n : ℕ) (w : World S) → P w.db → P (run_pending n w).db
    unfolding run run_pending
    keep-run_pending n w k = elim (Option-cases (pick n w.pending)) [
      | inl gone ↦ rw (gone, run_pending) k
      | inr ((hash, others), e) ↦
          rw (e, run_pending) (closed (Query.recording_cache_read hash) w.db k)
    ]

  module _ (p : Primitives) {S : Type 0} where
    keep-with_token :
        (scope : Scope) (header : Text) (go : World S → Response × World S) (w : World S)
        → ((w' : World S) → P w'.db → P (go w').1.db)
        → P w.db
        → P (with_token p scope header go w).1.db
    unfolding with_token
    keep-with_token scope header go w keeps k =
        let k' = keep-authorize P closed p (extract_bearer header) scope w.db k in
        ground (
          arith,
          k',
          keeps (record w { db = (authorize p (extract_bearer header) scope w.db).1 }) k',
        )

    keep-serve_artifact : (hash : Text) (w : World S) → P w.db → P (serve_artifact p hash w).1.db
    unfolding serve_artifact
    keep-serve_artifact hash w k = ground arith

    keep-check_length : (r : Request) (w : World S) → P w.db → P (check_length p r w).1.db
    unfolding check_length store_artifact
    keep-check_length r w k = ground arith

    pub keep-handle_get : (r : Request) (w : World S) → P w.db → P (handle_get p r w).1.db
    unfolding handle_get
    keep-handle_get r w k = ground (
      arith,
      keep-with_token scope_read r.authorization (serve_artifact p r.hash) w
          (keep-serve_artifact r.hash) k,
    )

    pub keep-handle_put : (r : Request) (w : World S) → P w.db → P (handle_put p r w).1.db
    unfolding handle_put
    keep-handle_put r w k = ground (
      arith,
      keep-with_token scope_write r.authorization (check_length p r) w (keep-check_length r) k,
    )

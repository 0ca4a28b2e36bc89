-- ===== src/Admin/Cache.antt =====
-- internal/adminapi/cache_handlers.go. Each page that pruneOlderThan reads takes one unit of fuel.
pub mod Cutoff
pub mod Pruning
pub mod Ending
pub mod Listing
use nx_remote_cache.Base.{
  Bool, List, Option, Result, Text, [], err, false, find, if◌then◌else◌, leb_ℤ, length, ltb, ltb_ℤ,
  map, neg_ℤ, none, not, ok, pos, some, sort_by, suc, text_eq, true, wrap64, zero, ℕ, ℤ, ◌&&◌, ◌*ℤ◌,
  ◌+ℤ◌, ◌+◌, ◌∷◌,
}
use nx_remote_cache.Storage
use nx_remote_cache.Storage.{Entry, ListPage, valid_hash}
use nx_remote_cache.Store.{User, CacheReadStats, ReadRow}
use nx_remote_cache.Store.Reads.{get_cache_read_stats_batch, delete_cache_read_stats}
use nx_remote_cache.World.{World, active}
use nx_remote_cache.Admin.{Answer, write_json, write_error, no_content, internal_error}

abbrev pub default_list_limit : ℤ
default_list_limit = pos 50

abbrev pub max_list_limit : ℤ
max_list_limit = pos 500

abbrev pub max_bulk_delete : ℕ
max_bulk_delete = 1000

pub record CacheEntryResponse : Type 0 where
  pub hash : Text
  pub size : ℕ
  pub mod_time : ℤ
  pub read_count : ℕ
  pub last_read_at : Option ℤ

pub record ListCacheResponse : Type 0 where
  pub entries : List CacheEntryResponse
  pub next_cursor : Text

-- `limit`, as strconv.Atoi reads it: none if the parameter is missing or no int.
unfoldable pub list_limit : Option ℤ → ℤ
list_limit none = default_list_limit
list_limit (some n) = if ltb_ℤ (pos 0) n && leb_ℤ n max_list_limit then n else default_list_limit

unfoldable pub find_stats : Text → List ReadRow → Option CacheReadStats
find_stats hash rows = elim (find (λ r. text_eq r.hash hash) rows) [
  | none ↦ none
  | some r ↦ some r.stats
]

unfoldable pub entry_response : List ReadRow → Entry → CacheEntryResponse
entry_response rows e = elim (find_stats e.hash rows) [
  | none ↦ record {
    hash = e.hash;
    size = e.size;
    mod_time = e.mod_time;
    read_count = 0;
    last_read_at = none;
  }
  | some s ↦ record {
    hash = e.hash;
    size = e.size;
    mod_time = e.mod_time;
    read_count = s.read_count;
    last_read_at = s.last_read_at;
  }
]

-- The comparison of sort.Slice: read entries first, the latest read first; then the others, the
-- latest modified first.
unfoldable pub entry_less : CacheEntryResponse → CacheEntryResponse → Bool
entry_less a b = elim a.last_read_at [
  | none ↦ elim b.last_read_at [ none ↦ ltb_ℤ b.mod_time a.mod_time | some _ ↦ false ]
  | some t ↦ elim b.last_read_at [ none ↦ true | some u ↦ ltb_ℤ u t ]
]

module _ {S : Type 0} where
  -- sort.Slice leaves ties in any order; here they stay as they were.
  unfoldable pub page_response : ListPage → World S → Answer ListCacheResponse × World S
  page_response page w =
      let (stats, db') = get_cache_read_stats_batch (map (λ e. e.hash) page.entries) w.db in
      let rows : List ReadRow = elim stats [ ok rows ↦ rows | err _ ↦ [] ] in
      let out = sort_by (λ a b. not (entry_less b a)) (map (entry_response rows) page.entries) in
      (
        write_json 200 (record { entries = out; next_cursor = page.next_cursor }),
        record w { db = db' },
      )

  unfoldable pub handle_list_cache :
      Text → Option ℤ → User → World S → Answer ListCacheResponse × World S
  unfolding page_response entry_response
  handle_list_cache cursor limit current w =
      let (listed, storage') = (active w).list cursor (list_limit limit) w.storage in
      let w' = record w { storage = storage' } in
      elim listed [ err _ ↦ (internal_error, w') | ok page ↦ page_response page w' ]

  abbrev pub clear_read_stats : Text → World S → World S
  clear_read_stats hash w = record w { db = (delete_cache_read_stats hash w.db).1 }

  -- backend.Delete.
  abbrev pub delete_stored : Text → World S → Result Storage.Error (Unit {0}) × World S
  delete_stored hash w =
      let (res, storage') = (active w).delete hash w.storage in
      (res, record w { storage = storage' })

  unfoldable pub handle_delete_cache_entry : Text → User → World S → Answer (Unit {0}) × World S
  handle_delete_cache_entry hash current w =
      let (res, w') = delete_stored hash w in
      if not (valid_hash hash) then (write_error 400 "invalid hash", w) else elim res [
        | ok _ ↦ (no_content, clear_read_stats hash w')
        | err Storage.Error.not_found ↦ (write_error 404 "not found", w')
        | err _ ↦ (internal_error, w')
      ]

  -- One hash of a bulk delete, which counts if it is deleted.
  unfoldable pub bulk_step : Text → World S → Bool × World S
  bulk_step h w =
      let (res, w') = delete_stored h w in
      if not (valid_hash h)
      then (false, w)
      else elim res [ ok _ ↦ (true, clear_read_stats h w') | err _ ↦ (false, w') ]

  unfoldable pub bulk_loop : List Text → ℕ → World S → ℕ × World S
  bulk_loop [] deleted w = (deleted, w)
  bulk_loop (h ∷ hs) deleted w =
      let (gone, w') = bulk_step h w in bulk_loop hs (if gone then deleted + 1 else deleted) w'

  unfoldable pub handle_bulk_delete : Option (List Text) → User → World S → Answer ℕ × World S
  unfolding bulk_loop bulk_step
  handle_bulk_delete none current w = (write_error 400 "invalid request body", w)
  handle_bulk_delete (some hashes) current w =
      let (deleted, w') = bulk_loop hashes 0 w in
      if ltb max_bulk_delete (length hashes)
      then (write_error 400 "too many hashes in one request (max 1000)", w)
      else (write_json 200 deleted, w')

  -- Go on, unless the Delete has failed.
  unfoldable pub prune_next :
      Result Storage.Error (Unit {0})
      → Result Storage.Error ℕ × World S
      → World S
      → Result Storage.Error ℕ × World S
  prune_next (ok _) pruned w = pruned
  prune_next (err Storage.Error.not_found) pruned w = pruned
  prune_next (err x) pruned w = (err x, w)

  -- The loop over a page; the first error that is not ErrNotFound ends it.
  unfoldable pub prune_entries : ℤ → List Entry → ℕ → World S → Result Storage.Error ℕ × World S
  prune_entries cutoff [] deleted w = (ok deleted, w)
  prune_entries cutoff (e ∷ es) deleted w =
      let (res, w') = delete_stored e.hash w in
      let skipped = prune_entries cutoff es deleted w in
      let pruned = prune_entries cutoff es (deleted + 1) (clear_read_stats e.hash w') in
      let next = prune_next res pruned w' in if ltb_ℤ e.mod_time cutoff then next else skipped

  -- The result is none without fuel.
  unfoldable pub prune_older_than :
      ℕ → ℤ → Text → ℕ → World S → Option (Result Storage.Error ℕ) × World S
  unfolding prune_entries prune_next
  prune_older_than zero cutoff cursor deleted w = (none, w)
  prune_older_than (suc fuel) cutoff cursor deleted w =
      let (listed, storage') = (active w).list cursor (pos 200) w.storage in
      let w' = record w { storage = storage' } in
      elim listed [
        | err e ↦ (some (err e), w')
        | ok page ↦
            let (res, w'') = prune_entries cutoff page.entries deleted w' in
            elim res [
              | err e ↦ (some (err e), w'')
              | ok n ↦
                  let more = prune_older_than fuel cutoff page.next_cursor n w'' in
                  if text_eq page.next_cursor [] then (some (ok n), w'') else more
            ]
      ]

-- 24 hours.
abbrev pub day : ℤ
day = pos 86400000000000

-- time.Now().Add(-time.Duration(days) * 24 * time.Hour): the product is an int64.
unfoldable pub prune_cutoff : ℤ → ℤ → ℤ
prune_cutoff time days = time +ℤ wrap64 (neg_ℤ days *ℤ day)

module _ {S : Type 0} where
  unfoldable pub prune_answer :
      Option (Result Storage.Error ℕ) × World S → Option (Answer ℕ) × World S
  prune_answer (none, w) = (none, w)
  prune_answer (some (err _), w) = (some internal_error, w)
  prune_answer (some (ok n), w) = (some (write_json 200 n), w)

  -- The answer is none without fuel.
  unfoldable pub handle_prune : ℕ → ℤ → Option ℤ → User → World S → Option (Answer ℕ) × World S
  unfolding prune_answer
  handle_prune fuel time none current w = (some (write_error 400 "invalid request body"), w)
  handle_prune fuel time (some days) current w =
      if leb_ℤ days (pos 0)
      then (some (write_error 400 "olderThanDays must be positive"), w)
      else prune_answer (prune_older_than fuel (prune_cutoff time days) [] 0 w)

-- ===== src/Admin/Cache/Listing.antt =====
-- handleListCache of internal/adminapi/cache_handlers.go: what a page shows, and in which order.
use nx_remote_cache.Base.{
  All, List, Option, Result, Text, [], any, keep, leb_ℤ, map, none, some, sort_by, text_eq, true,
  upto, ℤ, ◌∷◌, ◌≡◌,
}
use nx_remote_cache.Storage
use nx_remote_cache.Store
use nx_remote_cache.Storage.{Entry, ListPage}
use nx_remote_cache.Store.{User, ReadRow, CacheReadStats}
use nx_remote_cache.Store.Reads.{get_cache_read_stats_batch}
use nx_remote_cache.World.{World, active}
use nx_remote_cache.Admin.Cache.{CacheEntryResponse, list_limit, entry_response, entry_less}

-- What it means that a comes before b on a page, of their own fields.
pub data ComesBefore (a b : CacheEntryResponse) : Type 0 where
  -- both have been read, a at the same time or later
  both_read :
      (t u : ℤ)
      → a.last_read_at ≡ some t
      → b.last_read_at ≡ some u
      → leb_ℤ u t ≡ true
      → ComesBefore a b
  only_first_read : (t : ℤ) → a.last_read_at ≡ some t → b.last_read_at ≡ none → ComesBefore a b
  -- neither has been read, and a was modified at the same time or later
  both_unread :
      a.last_read_at ≡ none
      → b.last_read_at ≡ none
      → leb_ℤ b.mod_time a.mod_time ≡ true
      → ComesBefore a b

-- Every entry comes before every later one.
abbrev pub InPageOrder : List CacheEntryResponse → Type 0
InPageOrder [] = Unit
InPageOrder (x ∷ xs) = All (ComesBefore x) xs × InPageOrder xs

abbrev wanted_rows : List Text → List ReadRow → List ReadRow
wanted_rows hs rows = keep (λ r. any (text_eq r.hash) hs) rows

module _ {S : Type 0} (cursor : Text) (limit : Option ℤ) (u : User) (w : World S) where
  abbrev listed : Result Storage.Error ListPage
  listed = ((active w).list cursor (list_limit limit) w.storage).0

  -- The rows of a batch are all the rows of its hashes, unless the statement fails.
  abbrev batch : List Entry → Result Store.Error (List ReadRow)
  batch es = (get_cache_read_stats_batch (map (λ e. e.hash) es) w.db).0

  abbrev shown : List ReadRow → ListPage → List CacheEntryResponse
  shown rows page = sort_by (upto entry_less) (map (entry_response rows) page.entries)

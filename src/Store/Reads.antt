-- ===== src/Store/Reads.antt =====
-- internal/store/cache_reads.go. A map from hashes to statistics is the list of the rows it holds.
use nx_remote_cache.Base.{
  List, Result, Text, [], any, if◌then◌else◌, keep, none, not, ok, some, text_eq, ℤ, ◌+◌, ◌∷◌,
}
use nx_remote_cache.Store.{Error, CacheReadStats, ReadRow, Db, bump, now, exec}

-- INSERT … ON CONFLICT (hash) DO UPDATE.
unfoldable pub upsert_read : Text → ℤ → List ReadRow → List ReadRow
upsert_read hash time [] =
    record { hash = hash; stats = record { read_count = 1; last_read_at = some time } } ∷ []
upsert_read hash time (r ∷ rs) =
    let rest = upsert_read hash time rs in
    if text_eq r.hash hash
    then record r {
      stats = record { read_count = r.stats.read_count + 1; last_read_at = some time };
    }
      ∷ rs
    else r ∷ rest

unfoldable pub record_cache_read : Text → Db → Result Error (Unit {0}) × Db
unfolding upsert_read
record_cache_read hash d =
    exec d (ok tt, record (bump d) { reads = upsert_read hash (now d) d.reads })

unfoldable pub delete_cache_read_stats : Text → Db → Result Error (Unit {0}) × Db
delete_cache_read_stats hash d =
    exec d (ok tt, record (bump d) { reads = keep (λ r. not (text_eq r.hash hash)) d.reads })

-- An index into the map: the zero value if the hash is absent.
unfoldable pub stats_of : Text → List ReadRow → CacheReadStats
stats_of hash [] = record { read_count = 0; last_read_at = none }
stats_of hash (r ∷ rs) = if text_eq r.hash hash then r.stats else stats_of hash rs

-- hash = ANY($1). No statement is sent for an empty list.
unfoldable pub get_cache_read_stats_batch : List Text → Db → Result Error (List ReadRow) × Db
get_cache_read_stats_batch [] d = (ok [], d)
get_cache_read_stats_batch (h ∷ hs) d =
    exec d (ok (keep (λ r. any (text_eq r.hash) (h ∷ hs)) d.reads), bump d)

unfoldable pub list_all_cache_read_stats : Db → Result Error (List ReadRow) × Db
list_all_cache_read_stats d = exec d (ok d.reads, bump d)

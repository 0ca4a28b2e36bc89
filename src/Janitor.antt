-- ===== src/Janitor.antt =====
-- internal/janitor/janitor.go: one sweep over the stored entries. Durations and times are
-- nanoseconds; a sweep that reads many pages has one unit of fuel for each.
pub mod Safety
pub mod Ending
use nx_remote_cache.Base.{
  Bool, List, Option, Result, Text, [], err, false, if◌then◌else◌, ltb_ℤ, none, ok, pos, some, suc,
  text_eq, true, zero, ℕ, ℤ, ◌&&◌, ◌+◌, ◌-ℤ◌, ◌∷◌,
}
use nx_remote_cache.Storage
use nx_remote_cache.Storage.{Entry, ListPage}
use nx_remote_cache.Store.{CacheReadStats, ReadRow}
use nx_remote_cache.Store.Reads.{stats_of, delete_cache_read_stats, list_all_cache_read_stats}
use nx_remote_cache.World.{World, active}

pub record Config : Type 0 where
  pub max_age : ℤ
  pub unread_after : ℤ

-- t.Before(u).
abbrev pub before : ℤ → ℤ → Bool
before t u = ltb_ℤ t u

abbrev unread_since : Option ℤ → ℤ → Bool
unread_since none cutoff = true
unread_since (some t) cutoff = before t cutoff

unfoldable pub should_delete : Entry → CacheReadStats → ℤ → ℤ → Bool
should_delete e stats age_cutoff unread_cutoff =
    if before e.mod_time age_cutoff
    then true
    else if before e.mod_time unread_cutoff && unread_since stats.last_read_at unread_cutoff
    then true
    else false

module _ {S : Type 0} where
  -- backend.Delete, and the read statistics after it; the count goes up by what it returns.
  unfoldable pub delete_entry : Text → World S → Bool × World S
  delete_entry hash w =
      let (deleted, storage') = (active w).delete hash w.storage in
      let w' = record w { storage = storage' } in
      let cleared = record w' { db = (delete_cache_read_stats hash w.db).1 } in
      elim deleted [
        | ok _ ↦ (true, cleared)
        | err Storage.Error.not_found ↦ (true, cleared)
        | err _ ↦ (false, w')
      ]

  -- The loop over a page, which counts on from `deleted`.
  unfoldable pub sweep_entries : List ReadRow → ℤ → ℤ → List Entry → ℕ → World S → ℕ × World S
  sweep_entries reads age unread [] deleted w = (deleted, w)
  sweep_entries reads age unread (e ∷ es) deleted w =
      let (gone, w') = delete_entry e.hash w in
      let doomed = should_delete e (stats_of e.hash reads) age unread in
      sweep_entries reads age unread es (if doomed && gone then deleted + 1 else deleted)
        (if doomed then w' else w)

  -- The loop over the pages. The result is none without fuel, and the error is the last page's.
  unfoldable pub sweep_pages :
      ℕ → List ReadRow → ℤ → ℤ → Text → ℕ → World S → Option (Result Storage.Error ℕ) × World S
  sweep_pages zero reads age unread cursor deleted w = (none, w)
  sweep_pages (suc fuel) reads age unread cursor deleted w =
      let (listed, storage') = (active w).list cursor (pos 200) w.storage in
      let w' = record w { storage = storage' } in
      elim listed [
        | err e ↦ (some (err e), w')
        | ok page ↦
            let (deleted', w'') = sweep_entries reads age unread page.entries deleted w' in
            let more = sweep_pages fuel reads age unread page.next_cursor deleted' w'' in
            if text_eq page.next_cursor [] then (some (ok deleted'), w'') else more
      ]

  -- Sweep at the time `time`.
  unfoldable pub sweep : ℕ → Config → ℤ → World S → Option (Result Storage.Error ℕ) × World S
  unfolding sweep_pages sweep_entries delete_entry
  sweep fuel cfg time w =
      let (reads, db') = list_all_cache_read_stats w.db in
      let w' = record w { db = db' } in
      elim reads [
        | err _ ↦ (some (err Storage.Error.failure), w')
        | ok rows ↦ sweep_pages fuel rows (time -ℤ cfg.max_age) (time -ℤ cfg.unread_after) [] 0 w'
      ]

  -- What sweepOnce logs is left out.
  unfoldable pub sweep_once : ℕ → Config → ℤ → World S → World S
  unfolding sweep
  sweep_once fuel cfg time w = (sweep fuel cfg time w).1

  -- The loop over the ticks until the context is done; each is the time of its sweep.
  run_ticks : ℕ → Config → List ℤ → World S → World S
  unfolding sweep_once
  run_ticks fuel cfg [] w = w
  run_ticks fuel cfg (time ∷ ticks) w = run_ticks fuel cfg ticks (sweep_once fuel cfg time w)

  -- Run: a sweep at once, and one at every tick.
  unfoldable pub run : ℕ → Config → ℤ → List ℤ → World S → World S
  unfolding run_ticks sweep_once
  run fuel cfg time ticks w = run_ticks fuel cfg ticks (sweep_once fuel cfg time w)

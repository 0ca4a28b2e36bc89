-- ===== src/Janitor/Ending.antt =====
-- Sweep ends, and how many pages it reads.
use mathlib.Core.Path.{subst}
use nx_remote_cache.Base.{
  Bool, Bool-cases, List, Result-cases, Text, [], arith, false, if◌then◌else◌, inl, inr, is_some,
  ok, pos, refl, suc, sym, text_eq, true, zero, ℕ, ℤ, ◌<◌, ◌∷◌, ◌≡◌, ◌≤◌,
}
use nx_remote_cache.Storage.{Entry, ListPage}
use nx_remote_cache.Storage.Paging.{IsPaged}
use nx_remote_cache.Store.{ReadRow}
use nx_remote_cache.Store.Reads.{list_all_cache_read_stats}
use nx_remote_cache.World.{World, active}
use nx_remote_cache.Janitor.{Config, delete_entry, sweep_entries, sweep_pages, sweep}
use nx_remote_cache.Janitor.Safety.{delete_entry-frame}

module _ {S : Type 0} (fits : S → Type 0) (rank : S → Text → ℕ) where
  -- At most `n` more pages are listed from the cursor on.
  pub record IsEnding (cursor : Text) (n : ℕ) (w : World S) : Type 0 where
    pub paged : IsPaged w.backend fits rank
    pub fitting : fits w.storage
    pub bound : rank w.storage cursor ≤ n

  pub IsEnding-next :
      (cursor : Text) (n : ℕ) (w : World S) (page : ListPage)
      → IsEnding cursor (suc n) w
      → ((active w).list cursor (pos 200) w.storage).0 ≡ ok page
      → text_eq page.next_cursor [] ≡ false
      → IsEnding page.next_cursor n
          (record w { storage = ((active w).list cursor (pos 200) w.storage).1 })
  IsEnding-next cursor n w page k e more =
      let fewer = k.paged.list_rank cursor 200 w.storage page k.fitting (omega arith) e more in
      record {
        paged = k.paged;
        fitting = k.paged.list_fits cursor (pos 200) w.storage k.fitting;
        bound = omega (arith, fewer, k.bound);
      }

  module _ (cursor : Text) (n : ℕ) where
    IsEnding-delete_entry :
        (h : Text) (w : World S) → IsEnding cursor n w → IsEnding cursor n (delete_entry h w).1
    IsEnding-delete_entry h w k =
        let (same, new) = delete_entry-frame h w in
        record {
          paged = subst (λ b. IsPaged b fits rank) (sym same) k.paged;
          fitting = rw new (k.paged.delete_fits h w.storage k.fitting);
          bound = rw new (omega (arith, k.paged.delete_rank h w.storage cursor, k.bound));
        }

    IsEnding-if :
        (b : Bool) (v w : World S)
        → IsEnding cursor n v
        → IsEnding cursor n w
        → IsEnding cursor n (if b then v else w)
    IsEnding-if true v w p q = p
    IsEnding-if false v w p q = q

    IsEnding-sweep_entries :
        (reads : List ReadRow) (age unread : ℤ) (es : List Entry) (deleted : ℕ) (w : World S)
        → IsEnding cursor n w
        → IsEnding cursor n (sweep_entries reads age unread es deleted w).1
    unfolding sweep_entries
    IsEnding-sweep_entries reads age unread [] deleted w k = k
    IsEnding-sweep_entries reads age unread (e ∷ es) deleted w k =
        IsEnding-sweep_entries reads age unread es _ _
          (IsEnding-if _ _ _ (IsEnding-delete_entry e.hash w k) k)

  pub IsEnding-last :
      (cursor : Text) (w : World S) (page : ListPage)
      → IsEnding cursor 0 w
      → ((active w).list cursor (pos 200) w.storage).0 ≡ ok page
      → text_eq page.next_cursor [] ≡ true
  IsEnding-last cursor w page k e = elim (Bool-cases (text_eq page.next_cursor [])) [
    | inl last ↦ last
    | inr more ↦
        let fewer = k.paged.list_rank cursor 200 w.storage page k.fitting (omega arith) e more in
        absurd (omega (arith, fewer, k.bound))
  ]

  sweep_pages-ends :
      (fuel : ℕ) (reads : List ReadRow) (age unread : ℤ) (cursor : Text) (deleted : ℕ) (w : World S)
      → IsEnding cursor fuel w
      → is_some (sweep_pages (suc fuel) reads age unread cursor deleted w).0 ≡ true
  unfolding sweep_pages
  sweep_pages-ends zero reads age unread cursor deleted w k =
      elim (Result-cases ((active w).list cursor (pos 200) w.storage).0) [
        | inr (x, e) ↦ rw (e, sweep_pages) refl
        | inl (page, e) ↦ rw (e, sweep_pages, IsEnding-last cursor w page k e) refl
      ]
  sweep_pages-ends (suc fuel) reads age unread cursor deleted w k =
      elim (Result-cases ((active w).list cursor (pos 200) w.storage).0) [
        | inr (x, e) ↦ rw (e, sweep_pages) refl
        | inl (page, e) ↦ elim (Bool-cases (text_eq page.next_cursor [])) [
          | inl last ↦ rw (e, sweep_pages, last) refl
          | inr more ↦
              let w' = record w { storage = ((active w).list cursor (pos 200) w.storage).1 } in
              let next = IsEnding-next cursor fuel w page k e more in
              rw (e, sweep_pages, more)
                (sweep_pages-ends fuel reads age unread page.next_cursor _ _ (
                  IsEnding-sweep_entries page.next_cursor fuel reads age unread page.entries deleted
                    w' next))
        ]
      ]

  -- Over a backend that obeys IsPaged, from a state that fits it, a sweep ends after at most one
  -- page more than the rank of the listing at its start, whichever calls fail and whatever it
  -- deletes on the way.
  pub sweep-ends :
      (fuel : ℕ) (cfg : Config) (time : ℤ) (w : World S)
      → IsPaged w.backend fits rank
      → fits w.storage
      → rank w.storage [] < fuel
      → is_some (sweep fuel cfg time w).0 ≡ true
  unfolding sweep
  sweep-ends zero cfg time w paged fitting h = absurd (omega arith)
  sweep-ends (suc fuel) cfg time w paged fitting h =
      elim (Result-cases (list_all_cache_read_stats w.db).0) [
        | inr (x, e) ↦ rw (e, sweep) refl
        | inl (rows, e) ↦
            rw (e, sweep)
              (sweep_pages-ends fuel rows _ _ [] 0
                (record w { db = (list_all_cache_read_stats w.db).1 })
                (record { paged = paged; fitting = fitting; bound = omega arith }))
      ]

-- ===== src/Storage/Paging.antt =====
-- Listings that come to an end, whatever is deleted between their pages.
use nx_remote_cache.Base.{Text, [], false, ok, pos, text_eq, ℕ, ℤ, ◌<◌, ◌≡◌, ◌≤◌}
use nx_remote_cache.Storage.{Backend, ListPage}

-- `rank s cursor` is how much of a listing is still to come. It shrinks from page to page, and a
-- Delete does not add to it, as long as the state is one that `fits`.
pub record IsPaged {S : Type 0} (b : Backend S) (fits : S → Type 0) (rank : S → Text → ℕ)
    : Type 0 where
  pub list_fits : (cursor : Text) (limit : ℤ) (s : S) → fits s → fits (b.list cursor limit s).1
  pub list_rank :
      (cursor : Text) (n : ℕ) (s : S) (page : ListPage)
      → fits s
      → 0 < n
      → (b.list cursor (pos n) s).0 ≡ ok page
      → text_eq page.next_cursor [] ≡ false
      → rank (b.list cursor (pos n) s).1 page.next_cursor < rank s cursor
  pub delete_fits : (h : Text) (s : S) → fits s → fits (b.delete h s).1
  pub delete_rank :
      (h : Text) (s : S) (cursor : Text) → rank (b.delete h s).1 cursor ≤ rank s cursor

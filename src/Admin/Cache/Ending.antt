-- ===== src/Admin/Cache/Ending.antt =====
-- pruneOlderThan ends, and how many pages it reads.
use nx_remote_cache.Base.{
  Bool-cases, List, Option, Result, Result-cases, Text, [], arith, err, inl, inr, is_some, leb_ℤ,
  ltb_ℤ, none, ok, pos, refl, some, suc, text_eq, true, zero, ℕ, ℤ, ◌+◌, ◌<◌, ◌∷◌, ◌≡◌,
}
use nx_remote_cache.Storage
use nx_remote_cache.Storage.{Entry, ListPage}
use nx_remote_cache.Storage.Paging.{IsPaged}
use nx_remote_cache.Store.{User}
use nx_remote_cache.World.{World, active}
use nx_remote_cache.Janitor.Ending.{IsEnding, IsEnding-next, IsEnding-last}
use nx_remote_cache.Admin.Cache.{
  delete_stored, clear_read_stats, prune_entries, prune_next, prune_older_than, prune_answer,
  handle_prune, prune_cutoff,
}

module _ {S : Type 0} (fits : S → Type 0) (rank : S → Text → ℕ) where
  module _ (cursor : Text) (n : ℕ) where
    IsEnding-clear :
        (h : Text) (w : World S)
        → IsEnding fits rank cursor n w
        → IsEnding fits rank cursor n (clear_read_stats h (delete_stored h w).1)
    IsEnding-clear h w k = record {
      paged = k.paged;
      fitting = k.paged.delete_fits h w.storage k.fitting;
      bound = omega (arith, k.paged.delete_rank h w.storage cursor, k.bound);
    }

    IsEnding-prune_next :
        (res : Result Storage.Error (Unit {0})) (pruned : Result Storage.Error ℕ × World S)
        (w : World S)
        → IsEnding fits rank cursor n pruned.1
        → IsEnding fits rank cursor n w
        → IsEnding fits rank cursor n (prune_next res pruned w).1
    unfolding prune_next
    IsEnding-prune_next (ok _) pruned w p q = p
    IsEnding-prune_next (err Storage.Error.not_found) pruned w p q = p
    IsEnding-prune_next (err Storage.Error.already_exists) pruned w p q = q
    IsEnding-prune_next (err Storage.Error.failure) pruned w p q = q

    IsEnding-prune_entries :
        (cutoff : ℤ) (es : List Entry) (deleted : ℕ) (w : World S)
        → IsEnding fits rank cursor n w
        → IsEnding fits rank cursor n (prune_entries cutoff es deleted w).1
    unfolding prune_entries
    IsEnding-prune_entries cutoff [] deleted w k = k
    IsEnding-prune_entries cutoff (e ∷ es) deleted w k =
        elim (Bool-cases (ltb_ℤ e.mod_time cutoff)) [
          | inr spared ↦ rw spared (IsEnding-prune_entries cutoff es deleted w k)
          | inl old ↦
              let cleared = IsEnding-clear e.hash w k in
              rw old (
                IsEnding-prune_next (delete_stored e.hash w).0 _ _
                  (IsEnding-prune_entries cutoff es (deleted + 1) _ cleared)
                  (record {
                    paged = cleared.paged;
                    fitting = cleared.fitting;
                    bound = cleared.bound;
                  }))
        ]

  prune_older_than-ends :
      (fuel : ℕ) (cutoff : ℤ) (cursor : Text) (deleted : ℕ) (w : World S)
      → IsEnding fits rank cursor fuel w
      → is_some (prune_older_than (suc fuel) cutoff cursor deleted w).0 ≡ true
  unfolding prune_older_than
  prune_older_than-ends zero cutoff cursor deleted w k =
      elim (Result-cases ((active w).list cursor (pos 200) w.storage).0) [
        | inr (x, e) ↦ rw (e, prune_older_than) refl
        | inl (page, e) ↦
            let w' = record w { storage = ((active w).list cursor (pos 200) w.storage).1 } in
            let pruned = prune_entries cutoff page.entries deleted w' in
            elim (Result-cases pruned.0) [
              | inr (x, q) ↦ rw (e, prune_older_than, q) refl
              | inl (m, q) ↦
                  rw (e, prune_older_than, q, IsEnding-last fits rank cursor w page k e) refl
            ]
      ]
  prune_older_than-ends (suc fuel) cutoff cursor deleted w k =
      elim (Result-cases ((active w).list cursor (pos 200) w.storage).0) [
        | inr (x, e) ↦ rw (e, prune_older_than) refl
        | inl (page, e) ↦
            let w' = record w { storage = ((active w).list cursor (pos 200) w.storage).1 } in
            let pruned = prune_entries cutoff page.entries deleted w' in
            elim (Result-cases pruned.0) [
              | inr (x, q) ↦ rw (e, prune_older_than, q) refl
              | inl (m, q) ↦ elim (Bool-cases (text_eq page.next_cursor [])) [
                | inl last ↦ rw (e, prune_older_than, q, last) refl
                | inr more ↦
                    let next = IsEnding-next fits rank cursor fuel w page k e more in
                    rw (e, prune_older_than, q, more)
                      (prune_older_than-ends fuel cutoff page.next_cursor m pruned.1 (
                        IsEnding-prune_entries page.next_cursor fuel cutoff page.entries deleted w'
                          next))
              ]
            ]
      ]

  prune_answer-some :
      (x : Option (Result Storage.Error ℕ) × World S)
      → is_some x.0 ≡ true
      → is_some (prune_answer x).0 ≡ true
  unfolding prune_answer
  prune_answer-some (none, w) e = absurd (ground arith)
  prune_answer-some (some (err x), w) e = refl
  prune_answer-some (some (ok n), w) e = refl

  -- Over a backend that obeys IsPaged, from a state that fits it, handlePrune answers after at
  -- most one page more than the rank of the listing at its start, whichever calls fail and
  -- whatever it deletes on the way.
  pub handle_prune-answers :
      (fuel : ℕ) (time : ℤ) (days : Option ℤ) (current : User) (w : World S)
      → IsPaged w.backend fits rank
      → fits w.storage
      → rank w.storage [] < fuel
      → is_some (handle_prune fuel time days current w).0 ≡ true
  unfolding handle_prune
  handle_prune-answers zero time days current w paged fitting h = absurd (omega arith)
  handle_prune-answers (suc fuel) time none current w paged fitting h = refl
  handle_prune-answers (suc fuel) time (some n) current w paged fitting h =
      elim (Bool-cases (leb_ℤ n (pos 0))) [
        | inl bad ↦ rw bad refl
        | inr good ↦ rw good (
            prune_answer-some (prune_older_than (suc fuel) (prune_cutoff time n) [] 0 w) (
              prune_older_than-ends fuel (prune_cutoff time n) [] 0 w
                (record { paged = paged; fitting = fitting; bound = omega arith })))
      ]

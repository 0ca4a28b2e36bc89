-- ===== src/Admin/Cache/Pruning.antt =====
-- What deletions from the admin API leave alone.
use nx_remote_cache.Base.{
  All, Bool, Bool-cases, List, Option, Result, Result-cases, Text, [], any, ap, arith, err, false,
  inl, inr, length, ltb, ltb_ℤ, none, ok, pos, refl, some, suc, text_eq, true, zero, ℕ, ℤ, ◌*◌, ◌+◌,
  ◌-ℤ◌, ◌∙◌, ◌∷◌, ◌≡◌, ◌≤◌,
}
use nx_remote_cache.Storage
use nx_remote_cache.Storage.{Entry, ListPage, valid_hash}
use nx_remote_cache.Storage.Contract.{Artifact, IsStore}
use nx_remote_cache.World.{World, active}
use nx_remote_cache.Store.{User}
use nx_remote_cache.Janitor.Safety.{Keeps, IsTimed, IsTimed-list, Keeps-list}
use nx_remote_cache.Admin.Cache.Cutoff.{prune_cutoff_exact}
use nx_remote_cache.Admin.Cache.{
  delete_stored, clear_read_stats, bulk_step, bulk_loop, handle_bulk_delete, prune_entries,
  prune_next, prune_older_than, prune_answer, handle_prune, prune_cutoff, max_bulk_delete,
}

module _ {S : Type 0} (holds : S → Text → Option Artifact) (names : Text → Bool) (j : Text)
    (a : Artifact) where
  Keeps-delete_stored :
      (h : Text) (w : World S)
      → Keeps holds names j a w
      → names h ≡ true
      → text_eq h j ≡ false
      → Keeps holds names j a (delete_stored h w).1
  Keeps-delete_stored h w k named apart = record {
    law = k.law;
    held = k.law.delete_others h w.storage j named apart ∙ k.held;
  }

  Keeps-prune_next :
      (res : Result Storage.Error (Unit {0})) (pruned : Result Storage.Error ℕ × World S)
      (w : World S)
      → Keeps holds names j a pruned.1
      → Keeps holds names j a w
      → Keeps holds names j a (prune_next res pruned w).1
  unfolding prune_next
  Keeps-prune_next (ok _) pruned w p q = p
  Keeps-prune_next (err Storage.Error.not_found) pruned w p q = p
  Keeps-prune_next (err Storage.Error.already_exists) pruned w p q = q
  Keeps-prune_next (err Storage.Error.failure) pruned w p q = q

  module _ (cutoff : ℤ) (young : ltb_ℤ a.mod_time cutoff ≡ false) where
    Keeps-prune_entries :
        (es : List Entry) (n : ℕ) (w : World S)
        → All (IsTimed holds names j a) es
        → Keeps holds names j a w
        → Keeps holds names j a (prune_entries cutoff es n w).1
    unfolding prune_entries
    Keeps-prune_entries [] n w timed k = k
    Keeps-prune_entries (e ∷ es) n w (t, timed) k = elim (Bool-cases (ltb_ℤ e.mod_time cutoff)) [
      | inr spared ↦ rw spared (Keeps-prune_entries es n w timed k)
      | inl old ↦
          let apart : text_eq e.hash j ≡ false = ground arith in
          let k' = Keeps-delete_stored e.hash w k t.0 apart in
          let w' = clear_read_stats e.hash (delete_stored e.hash w).1 in
          let later =
            Keeps-prune_entries es (n + 1) w' timed (record { law = k'.law; held = k'.held }) in
          rw old (Keeps-prune_next (delete_stored e.hash w).0 _ _ later k')
    ]

    Keeps-prune_older_than :
        (fuel : ℕ) (cursor : Text) (n : ℕ) (w : World S)
        → valid_hash j ≡ true
        → Keeps holds names j a w
        → Keeps holds names j a (prune_older_than fuel cutoff cursor n w).1
    unfolding prune_older_than
    Keeps-prune_older_than zero cursor n w jv k = k
    Keeps-prune_older_than (suc fuel) cursor n w jv k =
        let kept = Keeps-list holds names j a w cursor (pos 200) k in
        elim (Result-cases ((active w).list cursor (pos 200) w.storage).0) [
          | inr (x, e) ↦ rw (e, prune_older_than) kept
          | inl (page, e) ↦
              let w' = record w { storage = ((active w).list cursor (pos 200) w.storage).1 } in
              let pruned =
                Keeps-prune_entries page.entries n w'
                  (IsTimed-list holds names j a w cursor (pos 200) page jv k e) kept in
              rw (e, prune_older_than)
                (elim (Result-cases (prune_entries cutoff page.entries n w').0) [
                  | inr (x, f) ↦ rw (f, prune_older_than) pruned
                  | inl (m, f) ↦
                      rw (f, prune_older_than)
                        (elim (Bool-cases (text_eq page.next_cursor [])) [
                          | inl last ↦ rw last pruned
                          | inr more ↦
                              rw more (Keeps-prune_older_than fuel page.next_cursor m _ jv pruned)
                        ])
                ])
        ]

  storage-prune_answer : (x : Option (Result Storage.Error ℕ) × World S) → (prune_answer x).1 ≡ x.1
  unfolding prune_answer
  storage-prune_answer (none, w) = refl
  storage-prune_answer (some (err e), w) = refl
  storage-prune_answer (some (ok n), w) = refl

  handle_prune-runs :
      (fuel : ℕ) (time : ℤ) (n : ℕ) (user : User) (w : World S)
      → handle_prune fuel time (some (pos (suc n))) user w
        ≡ prune_answer (prune_older_than fuel (prune_cutoff time (pos (suc n))) [] 0 w)
  unfolding handle_prune
  handle_prune-runs fuel time n user w = ground arith

  -- Over a backend that obeys IsStore, a prune of what is older than up to 106751 days keeps every
  -- artifact under a valid hash that is not older than that, whichever calls fail and however far
  -- the prune comes.
  pub handle_prune-keeps :
      (fuel : ℕ) (time : ℤ) (days : ℕ) (user : User) (w : World S)
      → IsStore w.backend holds names
      → valid_hash j ≡ true
      → holds w.storage j ≡ some a
      → days ≤ 106751
      → ltb_ℤ a.mod_time (time -ℤ pos (days * 86400000000000)) ≡ false
      → holds (handle_prune fuel time (some (pos days)) user w).1.storage j ≡ some a
  handle_prune-keeps fuel time zero user w law jv h few young = unfold handle_prune in h
  handle_prune-keeps fuel time (suc n) user w law jv h few young =
      let cutoff = prune_cutoff time (pos (suc n)) in
      let exact = prune_cutoff_exact time (suc n) (omega arith) few in
      let kept =
        Keeps-prune_older_than cutoff (ap (ltb_ℤ a.mod_time) exact ∙ young) fuel [] 0 w jv
          (record { law = law; held = h }) in
      rw
        (
          handle_prune-runs fuel time n user w,
          storage-prune_answer (prune_older_than fuel cutoff [] 0 w),
        )
        kept.held

  Keeps-bulk_step :
      (h : Text) (w : World S)
      → Keeps holds names j a w
      → text_eq h j ≡ false
      → Keeps holds names j a (bulk_step h w).1
  unfolding bulk_step
  Keeps-bulk_step h w k apart = elim (Bool-cases (valid_hash h)) [
    | inr bad ↦ rw bad k
    | inl fine ↦
        let k' = Keeps-delete_stored h w k (k.law.names_valid h fine) apart in
        elim (Result-cases (delete_stored h w).0) [
          | inl (_, e) ↦ rw (fine, e, bulk_step) (record { law = k'.law; held = k'.held })
          | inr (_, e) ↦ rw (fine, e, bulk_step) k'
        ]
  ]

  Keeps-bulk_loop :
      (hs : List Text) (n : ℕ) (w : World S)
      → any (λ h. text_eq h j) hs ≡ false
      → Keeps holds names j a w
      → Keeps holds names j a (bulk_loop hs n w).1
  unfolding bulk_loop
  Keeps-bulk_loop [] n w others k = k
  Keeps-bulk_loop (h ∷ hs) n w others k =
      Keeps-bulk_loop hs _ _ (ground arith) (Keeps-bulk_step h w k (ground arith))

  -- Over a backend that obeys IsStore, a bulk delete keeps every artifact whose hash is not in its
  -- list.
  pub handle_bulk_delete-keeps :
      (hs : List Text) (user : User) (w : World S)
      → IsStore w.backend holds names
      → holds w.storage j ≡ some a
      → any (λ h. text_eq h j) hs ≡ false
      → holds (handle_bulk_delete (some hs) user w).1.storage j ≡ some a
  unfolding handle_bulk_delete
  handle_bulk_delete-keeps hs user w law h others =
      elim (Bool-cases (ltb max_bulk_delete (length hs))) [
        | inl many ↦ rw many h
        | inr few ↦ rw few (Keeps-bulk_loop hs 0 w others (record { law = law; held = h })).held
      ]

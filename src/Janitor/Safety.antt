-- ===== src/Janitor/Safety.antt =====
-- What a sweep leaves alone.
use mathlib.Core.Path.{subst}
use nx_remote_cache.Base.{
  All, Bool, Bool-cases, List, Option, Result-cases, Text, [], ap, arith, false, if◌then◌else◌, inl,
  inr, ok, pos, some, some_inj, suc, sym, text_eq, text_eq_iff, true, zero, ℕ, ℤ, ◌-ℤ◌, ◌∙◌, ◌∷◌,
  ◌≡◌, ◌⊎◌,
}
use nx_remote_cache.Storage.{Entry, ListPage, valid_hash}
use nx_remote_cache.Storage.Contract.{Artifact, IsStore, Describes, mod_time_of}
use nx_remote_cache.Store.{ReadRow, Db}
use nx_remote_cache.Store.Reads.{stats_of, list_all_cache_read_stats}
use nx_remote_cache.World.{World, active}
use nx_remote_cache.Janitor.{
  Config, should_delete, delete_entry, sweep_entries, sweep_pages, sweep, before, run, run_ticks,
  sweep_once,
}

list_all_cache_read_stats-ok :
    (d : Db) {rows : List ReadRow} → (list_all_cache_read_stats d).0 ≡ ok rows → rows ≡ d.reads
unfolding list_all_cache_read_stats
list_all_cache_read_stats-ok d e = ground arith

pub delete_entry-frame :
    {S : Type 0} (hash : Text) (w : World S)
    → ((delete_entry hash w).1.backend ≡ w.backend)
      × ((delete_entry hash w).1.storage ≡ ((active w).delete hash w.storage).1)
unfolding delete_entry
delete_entry-frame hash w = ground arith

-- Neither rule dooms the artifact at that time.
abbrev pub IsYoung : Config → Artifact → ℤ → Type 0
IsYoung cfg a time =
    (before a.mod_time (time -ℤ cfg.max_age) ≡ false)
    × (before a.mod_time (time -ℤ cfg.unread_after) ≡ false)

module _ {S : Type 0} (holds : S → Text → Option Artifact) (names : Text → Bool) (j : Text)
    (a : Artifact) where
  -- The backend is a cache that holds `a` under `j`.
  pub record Keeps (w : World S) : Type 0 where
    pub law : IsStore w.backend holds names
    pub held : holds w.storage j ≡ some a

  -- An entry has a name that a Delete tells apart, and one of `j` gives the time of `a`.
  abbrev pub IsTimed : Entry → Type 0
  IsTimed e = (names e.hash ≡ true) × (text_eq e.hash j ≡ true → e.mod_time ≡ a.mod_time)

  -- A listing is accurate about `j`.
  pub IsTimed-list :
      (w : World S) (cursor : Text) (limit : ℤ) (page : ListPage)
      → valid_hash j ≡ true
      → Keeps w
      → ((active w).list cursor limit w.storage).0 ≡ ok page
      → All IsTimed page.entries
  IsTimed-list w cursor limit page jv k e =
      timed page.entries (k.law.list_ok cursor limit w.storage page e)
    where
      time_of :
          (x : Entry)
          → Describes (holds w.storage) x
          → text_eq x.hash j ≡ true
          → x.mod_time ≡ a.mod_time
      time_of x described same =
          let h = (text_eq_iff x.hash j).0 same in
          let told = described (ap valid_hash h ∙ jv) in
          some_inj (sym told ∙ ap (λ y. mod_time_of (holds w.storage y)) h ∙ ap mod_time_of k.held)

      timed :
          (es : List Entry)
          → All (λ x. (names x.hash ≡ true) × Describes (holds w.storage) x) es
          → All IsTimed es
      timed [] d = tt
      timed (x ∷ xs) ((named, d), ds) = ((named, time_of x d), timed xs ds)

  pub Keeps-list :
      (w : World S) (cursor : Text) (limit : ℤ)
      → Keeps w
      → Keeps (record w { storage = ((active w).list cursor limit w.storage).1 })
  Keeps-list w cursor limit k = record {
    law = k.law;
    held = k.law.list_keeps cursor limit w.storage j ∙ k.held;
  }

  Keeps-if : (b : Bool) (v w : World S) → Keeps v → Keeps w → Keeps (if b then v else w)
  Keeps-if true v w p q = p
  Keeps-if false v w p q = q

  Keeps-either :
      {A : Type 0} (b : Bool) (x y : A × World S)
      → Keeps x.1
      → Keeps y.1
      → Keeps (if b then x else y).1
  Keeps-either true x y p q = p
  Keeps-either false x y p q = q

  Keeps-delete_entry :
      (hash : Text) (w : World S)
      → Keeps w
      → names hash ≡ true
      → text_eq hash j ≡ false
      → Keeps (delete_entry hash w).1
  Keeps-delete_entry hash w k named apart =
      let (same, new) = delete_entry-frame hash w in
      record {
        law = subst (λ b. IsStore b holds names) (sym same) k.law;
        held = rw new (k.law.delete_others hash w.storage j named apart ∙ k.held);
      }

  module _ (reads : List ReadRow) (age unread : ℤ)
      (spared : (e : Entry)
        → text_eq e.hash j ≡ true
        → e.mod_time ≡ a.mod_time
        → should_delete e (stats_of e.hash reads) age unread ≡ false) where
    Keeps-entry :
        (e : Entry) (w : World S)
        → IsTimed e
        → Keeps w
        → Keeps (
            if should_delete e (stats_of e.hash reads) age unread
            then (delete_entry e.hash w).1
            else w)
    Keeps-entry e w t k = elim (Bool-cases (text_eq e.hash j)) [
      | inl same ↦ rw (spared e same (t.1 same)) k
      | inr apart ↦ Keeps-if _ _ _ (Keeps-delete_entry e.hash w k t.0 apart) k
    ]

    Keeps-sweep_entries :
        (es : List Entry) (n : ℕ) (w : World S)
        → All IsTimed es
        → Keeps w
        → Keeps (sweep_entries reads age unread es n w).1
    unfolding sweep_entries
    Keeps-sweep_entries [] n w timed k = k
    Keeps-sweep_entries (e ∷ es) n w (t, timed) k =
        Keeps-sweep_entries es _ _ timed (Keeps-entry e w t k)

    Keeps-sweep_pages :
        (fuel : ℕ) (cursor : Text) (n : ℕ) (w : World S)
        → valid_hash j ≡ true
        → Keeps w
        → Keeps (sweep_pages fuel reads age unread cursor n w).1
    unfolding sweep_pages
    Keeps-sweep_pages zero cursor n w jv k = k
    Keeps-sweep_pages (suc fuel) cursor n w jv k =
        let kept = Keeps-list w cursor (pos 200) k in
        elim (Result-cases ((active w).list cursor (pos 200) w.storage).0) [
          | inl (page, e) ↦
              let swept =
                Keeps-sweep_entries page.entries n _ (IsTimed-list w cursor (pos 200) page jv k e)
                  kept in
              rw (e, sweep_pages)
                (Keeps-either (text_eq page.next_cursor []) _ _ swept
                  (Keeps-sweep_pages fuel page.next_cursor _ _ jv swept))
          | inr (x, e) ↦ rw (e, sweep_pages) kept
        ]

  spared_of :
      (rows : List ReadRow) (age unread : ℤ)
      → before a.mod_time age ≡ false
      → (before a.mod_time unread ≡ false)
        ⊎ ((t : ℤ) × ((stats_of j rows).last_read_at ≡ some t) × (before t unread ≡ false))
      → (e : Entry) → text_eq e.hash j ≡ true
      → e.mod_time ≡ a.mod_time
      → should_delete e (stats_of e.hash rows) age unread ≡ false
  unfolding should_delete
  spared_of rows age unread young used e same timed =
      ground (arith, ap (λ h. stats_of h rows) ((text_eq_iff e.hash j).0 same))

  pub Keeps-sweep :
      (fuel : ℕ) (cfg : Config) (time : ℤ) (w : World S)
      → valid_hash j ≡ true
      → Keeps w
      → before a.mod_time (time -ℤ cfg.max_age) ≡ false
      → (before a.mod_time (time -ℤ cfg.unread_after) ≡ false)
        ⊎ ((t : ℤ) × ((stats_of j w.db.reads).last_read_at ≡ some t)
            × (before t (time -ℤ cfg.unread_after) ≡ false))
      → Keeps (sweep fuel cfg time w).1
  unfolding sweep
  Keeps-sweep fuel cfg time w jv k young used =
      let age = time -ℤ cfg.max_age in
      let unread = time -ℤ cfg.unread_after in
      elim (Result-cases (list_all_cache_read_stats w.db).0) [
        | inl (rows, e) ↦
            let loaded = list_all_cache_read_stats-ok w.db e in
            rw (e, sweep)
              (Keeps-sweep_pages rows age unread (spared_of rows age unread young (rw loaded used))
                fuel [] 0 (record w { db = (list_all_cache_read_stats w.db).1 }) jv
                (record { law = k.law; held = k.held }))
        | inr (x, e) ↦ rw (e, sweep) (record { law = k.law; held = k.held })
      ]

  -- Over a backend that obeys IsStore, a sweep keeps every artifact under a valid hash that no
  -- rule dooms: it is not older than MaxAge, and either not older than UnreadAfter or read since,
  -- by the statistics at the start of the sweep. This holds whichever calls fail and however far
  -- the sweep comes.
  pub sweep-keeps :
      (fuel : ℕ) (cfg : Config) (time : ℤ) (w : World S)
      → IsStore w.backend holds names
      → valid_hash j ≡ true
      → holds w.storage j ≡ some a
      → before a.mod_time (time -ℤ cfg.max_age) ≡ false
      → (before a.mod_time (time -ℤ cfg.unread_after) ≡ false)
        ⊎ ((t : ℤ) × ((stats_of j w.db.reads).last_read_at ≡ some t)
            × (before t (time -ℤ cfg.unread_after) ≡ false))
      → holds (sweep fuel cfg time w).1.storage j ≡ some a
  sweep-keeps fuel cfg time w law jv h young used =
      (Keeps-sweep fuel cfg time w jv (record { law = law; held = h }) young used).held

  Keeps-run_ticks :
      (fuel : ℕ) (cfg : Config) (ticks : List ℤ) (w : World S)
      → valid_hash j ≡ true
      → Keeps w
      → All (IsYoung cfg a) ticks
      → Keeps (run_ticks fuel cfg ticks w)
  unfolding run_ticks sweep_once
  Keeps-run_ticks fuel cfg [] w jv k young = k
  Keeps-run_ticks fuel cfg (time ∷ ticks) w jv k ((age, unread), young) =
      Keeps-run_ticks fuel cfg ticks _ jv (Keeps-sweep fuel cfg time w jv k age (inl unread)) young

  -- Over a backend that obeys IsStore, the janitor keeps an artifact under a valid hash through all
  -- its sweeps, the one at its start and one for each tick, as long as at the time of each sweep the
  -- artifact is older neither than MaxAge nor than UnreadAfter, whichever calls fail.
  pub run-keeps_young :
      (fuel : ℕ) (cfg : Config) (time : ℤ) (ticks : List ℤ) (w : World S)
      → IsStore w.backend holds names
      → valid_hash j ≡ true
      → holds w.storage j ≡ some a
      → All (IsYoung cfg a) (time ∷ ticks)
      → holds (run fuel cfg time ticks w).storage j ≡ some a
  unfolding run sweep_once
  run-keeps_young fuel cfg time ticks w law jv h ((age, unread), young) =
      (Keeps-run_ticks fuel cfg ticks _ jv
        (Keeps-sweep fuel cfg time w jv (record { law = law; held = h }) age (inl unread))
        young).held

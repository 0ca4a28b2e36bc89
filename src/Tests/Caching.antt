-- ===== src/Tests/Caching.antt =====
-- The cache API, the janitor and the tokens on concrete inputs.
use nx_remote_cache.Base.{
  [], arith, bytes, contains, err, false, has_prefix, inl, inr, leb_ℤ, length, ltb_ℤ, negsuc, none,
  ok, pos, refl, some, text_eq, text_lt, trim_prefix, trim_space, true, ◌-ℤ◌, ◌↔◌, ◌∷◌, ◌≡◌, ◌⊎◌,
}
use nx_remote_cache.Storage.{valid_hash, not_found}
use nx_remote_cache.Storage.Contract.{Artifact, upload, content_of}
use nx_remote_cache.Storage.Local
use nx_remote_cache.Storage.Local.Cache.{local-IsStore, local-IsCache, holds}
use nx_remote_cache.Storage.Disk.{
  find_node, Disk, stat, create_temp, copy_to, close, link, remove, read_dir,
}
use nx_remote_cache.Store.Reads.{
  stats_of, record_cache_read, delete_cache_read_stats, list_all_cache_read_stats,
}
use nx_remote_cache.Store.Tokens.{authenticate, revoke_token}
use nx_remote_cache.Auth.{scope_read, scope_write, authorize, extract_bearer, hash_token}
use nx_remote_cache.Auth.Laws.{Grants}
use nx_remote_cache.World.{World}
use nx_remote_cache.Server.{Request, handle_get, handle_put, run_pending}
use nx_remote_cache.Server.Put.{
  handle_put-status, handle_put-stores, handle_put-needs_write, handle_put-whole,
}
use nx_remote_cache.Server.Get.{handle_get-serves, handle_get-status}
use nx_remote_cache.Server.Progress.{handle_get-answers, handle_put-accepts}
use nx_remote_cache.Server.RoundTrip.{serve_all}
use nx_remote_cache.Janitor.{sweep, should_delete}
use nx_remote_cache.Janitor.Safety.{sweep-keeps}
use nx_remote_cache.Tests.{file, plain, disk, old_bytes, db, world, upload_new}

-- What a run of a request goes through.
program : Unit {0}
unfolding handle_get handle_put run_pending serve_all authorize extract_bearer hash_token
    authenticate valid_hash holds has_prefix trim_space trim_prefix text_eq text_lt sweep
    record_cache_read delete_cache_read_stats list_all_cache_read_stats revoke_token contains
    Local.search_after should_delete ◌-ℤ◌ stats_of Local.get Local.put Local.delete Local.list stat
    create_temp copy_to close link remove read_dir
program = tt

requests :
    ((handle_put plain upload_new world).0.status ≡ 200)
    × ((handle_get plain upload_new (handle_put plain upload_new world).1).0.body ≡ 1 ∷ 2 ∷ 3 ∷ [])
    × ((handle_put plain upload_new (handle_put plain upload_new world).1).0.status ≡ 409)
    × ((handle_put plain (record upload_new { hash = bytes "../x" }) world).0.status ≡ 400)
    × ((handle_put plain (record upload_new { authorization = [] }) world).0.status ≡ 401)
    × ((handle_put plain (record upload_new { content_length = negsuc 0 }) world).0.status ≡ 411)
    × ((handle_put plain (record upload_new { content_length = pos 11 }) world).0.status ≡ 413)
    × ((handle_put plain (record upload_new { content_length = pos 5 }) world).0.status ≡ 500)
    × ((handle_get plain upload_new world).0.status ≡ 404)
unfolding program
requests = (refl, refl, refl, refl, refl, refl, refl, refl, refl)

abbrev uploaded : World Disk
uploaded = (handle_put plain upload_new world).1

abbrev old : Artifact
old = record { content = old_bytes; mod_time = pos 1000 }

abbrev get_old : Request
get_old = record upload_new { hash = bytes "old" }

handle_put-status_example : ((handle_put plain upload_new world).0.status ≡ 200) ↔ (
    ((valid_hash (bytes "new") ≡ true)
      × ((authorize plain (extract_bearer upload_new.authorization) scope_write db).0
          ≡ ok (true, true))
      × (leb_ℤ (pos 3) (pos 0) ≡ false)
      × (ltb_ℤ (pos 10) (pos 3) ≡ false))
    × ((Local.put (bytes "new") upload_new.body (pos 3) disk).0 ≡ ok tt))
handle_put-status_example = (handle_put-status plain upload_new world).6

handle_put-stores_example :
    (holds world.storage (bytes "new") ≡ none)
    × (content_of (holds uploaded.storage (bytes "new"))
        ≡ some (upload upload_new.body upload_new.content_length))
    × (pos (length (upload upload_new.body upload_new.content_length)) ≡ pos 3)
unfolding program
handle_put-stores_example = handle_put-stores plain upload_new world local-IsCache refl

-- A body that breaks off.
abbrev cut_short : Request
cut_short = record upload_new { body = record { content = 1 ∷ []; broken = true } }

handle_put-whole_example :
    (holds (handle_put plain cut_short world).1.storage (bytes "new") ≡ none)
    ⊎ ((content_of (holds (handle_put plain cut_short world).1.storage (bytes "new"))
          ≡ some (1 ∷ []))
        × (pos 1 ≡ pos 3))
unfolding program
handle_put-whole_example = handle_put-whole plain cut_short world local-IsCache refl

handle_put-needs_write_example : Grants (bytes "w") scope_write true db.tokens
unfolding program
handle_put-needs_write_example = handle_put-needs_write plain upload_new world (inr refl)

handle_get-serves_example :
    ((handle_get plain get_old world).0.status ≡ 200
      → (content_of (holds disk (bytes "old")) ≡ some (handle_get plain get_old world).0.body)
        × Grants (bytes "w") scope_read true db.tokens
        × ((handle_get plain get_old world).1.pending ≡ bytes "old" ∷ []))
    × ((handle_get plain get_old world).0.status ≡ 404 → holds disk (bytes "old") ≡ none)
unfolding program
handle_get-serves_example = handle_get-serves plain get_old world local-IsStore

sweep-keeps_example :
    holds
      (sweep 5 (record { max_age = pos 50; unread_after = pos 20 }) (pos 1010) world).1.storage
      (bytes "old")
    ≡ some old
unfolding program
sweep-keeps_example =
    sweep-keeps holds (λ h. true) (bytes "old") old 5
      (record { max_age = pos 50; unread_after = pos 20 }) (pos 1010) world local-IsStore refl refl
      refl (inl refl)

-- A later sweep does delete it.
swept :
    (sweep 5 (record { max_age = pos 50; unread_after = pos 20 }) (pos 1030) world).0 ≡ some (ok 1)
unfolding program
swept = refl

handle_put-accepts_example : (handle_put plain upload_new world).0.status ≡ 200
unfolding program find_node
handle_put-accepts_example =
    handle_put-accepts plain upload_new world 3 refl (λ k. refl) refl refl refl (omega arith) refl
      (omega arith) refl refl

handle_get-status_example : ((handle_get plain upload_new world).0.status ≡ 404) ↔ (
    (valid_hash (bytes "new") ≡ true)
    × ((authorize plain (extract_bearer upload_new.authorization) scope_read db).0
        ≡ ok (true, true))
    × ((Local.get (bytes "new") disk).0 ≡ err not_found))
handle_get-status_example = (handle_get-status plain upload_new world).3

handle_get-answers_example :
    ((handle_get plain get_old world).0.status ≡ 200)
    × ((handle_get plain get_old world).0.body ≡ old_bytes)
unfolding program find_node
handle_get-answers_example =
    handle_get-answers plain get_old world (file (bytes "old") old_bytes (pos 1000)) refl
      (λ k. refl) refl refl refl

-- The reads of two GETs, of which the later is recorded first.
abbrev reading : World Disk
reading = record world { pending = bytes "old" ∷ bytes "new" ∷ [] }

run_pending-out_of_order : (run_pending 1 reading).pending ≡ bytes "old" ∷ []
unfolding program
run_pending-out_of_order = refl

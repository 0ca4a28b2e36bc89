-- ===== src/Store/Consistency/Statements.antt =====
-- Every statement of internal/store keeps the tables consistent, whatever becomes of it.
use nx_remote_cache.Base.{
  AreApart-keep, Bool, List, Result, [], false, if◌then◌else◌, refl, true, ◌∷◌, ◌≡◌,
}
use nx_remote_cache.Store
use nx_remote_cache.Store.{
  User, Session, TokenRow, TokenScope, ReadRow, SettingsRow, Db, exec, exec_ind, bump, now,
}
use nx_remote_cache.Store.Users.{
  create_user, delete_user, get_user_by_email, get_user_by_id, list_users, count_users,
  update_password,
}
use nx_remote_cache.Store.Sessions.{
  create_session, get_session, delete_session, delete_expired_sessions,
}
use nx_remote_cache.Store.Reads.{
  record_cache_read, delete_cache_read_stats, get_cache_read_stats_batch, list_all_cache_read_stats,
}
use nx_remote_cache.Store.AppSettings.{get_settings, update_settings}
use nx_remote_cache.Store.Tokens.{create_token, list_tokens, revoke_token, authenticate}
use nx_remote_cache.Store.Consistency.{IsConsistent, same_read}
use nx_remote_cache.Store.Queries.{Query, run, run_all}
use nx_remote_cache.Store.Consistency.Rows.{
  KeepsKeys-revoke, KeepsKeys-stamp, AreApart-upsert, IsConsistent-bump, insert_user-IsConsistent,
  without_user-IsConsistent, set_password-IsConsistent, insert_session-IsConsistent,
  keep_sessions-IsConsistent, touched-IsConsistent, insert_token-IsConsistent,
  with_reads-IsConsistent, accepted_settings-IsConsistent,
}

module _ (d : Db) (k : IsConsistent d) where
  IsConsistent-exec :
      {A : Type 0} (done : Result Store.Error A × Db)
      → IsConsistent done.1
      → IsConsistent (exec {A = A} d done).1
  IsConsistent-exec done h = exec_ind IsConsistent d done (IsConsistent-bump d k) h

  IsConsistent-if :
      {A : Type 0} (b : Bool) (x y : Result Store.Error A × Db)
      → (b ≡ true → IsConsistent x.1)
      → (b ≡ false → IsConsistent y.1)
      → IsConsistent (if b then x else y).1
  IsConsistent-if true x y p q = p refl
  IsConsistent-if false x y p q = q refl

  pub run-IsConsistent : (q : Query) → IsConsistent (run q d)
  unfolding run
  run-IsConsistent (Query.creating_user email hash) =
      unfold create_user in IsConsistent-exec _ (insert_user-IsConsistent d k email hash)
  run-IsConsistent (Query.getting_user_by_email email) =
      unfold get_user_by_email in IsConsistent-exec _ (IsConsistent-bump d k)
  run-IsConsistent (Query.getting_user_by_id id) =
      unfold get_user_by_id in IsConsistent-exec _ (IsConsistent-bump d k)
  run-IsConsistent Query.listing_users =
      unfold list_users in IsConsistent-exec _ (IsConsistent-bump d k)
  run-IsConsistent (Query.deleting_user id) =
      unfold delete_user in
      IsConsistent-exec _ (
        IsConsistent-if _ _ _ (λ _. without_user-IsConsistent d k id)
          (λ _. (IsConsistent-bump d k)))
  run-IsConsistent Query.counting_users =
      unfold count_users in IsConsistent-exec _ (IsConsistent-bump d k)
  run-IsConsistent (Query.updating_password id hash) =
      unfold update_password in
      IsConsistent-exec _ (
        IsConsistent-if _ _ _ (λ _. set_password-IsConsistent d k id hash)
          (λ _. (IsConsistent-bump d k)))
  run-IsConsistent (Query.creating_session id_hash user_id expires_at) =
      unfold create_session in
      IsConsistent-exec _
        (IsConsistent-if _ _ _ (λ _. (IsConsistent-bump d k)) (insert_session-IsConsistent d k _))
  run-IsConsistent (Query.getting_session id_hash) =
      unfold get_session in IsConsistent-exec _ (IsConsistent-bump d k)
  run-IsConsistent (Query.deleting_session id_hash) =
      unfold delete_session in IsConsistent-exec _ (keep_sessions-IsConsistent d k _)
  run-IsConsistent Query.deleting_expired_sessions =
      unfold delete_expired_sessions in IsConsistent-exec _ (keep_sessions-IsConsistent d k _)
  run-IsConsistent (Query.creating_token name scope hash by) =
      unfold create_token in IsConsistent-exec _ (insert_token-IsConsistent d k name scope hash by)
  run-IsConsistent Query.listing_tokens =
      unfold list_tokens in IsConsistent-exec _ (IsConsistent-bump d k)
  run-IsConsistent (Query.revoking_token id) =
      unfold revoke_token in
      IsConsistent-exec _ (
        IsConsistent-if _ _ _ (λ _. touched-IsConsistent d k _ (KeepsKeys-revoke id (now d)))
          (λ _. (IsConsistent-bump d k)))
  run-IsConsistent (Query.authenticating hash) =
      unfold authenticate in
      IsConsistent-exec _ (touched-IsConsistent d k _ (KeepsKeys-stamp hash (now d)))
  run-IsConsistent (Query.recording_cache_read hash) =
      unfold record_cache_read in
      IsConsistent-exec _
        (with_reads-IsConsistent d k _ (AreApart-upsert hash (now d) d.reads k.reads))
  run-IsConsistent (Query.deleting_cache_read_stats hash) =
      unfold delete_cache_read_stats in
      IsConsistent-exec _
        (with_reads-IsConsistent d k _ (AreApart-keep same_read _ d.reads k.reads))
  run-IsConsistent (Query.getting_cache_read_stats_batch []) =
      unfold get_cache_read_stats_batch in k
  run-IsConsistent (Query.getting_cache_read_stats_batch (x ∷ xs)) =
      unfold get_cache_read_stats_batch in IsConsistent-exec _ (IsConsistent-bump d k)
  run-IsConsistent Query.listing_all_cache_read_stats =
      unfold list_all_cache_read_stats in IsConsistent-exec _ (IsConsistent-bump d k)
  run-IsConsistent Query.getting_settings =
      unfold get_settings in IsConsistent-exec _ (IsConsistent-bump d k)
  run-IsConsistent (Query.updating_settings row by) =
      unfold update_settings in
      IsConsistent-exec _ (
        IsConsistent-if _ _ _ (accepted_settings-IsConsistent d k row by)
          (λ _. (IsConsistent-bump d k)))

-- Whatever statements run, and whatever becomes of each of them, the tables meet the schema
-- afterwards if they met it before: keys, emails, token hashes and read hashes stay distinct, the
-- sequences stay ahead of the keys drawn from them, and no session, token or settings row names a
-- user who is gone.
pub run_all-IsConsistent : (qs : List Query) (d : Db) → IsConsistent d → IsConsistent (run_all qs d)
unfolding run_all
run_all-IsConsistent [] d k = k
run_all-IsConsistent (q ∷ qs) d k = run_all-IsConsistent qs (run q d) (run-IsConsistent d k q)

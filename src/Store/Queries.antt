-- ===== src/Store/Queries.antt =====
-- Every statement of internal/store, as data, and sequences of them.
use nx_remote_cache.Base.{List, Text, [], ℤ, ◌∷◌}
use nx_remote_cache.Store.{TokenScope, SettingsRow, Db}
use nx_remote_cache.Store.Users.{
  create_user, get_user_by_email, get_user_by_id, list_users, delete_user, count_users,
  update_password,
}
use nx_remote_cache.Store.Sessions.{
  create_session, get_session, delete_session, delete_expired_sessions,
}
use nx_remote_cache.Store.Tokens.{create_token, list_tokens, revoke_token, authenticate}
use nx_remote_cache.Store.Reads.{
  record_cache_read, delete_cache_read_stats, get_cache_read_stats_batch, list_all_cache_read_stats,
}
use nx_remote_cache.Store.AppSettings.{get_settings, update_settings}

pub data Query : Type 0 where
  creating_user : Text → Text → Query
  getting_user_by_email : Text → Query
  getting_user_by_id : ℤ → Query
  listing_users : Query
  deleting_user : ℤ → Query
  counting_users : Query
  updating_password : ℤ → Text → Query
  creating_session : Text → ℤ → ℤ → Query
  getting_session : Text → Query
  deleting_session : Text → Query
  deleting_expired_sessions : Query
  creating_token : Text → TokenScope → Text → ℤ → Query
  listing_tokens : Query
  revoking_token : ℤ → Query
  authenticating : Text → Query
  recording_cache_read : Text → Query
  deleting_cache_read_stats : Text → Query
  getting_cache_read_stats_batch : List Text → Query
  listing_all_cache_read_stats : Query
  getting_settings : Query
  updating_settings : SettingsRow → ℤ → Query

-- The database after a statement, whatever became of it.
unfoldable pub run : Query → Db → Db
run (creating_user email hash) d = (create_user email hash d).1
run (getting_user_by_email email) d = (get_user_by_email email d).1
run (getting_user_by_id id) d = (get_user_by_id id d).1
run listing_users d = (list_users d).1
run (deleting_user id) d = (delete_user id d).1
run counting_users d = (count_users d).1
run (updating_password id hash) d = (update_password id hash d).1
run (creating_session id_hash user_id expires_at) d =
    (create_session id_hash user_id expires_at d).1
run (getting_session id_hash) d = (get_session id_hash d).1
run (deleting_session id_hash) d = (delete_session id_hash d).1
run deleting_expired_sessions d = (delete_expired_sessions d).1
run (creating_token name scope hash created_by) d = (create_token name scope hash created_by d).1
run listing_tokens d = (list_tokens d).1
run (revoking_token id) d = (revoke_token id d).1
run (authenticating hash) d = (authenticate hash d).1
run (recording_cache_read hash) d = (record_cache_read hash d).1
run (deleting_cache_read_stats hash) d = (delete_cache_read_stats hash d).1
run (getting_cache_read_stats_batch hashes) d = (get_cache_read_stats_batch hashes d).1
run listing_all_cache_read_stats d = (list_all_cache_read_stats d).1
run getting_settings d = (get_settings d).1
run (updating_settings row by) d = (update_settings row by d).1

unfoldable pub run_all : List Query → Db → Db
run_all [] d = d
run_all (q ∷ qs) d = run_all qs (run q d)

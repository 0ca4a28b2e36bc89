-- ===== src/Store/Tables.antt =====
-- The tables without the statements that are still to come.
use nx_remote_cache.Base.{Result, Text, refl, ℤ, ◌∙◌, ◌≡◌}
use nx_remote_cache.Store
use nx_remote_cache.Store.{User, Db, exec, exec_ind, bump}
use nx_remote_cache.Store.Users.{get_user_by_id}
use nx_remote_cache.Store.Sessions.{get_session}

-- Every row is as it was, and so are the sequences.
pub record SameTables (d d' : Db) : Type 0 where
  pub users : d'.users ≡ d.users
  pub sessions : d'.sessions ≡ d.sessions
  pub tokens : d'.tokens ≡ d.tokens
  pub reads : d'.reads ≡ d.reads
  pub settings : d'.settings ≡ d.settings
  pub next_user : d'.next_user ≡ d.next_user
  pub next_token : d'.next_token ≡ d.next_token

pub SameTables-refl : (d : Db) → SameTables d d
SameTables-refl d = record {
  users = refl;
  sessions = refl;
  tokens = refl;
  reads = refl;
  settings = refl;
  next_user = refl;
  next_token = refl;
}

pub SameTables-trans : {d e f : Db} → SameTables d e → SameTables e f → SameTables d f
SameTables-trans h k = record {
  users = k.users ∙ h.users;
  sessions = k.sessions ∙ h.sessions;
  tokens = k.tokens ∙ h.tokens;
  reads = k.reads ∙ h.reads;
  settings = k.settings ∙ h.settings;
  next_user = k.next_user ∙ h.next_user;
  next_token = k.next_token ∙ h.next_token;
}

SameTables-bump : (d : Db) → SameTables d (bump d)
SameTables-bump d = record {
  users = refl;
  sessions = refl;
  tokens = refl;
  reads = refl;
  settings = refl;
  next_user = refl;
  next_token = refl;
}

-- A statement that only reads.
SameTables-exec :
    {A : Type 0} (d : Db) (res : Result Store.Error A) → SameTables d (exec d (res, bump d)).1
SameTables-exec d res =
    exec_ind (SameTables d) d (res, bump d) (SameTables-bump d) (SameTables-bump d)

pub SameTables-get_session : (h : Text) (d : Db) → SameTables d (get_session h d).1
unfolding get_session
SameTables-get_session h d = SameTables-exec d _

pub SameTables-get_user_by_id : (id : ℤ) (d : Db) → SameTables d (get_user_by_id id d).1
unfolding get_user_by_id
SameTables-get_user_by_id id d = SameTables-exec d _

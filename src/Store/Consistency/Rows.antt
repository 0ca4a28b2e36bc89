-- ===== src/Store/Consistency/Rows.antt =====
-- The tables stay consistent as rows come, go and change.
use nx_remote_cache.Base.{
  AreApart, AreApart-keep, AreApart-map, AreApart-snoc, Bool, Bool-cases, List, Text, [], all-keep,
  all-keep_both, all-map, all-snoc, all-weaken, any, arith, false, inl, inr, is_some, keep, map,
  not, pos, refl, some, text_eq, true, ℤ, ◌&&◌, ◌++◌, ◌+◌, ◌||◌, ◌∙◌, ◌∷◌, ◌≡◌,
}
use nx_remote_cache.Store.{User, Session, TokenRow, TokenScope, ReadRow, SettingsRow, Db, bump, now}
use nx_remote_cache.Store.Users.{find_id, forget_token, set_password, without_user, insert_user}
use nx_remote_cache.Store.Reads.{upsert_read}
use nx_remote_cache.Store.AppSettings.{is_known, fits_int4}
use nx_remote_cache.Store.Tokens.{revoke_row, stamp_row, insert_token}
use nx_remote_cache.Store.Consistency.{
  IsConsistent, MeetUsers, MeetSessions, MeetTokens, same_email, same_user, same_session, same_hash,
  same_token, same_read, owned, credited, user_below, token_below, text_eq_swap, eq_ℤ_swap,
  fresh_user, fresh_token, user_below_suc, token_below_suc, find_id-snoc, find_id-keep,
  find_id-set_password, names-snoc, names-forget, names-set_password,
}

-- The hashes that an upsert leaves are those that were there, and its own.
any-upsert_false :
    (hash : Text) (time : ℤ) (h : Text) (rs : List ReadRow)
    → text_eq hash h ≡ false
    → any (λ r. text_eq r.hash h) rs ≡ false
    → any (λ r. text_eq r.hash h) (upsert_read hash time rs) ≡ false
unfolding upsert_read
any-upsert_false hash time h [] e apart = rw e
any-upsert_false hash time h (r ∷ rs) e apart = ground (arith, any-upsert_false hash time h rs e)

pub AreApart-upsert :
    (hash : Text) (time : ℤ) (rs : List ReadRow)
    → AreApart same_read rs
    → AreApart same_read (upsert_read hash time rs)
unfolding upsert_read
AreApart-upsert hash time [] h = (refl, tt)
AreApart-upsert hash time (r ∷ rs) h = elim (Bool-cases (text_eq r.hash hash)) [
  | inl here ↦ rw here h
  | inr apart ↦ rw apart (
    any-upsert_false hash time r.hash rs (text_eq_swap hash r.hash ∙ apart) h.0,
    AreApart-upsert hash time rs h.1,
  )
]

-- A row of tokens keeps its keys and its creator.
pub record KeepsKeys (f : TokenRow → TokenRow) : Type 0 where
  pub hash : (t : TokenRow) → (f t).token_hash ≡ t.token_hash
  pub id : (t : TokenRow) → (f t).token.id ≡ t.token.id
  pub creator : (t : TokenRow) → (f t).token.created_by ≡ t.token.created_by

pub KeepsKeys-revoke : (id time : ℤ) → KeepsKeys (revoke_row id time)
KeepsKeys-revoke id time = record {
  hash = λ t. ground arith;
  id = λ t. ground arith;
  creator = λ t. ground arith;
}

pub KeepsKeys-stamp : (hash : Text) (time : ℤ) → KeepsKeys (stamp_row hash time)
KeepsKeys-stamp hash time = record {
  hash = λ t. ground arith;
  id = λ t. ground arith;
  creator = λ t. ground arith;
}

module _ (d : Db) (k : IsConsistent d) where
  pub IsConsistent-bump : IsConsistent (bump d)
  IsConsistent-bump = record {
    users = k.users;
    sessions = k.sessions;
    tokens = k.tokens;
    reads = k.reads;
    settings = k.settings;
  }

  -- A key drawn from the sequence of users, or of tokens, and not used.
  drawn_user : MeetUsers d.users (d.next_user + 1)
  drawn_user = record {
    emails = k.users.emails;
    ids = k.users.ids;
    drawn = all-weaken _ _ d.users (user_below_suc d.next_user) k.users.drawn;
  }

  drawn_token : MeetTokens d.users d.tokens (d.next_token + 1)
  drawn_token = record {
    hashes = k.tokens.hashes;
    ids = k.tokens.ids;
    drawn = all-weaken _ _ d.tokens (token_below_suc d.next_token) k.tokens.drawn;
    creators = k.tokens.creators;
  }

  -- A user with a key from the sequence and an email that is free.
  added_user-IsConsistent :
      (u : User)
      → u.id ≡ pos d.next_user
      → any (λ v. text_eq v.email u.email) d.users ≡ false
      → IsConsistent (record (bump d) { next_user = d.next_user + 1; users = d.users ++ u ∷ [] })
  added_user-IsConsistent u fresh free = record {
    users = record {
      emails =
          AreApart-snoc same_email d.users u (λ y z. text_eq_swap y.email z.email) k.users.emails
            free;
      ids =
          AreApart-snoc same_user d.users u (λ y z. eq_ℤ_swap y.id z.id) k.users.ids
            (fresh_user d.next_user d.users u fresh k.users.drawn);
      drawn =
          all-snoc (user_below (d.next_user + 1)) d.users u drawn_user.drawn
            (rw fresh (ground arith));
    };
    sessions = record {
      keys = k.sessions.keys;
      owners =
          all-weaken _ _ d.sessions (λ s h. find_id-snoc s.user_id d.users u h) k.sessions.owners;
    };
    tokens = record {
      hashes = k.tokens.hashes;
      ids = k.tokens.ids;
      drawn = k.tokens.drawn;
      creators =
          all-weaken _ _ d.tokens (λ t h. names-snoc t.token.created_by d.users u h)
            k.tokens.creators;
    };
    reads = k.reads;
    settings = record {
      backend = k.settings.backend;
      ttl = k.settings.ttl;
      updater = names-snoc d.settings.updated_by d.users u k.settings.updater;
    };
  }

  pub insert_user-IsConsistent : (email hash : Text) → IsConsistent (insert_user email hash d).1
  unfolding insert_user
  insert_user-IsConsistent email hash =
      elim (Bool-cases (any (λ v. text_eq v.email email) d.users)) [
        | inl taken ↦ rw taken (record {
          users = drawn_user;
          sessions = k.sessions;
          tokens = k.tokens;
          reads = k.reads;
          settings = k.settings;
        })
        | inr free ↦ rw free (added_user-IsConsistent _ refl free)
      ]

  pub without_user-IsConsistent : (id : ℤ) → IsConsistent (without_user id (bump d))
  without_user-IsConsistent id = record {
    users = record {
      emails = AreApart-keep same_email _ d.users k.users.emails;
      ids = AreApart-keep same_user _ d.users k.users.ids;
      drawn = all-keep (user_below d.next_user) _ d.users k.users.drawn;
    };
    sessions = record {
      keys = AreApart-keep same_session _ d.sessions k.sessions.keys;
      owners =
          all-keep_both _ (owned d.users) _ d.sessions
            (λ s h e. find_id-keep s.user_id id d.users (ground arith) h) k.sessions.owners;
    };
    tokens = record {
      hashes = AreApart-map same_hash (forget_token id) d.tokens (λ s t. refl) k.tokens.hashes;
      ids = AreApart-map same_token (forget_token id) d.tokens (λ s t. refl) k.tokens.ids;
      drawn =
          all-map (token_below d.next_token) _ (forget_token id) d.tokens (λ t h. h) k.tokens.drawn;
      creators =
          all-map _ (credited d.users) (forget_token id) d.tokens
            (λ t h. names-forget t.token.created_by id d.users h) k.tokens.creators;
    };
    reads = k.reads;
    settings = record {
      backend = k.settings.backend;
      ttl = k.settings.ttl;
      updater = names-forget d.settings.updated_by id d.users k.settings.updater;
    };
  }

  pub set_password-IsConsistent :
      (id : ℤ) (hash : Text)
      → IsConsistent (record (bump d) { users = map (set_password id hash) d.users })
  set_password-IsConsistent id hash = record {
    users = record {
      emails =
          AreApart-map same_email (set_password id hash) d.users (λ s t. ground arith)
            k.users.emails;
      ids = AreApart-map same_user (set_password id hash) d.users (λ s t. ground arith) k.users.ids;
      drawn =
          all-map (user_below d.next_user) _ (set_password id hash) d.users (λ u h. ground arith)
            k.users.drawn;
    };
    sessions = record {
      keys = k.sessions.keys;
      owners =
          all-weaken _ _ d.sessions (λ s h. find_id-set_password s.user_id id hash d.users ∙ h)
            k.sessions.owners;
    };
    tokens = record {
      hashes = k.tokens.hashes;
      ids = k.tokens.ids;
      drawn = k.tokens.drawn;
      creators =
          all-weaken _ _ d.tokens (λ t h. names-set_password t.token.created_by id hash d.users h)
            k.tokens.creators;
    };
    reads = k.reads;
    settings = record {
      backend = k.settings.backend;
      ttl = k.settings.ttl;
      updater = names-set_password d.settings.updated_by id hash d.users k.settings.updater;
    };
  }

  with_sessions-IsConsistent :
      (ss : List Session)
      → MeetSessions d.users ss
      → IsConsistent (record (bump d) { sessions = ss })
  with_sessions-IsConsistent ss h = record {
    users = k.users;
    sessions = h;
    tokens = k.tokens;
    reads = k.reads;
    settings = k.settings;
  }

  pub insert_session-IsConsistent :
      (s : Session)
      → (any (λ t. text_eq t.id_hash s.id_hash) d.sessions
          || not (is_some (find_id s.user_id d.users)))
        ≡ false
      → IsConsistent (record (bump d) { sessions = d.sessions ++ s ∷ [] })
  insert_session-IsConsistent s free = with_sessions-IsConsistent _ (record {
    keys =
        AreApart-snoc same_session d.sessions s (λ y z. text_eq_swap y.id_hash z.id_hash)
          k.sessions.keys (ground arith);
    owners = all-snoc (owned d.users) d.sessions s k.sessions.owners (ground arith);
  })

  pub keep_sessions-IsConsistent :
      (p : Session → Bool) → IsConsistent (record (bump d) { sessions = keep p d.sessions })
  keep_sessions-IsConsistent p = with_sessions-IsConsistent _ (record {
    keys = AreApart-keep same_session p d.sessions k.sessions.keys;
    owners = all-keep (owned d.users) p d.sessions k.sessions.owners;
  })

  pub touched-IsConsistent :
      (f : TokenRow → TokenRow)
      → KeepsKeys f
      → IsConsistent (record (bump d) { tokens = map f d.tokens })
  touched-IsConsistent f keeps = record {
    users = k.users;
    sessions = k.sessions;
    tokens = record {
      hashes =
          AreApart-map same_hash f d.tokens (λ s t. rw (keeps.hash s, keeps.hash t) refl)
            k.tokens.hashes;
      ids =
          AreApart-map same_token f d.tokens (λ s t. rw (keeps.id s, keeps.id t) refl) k.tokens.ids;
      drawn =
          all-map (token_below d.next_token) _ f d.tokens (λ t h. rw (keeps.id t) h) k.tokens.drawn;
      creators =
          all-map (credited d.users) _ f d.tokens (λ t h. rw (keeps.creator t) h) k.tokens.creators;
    };
    reads = k.reads;
    settings = k.settings;
  }

  added_token-IsConsistent :
      (t : TokenRow)
      → t.token.id ≡ pos d.next_token
      → any (λ s. text_eq s.token_hash t.token_hash) d.tokens ≡ false
      → credited d.users t ≡ true
      → IsConsistent
          (record (bump d) { next_token = d.next_token + 1; tokens = d.tokens ++ t ∷ [] })
  added_token-IsConsistent t fresh free known = record {
    users = k.users;
    sessions = k.sessions;
    tokens = record {
      hashes =
          AreApart-snoc same_hash d.tokens t (λ y z. text_eq_swap y.token_hash z.token_hash)
            k.tokens.hashes free;
      ids =
          AreApart-snoc same_token d.tokens t (λ y z. eq_ℤ_swap y.token.id z.token.id) k.tokens.ids
            (fresh_token d.next_token d.tokens t fresh k.tokens.drawn);
      drawn =
          all-snoc (token_below (d.next_token + 1)) d.tokens t drawn_token.drawn
            (rw fresh (ground arith));
      creators = all-snoc (credited d.users) d.tokens t k.tokens.creators known;
    };
    reads = k.reads;
    settings = k.settings;
  }

  drawn_token-IsConsistent : IsConsistent (record (bump d) { next_token = d.next_token + 1 })
  drawn_token-IsConsistent = record {
    users = k.users;
    sessions = k.sessions;
    tokens = drawn_token;
    reads = k.reads;
    settings = k.settings;
  }

  pub insert_token-IsConsistent :
      (name : Text) (scope : TokenScope) (hash : Text) (by : ℤ)
      → IsConsistent (insert_token name scope hash by d).1
  unfolding insert_token
  insert_token-IsConsistent name scope hash by =
      elim (Bool-cases (any (λ r. text_eq r.token_hash hash) d.tokens)) [
        | inl taken ↦ rw taken drawn_token-IsConsistent
        | inr free ↦ rw free (elim (Bool-cases (is_some (find_id by d.users))) [
          | inl known ↦ rw known (added_token-IsConsistent _ refl free known)
          | inr unknown ↦ rw unknown drawn_token-IsConsistent
        ])
      ]

  pub with_reads-IsConsistent :
      (rs : List ReadRow) → AreApart same_read rs → IsConsistent (record (bump d) { reads = rs })
  with_reads-IsConsistent rs h = record {
    users = k.users;
    sessions = k.sessions;
    tokens = k.tokens;
    reads = h;
    settings = k.settings;
  }

  -- The settings that UpdateSettings does not refuse.
  pub accepted_settings-IsConsistent :
      (row : SettingsRow) (by : ℤ)
      → (is_known row.storage_backend
          && fits_int4 row.session_ttl_seconds
          && is_some (find_id by d.users))
        ≡ true
      → IsConsistent
          (record (bump d) { settings = record row { updated_at = now d; updated_by = some by } })
  accepted_settings-IsConsistent row by fine = record {
    users = k.users;
    sessions = k.sessions;
    tokens = k.tokens;
    reads = k.reads;
    settings = record { backend = ground arith; ttl = ground arith; updater = ground arith };
  }

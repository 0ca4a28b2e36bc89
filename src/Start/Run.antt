-- ===== src/Start/Run.antt =====
-- cmd/server/main.go: run up to the point where the server listens, and the health check.
use nx_remote_cache.Base.{
  Bool, Bool-cases, Option, Option-cases, Result-cases, Text, [], ap, arith, bytes, err, false,
  if◌then◌else◌, inl, inr, length, none, ok, pos, some, sym, text_eq, true, ℕ, ◌&&◌, ◌++◌, ◌<◌,
  ◌==◌, ◌∙◌, ◌≡◌,
}
use nx_remote_cache.Primitives.{Primitives}
use nx_remote_cache.Store.{Db}
use nx_remote_cache.Store.AppSettings.{get_settings}
use nx_remote_cache.Store.Users.{count_users, create_user}
use nx_remote_cache.Session.{hash_password}
use nx_remote_cache.Settings.{Settings}
use nx_remote_cache.Settings.Crypto.{Cipher, encryptor_key}
use nx_remote_cache.Settings.Storage.{decrypt_row}
use nx_remote_cache.Settings.Manager.{Builders, load, install, build_backend}
use nx_remote_cache.Environment.{Environment, Config, from_env}
use nx_remote_cache.World.{World}
use nx_remote_cache.Start.{Attempts, wait_for_db, bootstrap_admin}
use nx_remote_cache.Start.Bootstrap.{bootstrap_admin-ok}

-- http.Client.Get on a URL: the status of the answer, or none for an error.
unfoldable pub run_healthcheck : (Text → Text) → (Text → Option ℕ) → ℕ
run_healthcheck getenv get_status =
    let set = getenv (bytes "PORT") in
    let port = if text_eq set [] then bytes "3000" else set in
    elim (get_status (bytes "http://localhost:" ++ port ++ bytes "/health")) [
      | none ↦ 1
      | some status ↦ if status == 200 then 0 else 1
    ]

-- What run finds outside: the environment, base64, the cipher under a key, the attempts at the
-- migrations, whether db.Connect and webui.DistFS succeed, and the salt that bcrypt draws.
pub record Surroundings : Type 0 where
  pub environment : Environment
  pub decode : Text → Option Text
  pub cipher : Text → Cipher
  pub attempts : Attempts
  pub connects : Bool
  pub has_assets : Bool
  pub salt : ℕ

module _ (p : Primitives) (o : Surroundings) {S : Type 0} (builders : Builders S) where
  -- From bootstrapAdmin on. The session lifetime and the size limit are 0 until Load sets them.
  unfoldable pub run_connected : Config → Text → World S → Bool × World S
  run_connected cfg key w =
      let (made, db') =
        bootstrap_admin p o.salt cfg.admin_bootstrap_email cfg.admin_bootstrap_password w.db in
      let w' = record w { db = db'; session_ttl = pos 0; max_entry_bytes = pos 0 } in
      if made && o.has_assets then load (o.cipher key) builders w' else (false, w')

  -- Whether run comes to listen, and the state then; no request is served before.
  unfoldable pub run : World S → Bool × World S
  unfolding run_connected
  run w = elim (from_env o.environment) [
    | none ↦ (false, w)
    | some cfg ↦ elim (encryptor_key o.decode cfg.settings_encryption_key) [
      | none ↦ (false, w)
      | some key ↦ elim (wait_for_db o.attempts) [
        | err _ ↦ (false, w)
        | ok _ ↦ if o.connects then run_connected cfg key w else (false, w)
      ]
    ]
  ]

module _ (c : Cipher) {S : Type 0} (builders : Builders S) where
  load-ok :
      (w : World S)
      → (load c builders w).0 ≡ true
      → (s : Settings) × (decrypt_row c w.db.settings ≡ some s)
        × ((build_backend c builders s w.storage).0 ≡ some (load c builders w).1.backend)
        × ((load c builders w).1.session_ttl ≡ s.session_ttl)
        × ((load c builders w).1.max_entry_bytes ≡ s.max_cache_entry_bytes)
        × ((load c builders w).1.db.users ≡ w.db.users)
  unfolding load get_settings install
  load-ok w e = elim (Result-cases (get_settings w.db).0) [
    | inr (x, q) ↦ absurd (ground arith)
    | inl (row, q) ↦ elim (Option-cases (decrypt_row c row)) [
      | inl bad ↦ absurd (ground arith)
      | inr (s, found) ↦ elim (Option-cases (build_backend c builders s w.storage).0) [
        | inl none_built ↦ absurd (ground arith)
        | inr (b, built) ↦ (s, ground arith, ground arith, ground arith, ground arith, ground arith)
      ]
    ]
  ]

users-exist :
    (p : Primitives) (salt : ℕ) (email password : Text) (d : Db)
    → text_eq email [] ≡ false
    → text_eq password [] ≡ false
    → (bootstrap_admin p salt email password d).0 ≡ true
    → 0 < length (bootstrap_admin p salt email password d).1.users
users-exist p salt email password d named secret done =
    elim (bootstrap_admin-ok p salt email password d named secret done) [
      | inl (there, same) ↦ rw same there
      | inr (_, u, _, _, row) ↦ rw row (omega arith)
    ]

create_user-settings :
    (email hash : Text) (d : Db) → (create_user email hash d).1.settings ≡ d.settings
unfolding create_user
create_user-settings email hash d = ground arith

bootstrap-settings :
    (p : Primitives) (salt : ℕ) (email password : Text) (d : Db)
    → (bootstrap_admin p salt email password d).1.settings ≡ d.settings
unfolding bootstrap_admin count_users
bootstrap-settings p salt email password d = elim (Option-cases (hash_password p salt password)) [
  | inl bad ↦ ground arith
  | inr (hash, made) ↦ ground (arith, create_user-settings email hash (count_users d).1)
]

-- The variables that FromEnv passes on as they are.
from_env-same :
    (e : Environment) (cfg : Config)
    → from_env e ≡ some cfg
    → (cfg.admin_bootstrap_email ≡ e.getenv (bytes "ADMIN_BOOTSTRAP_EMAIL"))
      × (cfg.admin_bootstrap_password ≡ e.getenv (bytes "ADMIN_BOOTSTRAP_PASSWORD"))
      × (cfg.settings_encryption_key ≡ e.getenv (bytes "SETTINGS_ENCRYPTION_KEY"))
unfolding from_env
from_env-same e cfg ready = ground arith

module _ (p : Primitives) (o : Surroundings) {S : Type 0} (builders : Builders S) where
  -- What the state is once run_connected has succeeded.
  abbrev IsServing : Text → World S → World S → Type 0
  IsServing key w w' =
      (0 < length w'.db.users)
      × (s : Settings) × (decrypt_row (o.cipher key) w.db.settings ≡ some s)
      × ((build_backend (o.cipher key) builders s w.storage).0 ≡ some w'.backend)
      × (w'.session_ttl ≡ s.session_ttl)
      × (w'.max_entry_bytes ≡ s.max_cache_entry_bytes)

  run_connected-ok :
      (cfg : Config) (key : Text) (w : World S)
      → text_eq cfg.admin_bootstrap_email [] ≡ false
      → text_eq cfg.admin_bootstrap_password [] ≡ false
      → (run_connected p o builders cfg key w).0 ≡ true
      → IsServing key w (run_connected p o builders cfg key w).1
  unfolding run_connected
  run_connected-ok cfg key w named secret done =
      let started =
        bootstrap_admin p o.salt cfg.admin_bootstrap_email cfg.admin_bootstrap_password w.db in
      let w' = record w { db = started.1; session_ttl = pos 0; max_entry_bytes = pos 0 } in
      elim (Bool-cases (started.0 && o.has_assets)) [
        | inr bad ↦ absurd (ground arith)
        | inl good ↦
            let made : started.0 ≡ true = ground arith in
            let (s, row, built, ttl, bound, users) =
              load-ok (o.cipher key) builders w' (rw good at done) in
            let there =
              users-exist p o.salt cfg.admin_bootstrap_email cfg.admin_bootstrap_password w.db named
                secret made in
            let same =
              bootstrap-settings p o.salt cfg.admin_bootstrap_email cfg.admin_bootstrap_password
                w.db in
            rw good (
              rw users there,
              s,
              ap (decrypt_row (o.cipher key)) (sym same) ∙ row,
              built,
              ttl,
              bound,
            )
      ]

module _ (p : Primitives) (o : Surroundings) {S : Type 0} (builders : Builders S) where
  -- If the program comes to listen, and both variables of the first admin are set, then there is
  -- an admin, and what the settings row of the database says is in effect: the backend is the one
  -- that is built from it, and the session lifetime and the size limit are its own.
  pub run-listens :
      (w : World S)
      → text_eq (o.environment.getenv (bytes "ADMIN_BOOTSTRAP_EMAIL")) [] ≡ false
      → text_eq (o.environment.getenv (bytes "ADMIN_BOOTSTRAP_PASSWORD")) [] ≡ false
      → (run p o builders w).0 ≡ true
      → (0 < length (run p o builders w).1.db.users)
        × (key : Text) × (s : Settings) × (encryptor_key o.decode
              (o.environment.getenv (bytes "SETTINGS_ENCRYPTION_KEY"))
            ≡ some key)
        × (decrypt_row (o.cipher key) w.db.settings ≡ some s)
        × ((build_backend (o.cipher key) builders s w.storage).0
            ≡ some (run p o builders w).1.backend)
        × ((run p o builders w).1.session_ttl ≡ s.session_ttl)
        × ((run p o builders w).1.max_entry_bytes ≡ s.max_cache_entry_bytes)
  unfolding run
  run-listens w email password e = elim (Option-cases (from_env o.environment)) [
    | inl none_read ↦ absurd (ground arith)
    | inr (cfg, read) ↦
        let (mail, word, base64) = from_env-same o.environment cfg read in
        elim (Option-cases (encryptor_key o.decode cfg.settings_encryption_key)) [
          | inl no_key ↦ absurd (ground arith)
          | inr (key, found) ↦
              let goes : run p o builders w ≡ run_connected p o builders cfg key w = ground arith in
              let (there, s, row, built, ttl, bound) =
                run_connected-ok p o builders cfg key w (rw mail email) (rw word password)
                  (ap (λ x. x.0) (sym goes) ∙ e) in
              rw goes (
                there,
                key,
                s,
                ap (encryptor_key o.decode) (sym base64) ∙ found,
                row,
                built,
                ttl,
                bound,
              )
        ]
  ]

-- ===== src/Start.antt =====
-- cmd/server/main.go: waiting for the database, and the first admin.
pub mod Waiting
pub mod Bootstrap
pub mod Run
pub mod Fresh
use nx_remote_cache.Base.{
  Bool, Result, Text, [], err, false, if◌then◌else◌, ltb, none, ok, some, suc, text_eq, true, zero,
  ℕ, ◌+◌, ◌||◌,
}
use nx_remote_cache.Primitives.{Primitives}
use nx_remote_cache.Store.{Db}
use nx_remote_cache.Store.Users.{count_users, create_user}
use nx_remote_cache.Session.{hash_password}

-- The context's error, or the last error of db.Migrate.
pub data WaitError : Type 0 where
  cancelled not_ready : WaitError

-- Whether db.Migrate succeeds at the k-th attempt, and whether the context is done before the pause
-- after it ends.
pub record Attempts : Type 0 where
  pub migrate : ℕ → Bool
  pub is_done : ℕ → Bool

-- The loop from attempt `k` on, with `n` attempts left.
unfoldable pub wait_from : Attempts → ℕ → ℕ → Result WaitError (Unit {0})
wait_from a zero k = err not_ready
wait_from a (suc n) k =
    let rest = wait_from a n (k + 1) in
    if a.migrate k then ok tt else if a.is_done k then err cancelled else rest

abbrev pub max_attempts : ℕ
max_attempts = 15

unfoldable pub wait_for_db : Attempts → Result WaitError (Unit {0})
unfolding wait_from
wait_for_db a = wait_from a max_attempts 1

module _ (p : Primitives) where
  -- The result is true for nil.
  unfoldable pub insert_admin : Text → Text → Db → Bool × Db
  insert_admin email hash d =
      let (made, d') = create_user email hash d in
      elim made [ ok _ ↦ (true, d') | err _ ↦ (false, d') ]

  unfoldable pub bootstrap_admin : ℕ → Text → Text → Db → Bool × Db
  unfolding insert_admin
  bootstrap_admin salt email password d =
      let (count, d') = count_users d in
      let created : Bool × Db = elim (hash_password p salt password) [
        | none ↦ (false, d')
        | some hash ↦ insert_admin email hash d'
      ] in
      if text_eq email [] || text_eq password []
      then (true, d)
      else elim count [ err _ ↦ (false, d') | ok n ↦ if ltb 0 n then (true, d') else created ]

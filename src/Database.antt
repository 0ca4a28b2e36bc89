-- ===== src/Database.antt =====
-- internal/db/db.go. The connection pool and golang-migrate are parameters.
use nx_remote_cache.Base.{
  Bool, Option, Text, ap, arith, bytes, false, has_prefix, none, refl, some, trim_prefix,
  trim_prefix-append, true, ◌&&◌, ◌++◌, ◌∙◌, ◌≡◌,
}

-- migrate.ErrNoChange, and any other error of Up.
pub data UpError : Type 0 where
  no_change failed : UpError

-- Whether the embedded files load, whether a migrator opens on a URL, and the error of Up, if any.
pub record Migrator : Type 0 where
  pub loads : Bool
  pub opens : Text → Bool
  pub up : Text → Option UpError

unfoldable pub migrate_url : Text → Text
migrate_url url =
    bytes "pgx5://" ++ trim_prefix (trim_prefix url (bytes "postgres://")) (bytes "postgresql://")

-- Whether Migrate returns nil.
unfoldable pub migrate : Migrator → Text → Bool
unfolding migrate_url
migrate m url =
    let pending : Bool = elim (m.up (migrate_url url)) [
      | none ↦ true
      | some no_change ↦ true
      | some failed ↦ false
    ] in
    m.loads && (m.opens (migrate_url url) && pending)

-- Connect: whether a pool opens on the URL, and whether it answers the Ping.
unfoldable pub connect : (Text → Bool) → (Text → Bool) → Text → Bool
connect opens answers url = opens url && answers url

trim_prefix-none : (p s : Text) → has_prefix s p ≡ false → trim_prefix s p ≡ s
unfolding trim_prefix has_prefix
trim_prefix-none p s e = ground arith

-- Both schemes of a Postgres URL come to the scheme of the driver.
pub migrate_url-scheme :
    (rest : Text)
    → has_prefix rest (bytes "postgresql://") ≡ false
    → (migrate_url (bytes "postgres://" ++ rest) ≡ bytes "pgx5://" ++ rest)
      × (migrate_url (bytes "postgresql://" ++ rest) ≡ bytes "pgx5://" ++ rest)
unfolding migrate_url has_prefix
migrate_url-scheme rest plain =
    let old = bytes "postgres://" in
    let new = bytes "postgresql://" in
    (
      ap (λ x. bytes "pgx5://" ++ trim_prefix x new) (trim_prefix-append old rest)
          ∙ ap (λ x. bytes "pgx5://" ++ x) (trim_prefix-none new rest plain),
      ap (λ x. bytes "pgx5://" ++ trim_prefix x new) (trim_prefix-none old (new ++ rest) refl)
          ∙ ap (λ x. bytes "pgx5://" ++ x) (trim_prefix-append new rest),
    )

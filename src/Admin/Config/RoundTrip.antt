-- ===== src/Admin/Config/RoundTrip.antt =====
-- What an update of the settings is answered, and what later requests see of it.
use nx_remote_cache.Base.{
  Option, Result, Result-cases, Text, ap, arith, inl, inr, some, sym, ℕ, ℤ, ◌∙◌, ◌≡◌, ◌≢◌, ◌⊎◌,
}
use mathlib.Core.Path.{subst}
use nx_remote_cache.Store.{User}
use nx_remote_cache.Settings.{Settings}
use nx_remote_cache.Settings.Crypto.{Cipher}
use nx_remote_cache.Settings.Storage.{from_seconds}
use nx_remote_cache.Settings.Seconds.{Lifetime, from_seconds-Lifetime}
use nx_remote_cache.Settings.Manager.{ApplyError, Builders, merge, apply}
use nx_remote_cache.Settings.Apply.{SameInstalled, apply-err, apply-ok}
use nx_remote_cache.World.{World}
use nx_remote_cache.Admin.{json, write_json}
use nx_remote_cache.Admin.Config.{
  settings_dto, UpdateSettingsRequest, apply_input, handle_get_settings, handle_update_settings,
}

module _ (c : Cipher) {S : Type 0} (builders : Builders S) (nonce : ℕ → Option Text) (time : ℤ)
    (req : UpdateSettingsRequest) (user : User) (w : World S) where
  abbrev applied : Result ApplyError Settings × World S
  applied = apply c builders nonce time (apply_input req user) w

  abbrev updated : World S
  updated = (handle_update_settings c builders nonce time (some req) user w).1

  -- An update answered 200 takes effect at once: a GET of the settings by any user has the same
  -- body, the size limit for uploads is that of the request, and the lifetime of new logins is the
  -- int64 of the request's seconds times 10^9, which is the product itself unless the seconds are
  -- negative or more than 9223372036. Any other answer leaves the backend, both limits and the
  -- settings in memory as they were.
  pub handle_update_settings-effect :
      (other : User)
      → (((handle_update_settings c builders nonce time (some req) user w).0.status ≡ 200)
          × ((handle_get_settings other updated).0.body
              ≡ (handle_update_settings c builders nonce time (some req) user w).0.body)
          × (updated.max_entry_bytes ≡ req.max_cache_entry_bytes)
          × (updated.session_ttl ≡ from_seconds req.session_ttl_seconds)
          × Lifetime req.session_ttl_seconds updated.session_ttl)
        ⊎ (((handle_update_settings c builders nonce time (some req) user w).0.status ≢ 200)
            × SameInstalled updated w)
  unfolding handle_update_settings handle_get_settings apply_input merge
  handle_update_settings-effect other = elim (Result-cases applied.0) [
    | inl (s, e) ↦
        let (_, (b, _, force)) = apply-ok c builders nonce time (apply_input req user) w s e in
        let runs : handle_update_settings c builders nonce time (some req) user w
            ≡ (write_json 200 (settings_dto s), applied.1) =
          ground arith in
        let lifetime : updated.session_ttl ≡ from_seconds req.session_ttl_seconds =
          ap (λ x. x.1.session_ttl) runs ∙ force.session_ttl in
        inl (
          ap (λ x. x.0.status) runs,
          ap (λ x. (handle_get_settings other x.1).0.body) runs
              ∙ ap (λ x. json (settings_dto x)) force.shown
              ∙ sym (ap (λ x. x.0.body) runs),
          ap (λ x. x.1.max_entry_bytes) runs ∙ force.max_entry_bytes,
          lifetime,
          subst (Lifetime req.session_ttl_seconds) (sym lifetime)
              (from_seconds-Lifetime req.session_ttl_seconds),
        )
    | inr (x, e) ↦
        let (same, _) = apply-err c builders nonce time (apply_input req user) w x e in
        let failed : (handle_update_settings c builders nonce time (some req) user w).0.status
            ≢ 200 =
          λ bad. ground arith in
        let runs : updated ≡ applied.1 = ground arith in inr (failed, rw runs same)
  ]

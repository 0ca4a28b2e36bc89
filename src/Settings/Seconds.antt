-- ===== src/Settings/Seconds.antt =====
-- The session lifetime of handleUpdateSettings: seconds that become an int64 of nanoseconds.
use nx_remote_cache.Base.{
  Bool-cases, arith, inl, inr, ltb, ltb_ℤ, negsuc, pos, refl, true, wrap64, ℕ, ℤ, ◌*ℤ◌, ◌*◌, ◌+◌,
  ◌-◌, ◌<◌, ◌^◌, ◌≡◌, ◌≤◌, ◌⊎◌,
}
use nx_remote_cache.Settings.Storage.{second, from_seconds}

product : (n : ℕ) → pos n *ℤ pos second ≡ pos (n * second)
unfolding ◌*ℤ◌
product n = ground arith

wrap64_small : (n : ℕ) → n < 2 ^ 63 → wrap64 (pos n) ≡ pos n
unfolding wrap64
wrap64_small n h = ground arith

wrap64_large : (n : ℕ) → 2 ^ 64 ≤ n → n < 2 ^ 64 + 2 ^ 63 → wrap64 (pos n) ≡ pos (n - 2 ^ 64)
unfolding wrap64
wrap64_large n h k = ground arith

-- Up to 9223372036 seconds the lifetime has that many nanoseconds times 10^9.
pub from_seconds_exact : (n : ℕ) → n ≤ 9223372036 → from_seconds (pos n) ≡ pos (n * 1000000000)
unfolding from_seconds
from_seconds_exact n h = rw (product n) (wrap64_small (n * second) (omega arith))

-- The lifetime that a number of seconds becomes, where it does not wrap.
abbrev pub Lifetime : ℤ → ℤ → Type 0
Lifetime seconds ttl =
    ((n : ℕ) × (seconds ≡ pos n) × (ttl ≡ pos (n * 1000000000)))
    ⊎ (ltb_ℤ seconds (pos 0) ≡ true)
    ⊎ (ltb_ℤ (pos 9223372036) seconds ≡ true)

pub from_seconds-Lifetime : (z : ℤ) → Lifetime z (from_seconds z)
from_seconds-Lifetime (pos n) = elim (Bool-cases (ltb 9223372036 n)) [
  | inl large ↦ inr (inr (ground arith))
  | inr small ↦ inl (n, refl, from_seconds_exact n (ground arith))
]
from_seconds-Lifetime (negsuc n) = inr (inl (ground arith))

-- From 18446744074 to 27670116110 seconds the product overflows an int64 to a positive lifetime that
-- is 2^64 nanoseconds too short, so that the check for a positive lifetime lets it through.
pub from_seconds_overflow :
    (n : ℕ)
    → 18446744074 ≤ n
    → n ≤ 27670116110
    → (from_seconds (pos n) ≡ pos (n * 1000000000 - 2 ^ 64))
      × (ltb_ℤ (pos 0) (from_seconds (pos n)) ≡ true)
unfolding from_seconds
from_seconds_overflow n low high =
    let e : from_seconds (pos n) ≡ pos (n * 1000000000 - 2 ^ 64) =
      rw (product n) (wrap64_large (n * second) (omega arith) (omega arith)) in
    (e, rw e (ground (arith, low)))

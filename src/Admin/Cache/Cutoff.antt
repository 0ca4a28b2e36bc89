-- ===== src/Admin/Cache/Cutoff.antt =====
-- The cutoff of handlePrune, and where its int64 product overflows.
use nx_remote_cache.Base.{
  arith, neg_ℤ, negsuc, pos, suc, wrap64, zero, ℕ, ℤ, ◌*ℤ◌, ◌*◌, ◌+ℤ◌, ◌-ℤ◌, ◌-◌, ◌<ℤ◌, ◌<◌, ◌^◌,
  ◌≡◌, ◌≤◌,
}
use nx_remote_cache.Admin.Cache.{day, prune_cutoff}

abbrev nanos : ℕ → ℕ
nanos days = days * 86400000000000

days_product : (days : ℕ) → 0 < days → neg_ℤ (pos days) *ℤ day ≡ negsuc (nanos days - 1)
unfolding ◌*ℤ◌
days_product zero h = absurd (omega arith)
days_product (suc n) h = ground arith

wrap_small : (n : ℕ) → n < 2 ^ 63 → wrap64 (negsuc n) ≡ negsuc n
unfolding wrap64
wrap_small n h = ground arith

wrap_large : (n : ℕ) → 2 ^ 63 ≤ n → n < 2 ^ 64 → wrap64 (negsuc n) ≡ pos (2 ^ 64 - 1 - n)
unfolding wrap64
wrap_large n h k = ground arith

add_negsuc : (time : ℤ) (n : ℕ) → 0 < n → time +ℤ negsuc (n - 1) ≡ time -ℤ pos n
unfolding ◌+ℤ◌ ◌-ℤ◌
add_negsuc time n h = ground arith

add_pos : (time : ℤ) (n : ℕ) → 0 < n → time <ℤ time +ℤ pos n
unfolding ◌+ℤ◌
add_pos time n h = ground arith

-- From 1 to 106751 days the cutoff lies that many times 24 hours before now.
pub prune_cutoff_exact :
    (time : ℤ) (days : ℕ)
    → 0 < days
    → days ≤ 106751
    → prune_cutoff time (pos days) ≡ time -ℤ pos (days * 86400000000000)
unfolding prune_cutoff
prune_cutoff_exact time days h k =
    rw (days_product days h, wrap_small (nanos days - 1) (omega arith))
      (add_negsuc time (nanos days) (omega arith))

-- From 106752 to 213503 days the product of days and hours overflows an int64, and the cutoff lies
-- in the future.
pub prune_cutoff_overflow :
    (time : ℤ) (days : ℕ) → 106752 ≤ days → days ≤ 213503 → time <ℤ prune_cutoff time (pos days)
unfolding prune_cutoff
prune_cutoff_overflow time days h k =
    rw (days_product days (omega arith), wrap_large (nanos days - 1) (omega arith) (omega arith))
      (add_pos time (2 ^ 64 - 1 - (nanos days - 1)) (omega arith))

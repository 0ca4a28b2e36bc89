-- ===== src/Start/Waiting.antt =====
-- waitForDB: which of the attempts count.
use mathlib.Core.Path.{subst}
use nx_remote_cache.Base.{
  ==_iff, Bool-cases, ap, arith, false, inl, inr, ok, suc, sym, true, zero, ℕ, ◌+◌, ◌<◌, ◌==◌, ◌↔◌,
  ◌≡◌, ◌≤◌,
}
use nx_remote_cache.Start.{Attempts, wait_from, wait_for_db}

module _ (a : Attempts) where
  -- Attempt `k` is one of those from `first` to before `limit`, it succeeds, and the context is not
  -- done after an earlier one.
  pub record IsReached (first limit k : ℕ) : Type 0 where
    pub from_first : first ≤ k
    pub below : k < limit
    pub succeeds : a.migrate k ≡ true
    pub running : (j : ℕ) → first ≤ j → j < k → a.is_done j ≡ false

  IsReached-later :
      (limit k j : ℕ) → a.is_done k ≡ false → IsReached (k + 1) limit j → IsReached k limit j
  IsReached-later limit k j up r = record {
    from_first = omega (arith, r.from_first);
    below = r.below;
    succeeds = r.succeeds;
    running = λ i low high. elim (Bool-cases (i == k)) [
      | inl same ↦ rw ((==_iff i k).0 same) up
      | inr apart ↦ r.running i (ground arith) high
    ];
  }

  IsReached-next :
      (limit k j : ℕ)
      → a.migrate k ≡ false
      → IsReached k limit j
      → (a.is_done k ≡ false) × IsReached (k + 1) limit j
  IsReached-next limit k j fails r =
      let apart : (j == k) ≡ false = elim (Bool-cases (j == k)) [
        | inl same ↦
            let e : a.migrate j ≡ a.migrate k = ap (λ x. a.migrate x) ((==_iff j k).0 same) in
            cc (e, r.succeeds, fails)
        | inr apart ↦ apart
      ] in
      let after : k < j = ground (arith, r.from_first) in
      (
        r.running k (omega arith) after,
        record {
          from_first = omega arith;
          below = r.below;
          succeeds = r.succeeds;
          running = λ i low high. r.running i (omega arith) high;
        },
      )

  wait_from_iff : (n k : ℕ) → (wait_from a n k ≡ ok tt) ↔ ((j : ℕ) × IsReached k (k + n) j)
  unfolding wait_from
  wait_from_iff zero k =
      (λ e. absurd (ground arith), λ p. absurd (omega (arith, p.1.from_first, p.1.below)))
  wait_from_iff (suc n) k = elim (Bool-cases (a.migrate k)) [
    | inl good ↦ (
      λ e. (
        k,
        record {
          from_first = omega arith;
          below = omega arith;
          succeeds = good;
          running = λ j low high. absurd (omega arith);
        },
      ),
      λ p. ground arith,
    )
    | inr fails ↦ elim (Bool-cases (a.is_done k)) [
      | inl done ↦ (
        λ e. absurd (ground arith),
        λ p. let (up, _) = IsReached-next (k + suc n) k p.0 fails p.1 in cc (up, done),
      )
      | inr up ↦
          let (there, back) = wait_from_iff n (k + 1) in
          let same : k + 1 + n ≡ k + suc n = omega arith in
          (
            λ e.
                let (j, r) = there (ground arith) in
                (j, IsReached-later (k + suc n) k j up (subst (λ l. IsReached (k + 1) l j) same r)),
            λ p.
                let (_, r) = IsReached-next (k + suc n) k p.0 fails p.1 in
                let rest = back (p.0, subst (λ l. IsReached (k + 1) l p.0) (sym same) r) in
                ground arith,
          )
    ]
  ]

  -- waitForDB returns no error exactly if one of the attempts 1 to 15 succeeds and the context was
  -- not done after an earlier one.
  pub wait_for_db_iff : (wait_for_db a ≡ ok tt) ↔ ((k : ℕ) × IsReached 1 16 k)
  unfolding wait_for_db
  wait_for_db_iff = wait_from_iff 15 1

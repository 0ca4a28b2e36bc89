-- ===== src/Storage/Local/Upload/Put.antt =====
-- Local.Put as a whole, by what it does under its hash and under the others.
use nx_remote_cache.Base.{
  Result-cases, Text, ap, arith, err, false, inl, inr, length, none, ok, pos, some, sym, text_eq,
  true, ℤ, ◌++◌, ◌∙◌, ◌≡◌, ◌≢◌, ◌⊎◌,
}
use nx_remote_cache.Storage.{Error, already_exists, Reader, valid_hash}
use nx_remote_cache.Storage.Disk.{
  Node, Disk, find_node, limited, stat, not_exist, exist, other, OsError,
}
use nx_remote_cache.Storage.Disk.Find.{nodes-stat, stat-ok, stat-not_exist, find-create_temp}
use nx_remote_cache.Storage.Disk.Find.Writes.{link-exist, find-remove}
use nx_remote_cache.Storage.Local.{write_artifact, put_new, put}
use nx_remote_cache.Storage.Local.Upload.{
  prefix, opened, written, ne_temp, find-written, write_artifact-failed, find-write_artifact,
  write_artifact-exists, find-write_artifact-ok, put_new-cases,
}

module _ (h : Text) (r : Reader) (size : ℤ) (d : Disk) (hv : valid_hash h ≡ true) where
  find-put_new :
      (j : Text)
      → valid_hash j ≡ true
      → text_eq h j ≡ false
      → find_node j (put_new h r size d).1.nodes ≡ find_node j d.nodes
  find-put_new j v e =
      let created = find-create_temp (prefix h r size d) d j (λ s. ne_temp h s j v) in
      elim (put_new-cases h r size d) [
        | inl (f, _, _) ↦ rw f created
        | inr (s, f, _) ↦
            let tmp = prefix h r size d ++ s in
            let apart = ne_temp h s j v in
            let d' = opened h r size d in
            rw f (
              find-remove tmp (write_artifact tmp h r size d').1 j apart
              ∙ find-write_artifact tmp h r size d' j apart e
              ∙ created)
      ]

  find-put_new-ok :
      (put_new h r size d).0 ≡ ok tt
      → (n : Node) × (find_node h (put_new h r size d).1.nodes ≡ some n)
        × (n.content ≡ limited r size)
        × (pos (length (limited r size)) ≡ size)
  find-put_new-ok e = elim (put_new-cases h r size d) [
    | inl (_, f, _) ↦ absurd (f e)
    | inr (s, f, g) ↦
        let tmp = prefix h r size d ++ s in
        let apart = ne_temp h s h hv in
        let d' = opened h r size d in
        let (_, n, there, whole, sized) =
          find-write_artifact-ok tmp h r size d' apart (sym g ∙ e) in
        (n, rw f (find-remove tmp (write_artifact tmp h r size d').1 h apart ∙ there), whole, sized)
  ]

  find-put_new_failed :
      {x : Error}
      → (put_new h r size d).0 ≡ err x
      → find_node h (put_new h r size d).1.nodes ≡ find_node h d.nodes
  find-put_new_failed e =
      let created = find-create_temp (prefix h r size d) d h (λ s. ne_temp h s h hv) in
      elim (put_new-cases h r size d) [
        | inl (f, _, _) ↦ rw f created
        | inr (s, f, g) ↦
            let tmp = prefix h r size d ++ s in
            let apart = ne_temp h s h hv in
            let d' = opened h r size d in
            let same = write_artifact-failed tmp h r size d' (sym g ∙ e) in
            rw f (
              find-remove tmp (write_artifact tmp h r size d').1 h apart
              ∙ ap (find_node h) same
              ∙ find-written tmp h r size d' h apart
              ∙ created)
      ]

  -- With the name free from the start, the link does not find it taken.
  put_new-ne-exists : find_node h d.nodes ≡ none → (put_new h r size d).0 ≡ err already_exists → ⊥
  put_new-ne-exists free e = elim (put_new-cases h r size d) [
    | inl (_, _, f) ↦ f e
    | inr (s, _, g) ↦
        let tmp = prefix h r size d ++ s in
        let apart = ne_temp h s h hv in
        let d' = opened h r size d in
        let gone : find_node h (written tmp h r size d').nodes ≡ none =
          find-written tmp h r size d' h apart
          ∙ find-create_temp (prefix h r size d) d h (λ s. ne_temp h s h hv)
          ∙ free in
        link-exist tmp h (written tmp h r size d')
          (write_artifact-exists tmp h r size d' (sym g ∙ e)) gone
  ]

  abbrev PutCases : Type 0
  PutCases =
      (((put h r size d).1.nodes ≡ d.nodes)
        × ((put h r size d).0 ≢ ok tt)
        × ((put h r size d).0 ≡ err already_exists → find_node h d.nodes ≢ none))
      ⊎ ((find_node h d.nodes ≡ none) × (put h r size d ≡ put_new h r size (stat h d).1))

  put-cases_err : (e : OsError) → (stat h d).0 ≡ err e → PutCases
  unfolding put
  put-cases_err not_exist p = inr (stat-not_exist h d p, ground arith)
  put-cases_err exist p = inl (ground (arith, nodes-stat h d), λ q. ground arith, λ q. ground arith)
  put-cases_err other p = inl (ground (arith, nodes-stat h d), λ q. ground arith, λ q. ground arith)

  -- Put leaves the directory alone, or goes on with a free name.
  put-cases : PutCases
  unfolding put
  put-cases = elim (Result-cases (stat h d).0) [
    | inl (n, p) ↦
        inl
          (ground (arith, nodes-stat h d), λ q. ground arith, λ q. λ gone. cc (stat-ok h d p, gone))
    | inr (e, p) ↦ put-cases_err e p
  ]

module _ (h : Text) (r : Reader) (size : ℤ) (d : Disk) (hv : valid_hash h ≡ true) where
  after_stat : (j : Text) → find_node j (stat h d).1.nodes ≡ find_node j d.nodes
  after_stat j = ap (find_node j) (nodes-stat h d)

  pub find-put :
      (j : Text)
      → valid_hash j ≡ true
      → text_eq h j ≡ false
      → find_node j (put h r size d).1.nodes ≡ find_node j d.nodes
  find-put j v e = elim (put-cases h r size d hv) [
    | inl (same, _, _) ↦ ap (find_node j) same
    | inr (_, f) ↦ rw f (find-put_new h r size (stat h d).1 hv j v e ∙ after_stat j)
  ]

  -- A taken name: the directory is left alone.
  pub find-put_taken :
      (n : Node) → find_node h d.nodes ≡ some n → find_node h (put h r size d).1.nodes ≡ some n
  find-put_taken n e = elim (put-cases h r size d hv) [
    | inl (same, _, _) ↦ ap (find_node h) same ∙ e
    | inr (free, _) ↦ cc (e, free)
  ]

  pub put-exists : (put h r size d).0 ≡ err already_exists → find_node h d.nodes ≢ none
  put-exists e = elim (put-cases h r size d hv) [
    | inl (_, _, found) ↦ found e
    | inr (free, f) ↦ absurd (
        put_new-ne-exists h r size (stat h d).1 hv (after_stat h ∙ free)
          (ap (λ p. p.0) (sym f) ∙ e))
  ]

  -- A Put that fails leaves its hash alone.
  pub put-failed :
      {x : Error}
      → (put h r size d).0 ≡ err x
      → find_node h (put h r size d).1.nodes ≡ find_node h d.nodes
  put-failed e = elim (put-cases h r size d hv) [
    | inl (same, _, _) ↦ ap (find_node h) same
    | inr (_, f) ↦
        rw f
          (find-put_new_failed h r size (stat h d).1 hv (ap (λ p. p.0) (sym f) ∙ e) ∙ after_stat h)
  ]

  pub put-ok :
      (put h r size d).0 ≡ ok tt
      → (find_node h d.nodes ≡ none)
        × (n : Node) × (find_node h (put h r size d).1.nodes ≡ some n)
        × (n.content ≡ limited r size)
        × (pos (length (limited r size)) ≡ size)
  put-ok e = elim (put-cases h r size d hv) [
    | inl (_, bad, _) ↦ absurd (bad e)
    | inr (free, f) ↦
        let (n, there, whole, sized) =
          find-put_new-ok h r size (stat h d).1 hv (ap (λ p. p.0) (sym f) ∙ e) in
        (free, n, ap (λ p. find_node h p.1.nodes) f ∙ there, whole, sized)
  ]

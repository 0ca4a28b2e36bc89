-- ===== src/Storage/Local/Steps/Frame.antt =====
-- What the system calls of one upload leave alone.
use nx_remote_cache.Base.{
  Bool, Bool-cases, List, Option, Result-cases, Text, ap, arith, bytes, err, false, inl, inr, none,
  ok, refl, some, text_eq, text_eq_iff, true, ◌++◌, ◌∙◌, ◌≡◌, ◌≢◌, ◌⊎◌,
}
use nx_remote_cache.Storage.Disk.{not_exist, exist, other, Node, Disk, find_node, create_temp, link}
use nx_remote_cache.Storage.Disk.Find.{find-create_temp_kept, create_temp_free, nodes-stat}
use nx_remote_cache.Storage.Disk.Find.Writes.{
  link-ok, find-copy_to, nodes-close, nodes-link, find-link, find-remove,
}
use nx_remote_cache.Storage.Local.Steps.{
  PutState, Upload, put_step, after_stat, after_create, after_close, link_result, returned,
  removing, linking, checking, creating, copying, closing,
}

-- The temporary file of an upload in progress.
abbrev pub temp_of : PutState → Option Text
temp_of checking = none
temp_of creating = none
temp_of (copying tmp) = some tmp
temp_of (closing tmp _) = some tmp
temp_of (linking tmp) = some tmp
temp_of (removing tmp _) = some tmp
temp_of (returned _) = none

-- The upload has made the link.
abbrev pub is_won : PutState → Bool
is_won (removing _ (ok _)) = true
is_won (returned (ok _)) = true
is_won _ = false

-- `d'` has every file of `d` but one that may be missing or another.
abbrev pub IsKept : Option Text → List Node → List Node → Type 0
IsKept but nodes nodes' =
    (x : Text) (n : Node) → find_node x nodes ≡ some n → but ≢ some x → find_node x nodes' ≡ some n

ne_some : (tmp x : Text) → some tmp ≢ some x → text_eq tmp x ≡ false
ne_some tmp x apart = elim (Bool-cases (text_eq tmp x)) [
  | inr e ↦ e
  | inl same ↦ absurd (apart (ap some ((text_eq_iff tmp x).0 same)))
]

module _ (u : Upload) where
  -- A system call changes no file but the upload's own temporary file.
  pub put_step-IsKept :
      (p : PutState) (d : Disk) → IsKept (temp_of p) d.nodes (put_step u p d).1.nodes
  unfolding put_step
  put_step-IsKept checking d x n e apart = rw (nodes-stat u.hash d) e
  put_step-IsKept creating d x n e apart = find-create_temp_kept (u.hash ++ bytes ".tmp-") d x n e
  put_step-IsKept (copying tmp) d x n e apart =
      rw (find-copy_to tmp u.reader u.size d x (ne_some tmp x apart)) e
  put_step-IsKept (closing tmp copied) d x n e apart = rw (nodes-close d) e
  put_step-IsKept (linking tmp) d x n e apart = elim (Bool-cases (text_eq u.hash x)) [
    | inr ne ↦ rw (find-link tmp u.hash d x ne) e
    | inl same ↦
        let q = (text_eq_iff u.hash x).0 same in
        let taken : find_node u.hash d.nodes ≡ some n = ap (λ y. find_node y d.nodes) q ∙ e in
        rw (nodes-link tmp u.hash d (λ gone. cc (taken, gone))) e
  ]
  put_step-IsKept (removing tmp res) d x n e apart =
      rw (find-remove tmp d x (ne_some tmp x apart)) e
  put_step-IsKept (returned res) d x n e apart = e

  -- Only a free name becomes a temporary file.
  pub temp_of-put_step :
      (p : PutState) (d : Disk) (tmp : Text)
      → temp_of (put_step u p d).0 ≡ some tmp
      → (temp_of p ≡ some tmp) ⊎ (find_node tmp d.nodes ≡ none)
  unfolding put_step after_stat after_create after_close
  temp_of-put_step checking d tmp e = absurd (ground arith)
  temp_of-put_step creating d tmp e =
      elim (Result-cases (create_temp (u.hash ++ bytes ".tmp-") d).0) [
        | inr (x, q) ↦ absurd (ground arith)
        | inl (t, q) ↦
            let (free, _, _) = create_temp_free (u.hash ++ bytes ".tmp-") d t q in
            inr (ground arith)
      ]
  temp_of-put_step (copying t) d tmp e = inl e
  temp_of-put_step (closing t copied) d tmp e = inl (ground arith)
  temp_of-put_step (linking t) d tmp e = inl e
  temp_of-put_step (removing t res) d tmp e = absurd (ground arith)
  temp_of-put_step (returned res) d tmp e = absurd (ground arith)

  -- Only the link to a free hash wins.
  pub is_won-put_step :
      (p : PutState) (d : Disk)
      → is_won (put_step u p d).0 ≡ true
      → (is_won p ≡ true) ⊎ (find_node u.hash d.nodes ≡ none)
  unfolding put_step after_stat after_create after_close link_result
  is_won-put_step checking d e = absurd (ground arith)
  is_won-put_step creating d e = absurd (ground arith)
  is_won-put_step (copying t) d e = absurd (ground arith)
  is_won-put_step (closing t copied) d e = absurd (ground arith)
  is_won-put_step (linking t) d e = elim (Result-cases (link t u.hash d).0) [
    | inl (y, q) ↦ let (free, _, _, _) = link-ok t u.hash d q in inr free
    | inr (exist, q) ↦ absurd (ground arith)
    | inr (not_exist, q) ↦ absurd (ground arith)
    | inr (other, q) ↦ absurd (ground arith)
  ]
  is_won-put_step (removing t (ok y)) d e = inl refl
  is_won-put_step (removing t (err x)) d e = absurd (ground arith)
  is_won-put_step (returned (ok y)) d e = inl refl
  is_won-put_step (returned (err x)) d e = absurd (ground arith)

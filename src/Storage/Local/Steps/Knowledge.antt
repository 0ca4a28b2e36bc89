-- ===== src/Storage/Local/Steps/Knowledge.antt =====
-- What an upload knows of the disk between its system calls.
use nx_remote_cache.Base.{
  Bool-cases, List, Option, Result, Result-cases, Text, arith, bytes, eq_ℤ, eq_ℤ_iff, err, false,
  inl, inr, length, ok, pos, refl, some, text_eq, text_eq_iff, true, ℕ, ◌++◌, ◌∙◌, ◌≡◌, ◌≢◌,
}
use nx_remote_cache.Storage.{valid_hash}
use nx_remote_cache.Storage.Disk.{
  OsError, not_exist, exist, other, Node, Disk, find_node, limited, stat, create_temp, copy_to,
  close, link,
}
use nx_remote_cache.Storage.Disk.Find.{create_temp_free, create_temp-ok}
use nx_remote_cache.Storage.Disk.Find.Writes.{
  copy_to_there, nodes-link_failed, link-ok, copy_to-ok, nodes-close, find-link, find-remove,
}
use nx_remote_cache.Storage.Local.Steps.{
  PutState, Upload, put_step, after_stat, after_create, after_close, link_result, returned,
  removing, linking, checking, creating, copying, closing,
}
use nx_remote_cache.Storage.Local.Upload.{ne_temp}
use nx_remote_cache.Storage.Local.Steps.Frame.{temp_of, IsKept}

abbrev pub IsStored : Upload → List Node → Type 0
IsStored u nodes =
    (n : Node) × (find_node u.hash nodes ≡ some n)
    × (n.content ≡ limited u.reader u.size)
    × (pos (length (limited u.reader u.size)) ≡ u.size)

abbrev pub IsTemp : Upload → Text → List Node → Type 0
IsTemp u tmp nodes =
    ((s : Text) × (tmp ≡ (u.hash ++ bytes ".tmp-") ++ s))
    × (n : Node) × (find_node tmp nodes ≡ some n)

abbrev pub IsWritten : Upload → Text → ℕ → List Node → Type 0
IsWritten u tmp k nodes =
    (n : Node) × (find_node tmp nodes ≡ some n)
    × (n.content ≡ limited u.reader u.size)
    × (k ≡ length (limited u.reader u.size))

-- What an upload knows of the disk between its system calls.
abbrev pub Knows : Upload → PutState → List Node → Type 0
Knows u checking nodes = Unit
Knows u creating nodes = Unit
Knows u (copying tmp) nodes = IsTemp u tmp nodes
Knows u (closing tmp (err _)) nodes = IsTemp u tmp nodes
Knows u (closing tmp (ok k)) nodes = IsTemp u tmp nodes × IsWritten u tmp k nodes
Knows u (linking tmp) nodes =
    IsTemp u tmp nodes × (k : ℕ) × IsWritten u tmp k nodes × (pos k ≡ u.size)
Knows u (removing tmp (err _)) nodes = IsTemp u tmp nodes
Knows u (removing tmp (ok _)) nodes = IsTemp u tmp nodes × IsStored u nodes
Knows u (returned (err _)) nodes = Unit
Knows u (returned (ok _)) nodes = IsStored u nodes

module _ (u : Upload) where
  temp_ne_hash :
      (tmp s : Text)
      → valid_hash u.hash ≡ true
      → tmp ≡ (u.hash ++ bytes ".tmp-") ++ s
      → text_eq tmp u.hash ≡ false
  temp_ne_hash tmp s v e = rw e (ne_temp u.hash s u.hash v)

  hash_ne_temp :
      (tmp s : Text)
      → valid_hash u.hash ≡ true
      → tmp ≡ (u.hash ++ bytes ".tmp-") ++ s
      → text_eq u.hash tmp ≡ false
  hash_ne_temp tmp s v e =
      ground (arith, temp_ne_hash tmp s v e, text_eq_iff tmp u.hash, text_eq_iff u.hash tmp)

  Knows-after_close :
      (tmp : Text) (copied : Result OsError ℕ) (closed : Result OsError (Unit {0})) (ns : List Node)
      → Knows u (closing tmp copied) ns
      → Knows u (after_close tmp u.size copied closed) ns
  unfolding after_close
  Knows-after_close tmp (err x) closed ns k = k
  Knows-after_close tmp (ok n) (err x) ns (temp, written) = temp
  Knows-after_close tmp (ok n) (ok y) ns (temp, written) = elim (Bool-cases (eq_ℤ (pos n) u.size)) [
    | inr short ↦ rw short temp
    | inl whole ↦ rw whole (temp, n, written, (eq_ℤ_iff (pos n) u.size).0 whole)
  ]

  Knows-copied :
      (tmp : Text) (copied : Result OsError ℕ) (d : Disk)
      → IsTemp u tmp d.nodes
      → (copy_to tmp u.reader u.size d).0 ≡ copied
      → Knows u (closing tmp copied) (copy_to tmp u.reader u.size d).1.nodes
  Knows-copied tmp (err x) d (named, n, there) e =
      let (m, found) = copy_to_there tmp u.reader u.size d n there in (named, m, found)
  Knows-copied tmp (ok k) d (named, n, there) e =
      let (m, found, whole, count) = copy_to-ok tmp u.reader u.size d e in
      ((named, m, found), (m, found, whole, count))

  Knows-linked :
      (tmp : Text) (linked : Result OsError (Unit {0})) (d : Disk)
      → valid_hash u.hash ≡ true
      → Knows u (linking tmp) d.nodes
      → (link tmp u.hash d).0 ≡ linked
      → Knows u (removing tmp (link_result linked)) (link tmp u.hash d).1.nodes
  unfolding link_result
  Knows-linked tmp (ok y) d v (((s, named), n, there), k, (m, source, whole, count), sized) e =
      let apart = hash_ne_temp tmp s v named in
      let (free, l, origin, stored) = link-ok tmp u.hash d e in
      (
        ((s, named), n, find-link tmp u.hash d tmp apart ∙ there),
        (record l { name = u.hash }, stored, cc (origin, source, whole), cc (count, sized)),
      )
  Knows-linked tmp (err exist) d v (temp, _, _, _) e = rw (nodes-link_failed tmp u.hash d e) temp
  Knows-linked tmp (err not_exist) d v (temp, _, _, _) e =
      rw (nodes-link_failed tmp u.hash d e) temp
  Knows-linked tmp (err other) d v (temp, _, _, _) e = rw (nodes-link_failed tmp u.hash d e) temp

  -- What an upload knows it still knows after its own system call.
  pub Knows-put_step :
      (p : PutState) (d : Disk)
      → valid_hash u.hash ≡ true
      → Knows u p d.nodes
      → Knows u (put_step u p d).0 (put_step u p d).1.nodes
  unfolding put_step after_stat after_create
  Knows-put_step checking d v k = elim (Result-cases (stat u.hash d).0) [
    | inl (n, e) ↦ rw e tt
    | inr (not_exist, e) ↦ rw e tt
    | inr (exist, e) ↦ rw e tt
    | inr (other, e) ↦ rw e tt
  ]
  Knows-put_step creating d v k = elim (Result-cases (create_temp (u.hash ++ bytes ".tmp-") d).0) [
    | inr (x, e) ↦ rw e tt
    | inl (t, e) ↦
        let (free, n, there) = create_temp_free (u.hash ++ bytes ".tmp-") d t e in
        rw e (create_temp-ok (u.hash ++ bytes ".tmp-") d e, n, there)
  ]
  Knows-put_step (copying tmp) d v k = Knows-copied tmp _ d k refl
  Knows-put_step (closing tmp copied) d v k =
      rw (nodes-close d) (Knows-after_close tmp copied (close d).0 d.nodes k)
  Knows-put_step (linking tmp) d v k = Knows-linked tmp _ d v k refl
  Knows-put_step (removing tmp (err x)) d v k = tt
  Knows-put_step (removing tmp (ok y)) d v (((s, named), _, _), (n, there, whole, sized)) =
      (n, find-remove tmp d u.hash (temp_ne_hash tmp s v named) ∙ there, whole, sized)
  Knows-put_step (returned (err x)) d v k = tt
  Knows-put_step (returned (ok y)) d v k = k

  -- What an upload knows it still knows after the system call of another one.
  pub Knows-kept :
      (p : PutState) (but : Option Text) (ns ns' : List Node)
      → IsKept but ns ns'
      → ((tmp : Text) → temp_of p ≡ some tmp → but ≢ some tmp)
      → but ≢ some u.hash
      → Knows u p ns
      → Knows u p ns'
  Knows-kept checking but ns ns' kept apart ne k = tt
  Knows-kept creating but ns ns' kept apart ne k = tt
  Knows-kept (copying tmp) but ns ns' kept apart ne (named, n, there) =
      (named, n, kept tmp n there (apart tmp refl))
  Knows-kept (closing tmp (err x)) but ns ns' kept apart ne (named, n, there) =
      (named, n, kept tmp n there (apart tmp refl))
  Knows-kept (closing tmp (ok k)) but ns ns' kept apart ne
        ((named, n, there), (m, found, whole, count)) =
      (
        (named, n, kept tmp n there (apart tmp refl)),
        (m, kept tmp m found (apart tmp refl), whole, count),
      )
  Knows-kept (linking tmp) but ns ns' kept apart ne
        ((named, n, there), k, (m, found, whole, count), sized) =
      (
        (named, n, kept tmp n there (apart tmp refl)),
        k,
        (m, kept tmp m found (apart tmp refl), whole, count),
        sized,
      )
  Knows-kept (removing tmp (err x)) but ns ns' kept apart ne (named, n, there) =
      (named, n, kept tmp n there (apart tmp refl))
  Knows-kept (removing tmp (ok y)) but ns ns' kept apart ne
        ((named, n, there), (m, found, whole, count)) =
      ((named, n, kept tmp n there (apart tmp refl)), (m, kept u.hash m found ne, whole, count))
  Knows-kept (returned (err x)) but ns ns' kept apart ne k = tt
  Knows-kept (returned (ok y)) but ns ns' kept apart ne (m, found, whole, count) =
      (m, kept u.hash m found ne, whole, count)

-- ===== src/Storage/Local/Upload.antt =====
-- Local.Put: what an upload does under its hash, and under the other hashes.
pub mod Put
use nx_remote_cache.Base.{
  Bool-cases, Result-cases, Text, [], all, ap, arith, bytes, eq_ℤ, eq_ℤ_iff, err, false, inl, inr,
  length, none, ok, pos, refl, some, sym, text_eq, text_eq_iff, true, ℕ, ℤ, ◌&&◌, ◌++◌, ◌∙◌, ◌∷◌,
  ◌≡◌, ◌≢◌, ◌⊎◌,
}
use nx_remote_cache.Storage.{Error, already_exists, Reader, valid_hash, is_hash_byte}
use nx_remote_cache.Storage.Disk.{
  Node, Disk, find_node, limited, stat, create_temp, copy_to, close, link, remove, not_exist, exist,
  other, OsError,
}
use nx_remote_cache.Storage.Disk.Find.{
  nodes-stat, stat-ok, stat-not_exist, find-create_temp, create_temp-ok,
}
use nx_remote_cache.Storage.Disk.Find.Writes.{
  find-copy_to, copy_to-ok, nodes-close, find-link, nodes-link_failed, link-ok, link-exist,
  nodes-link, find-remove,
}
use nx_remote_cache.Storage.Local.{finalize, write_artifact, put_new, put}

all_hash_bytes-append :
    (s t : Text) → all is_hash_byte (s ++ t) ≡ (all is_hash_byte s && all is_hash_byte t)
all_hash_bytes-append [] t = refl
all_hash_bytes-append (c ∷ s) t = rw (all_hash_bytes-append s t) (ground arith)

-- No temporary file has a valid hash for its name.
pub not-valid_hash_temp : (h s : Text) → valid_hash ((h ++ bytes ".tmp-") ++ s) ≡ false
unfolding valid_hash
not-valid_hash_temp h s =
    rw (all_hash_bytes-append (h ++ bytes ".tmp-") s, all_hash_bytes-append h (bytes ".tmp-"))
      (ground arith)

pub ne_temp : (h s j : Text) → valid_hash j ≡ true → text_eq ((h ++ bytes ".tmp-") ++ s) j ≡ false
ne_temp h s j v =
    let tmp = (h ++ bytes ".tmp-") ++ s in
    elim (Bool-cases (text_eq tmp j)) [
      | inl same ↦
          let e : tmp ≡ j = (text_eq_iff tmp j).0 same in
          cc (ap valid_hash e, not-valid_hash_temp h s)
      | inr apart ↦ apart
    ]

module _ (tmp h : Text) (d : Disk) where
  finalize-disk : (finalize tmp h d).1 ≡ (link tmp h d).1
  unfolding finalize
  finalize-disk = ground arith

  finalize-link : (finalize tmp h d).0 ≡ ok tt → (link tmp h d).0 ≡ ok tt
  unfolding finalize
  finalize-link e = ground arith

module _ (tmp h : Text) (r : Reader) (size : ℤ) (d : Disk) where
  -- The file after io.Copy and Close.
  abbrev written : Disk
  written = (close (copy_to tmp r size d).1).1

  find-written :
      (j : Text) → text_eq tmp j ≡ false → find_node j written.nodes ≡ find_node j d.nodes
  find-written j e = rw nodes-close (find-copy_to tmp r size d j e)

  -- Either nothing is linked, or the link is the last step.
  write_artifact-cases :
      ((write_artifact tmp h r size d).1 ≡ written)
      ⊎ ((write_artifact tmp h r size d).1 ≡ (link tmp h written).1)
  unfolding write_artifact finalize
  write_artifact-cases = ground arith

  -- A write that fails has not linked.
  write_artifact-failed :
      {x : Error}
      → (write_artifact tmp h r size d).0 ≡ err x
      → (write_artifact tmp h r size d).1.nodes ≡ written.nodes
  unfolding write_artifact finalize
  write_artifact-failed e = elim (Result-cases (link tmp h written).0) [
    | inl (u, p) ↦ ground arith
    | inr (y, p) ↦ ground (arith, nodes-link_failed tmp h written p)
  ]

  find-write_artifact :
      (j : Text)
      → text_eq tmp j ≡ false
      → text_eq h j ≡ false
      → find_node j (write_artifact tmp h r size d).1.nodes ≡ find_node j d.nodes
  find-write_artifact j et eh = elim write_artifact-cases [
    | inl e ↦ rw e (find-written j et)
    | inr e ↦ rw e (find-link tmp h written j eh ∙ find-written j et)
  ]

  -- What stands under the hash already stays there.
  find-write_artifact_taken :
      (n : Node)
      → text_eq tmp h ≡ false
      → find_node h d.nodes ≡ some n
      → find_node h (write_artifact tmp h r size d).1.nodes ≡ some n
  find-write_artifact_taken n et e = elim write_artifact-cases [
    | inl f ↦ rw f (find-written h et ∙ e)
    | inr f ↦
        let there : find_node h written.nodes ≡ some n = find-written h et ∙ e in
        rw (f, nodes-link tmp h written (λ q. cc (there, q))) there
  ]

  write_artifact-ok :
      (write_artifact tmp h r size d).0 ≡ ok tt
      → (k : ℕ) × ((copy_to tmp r size d).0 ≡ ok k)
        × (eq_ℤ (pos k) size ≡ true)
        × ((link tmp h written).0 ≡ ok tt)
        × ((write_artifact tmp h r size d).1 ≡ (link tmp h written).1)
  unfolding write_artifact finalize
  write_artifact-ok e = elim (Result-cases (copy_to tmp r size d).0) [
    | inl (k, p) ↦ (k, p, ground arith, ground arith, ground arith)
    | inr (x, p) ↦ ground arith
  ]

  write_artifact-exists :
      (write_artifact tmp h r size d).0 ≡ err already_exists → (link tmp h written).0 ≡ err exist
  unfolding write_artifact finalize
  write_artifact-exists e = ground arith

  -- A write that succeeds has put the whole upload under a free hash.
  find-write_artifact-ok :
      text_eq tmp h ≡ false
      → (write_artifact tmp h r size d).0 ≡ ok tt
      → (find_node h d.nodes ≡ none)
        × (n : Node) × (find_node h (write_artifact tmp h r size d).1.nodes ≡ some n)
        × (n.content ≡ limited r size)
        × (pos (length (limited r size)) ≡ size)
  find-write_artifact-ok et e =
      let (k, copied, sized, linked, disk) = write_artifact-ok e in
      let (m, made, whole, count) = copy_to-ok tmp r size d copied in
      let (free, n, source, there) = link-ok tmp h written linked in
      let same : find_node tmp written.nodes ≡ some m = rw nodes-close made in
      (
        sym (find-written h et) ∙ free,
        record n { name = h },
        rw disk there,
        cc (source, same, whole),
        ap pos (sym count) ∙ (eq_ℤ_iff (pos k) size).0 sized,
      )

module _ (h : Text) (r : Reader) (size : ℤ) (d : Disk) where
  abbrev prefix : Text
  prefix = h ++ bytes ".tmp-"

  abbrev opened : Disk
  opened = (create_temp prefix d).1

  -- Put once the name is free: nothing is created, or an upload whose temporary file is removed.
  put_new-cases :
      ((put_new h r size d).1 ≡ opened)
        × ((put_new h r size d).0 ≢ ok tt)
        × ((put_new h r size d).0 ≢ err already_exists)
      ⊎ ((s : Text) × ((put_new h r size d).1
            ≡ (remove (prefix ++ s) (write_artifact (prefix ++ s) h r size opened).1).1)
          × ((put_new h r size d).0 ≡ (write_artifact (prefix ++ s) h r size opened).0))
  unfolding put_new
  put_new-cases = elim (Result-cases (create_temp prefix d).0) [
    | inl (t, p) ↦
        let (s, q) = create_temp-ok prefix d p in
        let p' : (create_temp prefix d).0 ≡ ok (prefix ++ s) = p ∙ ap ok q in
        inr (s, ground arith, ground arith)
    | inr (x, p) ↦ inl (ground arith, λ bad. ground arith, λ bad. ground arith)
  ]

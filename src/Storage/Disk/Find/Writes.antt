-- ===== src/Storage/Disk/Find/Writes.antt =====
-- What io.Copy, os.Link and os.Remove do to the node under a name.
use nx_remote_cache.Base.{
  Bool-cases, List, Option, Text, arith, err, false, inl, inr, length, none, ok, refl, some,
  text_eq, text_eq_refl, ℕ, ℤ, ◌≡◌, ◌≢◌, ◌⊎◌,
}
use nx_remote_cache.Storage.{Reader}
use nx_remote_cache.Storage.Disk.{
  OsError, not_exist, exist, other, Node, Disk, find_node, remove_node, limited, copy_to, close,
  link, remove, read_dir, bump, write_found, link_found, remove_found,
}
use nx_remote_cache.Storage.Disk.Find.{
  find_node-insert_node, find_node-remove_node, find_node-name, syscall_ind, syscall-ok,
}

module _ (bs : List ℕ) (d : Disk) where
  find-write_found :
      (name : Text) (o : Option Node) (j : Text)
      → find_node name d.nodes ≡ o
      → text_eq name j ≡ false
      → find_node j (write_found bs d o).1.nodes ≡ find_node j d.nodes
  unfolding write_found
  find-write_found name none j e h = refl
  find-write_found name (some n) j e h =
      rw (find_node-insert_node, find_node-name name d.nodes n e, h)

  write_found-ok :
      (name : Text) (o : Option Node) {k : ℕ}
      → find_node name d.nodes ≡ o
      → (write_found bs d o).0 ≡ ok k
      → (m : Node) × (find_node name (write_found bs d o).1.nodes ≡ some m)
        × (m.content ≡ bs)
        × (k ≡ length bs)
  unfolding write_found
  write_found-ok name none e h = cc
  write_found-ok name (some n) e h = (
    record n { content = bs; mod_time = d.clock d.tick },
    rw (find_node-insert_node, find_node-name name d.nodes n e, text_eq_refl),
    refl,
    cc,
  )

module _ (name : Text) (r : Reader) (size : ℤ) (d : Disk) where
  pub find-copy_to :
      (j : Text)
      → text_eq name j ≡ false
      → find_node j (copy_to name r size d).1.nodes ≡ find_node j d.nodes
  unfolding copy_to
  find-copy_to j h =
      syscall_ind (λ ns. find_node j ns ≡ find_node j d.nodes) d _ refl
        (find-write_found (limited r size) (bump d) name (find_node name d.nodes) j refl h)

  -- A copy that succeeds has written all that the limit lets through.
  pub copy_to-ok :
      {k : ℕ}
      → (copy_to name r size d).0 ≡ ok k
      → (m : Node) × (find_node name (copy_to name r size d).1.nodes ≡ some m)
        × (m.content ≡ limited r size)
        × (k ≡ length (limited r size))
  unfolding copy_to
  copy_to-ok h =
      let (up, done) = syscall-ok d _ h in
      rw up
        (write_found-ok (limited r size) (bump d) name (find_node name d.nodes) refl (ground arith))

write_found_there :
    (bs : List ℕ) (d : Disk) (name : Text) (n : Node)
    → find_node name d.nodes ≡ some n
    → (m : Node) × (find_node name (write_found bs d (some n)).1.nodes ≡ some m)
unfolding write_found
write_found_there bs d name n e = (
  record n { content = bs; mod_time = d.clock d.tick },
  rw (find_node-insert_node, find_node-name name d.nodes n e, text_eq_refl) refl,
)

-- A copy that fails leaves the file there.
pub copy_to_there :
    (name : Text) (r : Reader) (size : ℤ) (d : Disk) (n : Node)
    → find_node name d.nodes ≡ some n
    → (m : Node) × (find_node name (copy_to name r size d).1.nodes ≡ some m)
unfolding copy_to
copy_to_there name r size d n e =
    syscall_ind (λ ns. (m : Node) × (find_node name ns ≡ some m)) d _ (n, e)
      (rw e (write_found_there (limited r size) (bump d) name n e))

pub nodes-close : (d : Disk) → (close d).1.nodes ≡ d.nodes
unfolding close
nodes-close d = ground arith

module _ (dest : Text) (d : Disk) where
  find-link_found :
      (o p : Option Node) (j : Text)
      → text_eq dest j ≡ false
      → find_node j (link_found dest d o p).1.nodes ≡ find_node j d.nodes
  unfolding link_found
  find-link_found none p j h = refl
  find-link_found (some n) none j h = rw (find_node-insert_node, h)
  find-link_found (some n) (some m) j h = refl

  link_found-ok :
      (o p : Option Node)
      → (link_found dest d o p).0 ≡ ok tt
      → (p ≡ none)
        × (n : Node) × (o ≡ some n)
        × (find_node dest (link_found dest d o p).1.nodes ≡ some (record n { name = dest }))
  unfolding link_found
  link_found-ok none p h = cc
  link_found-ok (some n) none h = (refl, n, refl, rw (find_node-insert_node, text_eq_refl))
  link_found-ok (some n) (some m) h = cc

  link_found-nodes : (o p : Option Node) → (p ≢ none) → (link_found dest d o p).1.nodes ≡ d.nodes
  unfolding link_found
  link_found-nodes none p h = refl
  link_found-nodes (some n) none h = absurd (h refl)
  link_found-nodes (some n) (some m) h = refl

module _ (from dest : Text) (d : Disk) where
  pub find-link :
      (j : Text)
      → text_eq dest j ≡ false
      → find_node j (link from dest d).1.nodes ≡ find_node j d.nodes
  unfolding link
  find-link j h =
      syscall_ind (λ ns. find_node j ns ≡ find_node j d.nodes) d _ refl
        (find-link_found dest (bump d) (find_node from d.nodes) (find_node dest d.nodes) j h)

  -- A link that succeeds finds its target free, and gives it the source's content.
  pub link-ok :
      (link from dest d).0 ≡ ok tt
      → (find_node dest d.nodes ≡ none)
        × (n : Node) × (find_node from d.nodes ≡ some n)
        × (find_node dest (link from dest d).1.nodes ≡ some (record n { name = dest }))
  unfolding link
  link-ok h =
      let (up, done) = syscall-ok d _ h in
      rw up (link_found-ok dest (bump d) (find_node from d.nodes) (find_node dest d.nodes) done)

  -- A link says that its target exists only if it does.
  pub link-exist : (link from dest d).0 ≡ err exist → find_node dest d.nodes ≢ none
  unfolding link link_found
  link-exist h gone = ground arith

  pub nodes-link_failed :
      {x : OsError} → (link from dest d).0 ≡ err x → (link from dest d).1.nodes ≡ d.nodes
  unfolding link link_found
  nodes-link_failed e = ground arith

  -- A link over an existing file changes nothing.
  pub nodes-link : find_node dest d.nodes ≢ none → (link from dest d).1.nodes ≡ d.nodes
  unfolding link
  nodes-link h =
      syscall_ind (λ ns. ns ≡ d.nodes) d _ refl
        (link_found-nodes dest (bump d) (find_node from d.nodes) (find_node dest d.nodes) h)

module _ (name : Text) (d : Disk) where
  find-remove_found :
      (o : Option Node) (j : Text)
      → text_eq name j ≡ false
      → find_node j (remove_found name d o).1.nodes ≡ find_node j d.nodes
  unfolding remove_found
  find-remove_found none j h = refl
  find-remove_found (some n) j h = ground (arith, find_node-remove_node name j d.nodes)

  remove_found-ok :
      (o : Option Node)
      → (remove_found name d o).0 ≡ ok tt
      → (o ≢ none) × (find_node name (remove_found name d o).1.nodes ≡ none)
  unfolding remove_found
  remove_found-ok none h = cc
  remove_found-ok (some n) h =
      ground (arith, find_node-remove_node name name d.nodes, text_eq_refl name)

  remove_found-not_exist :
      (o : Option Node)
      → (remove_found name d o).0 ≡ err not_exist
      → (o ≡ none) × ((remove_found name d o).1.nodes ≡ d.nodes)
  unfolding remove_found
  remove_found-not_exist none h = (refl, refl)
  remove_found-not_exist (some n) h = ground arith

module _ (name : Text) (d : Disk) where
  pub find-remove :
      (j : Text)
      → text_eq name j ≡ false
      → find_node j (remove name d).1.nodes ≡ find_node j d.nodes
  unfolding remove
  find-remove j h =
      syscall_ind (λ ns. find_node j ns ≡ find_node j d.nodes) d _ refl
        (find-remove_found name (bump d) (find_node name d.nodes) j h)

  pub remove-ok :
      (remove name d).0 ≡ ok tt
      → (find_node name d.nodes ≢ none) × (find_node name (remove name d).1.nodes ≡ none)
  unfolding remove
  remove-ok h =
      let (up, done) = syscall-ok d _ h in
      rw up (remove_found-ok name (bump d) (find_node name d.nodes) done)

  pub remove-not_exist :
      (remove name d).0 ≡ err not_exist
      → (find_node name d.nodes ≡ none) × ((remove name d).1.nodes ≡ d.nodes)
  unfolding remove
  remove-not_exist h = elim (Bool-cases (d.fault d.tick)) [
    | inl e ↦ let bad : err other ≡ err not_exist = rw e at h in cc
    | inr e ↦ rw e (remove_found-not_exist name (bump d) (find_node name d.nodes) (rw e at h))
  ]

-- A removal takes the node out, or changes nothing.
pub nodes-remove :
    (name : Text) (d : Disk)
    → ((remove name d).1.nodes ≡ d.nodes) ⊎ ((remove name d).1.nodes ≡ remove_node name d.nodes)
unfolding remove remove_found
nodes-remove name d = ground arith

pub nodes-read_dir : (d : Disk) → (read_dir d).1.nodes ≡ d.nodes
unfolding read_dir
nodes-read_dir d = ground arith

pub read_dir-ok : (d : Disk) {ns : List Node} → (read_dir d).0 ≡ ok ns → ns ≡ d.nodes
unfolding read_dir
read_dir-ok d h = ground arith

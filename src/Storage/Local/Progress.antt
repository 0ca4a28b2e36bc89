-- ===== src/Storage/Local/Progress.antt =====
-- Local.Get and Local.Put on a disk where no system call fails.
use nx_remote_cache.Base.{
  Text, [], ap, arith, bytes, err, false, length, length-take, none, ok, pos, some, text_eq,
  text_eq_refl, true, ℕ, ℤ, ◌++◌, ◌+◌, ◌∙◌, ◌≡◌, ◌≤◌,
}
use nx_remote_cache.Storage.{Reader, valid_hash}
use nx_remote_cache.Storage.Disk.{
  Node, Disk, not_exist, find_node, stat, create_temp, copy_to, close, link,
}
use nx_remote_cache.Storage.Disk.Find.{find_node-insert_node, nodes-stat, find-create_temp}
use nx_remote_cache.Storage.Disk.Find.Writes.{find-copy_to, copy_to-ok, nodes-close}
use nx_remote_cache.Storage.Local.{finalize, write_artifact, put_new, put, get}
use nx_remote_cache.Storage.Local.Upload.{ne_temp}

-- No system call fails.
abbrev pub IsHealthy : Disk → Type 0
IsHealthy d = (k : ℕ) → d.fault k ≡ false

-- The name that os.CreateTemp would draw.
abbrev pub temp_name : Text → Disk → Text
temp_name prefix d = prefix ++ d.suffix d.tick

stat-free :
    (h : Text) (d : Disk) → IsHealthy d → find_node h d.nodes ≡ none → (stat h d).0 ≡ err not_exist
unfolding stat
stat-free h d up free = ground (arith, up d.tick)

pub get-found :
    (h : Text) (d : Disk) (m : Node)
    → IsHealthy d
    → find_node h d.nodes ≡ some m
    → (get h d).0 ≡ ok (m.content, length m.content)
unfolding get stat
get-found h d m up there = ground (arith, up d.tick)

fault-stat : (h : Text) (d : Disk) → (stat h d).1.fault ≡ d.fault
unfolding stat
fault-stat h d = ground arith

-- A call makes one tick, whatever becomes of it.
temp_name-stat :
    (h prefix : Text) (d : Disk) → temp_name prefix (stat h d).1 ≡ prefix ++ d.suffix (d.tick + 1)
unfolding stat
temp_name-stat h prefix d = ground arith

module _ (prefix : Text) (d : Disk) (up : IsHealthy d)
    (free : find_node (temp_name prefix d) d.nodes ≡ none) where
  create_temp-free : (create_temp prefix d).0 ≡ ok (temp_name prefix d)
  unfolding create_temp
  create_temp-free = ground (arith, up d.tick)

  find-created :
      (m : Node) × (find_node (temp_name prefix d) (create_temp prefix d).1.nodes ≡ some m)
  unfolding create_temp
  find-created =
      let tmp = temp_name prefix d in
      let m : Node = record {
        name = tmp;
        content = [];
        mod_time = d.clock (d.tick + 1);
        is_dir = false;
      } in
      (m, ground (arith, up d.tick, find_node-insert_node tmp m d.nodes, text_eq_refl tmp))

fault-create_temp : (prefix : Text) (d : Disk) → (create_temp prefix d).1.fault ≡ d.fault
unfolding create_temp
fault-create_temp prefix d = ground arith

fault-copy_to :
    (tmp : Text) (r : Reader) (size : ℤ) (d : Disk) → (copy_to tmp r size d).1.fault ≡ d.fault
unfolding copy_to
fault-copy_to tmp r size d = ground arith

copy_to_complete :
    (tmp : Text) (r : Reader) (n : ℕ) (d : Disk) {m : Node}
    → IsHealthy d
    → find_node tmp d.nodes ≡ some m
    → n ≤ length r.content
    → (copy_to tmp r (pos n) d).0 ≡ ok n
unfolding copy_to
copy_to_complete tmp r n d up e h = ground (arith, up d.tick, length-take n r.content)

close-healthy : (d : Disk) → IsHealthy d → ((close d).0 ≡ ok tt) × ((close d).1.fault ≡ d.fault)
unfolding close
close-healthy d up = ground (arith, up d.tick)

link-free :
    (tmp h : Text) (d : Disk) {m : Node}
    → IsHealthy d
    → find_node tmp d.nodes ≡ some m
    → find_node h d.nodes ≡ none
    → (link tmp h d).0 ≡ ok tt
unfolding link
link-free tmp h d up e free = ground (arith, up d.tick)

module _ (h : Text) (hv : valid_hash h ≡ true) (r : Reader) (n : ℕ)
    (whole : n ≤ length r.content) where
  write_artifact_complete :
      (tmp : Text) (d : Disk) {m : Node}
      → IsHealthy d
      → text_eq tmp h ≡ false
      → find_node tmp d.nodes ≡ some m
      → find_node h d.nodes ≡ none
      → (write_artifact tmp h r (pos n) d).0 ≡ ok tt
  unfolding write_artifact finalize
  write_artifact_complete tmp d up apart opened free =
      let copied = copy_to_complete tmp r n d up opened whole in
      let d₁ = (copy_to tmp r (pos n) d).1 in
      let up₁ : IsHealthy d₁ = λ k. ap (λ f. f k) (fault-copy_to tmp r (pos n) d) ∙ up k in
      let (closed, same) = close-healthy d₁ up₁ in
      let up₂ : IsHealthy (close d₁).1 = λ k. ap (λ f. f k) same ∙ up₁ k in
      let (_, there, _, _) = copy_to-ok tmp r (pos n) d copied in
      let linked =
        link-free tmp h (close d₁).1 up₂ (ap (find_node tmp) (nodes-close d₁) ∙ there)
          (ap (find_node h) (nodes-close d₁) ∙ find-copy_to tmp r (pos n) d h apart ∙ free) in
      ground (arith, copied, closed, linked)

  put_new_complete :
      (d : Disk)
      → IsHealthy d
      → find_node h d.nodes ≡ none
      → find_node (temp_name (h ++ bytes ".tmp-") d) d.nodes ≡ none
      → (put_new h r (pos n) d).0 ≡ ok tt
  unfolding put_new
  put_new_complete d up free unused =
      let prefix = h ++ bytes ".tmp-" in
      let tmp = temp_name prefix d in
      let created = create_temp-free prefix d up unused in
      let (_, opened) = find-created prefix d up unused in
      let d₁ = (create_temp prefix d).1 in
      let written =
        write_artifact_complete tmp d₁ (λ k. ap (λ f. f k) (fault-create_temp prefix d) ∙ up k)
          (ne_temp h (d.suffix d.tick) h hv) opened
          (find-create_temp prefix d h (λ s. ne_temp h s h hv) ∙ free) in
      ground (arith, created, written)

  -- Put stores an upload: if no system call fails, the hash is valid and free, the name that
  -- os.CreateTemp draws is free, and the body has all the bytes that were announced, Put succeeds.
  pub put_complete :
      (d : Disk)
      → IsHealthy d
      → find_node h d.nodes ≡ none
      → find_node ((h ++ bytes ".tmp-") ++ d.suffix (d.tick + 1)) d.nodes ≡ none
      → (put h r (pos n) d).0 ≡ ok tt
  unfolding put
  put_complete d up free unused =
      let d₁ = (stat h d).1 in
      let same = nodes-stat h d in
      let missing = stat-free h d up free in
      let stored =
        put_new_complete d₁ (λ k. ap (λ f. f k) (fault-stat h d) ∙ up k)
          (ap (find_node h) same ∙ free)
          (rw (same, temp_name-stat h (h ++ bytes ".tmp-") d) unused) in
      ground (arith, missing, stored)

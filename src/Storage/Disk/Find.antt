-- ===== src/Storage/Disk/Find.antt =====
-- What each call on a directory does to the node under a name.
pub mod Writes
use nx_remote_cache.Base.{
  Bool-cases, List, Option, Result, Text, [], ap, arith, err, false, if◌then◌else◌, inl, inr, none,
  ok, refl, some, sym, text_eq, text_eq_iff, text_eq_refl, ◌++◌, ◌∷◌, ◌≡◌,
}
use nx_remote_cache.Storage.{Reader}
use nx_remote_cache.Storage.Disk.{
  OsError, not_exist, exist, other, Node, Disk, find_node, insert_node, remove_node, limited, stat,
  create_temp, copy_to, close, link, remove, read_dir, syscall, bump, create_found, write_found,
  link_found, remove_found,
}

pub find_node-insert_node :
    (j : Text) (m : Node) (ns : List Node)
    → find_node j (insert_node m ns) ≡ (if text_eq m.name j then some m else find_node j ns)
unfolding insert_node find_node
find_node-insert_node j m [] = refl
find_node-insert_node j m (n ∷ ns) = ground (
  arith,
  text_eq_iff n.name m.name,
  text_eq_iff n.name j,
  text_eq_iff m.name j,
  find_node-insert_node j m ns,
)

pub find_node-remove_node :
    (name j : Text) (ns : List Node)
    → find_node j (remove_node name ns) ≡ (if text_eq name j then none else find_node j ns)
unfolding remove_node find_node
find_node-remove_node name j [] = ground arith
find_node-remove_node name j (n ∷ ns) = ground (
  arith,
  text_eq_iff n.name name,
  text_eq_iff n.name j,
  text_eq_iff name j,
  find_node-remove_node name j ns,
)

pub find_node-name : (j : Text) (ns : List Node) (n : Node) → find_node j ns ≡ some n → n.name ≡ j
unfolding find_node
find_node-name j [] n h = cc
find_node-name j (m ∷ ns) n h = ground (arith, text_eq_iff m.name j, find_node-name j ns n)

-- A property of the directory that holds after the call and if the call fails.
pub syscall_ind {ℓ} :
    {A : Type 0} (P : List Node → Type ℓ) (d : Disk) (done : Result OsError A × Disk)
    → P d.nodes
    → P done.1.nodes
    → P (syscall d done).1.nodes
syscall_ind P d done p q = elim (Bool-cases (d.fault d.tick)) [ inl e ↦ rw e p | inr e ↦ rw e q ]

-- A call that succeeds did not fail.
syscall-ok :
    {A : Type 0} (d : Disk) (done : Result OsError A × Disk) {a : A}
    → (syscall d done).0 ≡ ok a
    → (d.fault d.tick ≡ false) × (done.0 ≡ ok a)
syscall-ok d done h = ground arith

module _ (name : Text) (d : Disk) where
  pub nodes-stat : (stat name d).1.nodes ≡ d.nodes
  unfolding stat
  nodes-stat = ground arith

  pub stat-ok : {n : Node} → (stat name d).0 ≡ ok n → find_node name d.nodes ≡ some n
  unfolding stat
  stat-ok h = ground arith

  pub stat-not_exist : (stat name d).0 ≡ err not_exist → find_node name d.nodes ≡ none
  unfolding stat
  stat-not_exist h = ground arith

find-create_found :
    (tmp : Text) (d : Disk) (o : Option Node) (j : Text)
    → text_eq tmp j ≡ false
    → find_node j (create_found tmp d o).1.nodes ≡ find_node j d.nodes
unfolding create_found
find-create_found tmp d none j h = rw (find_node-insert_node, h)
find-create_found tmp d (some n) j h = refl

-- A temporary file changes nothing under a name that does not begin with the prefix.
pub find-create_temp :
    (prefix : Text) (d : Disk) (j : Text)
    → ((s : Text) → text_eq (prefix ++ s) j ≡ false)
    → find_node j (create_temp prefix d).1.nodes ≡ find_node j d.nodes
unfolding create_temp
find-create_temp prefix d j h =
    let tmp = prefix ++ d.suffix d.tick in
    syscall_ind (λ ns. find_node j ns ≡ find_node j d.nodes) d _ refl
      (find-create_found tmp (bump d) (find_node tmp d.nodes) j (h (d.suffix d.tick)))

create_found-ok :
    (tmp : Text) (d : Disk) (o : Option Node) {t : Text} → (create_found tmp d o).0 ≡ ok t → t ≡ tmp
unfolding create_found
create_found-ok tmp d none h = cc
create_found-ok tmp d (some n) h = cc

pub create_temp-ok :
    (prefix : Text) (d : Disk) {t : Text}
    → (create_temp prefix d).0 ≡ ok t
    → (s : Text) × (t ≡ prefix ++ s)
unfolding create_temp
create_temp-ok prefix d h =
    let (_, made) = syscall-ok d _ h in
    (
      d.suffix d.tick,
      create_found-ok _ (bump d) (find_node (prefix ++ d.suffix d.tick) d.nodes) made,
    )

find-create_found_kept :
    (tmp : Text) (d : Disk) (o : Option Node) (j : Text) (n : Node)
    → find_node tmp d.nodes ≡ o
    → find_node j d.nodes ≡ some n
    → find_node j (create_found tmp d o).1.nodes ≡ some n
unfolding create_found
find-create_found_kept tmp d (some m) j n taken e = e
find-create_found_kept tmp d none j n free e = elim (Bool-cases (text_eq tmp j)) [
  | inr apart ↦ rw (find_node-insert_node, apart) e
  | inl same ↦ let q = (text_eq_iff tmp j).0 same in cc (free, ap (λ x. find_node x d.nodes) q, e)
]

module _ (prefix : Text) (d : Disk) where
  pub find-create_temp_kept :
      (j : Text) (n : Node)
      → find_node j d.nodes ≡ some n
      → find_node j (create_temp prefix d).1.nodes ≡ some n
  unfolding create_temp
  find-create_temp_kept j n e =
      let tmp = prefix ++ d.suffix d.tick in
      syscall_ind (λ ns. find_node j ns ≡ some n) d _ e
        (find-create_found_kept tmp (bump d) (find_node tmp d.nodes) j n refl e)

  create_found_free :
      (tmp : Text) (o : Option Node) (t : Text)
      → find_node tmp d.nodes ≡ o
      → (create_found tmp d o).0 ≡ ok t
      → (find_node t d.nodes ≡ none)
        × (n : Node) × (find_node t (create_found tmp d o).1.nodes ≡ some n)
  unfolding create_found
  create_found_free tmp (some m) t taken e = absurd (ground arith)
  create_found_free tmp none t free e =
      let n : Node = record {
        name = tmp;
        content = [];
        mod_time = d.clock d.tick;
        is_dir = false;
      } in
      let same : tmp ≡ t = ground arith in
      (rw (sym same) free, n, rw (sym same) (rw (find_node-insert_node, text_eq_refl tmp) refl))

module _ (prefix : Text) (d : Disk) where
  -- The name that os.CreateTemp gives was free, and is a file afterwards.
  pub create_temp_free :
      (t : Text)
      → (create_temp prefix d).0 ≡ ok t
      → (find_node t d.nodes ≡ none)
        × (n : Node) × (find_node t (create_temp prefix d).1.nodes ≡ some n)
  unfolding create_temp
  create_temp_free t e =
      let tmp = prefix ++ d.suffix d.tick in
      let (up, done) = syscall-ok d _ e in
      rw up (create_found_free prefix (bump d) tmp (find_node tmp d.nodes) t refl done)

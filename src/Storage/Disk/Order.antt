-- ===== src/Storage/Disk/Order.antt =====
-- The nodes of a directory stay in the order of their names, each name once.
use mathlib.Core.Path.{subst}
use nx_remote_cache.Base.{
  All, Bool-cases, List, Option, Text, [], arith, inl, inr, none, some, text_eq, text_eq_iff,
  text_lt, text_lt_total, text_lt_trans, true, ℕ, ℤ, ◌++◌, ◌∷◌, ◌≡◌,
}
use nx_remote_cache.Storage.{Reader}
use nx_remote_cache.Storage.Disk.{
  Node, Disk, insert_node, remove_node, limited, create_temp, copy_to, link, remove, bump,
  create_found, write_found, link_found, find_node,
}
use nx_remote_cache.Storage.Disk.Find.{syscall_ind}
use nx_remote_cache.Storage.Disk.Find.Writes.{nodes-remove}

-- Every name is less than those after it.
abbrev pub IsOrdered : List Node → Type 0
IsOrdered [] = Unit
IsOrdered (n ∷ ns) = All (λ m. text_lt n.name m.name ≡ true) ns × IsOrdered ns

module _ (P : Node → Type 0) where
  All-insert_node : (m : Node) (ns : List Node) → P m → All P ns → All P (insert_node m ns)
  unfolding insert_node
  All-insert_node m [] p ps = (p, tt)
  All-insert_node m (n ∷ ns) p (q, ps) = elim (Bool-cases (text_eq n.name m.name)) [
    | inl e ↦ rw e (p, ps)
    | inr e ↦ elim (Bool-cases (text_lt n.name m.name)) [
      | inl l ↦ rw (e, l) (q, All-insert_node m ns p ps)
      | inr l ↦ rw (e, l) (p, (q, ps))
    ]
  ]

  All-remove_node : (name : Text) (ns : List Node) → All P ns → All P (remove_node name ns)
  unfolding remove_node
  All-remove_node name [] ps = tt
  All-remove_node name (n ∷ ns) (p, ps) = elim (Bool-cases (text_eq n.name name)) [
    | inl e ↦ rw e (All-remove_node name ns ps)
    | inr e ↦ rw e (p, All-remove_node name ns ps)
  ]

All-later :
    (a b : Text) (ns : List Node)
    → text_lt a b ≡ true
    → All (λ m. text_lt b m.name ≡ true) ns
    → All (λ m. text_lt a m.name ≡ true) ns
All-later a b [] h ps = tt
All-later a b (n ∷ ns) h (p, ps) = (text_lt_trans a b n.name h p, All-later a b ns h ps)

pub IsOrdered-insert_node :
    (m : Node) (ns : List Node) → IsOrdered ns → IsOrdered (insert_node m ns)
unfolding insert_node
IsOrdered-insert_node m [] o = (tt, tt)
IsOrdered-insert_node m (n ∷ ns) (first, o) = elim (Bool-cases (text_eq n.name m.name)) [
  | inl e ↦
      let same = (text_eq_iff n.name m.name).0 e in
      rw e (subst (λ x. All (λ k. text_lt x k.name ≡ true) ns) same first, o)
  | inr e ↦ elim (Bool-cases (text_lt n.name m.name)) [
    | inl l ↦
        rw (e, l)
          (
            All-insert_node (λ k. text_lt n.name k.name ≡ true) m ns l first,
            IsOrdered-insert_node m ns o,
          )
    | inr l ↦
        let less : text_lt m.name n.name ≡ true =
          ground (arith, text_lt_total n.name m.name, text_eq_iff n.name m.name) in
        rw (e, l) ((less, All-later m.name n.name ns less first), (first, o))
  ]
]

pub IsOrdered-remove_node :
    (name : Text) (ns : List Node) → IsOrdered ns → IsOrdered (remove_node name ns)
unfolding remove_node
IsOrdered-remove_node name [] o = tt
IsOrdered-remove_node name (n ∷ ns) (first, o) = elim (Bool-cases (text_eq n.name name)) [
  | inl e ↦ rw e (IsOrdered-remove_node name ns o)
  | inr e ↦ rw e (
    All-remove_node (λ k. text_lt n.name k.name ≡ true) name ns first,
    IsOrdered-remove_node name ns o,
  )
]

module _ (d : Disk) (o : IsOrdered d.nodes) where
  pub IsOrdered-create_temp : (prefix : Text) → IsOrdered (create_temp prefix d).1.nodes
  unfolding create_temp
  IsOrdered-create_temp prefix =
      syscall_ind IsOrdered d _ o (found (find_node (prefix ++ d.suffix d.tick) d.nodes))
    where
      found :
          (x : Option Node)
          → IsOrdered (create_found (prefix ++ d.suffix d.tick) (bump d) x).1.nodes
      found (some n) = o
      found none = IsOrdered-insert_node _ d.nodes o

  IsOrdered-write_found :
      (bs : List ℕ) (x : Option Node) → IsOrdered (write_found bs (bump d) x).1.nodes
  unfolding write_found
  IsOrdered-write_found bs none = o
  IsOrdered-write_found bs (some n) = IsOrdered-insert_node _ d.nodes o

  IsOrdered-link_found :
      (dest : Text) (x y : Option Node) → IsOrdered (link_found dest (bump d) x y).1.nodes
  unfolding link_found
  IsOrdered-link_found dest none y = o
  IsOrdered-link_found dest (some n) none = IsOrdered-insert_node _ d.nodes o
  IsOrdered-link_found dest (some n) (some m) = o

  pub IsOrdered-copy_to :
      (name : Text) (r : Reader) (size : ℤ) → IsOrdered (copy_to name r size d).1.nodes
  unfolding copy_to
  IsOrdered-copy_to name r size =
      syscall_ind IsOrdered d _ o (IsOrdered-write_found (limited r size) (find_node name d.nodes))

  pub IsOrdered-link : (from dest : Text) → IsOrdered (link from dest d).1.nodes
  unfolding link
  IsOrdered-link from dest =
      syscall_ind IsOrdered d _ o
        (IsOrdered-link_found dest (find_node from d.nodes) (find_node dest d.nodes))

  pub IsOrdered-remove : (name : Text) → IsOrdered (remove name d).1.nodes
  IsOrdered-remove name = elim (nodes-remove name d) [
    | inl e ↦ rw e o
    | inr e ↦ rw e (IsOrdered-remove_node name d.nodes o)
  ]

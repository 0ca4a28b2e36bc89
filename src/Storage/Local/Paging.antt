-- ===== src/Storage/Local/Paging.antt =====
-- Local.List comes to its last page, on a directory whose nodes stand in the order of their names.
use nx_remote_cache.Base.{
  All, Bool-cases, List, Result-cases, Text, [], arith, false, if◌then◌else◌, inl, inr, length, ltb,
  map, ok, pos, refl, suc, text_eq, text_eq_refl, text_lt, text_lt_irrefl, text_lt_trans, true,
  zero, ℕ, ◌+◌, ◌<◌, ◌∷◌, ◌≡◌, ◌≤◌,
}
use nx_remote_cache.Storage.{ListPage}
use nx_remote_cache.Storage.Paging.{IsPaged}
use nx_remote_cache.Storage.Disk.{Node, Disk, remove_node, read_dir}
use nx_remote_cache.Storage.Disk.Find.Writes.{nodes-remove, read_dir-ok}
use nx_remote_cache.Storage.Disk.Order.{IsOrdered, IsOrdered-remove}
use nx_remote_cache.Storage.Local
use nx_remote_cache.Storage.Local.{
  local, delete, is_listed, listed, search_after, last_of, list_names, stat_all, effective_limit,
}
use nx_remote_cache.Storage.Local.Cache.{nodes-list, disk-delete}

-- No name is less than one before it.
abbrev pub IsSorted : List Text → Type 0
IsSorted [] = Unit
IsSorted (n ∷ ns) = All (λ m. text_lt m n ≡ false) ns × IsSorted ns

abbrev pub names_of : List Node → List Text
names_of nodes = map (λ n. n.name) nodes

-- The number of names from the first one on that is greater than the cursor.
abbrev pub still_to_come : Text → List Text → ℕ
still_to_come cursor [] = 0
still_to_come cursor (n ∷ ns) =
    let rest = still_to_come cursor ns in if text_lt cursor n then suc (length ns) else rest

still_to_come-search_after :
    (cursor : Text) (ns : List Text) → search_after cursor ns + still_to_come cursor ns ≡ length ns
unfolding search_after
still_to_come-search_after cursor [] = refl
still_to_come-search_after cursor (n ∷ ns) = ground (arith, still_to_come-search_after cursor ns)

still_to_come-le : (cursor : Text) (ns : List Text) → still_to_come cursor ns ≤ length ns
still_to_come-le cursor [] = ground arith
still_to_come-le cursor (n ∷ ns) = ground (arith, still_to_come-le cursor ns)

All-last_of :
    (P : Text → Type 0) (e : ℕ) (ns : List Text)
    → 0 < e
    → e < length ns
    → All P ns
    → P (last_of e ns)
All-last_of P zero ns h short ps = absurd (omega arith)
All-last_of P (suc zero) [] h short ps = absurd (ground arith)
All-last_of P (suc zero) (n ∷ ns) h short (p, ps) = p
All-last_of P (suc (suc e)) [] h short ps = absurd (ground arith)
All-last_of P (suc (suc e)) (n ∷ ns) h short (p, ps) =
    All-last_of P (suc e) ns (ground arith) (ground arith) ps

-- After the name at the end of a page, only what follows the page is still to come.
still_to_come-last_of :
    (e : ℕ) (ns : List Text)
    → IsSorted ns
    → 0 < e
    → e < length ns
    → still_to_come (last_of e ns) ns + e ≤ length ns
still_to_come-last_of zero ns sorted h short = absurd (omega arith)
still_to_come-last_of (suc zero) [] sorted h short = absurd (ground arith)
still_to_come-last_of (suc zero) (n ∷ ns) sorted h short =
    ground (arith, text_lt_irrefl n, still_to_come-le n ns)
still_to_come-last_of (suc (suc e)) [] sorted h short = absurd (ground arith)
still_to_come-last_of (suc (suc e)) (n ∷ ns) (first, sorted) h short =
    let before : text_lt (last_of (suc e) ns) n ≡ false =
      All-last_of (λ m. text_lt m n ≡ false) (suc e) ns (ground arith) (ground arith) first in
    let later = still_to_come-last_of (suc e) ns sorted (ground arith) (ground arith) in
    rw before (omega (arith, later))

module _ (P : Text → Type 0) where
  All-listed : (nodes : List Node) → All P (names_of nodes) → All P (listed nodes)
  All-listed [] ps = tt
  All-listed (n ∷ nodes) (p, ps) = elim (Bool-cases (is_listed n)) [
    | inl e ↦ rw e (p, All-listed nodes ps)
    | inr e ↦ rw e (All-listed nodes ps)
  ]

lt-asym : (a b : Text) → text_lt a b ≡ true → text_lt b a ≡ false
lt-asym a b e = ground (arith, text_lt_trans a b a, text_lt_irrefl a)

IsSorted-IsOrdered : (nodes : List Node) → IsOrdered nodes → IsSorted (names_of nodes)
IsSorted-IsOrdered [] o = tt
IsSorted-IsOrdered (n ∷ nodes) (first, o) = (later nodes first, IsSorted-IsOrdered nodes o)
  where
    later :
        (ms : List Node)
        → All (λ m. text_lt n.name m.name ≡ true) ms
        → All (λ x. text_lt x n.name ≡ false) (names_of ms)
    later [] h = tt
    later (m ∷ ms) (h, hs) = (lt-asym n.name m.name h, later ms hs)

IsSorted-listed : (nodes : List Node) → IsSorted (names_of nodes) → IsSorted (listed nodes)
IsSorted-listed [] sorted = tt
IsSorted-listed (n ∷ nodes) (first, sorted) = elim (Bool-cases (is_listed n)) [
  | inl e ↦
      rw e (All-listed (λ m. text_lt m n.name ≡ false) nodes first, IsSorted-listed nodes sorted)
  | inr e ↦ rw e (IsSorted-listed nodes sorted)
]

module _ (name : Text) where
  length-remove_node :
      (nodes : List Node) → length (listed (remove_node name nodes)) ≤ length (listed nodes)
  unfolding remove_node
  length-remove_node [] = ground arith
  length-remove_node (n ∷ nodes) =
      let fewer = length-remove_node nodes in
      elim (Bool-cases (text_eq n.name name)) [
        | inl e ↦ elim (Bool-cases (is_listed n)) [
          | inl l ↦ rw (e, l) (omega arith)
          | inr l ↦ rw (e, l) fewer
        ]
        | inr e ↦ elim (Bool-cases (is_listed n)) [
          | inl l ↦ rw (e, l) (omega arith)
          | inr l ↦ rw (e, l) fewer
        ]
      ]

  still_to_come-remove_node :
      (cursor : Text) (nodes : List Node)
      → still_to_come cursor (listed (remove_node name nodes)) ≤ still_to_come cursor (listed nodes)
  unfolding remove_node
  still_to_come-remove_node cursor [] = ground arith
  still_to_come-remove_node cursor (n ∷ nodes) =
      let fewer = length-remove_node nodes in
      let rest = still_to_come-remove_node cursor nodes in
      let at_most = still_to_come-le cursor (listed nodes) in
      elim (Bool-cases (text_eq n.name name)) [
        | inl e ↦ elim (Bool-cases (is_listed n)) [
          | inl l ↦ rw (e, l) (ground arith)
          | inr l ↦ rw (e, l) rest
        ]
        | inr e ↦ elim (Bool-cases (is_listed n)) [
          | inl l ↦ rw (e, l) (ground arith)
          | inr l ↦ rw (e, l) rest
        ]
      ]

abbrev pub rank : Disk → Text → ℕ
rank d cursor = still_to_come cursor (listed d.nodes)

list_names-next :
    (names : List Text) (cursor : Text) (limit : ℕ) (d : Disk) (page : ListPage)
    → IsSorted names
    → 0 < limit
    → (list_names names cursor limit d).0 ≡ ok page
    → text_eq page.next_cursor [] ≡ false
    → still_to_come page.next_cursor names < still_to_come cursor names
unfolding list_names
list_names-next names cursor limit d page sorted h e more =
    let start = search_after cursor names in
    let total = still_to_come-search_after cursor names in
    elim (Bool-cases (ltb (start + limit) (length names))) [
      | inr last ↦
          let bad : page.next_cursor ≡ [] = ground arith in absurd (ground (arith, text_eq_refl []))
      | inl e' ↦
          let next : page.next_cursor ≡ last_of (start + limit) names = ground arith in
          let fewer =
            still_to_come-last_of (start + limit) names sorted (ground arith) (ground arith) in
          rw next (omega (arith, fewer, total))
    ]

list-next :
    (cursor : Text) (n : ℕ) (d : Disk) (page : ListPage)
    → IsSorted (names_of d.nodes)
    → 0 < n
    → (Local.list cursor (pos n) d).0 ≡ ok page
    → text_eq page.next_cursor [] ≡ false
    → rank d page.next_cursor < rank d cursor
unfolding Local.list
list-next cursor n d page sorted h e more = elim (Result-cases (read_dir d).0) [
  | inr (x, q) ↦ absurd (ground arith)
  | inl (ns, q) ↦
      let same : ns ≡ d.nodes = read_dir-ok d q in
      let limit : effective_limit (pos n) ≡ n = ground arith in
      let listing : (list_names (listed d.nodes) cursor n (read_dir d).1).0 ≡ ok page =
        ground arith in
      list_names-next (listed d.nodes) cursor n (read_dir d).1 page (IsSorted-listed d.nodes sorted)
        h listing more
]

-- The local backend obeys IsPaged on a directory whose nodes stand in the order of their names: a
-- listing that is read page by page comes to an end, whatever is deleted on the way.
pub local-IsPaged : IsPaged local (λ d. IsOrdered d.nodes) rank
local-IsPaged = record {
  list_fits = λ cursor limit d o. rw (nodes-list cursor limit d) o;
  list_rank = λ cursor n d page o h e more.
      rw (nodes-list cursor (pos n) d)
        (list-next cursor n d page (IsSorted-IsOrdered d.nodes o) h e more);
  delete_fits = λ h d o. rw (disk-delete h d) (IsOrdered-remove d o h);
  delete_rank = λ h d cursor. rw (disk-delete h d) (elim (nodes-remove h d) [
    | inl e ↦ rw e (ground arith)
    | inr e ↦ rw e (still_to_come-remove_node h cursor d.nodes)
  ]);
}

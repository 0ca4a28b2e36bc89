-- ===== src/Storage/Disk.antt =====
-- What internal/storage/local.go uses of package os, on the one directory that holds the cache.
-- The nodes of a directory stand in the order of their names, as os.ReadDir returns them. The
-- n-th system call fails if `fault n`, and then changes nothing; it happens at `clock n`, and
-- `suffix n` is the random part of a temporary name that it draws.
pub mod Find
pub mod Order
use nx_remote_cache.Base.{
  Bool, List, Option, Result, Text, [], err, false, if◌then◌else◌, leb, length, none, not, ok,
  pos_part, some, take, text_eq, text_lt, ℕ, ℤ, ◌&&◌, ◌++◌, ◌+◌, ◌∷◌,
}
use nx_remote_cache.Storage.{Reader}

-- os.IsNotExist, os.IsExist, and any other error.
pub data OsError : Type 0 where
  not_exist exist other : OsError

pub record Node : Type 0 where
  pub name : Text
  pub content : List ℕ
  pub mod_time : ℤ
  pub is_dir : Bool

pub record Disk : Type 0 where
  pub nodes : List Node
  pub fault : ℕ → Bool
  pub clock : ℕ → ℤ
  pub suffix : ℕ → Text
  pub tick : ℕ

unfoldable pub find_node : Text → List Node → Option Node
find_node name [] = none
find_node name (n ∷ ns) = if text_eq n.name name then some n else find_node name ns

-- A node of the same name is replaced.
unfoldable pub insert_node : Node → List Node → List Node
insert_node m [] = m ∷ []
insert_node m (n ∷ ns) =
    let rest = insert_node m ns in
    if text_eq n.name m.name then m ∷ ns else if text_lt n.name m.name then n ∷ rest else m ∷ n ∷ ns

unfoldable pub remove_node : Text → List Node → List Node
remove_node name [] = []
remove_node name (n ∷ ns) =
    let rest = remove_node name ns in if text_eq n.name name then rest else n ∷ rest

abbrev pub bump : Disk → Disk
bump d = record d { tick = d.tick + 1 }

abbrev pub with_nodes : Disk → List Node → Disk
with_nodes d ns = record d { nodes = ns }

-- A call in the directory `d`, which comes to `done` unless it fails.
abbrev pub syscall : {A : Type 0} → Disk → Result OsError A × Disk → Result OsError A × Disk
syscall d done = if d.fault d.tick then (err other, bump d) else done

stat_found : Disk → Option Node → Result OsError Node × Disk
stat_found d none = (err not_exist, d)
stat_found d (some n) = (ok n, d)

-- os.Stat, and os.Open with the Stat of the open file.
unfoldable pub stat : Text → Disk → Result OsError Node × Disk
unfolding stat_found find_node
stat name d = syscall d (stat_found (bump d) (find_node name d.nodes))

-- The name that os.CreateTemp draws is taken: os.CreateTemp gives up.
create_found : Text → Disk → Option Node → Result OsError Text × Disk
create_found name d (some n) = (err exist, d)
create_found name d none = (
  ok name,
  with_nodes d (
      insert_node (record { name = name; content = []; mod_time = d.clock d.tick; is_dir = false })
        d.nodes),
)

unfoldable pub create_temp : Text → Disk → Result OsError Text × Disk
unfolding create_found find_node insert_node
create_temp prefix d =
    let name = prefix ++ d.suffix d.tick in
    syscall d (create_found name (bump d) (find_node name d.nodes))

-- The bytes that io.Copy takes from io.LimitReader(r, size).
abbrev pub limited : Reader → ℤ → List ℕ
limited r size = take (pos_part size) r.content

-- A broken reader's error is seen only if it comes before the limit.
abbrev pub copy_fails : Reader → ℤ → Bool
copy_fails r size = r.broken && not (leb (pos_part size) (length r.content))

write_found : List ℕ → Disk → Option Node → Result OsError ℕ × Disk
write_found bs d none = (err not_exist, d)
write_found bs d (some n) = (
  ok (length bs),
  with_nodes d (insert_node (record n { content = bs; mod_time = d.clock d.tick }) d.nodes),
)

-- io.Copy into an open file that was created empty.
unfoldable pub copy_to : Text → Reader → ℤ → Disk → Result OsError ℕ × Disk
unfolding write_found find_node insert_node
copy_to name r size d =
    let (n, d') = write_found (limited r size) (bump d) (find_node name d.nodes) in
    syscall d (if copy_fails r size then err other else n, d')

unfoldable pub close : Disk → Result OsError (Unit {0}) × Disk
close d = syscall d (ok tt, bump d)

link_found : Text → Disk → Option Node → Option Node → Result OsError (Unit {0}) × Disk
link_found dest d none _ = (err not_exist, d)
link_found dest d (some n) (some m) = (err exist, d)
link_found dest d (some n) none =
    (ok tt, with_nodes d (insert_node (record n { name = dest }) d.nodes))

-- os.Link never replaces its target.
unfoldable pub link : Text → Text → Disk → Result OsError (Unit {0}) × Disk
unfolding link_found find_node insert_node
link from dest d =
    syscall d (link_found dest (bump d) (find_node from d.nodes) (find_node dest d.nodes))

-- A directory in the cache directory is taken to hold files, so that os.Remove refuses it.
remove_found : Text → Disk → Option Node → Result OsError (Unit {0}) × Disk
remove_found name d none = (err not_exist, d)
remove_found name d (some n) =
    if n.is_dir then (err other, d) else (ok tt, with_nodes d (remove_node name d.nodes))

unfoldable pub remove : Text → Disk → Result OsError (Unit {0}) × Disk
unfolding remove_found find_node remove_node
remove name d = syscall d (remove_found name (bump d) (find_node name d.nodes))

unfoldable pub read_dir : Disk → Result OsError (List Node) × Disk
read_dir d = syscall d (ok d.nodes, bump d)

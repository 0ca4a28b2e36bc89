-- ===== src/Storage/Local.antt =====
-- internal/storage/local.go: one file for each hash, in one directory. A path filepath.Join(dir,
-- hash) is the name `hash` in that directory.
pub mod Upload
pub mod Progress
pub mod Cache
pub mod Paging
pub mod Steps
use nx_remote_cache.Base.{
  Bool, List, Option, Result, Text, [], bytes, contains, drop, eq_ℤ, err, false, if◌then◌else◌,
  keep, leb_ℤ, length, ltb, map, none, not, ok, pos, pos_part, some, suc, take, text_lt, true, zero,
  ℕ, ℤ, ◌++◌, ◌+◌, ◌-◌, ◌||◌, ◌∷◌,
}
use nx_remote_cache.Storage.{
  Error, not_found, already_exists, failure, Entry, ListPage, Reader, Backend,
}
use nx_remote_cache.Storage.Disk.{
  OsError, not_exist, exist, Node, Disk, stat, create_temp, copy_to, close, link, remove, read_dir,
}

unfoldable pub exists : Text → Disk → Result Error Bool × Disk
exists hash d =
    let (found, d') = stat hash d in
    elim found [ ok _ ↦ (ok true, d') | err not_exist ↦ (ok false, d') | err _ ↦ (err failure, d') ]

-- os.Link, and its error.
finalize : Text → Text → Disk → Result Error (Unit {0}) × Disk
finalize tmp hash d =
    let (linked, d') = link tmp hash d in
    elim linked [
      | ok _ ↦ (ok tt, d')
      | err exist ↦ (err already_exists, d')
      | err _ ↦ (err failure, d')
    ]

-- From io.Copy to os.Link: the file is closed whether the copy succeeds or not.
write_artifact : Text → Text → Reader → ℤ → Disk → Result Error (Unit {0}) × Disk
write_artifact tmp hash r size d =
    let (copied, d₁) = copy_to tmp r size d in
    let (closed, d₂) = close d₁ in
    let linked = finalize tmp hash d₂ in
    elim copied [
      | err _ ↦ (err failure, d₂)
      | ok n ↦ elim closed [
        | err _ ↦ (err failure, d₂)
        | ok _ ↦ if eq_ℤ (pos n) size then linked else (err failure, d₂)
      ]
    ]

-- The rest of Put once the name is free; the temporary file is removed at the end.
put_new : Text → Reader → ℤ → Disk → Result Error (Unit {0}) × Disk
put_new hash r size d =
    let (created, d₁) = create_temp (hash ++ bytes ".tmp-") d in
    elim created [
      | err _ ↦ (err failure, d₁)
      | ok tmp ↦ let (res, d₂) = write_artifact tmp hash r size d₁ in (res, (remove tmp d₂).1)
    ]

unfoldable pub put : Text → Reader → ℤ → Disk → Result Error (Unit {0}) × Disk
unfolding put_new write_artifact finalize
put hash r size d =
    let (found, d') = stat hash d in
    elim found [
      | ok _ ↦ (err already_exists, d')
      | err not_exist ↦ put_new hash r size d'
      | err _ ↦ (err failure, d')
    ]

unfoldable pub get : Text → Disk → Result Error (List ℕ × ℕ) × Disk
get hash d =
    let (opened, d') = stat hash d in
    elim opened [
      | ok n ↦ (ok (n.content, length n.content), d')
      | err not_exist ↦ (err not_found, d')
      | err _ ↦ (err failure, d')
    ]

unfoldable pub delete : Text → Disk → Result Error (Unit {0}) × Disk
delete hash d =
    let (removed, d') = remove hash d in
    elim removed [
      | ok _ ↦ (ok tt, d')
      | err not_exist ↦ (err not_found, d')
      | err _ ↦ (err failure, d')
    ]

abbrev pub default_list_limit : ℕ
default_list_limit = 50

abbrev pub effective_limit : ℤ → ℕ
effective_limit limit = if leb_ℤ limit (pos 0) then default_list_limit else pos_part limit

-- Files that are no directories and no uploads in progress.
abbrev pub is_listed : Node → Bool
is_listed n = not (n.is_dir || contains n.name (bytes ".tmp-"))

abbrev pub listed : List Node → List Text
listed nodes = map (λ n. n.name) (keep is_listed nodes)

-- sort.Search on sorted names: the number of names that are not greater than the cursor.
unfoldable pub search_after : Text → List Text → ℕ
search_after cursor [] = 0
search_after cursor (n ∷ ns) =
    let rest = search_after cursor ns in if text_lt cursor n then 0 else suc rest

-- A file that is gone is left out.
add_entry : Text → Result OsError Node → List Entry → List Entry
add_entry name (ok n) rest =
    record { hash = name; size = length n.content; mod_time = n.mod_time } ∷ rest
add_entry name (err _) rest = rest

-- The loop over os.Stat.
stat_all : List Text → Disk → List Entry × Disk
stat_all [] d = ([], d)
stat_all (name ∷ names) d =
    let (found, d₁) = stat name d in
    let (rest, d₂) = stat_all names d₁ in (add_entry name found rest, d₂)

-- The last of the first `n` names.
abbrev pub last_of : ℕ → List Text → Text
last_of _ [] = []
last_of zero (_ ∷ _) = []
last_of (suc zero) (x ∷ xs) = x
last_of (suc (suc n)) (x ∷ xs) = last_of (suc n) xs

list_names : List Text → Text → ℕ → Disk → Result Error ListPage × Disk
list_names names cursor limit d =
    let start = search_after cursor names in
    let over = ltb (length names) (start + limit) in
    let end = if over then length names else start + limit in
    let (entries, d') = stat_all (take (end - start) (drop start names)) d in
    let next = if ltb end (length names) then last_of end names else [] in
    (ok (record { entries = entries; next_cursor = next }), d')

unfoldable pub list : Text → ℤ → Disk → Result Error ListPage × Disk
unfolding list_names stat_all add_entry
list cursor limit d =
    let (dir, d') = read_dir d in
    elim dir [
      | err _ ↦ (err failure, d')
      | ok nodes ↦ list_names (listed nodes) cursor (effective_limit limit) d'
    ]

abbrev pub local : Backend Disk
local = record { exists = exists; put = put; get = get; delete = delete; list = list }

-- NewLocal, where os.MkdirAll is the parameter: whether it succeeds, and the directory after it.
unfoldable pub new_local : (Text → Disk → Bool × Disk) → Text → Disk → Option (Backend Disk) × Disk
new_local mkdir_all dir d =
    let (made, d') = mkdir_all dir d in (if made then some local else none, d')

-- ===== src/Storage/Local/Cache.antt =====
-- The local backend against the promises of the Backend interface.
use nx_remote_cache.Base.{
  All, Bool, Bool-cases, List, Option, Option-cases, Result, Result-cases, Text, [], ap, arith, err,
  inl, inr, is_some, none, ok, ok-injective, refl, some, sym, text_eq, text_eq_iff, true, ℕ, ℤ, ◌∙◌,
  ◌∷◌, ◌≡◌, ◌≢◌,
}
use mathlib.Core.Path.{subst}
use nx_remote_cache.Storage.{not_found, Entry, ListPage, Reader, valid_hash}
use nx_remote_cache.Storage.Contract.{Artifact, content_of, mod_time_of, IsStore, IsCache}
use nx_remote_cache.Storage.Disk.{OsError, not_exist, Node, Disk, find_node, stat, remove, read_dir}
use nx_remote_cache.Storage.Disk.Find.{nodes-stat, stat-ok, stat-not_exist}
use nx_remote_cache.Storage.Disk.Find.Writes.{
  find-remove, remove-ok, remove-not_exist, nodes-read_dir,
}
use nx_remote_cache.Storage.Local
use nx_remote_cache.Storage.Local.{
  get, delete, local, stat_all, add_entry, list_names, effective_limit, listed,
}
use nx_remote_cache.Storage.Local.Upload.Put.{
  find-put, find-put_taken, put-exists, put-failed, put-ok,
}

abbrev pub artifact_of : Option Node → Option Artifact
artifact_of none = none
artifact_of (some n) = some (record { content = n.content; mod_time = n.mod_time })

-- The artifact under a hash is the file of that name.
unfoldable pub holds : Disk → Text → Option Artifact
holds d h = artifact_of (find_node h d.nodes)

module _ (h : Text) (d : Disk) where
  pub nodes-exists : (Local.exists h d).1.nodes ≡ d.nodes
  unfolding Local.exists
  nodes-exists = ground (arith, nodes-stat h d)

  exists-ok :
      (found : Bool)
      → (Local.exists h d).0 ≡ ok found
      → found ≡ is_some (artifact_of (find_node h d.nodes))
  unfolding Local.exists
  exists-ok found e = elim (Result-cases (stat h d).0) [
    | inl (n, p) ↦ ground (arith, stat-ok h d p)
    | inr (x, p) ↦ ground (arith, stat-not_exist h d)
  ]

  pub nodes-get : (get h d).1.nodes ≡ d.nodes
  unfolding get
  nodes-get = ground (arith, nodes-stat h d)

  get-ok :
      (bs : List ℕ) (n : ℕ)
      → (get h d).0 ≡ ok (bs, n)
      → content_of (artifact_of (find_node h d.nodes)) ≡ some bs
  unfolding get
  get-ok bs n e = elim (Result-cases (stat h d).0) [
    | inl (n, p) ↦ ground (arith, stat-ok h d p)
    | inr (x, p) ↦ ground arith
  ]

  get-not_found : (get h d).0 ≡ err not_found → find_node h d.nodes ≡ none
  unfolding get
  get-not_found e = stat-not_exist h d (ground arith)

  pub disk-delete : (delete h d).1 ≡ (remove h d).1
  unfolding delete
  disk-delete = ground arith

  delete-ok : (delete h d).0 ≡ ok tt → (remove h d).0 ≡ ok tt
  unfolding delete
  delete-ok e = ground arith

  delete-not_found : (delete h d).0 ≡ err not_found → (remove h d).0 ≡ err not_exist
  unfolding delete
  delete-not_found e = ground arith

nodes-stat_all : (names : List Text) (d : Disk) → (stat_all names d).1.nodes ≡ d.nodes
unfolding stat_all
nodes-stat_all [] d = refl
nodes-stat_all (name ∷ names) d =
    ground (arith, nodes-stat_all names (stat name d).1, nodes-stat name d)

-- An entry gives the time of the file that it names.
abbrev IsAccurate : List Node → Entry → Type 0
IsAccurate nodes e = mod_time_of (artifact_of (find_node e.hash nodes)) ≡ some e.mod_time

add_entry-IsAccurate :
    (nodes : List Node) (name : Text) (found : Result OsError Node) (rest : List Entry)
    → ((n : Node) → found ≡ ok n → find_node name nodes ≡ some n)
    → All (IsAccurate nodes) rest
    → All (IsAccurate nodes) (add_entry name found rest)
unfolding add_entry
add_entry-IsAccurate nodes name (ok n) rest f h = (rw (f n refl) refl, h)
add_entry-IsAccurate nodes name (err x) rest f h = h

stat_all-IsAccurate : (names : List Text) (d : Disk) → All (IsAccurate d.nodes) (stat_all names d).0
unfolding stat_all
stat_all-IsAccurate [] d = tt
stat_all-IsAccurate (name ∷ names) d =
    let d₁ = (stat name d).1 in
    add_entry-IsAccurate d.nodes name (stat name d).0 (stat_all names d₁).0
      (λ n e. stat-ok name d e)
      (subst (λ ns. All (IsAccurate ns) (stat_all names d₁).0) (nodes-stat name d)
        (stat_all-IsAccurate names d₁))

nodes-list_names :
    (names : List Text) (cursor : Text) (limit : ℕ) (d : Disk)
    → (list_names names cursor limit d).1.nodes ≡ d.nodes
unfolding list_names
nodes-list_names names cursor limit d = nodes-stat_all _ d

pub nodes-list :
    (cursor : Text) (limit : ℤ) (d : Disk) → (Local.list cursor limit d).1.nodes ≡ d.nodes
unfolding Local.list
nodes-list cursor limit d = elim (Result-cases (read_dir d).0) [
  | inl (ns, p) ↦ ground (
    arith,
    nodes-read_dir d,
    nodes-list_names (listed ns) cursor (effective_limit limit) (read_dir d).1,
  )
  | inr (x, p) ↦ ground (arith, nodes-read_dir d)
]

list_names-IsAccurate :
    (names : List Text) (cursor : Text) (limit : ℕ) (d : Disk) (page : ListPage)
    → (list_names names cursor limit d).0 ≡ ok page
    → All (IsAccurate d.nodes) page.entries
unfolding list_names
list_names-IsAccurate names cursor limit d page e =
    subst (λ p. All (IsAccurate d.nodes) p.entries) (ok-injective e) (stat_all-IsAccurate _ d)

list-ok :
    (cursor : Text) (limit : ℤ) (d : Disk) (page : ListPage)
    → (Local.list cursor limit d).0 ≡ ok page
    → All (IsAccurate d.nodes) page.entries
unfolding Local.list
list-ok cursor limit d page e = elim (Result-cases (read_dir d).0) [
  | inl (ns, p) ↦
      subst (λ l. All (IsAccurate l) page.entries) (nodes-read_dir d)
        (list_names-IsAccurate (listed ns) cursor (effective_limit limit) (read_dir d).1 page
          (ground arith))
  | inr (x, p) ↦ absurd (ground arith)
]

put-keeps_self :
    (h : Text) (r : Reader) (size : ℤ) (d : Disk) (a : Artifact)
    → valid_hash h ≡ true
    → artifact_of (find_node h d.nodes) ≡ some a
    → artifact_of (find_node h (Local.put h r size d).1.nodes) ≡ some a
put-keeps_self h r size d a hv e = elim (Option-cases (find_node h d.nodes)) [
  | inl gone ↦ let bad : none ≡ some a = ap artifact_of (sym gone) ∙ e in cc
  | inr (n, there) ↦ ap artifact_of (find-put_taken h r size d hv n there ∙ sym there) ∙ e
]

put-keeps :
    (h : Text) (r : Reader) (size : ℤ) (d : Disk) (j : Text) (a : Artifact)
    → valid_hash h ≡ true
    → valid_hash j ≡ true
    → artifact_of (find_node j d.nodes) ≡ some a
    → artifact_of (find_node j (Local.put h r size d).1.nodes) ≡ some a
put-keeps h r size d j a hv jv = elim (Bool-cases (text_eq h j)) [
  | inl same ↦
      subst
        (λ x.
          artifact_of (find_node x d.nodes) ≡ some a
          → artifact_of (find_node x (Local.put h r size d).1.nodes) ≡ some a)
        ((text_eq_iff h j).0 same) (put-keeps_self h r size d a hv)
  | inr apart ↦ λ e. ap artifact_of (find-put h r size d hv j jv apart) ∙ e
]

is_some_of_ne_none : (o : Option Node) → o ≢ none → is_some (artifact_of o) ≡ true
is_some_of_ne_none none h = absurd (h refl)
is_some_of_ne_none (some n) h = refl

All-weaken :
    {P Q : Entry → Type 0} (es : List Entry) → ((e : Entry) → P e → Q e) → All P es → All Q es
All-weaken [] f h = tt
All-weaken (e ∷ es) f h = (f e h.0, All-weaken es f h.1)

pub local-IsStore : IsStore local holds (λ h. true)
unfolding holds
local-IsStore = record {
  names_valid = λ h v. refl;
  put_keeps = λ h r size d j a hv jv e. put-keeps h r size d j a hv jv e;
  put_others = λ h r size d j hv jv e. ap artifact_of (find-put h r size d hv j jv e);
  put_ok = λ h r size d hv e.
      let (free, n, there, whole, _) = put-ok h r size d hv e in
      (ap artifact_of free, rw there (ap some whole));
  put_exists =
      λ h r size d hv e. is_some_of_ne_none (find_node h d.nodes) (put-exists h r size d hv e);
  get_keeps = λ h d j. ap (λ ns. artifact_of (find_node j ns)) (nodes-get h d);
  get_ok = λ h d bs n v e. get-ok h d bs n e;
  get_not_found = λ h d v e. ap artifact_of (get-not_found h d e);
  exists_keeps = λ h d j. ap (λ ns. artifact_of (find_node j ns)) (nodes-exists h d);
  exists_ok = λ h d found v e. exists-ok h d found e;
  delete_others = λ h d j n e. rw (disk-delete h d) (ap artifact_of (find-remove h d j e));
  delete_ok = λ h d v e.
      let (there, gone) = remove-ok h d (delete-ok h d e) in
      (is_some_of_ne_none (find_node h d.nodes) there, rw (disk-delete h d) (ap artifact_of gone));
  delete_not_found = λ h d v e.
      let (free, same) = remove-not_exist h d (delete-not_found h d e) in
      (ap artifact_of free, rw (disk-delete h d, same) (ap artifact_of free));
  list_keeps =
      λ cursor limit d j. ap (λ ns. artifact_of (find_node j ns)) (nodes-list cursor limit d);
  list_ok = λ cursor limit d page e.
      All-weaken page.entries (λ x h. (refl, λ v. h)) (list-ok cursor limit d page e);
}

pub local-IsCache : IsCache local holds (λ h. true)
unfolding holds
local-IsCache = record {
  store = local-IsStore;
  put_sized = λ h r size d hv e. let (_, _, _, _, sized) = put-ok h r size d hv e in sized;
  put_whole = λ h r size d hv. elim (Result-cases (Local.put h r size d).0) [
    | inl (u, e) ↦
        let (_, n, there, whole, sized) = put-ok h r size d hv e in
        inr (rw there (ap some whole), sized)
    | inr (x, e) ↦ inl (ap artifact_of (put-failed h r size d hv e))
  ];
}

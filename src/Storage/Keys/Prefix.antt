-- ===== src/Storage/Keys/Prefix.antt =====
-- Which prefixes agree with the path that path.Join makes of them.
use mathlib.Core.List.{append_assoc}
use nx_remote_cache.Base.{
  Bool, Bool-cases, List, Option-cases, Text, [], all, ap, arith, bytes, false, has_prefix, inl,
  inr, is_some, none, refl, some, strip_prefix, sym, text_eq, text_eq_iff, trim_prefix,
  trim_prefix-append, true, ◌++◌, ◌==◌, ◌∙◌, ◌∷◌, ◌≡◌, ◌≢◌, ◌⊎◌,
}
use nx_remote_cache.Storage.{valid_hash, is_hash_byte}
use nx_remote_cache.Storage.Path.{clean, directory, render, root_of, or_dot, parts_of}
use nx_remote_cache.Storage.Path.Hash.{dir_of, join-hash, dir_of-slash, hash_bytes}
use nx_remote_cache.Storage.Keys.{key, list_prefix, unkey}

-- What stands before the hash in a key.
abbrev pub key_dir : Text → Text
key_dir [] = []
key_dir (c ∷ p) = dir_of (c ∷ p)

pub key-hash : (p h : Text) → valid_hash h ≡ true → key p h ≡ key_dir p ++ h
unfolding key
key-hash [] h v = refl
key-hash (c ∷ p) h v = join-hash c p h v

append-cancel : (d h j : Text) → d ++ h ≡ d ++ j → h ≡ j
append-cancel [] h j e = e
append-cancel (c ∷ d) h j e = append-cancel d h j (ground arith)

-- Different hashes have different keys.
pub key-apart :
    (p h j : Text)
    → valid_hash h ≡ true
    → valid_hash j ≡ true
    → text_eq h j ≡ false
    → text_eq (key p h) (key p j) ≡ false
key-apart p h j hv jv apart = elim (Bool-cases (text_eq (key p h) (key p j))) [
  | inr e ↦ e
  | inl same ↦
      let e : key_dir p ++ h ≡ key_dir p ++ j =
        sym (key-hash p h hv) ∙ (text_eq_iff (key p h) (key p j)).0 same ∙ key-hash p j jv in
      let t : text_eq h j ≡ true = (text_eq_iff h j).1 (append-cancel (key_dir p) h j e) in cc
]

-- A prefix that path.Clean leaves as it is, and that names a directory below the root.
pub record IsClean (p : Text) : Type 0 where
  pub clean_again : clean p ≡ p
  pub ne_root : p ≢ bytes "/"
  pub ne_dot : p ≢ bytes "."

-- No prefix, or a clean one.
abbrev pub IsPlain : Text → Type 0
IsPlain p = (p ≡ []) ⊎ IsClean p

or_dot-inv : (s p : Text) → or_dot s ≡ p → p ≢ bytes "." → s ≡ p
or_dot-inv [] p e dot = absurd (dot (sym e))
or_dot-inv (c ∷ s) p e dot = e

ends_in_part :
    (rooted : Bool) (stack : List Text) (p : Text)
    → or_dot (root_of rooted ++ render stack) ≡ p
    → p ≢ bytes "/"
    → p ≢ bytes "."
    → root_of rooted ++ directory stack ≡ p ++ b'/' ∷ []
unfolding render directory
ends_in_part true [] p e slash dot = absurd (slash (sym e))
ends_in_part false [] p e slash dot = absurd (dot (sym e))
ends_in_part rooted (q ∷ stack) p e root dot =
    let dir = directory stack in
    let slash : Text = b'/' ∷ [] in
    let same = or_dot-inv (root_of rooted ++ (dir ++ q)) p e dot in
    sym (append_assoc (root_of rooted) (dir ++ q) slash) ∙ ap (λ d. d ++ slash) same

pub key_dir-plain : (p : Text) → IsPlain p → key_dir p ≡ list_prefix p
unfolding list_prefix clean
key_dir-plain [] plain = refl
key_dir-plain (c ∷ p) (inl e) = absurd (ground arith)
key_dir-plain (c ∷ p) (inr plain) =
    ends_in_part (c == b'/') (parts_of (c ∷ p)) (c ∷ p) plain.clean_again plain.ne_root plain.ne_dot

strip_prefix-some : (p s r : Text) → strip_prefix p s ≡ some r → s ≡ p ++ r
unfolding strip_prefix
strip_prefix-some [] s r e = ground arith
strip_prefix-some (a ∷ p) [] r e = absurd (ground arith)
strip_prefix-some (a ∷ p) (b ∷ s) r e = ground (arith, strip_prefix-some p s r)

strip_prefix-shared : (d p s : Text) → strip_prefix (d ++ p) (d ++ s) ≡ strip_prefix p s
unfolding strip_prefix
strip_prefix-shared [] p s = refl
strip_prefix-shared (a ∷ d) p s = ground (arith, strip_prefix-shared d p s)

-- unkey takes a hash back out of its key.
pub unkey-key : (p h : Text) → IsPlain p → valid_hash h ≡ true → unkey p (key p h) ≡ h
unfolding unkey list_prefix
unkey-key [] h plain v = key-hash [] h v
unkey-key (c ∷ p) h plain v =
    let e : key (c ∷ p) h ≡ list_prefix (c ∷ p) ++ h =
      key-hash (c ∷ p) h v ∙ ap (λ d. d ++ h) (key_dir-plain (c ∷ p) plain) in
    ap (λ k. trim_prefix k (list_prefix (c ∷ p))) e ∙ trim_prefix-append (list_prefix (c ∷ p)) h

-- Every key that List finds under the prefix is the key of what unkey makes of it, if that is a hash.
pub key-unkey :
    (p k : Text)
    → IsPlain p
    → has_prefix k (list_prefix p) ≡ true
    → valid_hash (unkey p k) ≡ true
    → key p (unkey p k) ≡ k
unfolding unkey list_prefix trim_prefix has_prefix
key-unkey [] k plain under v = key-hash [] k v
key-unkey (c ∷ p) k plain under v =
    let d = list_prefix (c ∷ p) in
    elim (Option-cases (strip_prefix d k)) [
      | inl gone ↦ absurd (ground arith)
      | inr (r, e) ↦
          let rest : trim_prefix k d ≡ r = rw (e, trim_prefix) refl in
          ap (key (c ∷ p)) rest
          ∙ key-hash (c ∷ p) r (ap valid_hash (sym rest) ∙ v)
          ∙ ap (λ x. x ++ r) (key_dir-plain (c ∷ p) plain)
          ∙ sym (strip_prefix-some d k r e)
    ]

no_slash : (h : Text) → all is_hash_byte h ≡ true → strip_prefix (b'/' ∷ []) h ≡ none
unfolding strip_prefix
no_slash [] e = refl
no_slash (c ∷ h) e = ground arith

-- With a clean prefix and a slash after it, no valid hash has a key that begins with what List
-- asks for.
pub key-trailing_slash :
    (p h : Text)
    → IsClean p
    → valid_hash h ≡ true
    → has_prefix (key (p ++ b'/' ∷ []) h) (list_prefix (p ++ b'/' ∷ [])) ≡ false
unfolding has_prefix list_prefix clean text_eq
key-trailing_slash [] h plain v = let bad : bytes "." ≡ [] = plain.clean_again in cc
key-trailing_slash (c ∷ p) h plain v =
    let slash : Text = b'/' ∷ [] in
    let d = (c ∷ p) ++ slash in
    let e : key d h ≡ d ++ h =
      key-hash d h v ∙ ap (λ x. x ++ h) (dir_of-slash c p ∙ key_dir-plain (c ∷ p) (inr plain)) in
    ap (λ k. is_some (strip_prefix (d ++ slash) k)) e
    ∙ ap is_some (strip_prefix-shared d slash h)
    ∙ ap is_some (no_slash h (hash_bytes h v))

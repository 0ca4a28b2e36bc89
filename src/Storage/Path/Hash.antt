-- ===== src/Storage/Path/Hash.antt =====
-- A hash as the last component of a path.
use mathlib.Core.List.{append_assoc}
use nx_remote_cache.Base.{
  Bool, Bool-cases, List, Text, [], all, ap, arith, false, inl, inr, refl, sym, text_eq, true, ℕ,
  ◌++◌, ◌==◌, ◌∙◌, ◌∷◌, ◌≡◌, ◌≢◌, ◌⊎◌,
}
use nx_remote_cache.Storage.{valid_hash, is_hash_byte}
use nx_remote_cache.Storage.Path.{
  split_slash, split_next, clean_step, clean_all, directory, render, root_of, is_rooted, parts_of,
  or_dot, clean, join,
}

split_cases :
    (parts : List Text) → (parts ≡ []) ⊎ ((q : Text) × (qs : List Text) × (parts ≡ q ∷ qs))
split_cases [] = inl refl
split_cases (q ∷ qs) = inr (q, qs, refl)

split_next-concat :
    (c : ℕ) (parts : List Text) (h : Text)
    → parts ≢ []
    → split_next c (parts ++ h ∷ []) ≡ split_next c parts ++ h ∷ []
unfolding split_next
split_next-concat c [] h some_part = absurd (some_part refl)
split_next-concat c (q ∷ qs) h some_part = refl

hash_part : (h : Text) → all is_hash_byte h ≡ true → split_slash h ≡ h ∷ []
unfolding split_slash
hash_part [] e = refl
hash_part (c ∷ h) e =
    let rest = hash_part h (ground arith) in
    let apart : (c == b'/') ≡ false = ground arith in rw (rest, apart) refl

split_slash-ne : (s : Text) → split_slash s ≢ []
unfolding split_slash
split_slash-ne [] e = cc
split_slash-ne (c ∷ s) e = elim (split_cases (split_slash s)) [
  | inl none_left ↦ split_slash-ne s none_left
  | inr (part, parts, same) ↦ ground arith
]

pub split-join :
    (p h : Text) → all is_hash_byte h ≡ true → split_slash (p ++ b'/' ∷ h) ≡ split_slash p ++ h ∷ []
unfolding split_slash
split-join [] h e = rw (hash_part h e) refl
split-join (c ∷ p) h e =
    let rest = split-join p h e in
    let next = split_next-concat c (split_slash p) h (split_slash-ne p) in
    elim (Bool-cases (c == b'/')) [
      | inl slash ↦ rw (rest, slash) refl
      | inr other ↦ rw (rest, other) next
    ]

clean_step-hash :
    (rooted : Bool) (stack : List Text) (h : Text)
    → valid_hash h ≡ true
    → clean_step rooted stack h ≡ h ∷ stack
unfolding clean_step valid_hash text_eq
clean_step-hash rooted stack [] v = absurd (ground arith)
clean_step-hash rooted stack (c ∷ h) v = ground arith

clean_all-hash :
    (rooted : Bool) (stack : List Text) (parts : List Text) (h : Text)
    → valid_hash h ≡ true
    → clean_all rooted stack (parts ++ h ∷ []) ≡ h ∷ clean_all rooted stack parts
unfolding clean_all
clean_all-hash rooted stack [] h v = clean_step-hash rooted stack h v
clean_all-hash rooted stack (part ∷ parts) h v =
    clean_all-hash rooted (clean_step rooted stack part) parts h v

clean_all-empty :
    (rooted : Bool) (stack : List Text) (parts : List Text)
    → clean_all rooted stack (parts ++ [] ∷ []) ≡ clean_all rooted stack parts
unfolding clean_all clean_step text_eq
clean_all-empty rooted stack [] = refl
clean_all-empty rooted stack (part ∷ parts) =
    clean_all-empty rooted (clean_step rooted stack part) parts

-- All that comes before the hash in the path of `p` and a hash.
abbrev pub dir_of : Text → Text
dir_of p = root_of (is_rooted p) ++ directory (parts_of p)

or_dot-hash : (d h : Text) → valid_hash h ≡ true → or_dot (d ++ h) ≡ d ++ h
unfolding valid_hash
or_dot-hash [] [] v = absurd (ground arith)
or_dot-hash [] (c ∷ h) v = refl
or_dot-hash (c ∷ d) h v = refl

pub hash_bytes : (h : Text) → valid_hash h ≡ true → all is_hash_byte h ≡ true
unfolding valid_hash
hash_bytes h v = ground arith

-- The path is the directory, and the hash as it is.
pub join-hash : (c : ℕ) (p h : Text) → valid_hash h ≡ true → join (c ∷ p) h ≡ dir_of (c ∷ p) ++ h
unfolding join clean render
join-hash c p h v =
    let rooted = c == b'/' in
    let parts : parts_of ((c ∷ p) ++ b'/' ∷ h) ≡ h ∷ parts_of (c ∷ p) =
      ap (clean_all rooted []) (split-join (c ∷ p) h (hash_bytes h v))
      ∙ clean_all-hash rooted [] (split_slash (c ∷ p)) h v in
    let rendered : clean ((c ∷ p) ++ b'/' ∷ h)
        ≡ or_dot (root_of rooted ++ (directory (parts_of (c ∷ p)) ++ h)) =
      ap (λ ps. or_dot (root_of rooted ++ render ps)) parts in
    rendered
    ∙ ap or_dot (sym (append_assoc (root_of rooted) (directory (parts_of (c ∷ p))) h))
    ∙ or_dot-hash (dir_of (c ∷ p)) h v

-- A slash at the end adds no component.
pub dir_of-slash : (c : ℕ) (p : Text) → dir_of ((c ∷ p) ++ b'/' ∷ []) ≡ dir_of (c ∷ p)
dir_of-slash c p =
    let rooted = c == b'/' in
    let parts : parts_of ((c ∷ p) ++ b'/' ∷ []) ≡ parts_of (c ∷ p) =
      ap (clean_all rooted []) (split-join (c ∷ p) [] refl)
      ∙ clean_all-empty rooted [] (split_slash (c ∷ p)) in
    ap (λ ps. root_of rooted ++ directory ps) parts

-- ===== src/Routing.antt =====
-- http.ServeMux, as the three route tables of the repository use it. A path is the list of the
-- segments after its first slash, cleaned and unescaped. A table lists its patterns with the most
-- specific first, and the first that fits is the one that ServeMux picks.
use nx_remote_cache.Base.{
  Bool, Bool-cases, List, Option, Option-cases, Text, [], any, arith, false, if◌then◌else◌, inl,
  inr, is_some, none, refl, some, text_eq, true, ℤ, ◌&&◌, ◌++◌, ◌∷◌, ◌≡◌, ◌⊎◌,
}
use mathlib.Core.Path.{subst}
use nx_remote_cache.Storage.{Reader}
use nx_remote_cache.Admin.{Method, get, head, post, put, delete}

-- http.Request, with the headers that the program reads and the value of the session cookie. `query`
-- is r.URL.Query().Get, and a header that is missing is empty.
pub record Request : Type 0 where
  pub method : Method
  pub path : List Text
  pub query : Text → Text
  pub remote_addr : Text
  pub csrf : Text
  pub session : Option Text
  pub authorization : Text
  pub content_length : ℤ
  pub body : Reader

-- A literal, {name}, {$}, or the end of a pattern with a trailing slash.
pub data Segment : Type 0 where
  lit : Text → Segment
  wild last rest : Segment

-- What the wildcards stand for, if the pattern fits the path. A wildcard stands for no empty
-- segment.
unfoldable pub match_path : List Segment → List Text → Option (List Text)
match_path [] [] = some []
match_path [] (x ∷ xs) = none
match_path (s ∷ ss) [] = none
match_path (lit t ∷ ss) (x ∷ xs) = let more = match_path ss xs in if text_eq t x then more else none
match_path (wild ∷ ss) (x ∷ xs) =
    let more = match_path ss xs in
    if text_eq x [] then none else elim more [ none ↦ none | some values ↦ some (x ∷ values) ]
match_path (last ∷ ss) (x ∷ []) = if text_eq x [] then some [] else none
match_path (last ∷ ss) (x ∷ y ∷ ys) = none
match_path (rest ∷ ss) (x ∷ xs) = some []

-- A pattern without a method fits every method, and GET fits HEAD as well.
abbrev pub fits_method : Option Method → Method → Bool
fits_method none m = true
fits_method (some get) get = true
fits_method (some get) head = true
fits_method (some post) post = true
fits_method (some put) put = true
fits_method (some delete) delete = true
fits_method (some _) _ = false

pub record Route (H : Type 0) : Type 0 where
  pub method : Option Method
  pub path : List Segment
  pub handler : H

-- The handler with the values of its wildcards, a redirect to the same path with a slash, 405 or
-- 404.
pub data Routed (H : Type 0) : Type 0 where
  found : H → List Text → Routed H
  add_slash wrong_method nowhere : Routed H

module _ {H : Type 0} where
  unfoldable pub find_route : List (Route H) → Method → List Text → Option (H × List Text)
  find_route [] m path = none
  find_route (r ∷ rs) m path =
      let later = find_route rs m path in
      elim (match_path r.path path) [
        | none ↦ later
        | some values ↦ if fits_method r.method m then some (r.handler, values) else later
      ]

  unfoldable pub fits_path : List (Route H) → List Text → Bool
  fits_path rs path = any (λ r. is_some (match_path r.path path)) rs

  unfoldable pub routed : List (Route H) → Method → List Text → Routed H
  unfolding find_route fits_path
  routed rs m path = elim (find_route rs m path) [
    | some (h, values) ↦ found h values
    | none ↦
        if is_some (find_route rs m (path ++ [] ∷ []))
        then add_slash
        else if fits_path rs path
        then wrong_method
        else nowhere
  ]

-- A handler is not found if none of its patterns fits the path.
module _ {H : Type 0} (bad : H → Bool) where
  pub find_route-avoids :
      (rs : List (Route H)) (m : Method) (path values : List Text) (h : H)
      → any (λ r. bad r.handler && is_some (match_path r.path path)) rs ≡ false
      → find_route rs m path ≡ some (h, values)
      → bad h ≡ false
  unfolding find_route
  find_route-avoids [] m path values h none_fits e = absurd (ground arith)
  find_route-avoids (r ∷ rs) m path values h none_fits e =
      let later = find_route-avoids rs m path values h in
      elim (Option-cases (match_path r.path path)) [
        | inl misses ↦ later (ground arith) (ground arith)
        | inr (vs, fits) ↦ elim (Bool-cases (fits_method r.method m)) [
          | inl picked ↦
              let same : r.handler ≡ h = ground arith in
              subst (λ x. bad x ≡ false) same (ground arith)
          | inr other ↦ later (ground arith) (ground arith)
        ]
      ]

module _ {H : Type 0} (rs : List (Route H)) (m : Method) (path : List Text) where
  pub routed-cases :
      ((h : H) × (values : List Text) × (find_route rs m path ≡ some (h, values))
        × (routed rs m path ≡ found h values))
      ⊎ ((routed rs m path ≡ add_slash)
          ⊎ ((routed rs m path ≡ wrong_method) ⊎ (routed rs m path ≡ nowhere)))
  unfolding routed
  routed-cases = elim (Option-cases (find_route rs m path)) [
    | inr (x, e) ↦ inl (x.0, x.1, e, rw (e, routed) refl)
    | inl e ↦ inr (ground arith)
  ]

-- PathValue of the one wildcard.
abbrev pub path_value : List Text → Text
path_value [] = []
path_value (x ∷ xs) = x

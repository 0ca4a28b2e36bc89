-- ===== src/Storage/Path.antt =====
-- path.Clean and path.Join of the standard library, by the rules that they document.
pub mod Hash
use nx_remote_cache.Base.{
  Bool, List, Text, [], bytes, false, if◌then◌else◌, text_eq, ℕ, ◌++◌, ◌==◌, ◌||◌, ◌∷◌,
}

-- The first component of a path, and the rest of them.
split_next : ℕ → List Text → List Text
split_next c [] = (c ∷ []) ∷ []
split_next c (part ∷ parts) = (c ∷ part) ∷ parts

unfoldable pub split_slash : Text → List Text
unfolding split_next
split_slash [] = [] ∷ []
split_slash (c ∷ s) = let rest = split_slash s in if c == b'/' then [] ∷ rest else split_next c rest

-- "..": takes the last component back; at the root it is dropped, and otherwise it is kept.
go_up : Bool → List Text → List Text
go_up rooted [] = if rooted then [] else bytes ".." ∷ []
go_up rooted (part ∷ stack) = if text_eq part (bytes "..") then bytes ".." ∷ part ∷ stack else stack

-- One component, on the components before it, the last one first.
unfoldable pub clean_step : Bool → List Text → Text → List Text
unfolding go_up
clean_step rooted stack part =
    if text_eq part [] || text_eq part (bytes ".")
    then stack
    else if text_eq part (bytes "..")
    then go_up rooted stack
    else part ∷ stack

unfoldable pub clean_all : Bool → List Text → List Text → List Text
unfolding clean_step
clean_all rooted stack [] = stack
clean_all rooted stack (part ∷ parts) = clean_all rooted (clean_step rooted stack part) parts

-- The path of a stack of components, each with a slash after it.
unfoldable pub directory : List Text → Text
directory [] = []
directory (part ∷ stack) = directory stack ++ part ++ b'/' ∷ []

-- The path of a stack of components.
unfoldable pub render : List Text → Text
unfolding directory
render [] = []
render (part ∷ stack) = directory stack ++ part

abbrev pub root_of : Bool → Text
root_of rooted = if rooted then b'/' ∷ [] else []

abbrev pub or_dot : Text → Text
or_dot [] = bytes "."
or_dot (c ∷ s) = c ∷ s

abbrev pub is_rooted : Text → Bool
is_rooted [] = false
is_rooted (c ∷ s) = c == b'/'

abbrev pub parts_of : Text → List Text
parts_of s = clean_all (is_rooted s) [] (split_slash s)

unfoldable pub clean : Text → Text
unfolding clean_all split_slash render
clean s = or_dot (root_of (is_rooted s) ++ render (parts_of s))

-- path.Join of two elements.
unfoldable pub join : Text → Text → Text
unfolding clean
join [] [] = []
join [] (c ∷ s) = clean (c ∷ s)
join (c ∷ s) t = clean ((c ∷ s) ++ b'/' ∷ t)

-- ===== src/Prelude/Paths.antt =====
-- Go's functions on slash-separated paths that the program calls: `filepath.Clean` on Unix,
-- `filepath.IsAbs`, `path.Join` of a rooted directory and a path, and `strings.Contains` for "..".
pub mod Elements
pub mod Joined
use Prim.Native.Char.{Char, code}
use Prim.Native.String.{String, ◌++◌ as concat}
use mathlib.Core.Bool.{Bool, true, false, ◌||◌, ◌&&◌}
use mathlib.Core.List.{List, [], ◌∷◌, reverse}
use text.Mathlib.Text.{◌==◌ as str_eq}
use shark_42tokyo_tuning.Prelude.Tests.{◌==◌, if◌then◌else◌}

abbrev pub is_slash : Char → Bool
is_slash c = code c == b'/'

abbrev pub is_dot : Char → Bool
is_dot c = code c == b'.'

abbrev pub push_char : Char → List String → List String
push_char c [] = String.◌∷◌ c String.[] ∷ []
push_char c (w ∷ ws) = String.◌∷◌ c w ∷ ws

-- The texts between the slashes.
pub split : String → List String
split String.[] = "" ∷ []
split (String.◌∷◌ c s) = let rest = split s in if is_slash c then "" ∷ rest else push_char c rest

unfoldable pub join : List String → String
join [] = ""
join (w ∷ []) = w
join (w ∷ v ∷ ws) = concat w (concat "/" (join (v ∷ ws)))

-- `Clean` keeps the elements of the result so far, the last first. A ".." takes the last one away,
-- stays where there is none, and is dropped at the root.
abbrev pub up : (rooted : Bool) → List String → List String
up rooted [] = if rooted then [] else ".." ∷ []
up rooted (e ∷ out) = if str_eq e ".." then ".." ∷ e ∷ out else out

abbrev pub add_element : (rooted : Bool) → List String → String → List String
add_element rooted out e =
    if str_eq e "" || str_eq e "." then out else if str_eq e ".." then up rooted out else e ∷ out

pub walk : (rooted : Bool) → List String → List String → List String
walk rooted out [] = out
walk rooted out (e ∷ es) = walk rooted (add_element rooted out e) es

abbrev pub render : (rooted : Bool) → List String → String
render true es = concat "/" (join es)
render false [] = "."
render false (e ∷ es) = join (e ∷ es)

abbrev pub is_abs : String → Bool
is_abs String.[] = false
is_abs (String.◌∷◌ c s) = is_slash c

-- `Clean`
unfoldable pub clean : String → String
unfolding walk split join
clean path = render (is_abs path) (reverse (walk (is_abs path) [] (split path)))

-- `Join`, for a directory that is not empty and a path that is not empty.
unfoldable pub path_join : String → String → String
unfolding clean
path_join directory path = clean (concat directory (concat "/" path))

abbrev pub dot_first : String → Bool
dot_first String.[] = false
dot_first (String.◌∷◌ c s) = is_dot c

-- `strings.Contains(s, "..")`
pub contains_dots : String → Bool
contains_dots String.[] = false
contains_dots (String.◌∷◌ c s) = (is_dot c && dot_first s) || contains_dots s

-- ===== src/Prelude/Texts.antt =====
-- Go's string functions that the program calls, on texts as lists of characters. A text that is not
-- UTF-8 is not modelled.
use Prim.Native.Nat.{ℕ, ◌+◌, ◌-◌}
use Prim.Native.Char.{code}
use Prim.Native.String.{String}
use mathlib.Core.Bool.{Bool, true, false, ◌&&◌, ◌||◌}
use mathlib.Core.List.{List, [], ◌∷◌}
use shark_42tokyo_tuning.Prelude.Tests.{leb, ◌==◌, if◌then◌else◌}

-- The code points of a text.
abbrev pub codes : String → List ℕ
codes String.[] = []
codes (String.◌∷◌ c s) = code c ∷ codes s

abbrev is_empty : String → Bool
is_empty String.[] = true
is_empty (String.◌∷◌ c s) = false

-- `unicode.IsSpace`.
pub is_space : ℕ → Bool
is_space c =
    (leb 9 c && leb c 13)
    || c == 32
    || c == 0x85
    || c == 0xa0
    || c == 0x1680
    || (leb 0x2000 c && leb c 0x200a)
    || c == 0x2028
    || c == 0x2029
    || c == 0x202f
    || c == 0x205f
    || c == 0x3000

trim_left : String → String
trim_left String.[] = String.[]
trim_left (String.◌∷◌ c s) =
    let rest = trim_left s in if is_space (code c) then rest else String.◌∷◌ c s

trim_right : String → String
trim_right String.[] = String.[]
trim_right (String.◌∷◌ c s) =
    let rest = trim_right s in
    if is_empty rest && is_space (code c) then String.[] else String.◌∷◌ c rest

-- `strings.TrimSpace`.
unfoldable pub trim_space : String → String
unfolding trim_left trim_right is_space
trim_space s = trim_right (trim_left s)

pub codes_eq : List ℕ → List ℕ → Bool
codes_eq [] [] = true
codes_eq (x ∷ xs) (y ∷ ys) = x == y && codes_eq xs ys
codes_eq _ _ = false

-- `unicode.ToLower` and `unicode.ToUpper`, exact where the result is an ASCII letter: beside the
-- ASCII letters those are U+0130 and U+212A, and U+0131 and U+017F.
lower : ℕ → ℕ
lower c =
    if leb b'A' c && leb c b'Z'
    then c + 32
    else if c == 0x130
    then b'i'
    else if c == 0x212a
    then b'k'
    else c

upper : ℕ → ℕ
upper c =
    if leb b'a' c && leb c b'z'
    then c - 32
    else if c == 0x131
    then b'I'
    else if c == 0x17f
    then b'S'
    else c

map_codes : (ℕ → ℕ) → List ℕ → List ℕ
map_codes f [] = []
map_codes f (c ∷ cs) = f c ∷ map_codes f cs

-- `strings.ToLower(s) == t` and `strings.ToUpper(s) == t`, for an ASCII text `t`.
unfoldable pub lower_is : String → String → Bool
unfolding lower map_codes codes_eq
lower_is s t = codes_eq (map_codes lower (codes s)) (codes t)

unfoldable pub upper_is : String → String → Bool
unfolding upper map_codes codes_eq
upper_is s t = codes_eq (map_codes upper (codes s)) (codes t)

-- Simple case folding, exact where the result is an ASCII letter.
fold : ℕ → ℕ
fold c =
    if leb b'A' c && leb c b'Z'
    then c + 32
    else if c == 0x17f
    then b's'
    else if c == 0x212a
    then b'k'
    else c

-- `strings.EqualFold(s, t)`, for a lower-case ASCII text `t`.
unfoldable pub equal_fold : String → String → Bool
unfolding fold map_codes codes_eq
equal_fold s t = codes_eq (map_codes fold (codes s)) (codes t)

-- ===== src/Prelude/Paths/Elements.antt =====
-- The elements of a path: how they are split and joined, and which of them `Clean` keeps.
use Prim.Native.Char.{Char}
use text.Mathlib.TextLemmas.{nil-append, cons-append}
use text.Mathlib.Text.{◌==◌ as str_eq}
use Prim.Native.String.{String, ◌++◌ as concat}
use mathlib.Core.Path.{◌≡◌, refl, ap, ◌∙◌}
use mathlib.Core.Logic.{inl, inr}
use mathlib.Core.Bool.{Bool, true, false, ◌||◌}
use mathlib.Core.List.{List, [], ◌∷◌, reverse_aux}
use shark_42tokyo_tuning.Prelude.Tests.{Bool-cases}
use shark_42tokyo_tuning.Prelude.Paths.{is_slash, push_char, split, up, add_element, walk}

abbrev pub All {ℓ κ} : {A : Type ℓ} → (A → Type κ) → List A → Type κ
All P [] = Unit
All P (x ∷ xs) = P x × All P xs

pub All-reverse_aux {ℓ κ} :
    {A : Type ℓ} (P : A → Type κ) (xs ys : List A) → All P xs → All P ys → All P (reverse_aux xs ys)
All-reverse_aux P [] ys hx hy = hy
All-reverse_aux P (x ∷ xs) ys hx hy = All-reverse_aux P xs (x ∷ ys) hx.1 (hx.0, hy)

abbrev pub has_slash : String → Bool
has_slash String.[] = false
has_slash (String.◌∷◌ c s) = is_slash c || has_slash s

-- Not empty, not ".", and with no slash.
pub record IsElement (e : String) : Type 0 where
  pub not_empty : str_eq e "" ≡ false
  pub not_dot : str_eq e "." ≡ false
  pub no_slash : has_slash e ≡ false

abbrev pub NoSlash : List String → Type 0
NoSlash ws = All (λ w. has_slash w ≡ false) ws

push_char-NoSlash :
    (c : Char) (ws : List String) → is_slash c ≡ false → NoSlash ws → NoSlash (push_char c ws)
push_char-NoSlash c [] h all = (rw h refl, tt)
push_char-NoSlash c (w ∷ ws) h all = (rw h all.0, all.1)

pub split-NoSlash : (s : String) → NoSlash (split s)
unfolding split
split-NoSlash String.[] = (refl, tt)
split-NoSlash (String.◌∷◌ c s) = elim (Bool-cases (is_slash c)) [
  | inl slash ↦ rw slash (refl, split-NoSlash s)
  | inr other ↦ rw other (push_char-NoSlash c (split s) other (split-NoSlash s))
]

pub or_false : (a b : Bool) → (a || b) ≡ false → (a ≡ false) × (b ≡ false)
or_false true b h = cc
or_false false b h = (refl, h)

split-other :
    (c : Char) (t : String) → is_slash c ≡ false → split (String.◌∷◌ c t) ≡ push_char c (split t)
unfolding split
split-other c t h = rw (split, h) refl

abbrev pub slash : Char
slash = "/"

pub slash_first : (t : String) → concat "/" t ≡ String.◌∷◌ slash t
slash_first t = cons-append slash String.[] t ∙ ap (String.◌∷◌ slash) (nil-append t)

-- An element before a slash, or alone, is one element.
pub split-append_slash :
    (w t : String) → has_slash w ≡ false → split (concat w (concat "/" t)) ≡ w ∷ split t
unfolding split
split-append_slash String.[] t h = rw (nil-append (concat "/" t), slash_first t) refl
split-append_slash (String.◌∷◌ c w) t h =
    let (other, rest) = or_false (is_slash c) (has_slash w) h in
    rw
      (
        cons-append c w (concat "/" t),
        split-other c (concat w (concat "/" t)) other,
        split-append_slash w t rest,
      )
      refl

pub split-element : (w : String) → has_slash w ≡ false → split w ≡ w ∷ []
unfolding split
split-element String.[] h = refl
split-element (String.◌∷◌ c w) h =
    let (other, rest) = or_false (is_slash c) (has_slash w) h in
    rw (split-other c w other, split-element w rest) refl

dots-IsElement : IsElement ".."
dots-IsElement = record { not_empty = refl; not_dot = refl; no_slash = refl }

up-IsElement :
    (rooted : Bool) (out : List String) → All IsElement out → All IsElement (up rooted out)
up-IsElement true [] h = tt
up-IsElement false [] h = (dots-IsElement, tt)
up-IsElement rooted (e ∷ out) h = elim (Bool-cases (str_eq e "..")) [
  | inl dots ↦ rw dots (dots-IsElement, h)
  | inr other ↦ rw other h.1
]

add_element-IsElement :
    (rooted : Bool) (out : List String) (e : String)
    → has_slash e ≡ false
    → All IsElement out
    → All IsElement (add_element rooted out e)
add_element-IsElement rooted out e no_slash h = elim (Bool-cases (str_eq e "" || str_eq e ".")) [
  | inl skipped ↦ rw skipped h
  | inr kept ↦
      let (not_empty, not_dot) = or_false (str_eq e "") (str_eq e ".") kept in
      elim (Bool-cases (str_eq e "..")) [
        | inl dots ↦ rw (kept, dots) (up-IsElement rooted out h)
        | inr other ↦
            rw (kept, other)
              (record { not_empty = not_empty; not_dot = not_dot; no_slash = no_slash }, h)
      ]
]

-- What `walk` keeps are elements.
pub walk-IsElement :
    (rooted : Bool) (out ws : List String)
    → NoSlash ws
    → All IsElement out
    → All IsElement (walk rooted out ws)
unfolding walk
walk-IsElement rooted out [] all h = h
walk-IsElement rooted out (w ∷ ws) all h =
    walk-IsElement rooted (add_element rooted out w) ws all.1
      (add_element-IsElement rooted out w all.0 h)

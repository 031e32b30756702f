-- ===== src/Prelude/Paths/Joined.antt =====
-- A cleaned path behind the directory that it is joined to.
use Prim.Native.Char.{Char}
use text.Mathlib.TextLemmas.{nil-append, cons-append, append-nil, append_assoc}
use text.Mathlib.Text.{◌==◌ as str_eq}
use text.Mathlib.TextEquality.{eq_iff}
use Prim.Native.String.{String, ◌++◌ as concat}
use mathlib.Core.Path.{◌≡◌, refl, sym, ap, ◌∙◌}
use mathlib.Core.Logic.{inl, inr}
use mathlib.Core.Bool.{Bool, true, false}
use mathlib.Core.List.{List, [], ◌∷◌, reverse, reverse_aux, reverse_aux-reverse_aux-nil}
use shark_42tokyo_tuning.Prelude.Tests.{Bool-cases}
use shark_42tokyo_tuning.Prelude.Paths.{
  is_dot, dot_first, split, join, walk, render, is_abs, clean, path_join, contains_dots,
}
use shark_42tokyo_tuning.Prelude.Paths.Elements.{
  All, All-reverse_aux, has_slash, IsElement, NoSlash, or_false, slash_first, split-NoSlash,
  split-append_slash, split-element, walk-IsElement,
}

split-join : (w : String) (ws : List String) → NoSlash (w ∷ ws) → split (join (w ∷ ws)) ≡ w ∷ ws
unfolding join
split-join w [] all = split-element w all.0
split-join w (v ∷ ws) all =
    split-append_slash w (join (v ∷ ws)) all.0 ∙ ap (λ l. w ∷ l) (split-join v ws all.1)

-- What holds of a text without ".." holds of its end and of its start.
contains_dots-end : (w t : String) → contains_dots (concat w t) ≡ false → contains_dots t ≡ false
unfolding contains_dots
contains_dots-end String.[] t h = rw (nil-append t) at h
contains_dots-end (String.◌∷◌ c w) t h =
    contains_dots-end w t (or_false _ _ (rw (cons-append c w t) at h)).1

abbrev dot : Char
dot = "."

two_dots : (t : String) → contains_dots (concat ".." t) ≡ true
unfolding contains_dots
two_dots t = rw (cons-append dot "." t, cons-append dot String.[] t) refl

not_dots_start : (w t : String) → contains_dots (concat w t) ≡ false → str_eq w ".." ≡ false
not_dots_start w t h = elim (Bool-cases (str_eq w "..")) [
  | inl dots ↦ let same : w ≡ ".." = (eq_iff w "..").0 dots in cc (rw same at h, two_dots t)
  | inr other ↦ other
]

-- An element of a path that may be served: it names something, and is not "..".
pub record IsPlain (e : String) : Type 0 where
  pub element : IsElement e
  pub not_dots : str_eq e ".." ≡ false

IsPlain-join :
    (w : String) (ws : List String)
    → All IsElement (w ∷ ws)
    → contains_dots (join (w ∷ ws)) ≡ false
    → All IsPlain (w ∷ ws)
unfolding join
IsPlain-join w [] all h =
    (record { element = all.0; not_dots = not_dots_start w "" (rw (append-nil w) h) }, tt)
IsPlain-join w (v ∷ ws) all h = (
  record { element = all.0; not_dots = not_dots_start w (concat "/" (join (v ∷ ws))) h },
  IsPlain-join v ws all.1
      (contains_dots-end "/" (join (v ∷ ws)) (contains_dots-end w (concat "/" (join (v ∷ ws))) h)),
)

render_abs : (es : List String) → is_abs (render true es) ≡ true
render_abs es = rw (slash_first (join es)) refl

clean-eq :
    (path : String) (rooted : Bool)
    → is_abs path ≡ rooted
    → clean path ≡ render rooted (reverse (walk rooted [] (split path)))
unfolding clean
clean-eq path rooted h = ap (λ b. render b (reverse (walk b [] (split path)))) h

IsPlain-render :
    (es : List String) → All IsElement es → contains_dots (render false es) ≡ false → All IsPlain es
IsPlain-render [] all h = tt
IsPlain-render (e ∷ es) all h = IsPlain-join e es all h

-- A cleaned path that is not absolute and has no "..": the elements that it is made of.
pub clean-IsPlain :
    (path : String)
    → is_abs (clean path) ≡ false
    → contains_dots (clean path) ≡ false
    → (es : List String) × All IsPlain es × (clean path ≡ render false es)
clean-IsPlain path relative no_dots = elim (Bool-cases (is_abs path)) [
  | inl rooted ↦
      cc (ap is_abs (clean-eq path true rooted), render_abs (reverse (walk true [] (split path))))
  | inr other ↦
      let h = clean-eq path false other in
      let elements =
        All-reverse_aux IsElement (walk false [] (split path)) []
          (walk-IsElement false [] (split path) (split-NoSlash path) tt) tt in
      (
        reverse (walk false [] (split path)),
        IsPlain-render (reverse (walk false [] (split path))) elements
            (sym (ap contains_dots h) ∙ no_dots),
        h,
      )
]

walk-IsPlain : (es out : List String) → All IsPlain es → walk true out es ≡ reverse_aux es out
unfolding walk
walk-IsPlain [] out all = refl
walk-IsPlain (e ∷ es) out (plain, all) =
    rw ((plain.element).not_empty, (plain.element).not_dot, plain.not_dots)
      (walk-IsPlain es (e ∷ out) all)

IsPlain-NoSlash : (es : List String) → All IsPlain es → NoSlash es
IsPlain-NoSlash [] all = tt
IsPlain-NoSlash (e ∷ es) all = ((all.0.element).no_slash, IsPlain-NoSlash es all.1)

directory_join :
    (t : String)
    → concat "/_protected/images" (concat "/" t)
      ≡ concat "/" (concat "_protected" (concat "/" (concat "images" (concat "/" t))))
directory_join t =
    append_assoc "/" "_protected/images" (concat "/" t)
    ∙ ap (concat "/") (
        append_assoc "_protected" "/images" (concat "/" t)
        ∙ ap (concat "_protected") (append_assoc "/" "images" (concat "/" t)))

clean-rooted :
    (e : String) (es : List String)
    → NoSlash (e ∷ es)
    → clean (concat "/" (join (e ∷ es))) ≡ render true (reverse (walk true [] ("" ∷ e ∷ es)))
unfolding split
clean-rooted e es h =
    let path = join (e ∷ es) in
    let parts : split (concat "/" path) ≡ "" ∷ e ∷ es =
      ap split (slash_first path) ∙ ap (λ ws. "" ∷ ws) (split-join e es h) in
    clean-eq (concat "/" path) true (ap is_abs (slash_first path))
    ∙ ap (λ ws. render true (reverse (walk true [] ws))) parts

-- A rooted path of plain elements is clean.
pub clean-plain :
    (e : String) (es : List String)
    → All IsPlain (e ∷ es)
    → clean (concat "/" (join (e ∷ es))) ≡ concat "/" (join (e ∷ es))
unfolding walk
clean-plain e es all =
    clean-rooted e es (IsPlain-NoSlash (e ∷ es) all)
    ∙ ap (λ out. render true (reverse out)) (walk-IsPlain (e ∷ es) [] all)
    ∙ ap (render true) (reverse_aux-reverse_aux-nil (e ∷ es) [])

-- An element "." behind the first makes no difference.
pub clean-dot :
    (d e : String) (es : List String)
    → NoSlash (d ∷ e ∷ es)
    → clean (concat "/" (join (d ∷ "." ∷ e ∷ es))) ≡ clean (concat "/" (join (d ∷ e ∷ es)))
unfolding walk
clean-dot d e es h =
    clean-rooted d ("." ∷ e ∷ es) (h.0, (refl, h.1)) ∙ sym (clean-rooted d (e ∷ es) h)

pub differs : (f : String → Bool) (s t : String) → f s ≡ false → f t ≡ true → str_eq s t ≡ false
differs f s t hs ht = elim (Bool-cases (str_eq s t)) [
  | inl same ↦ let q : s ≡ t = (eq_iff s t).0 same in cc (ap f q, hs, ht)
  | inr other ↦ other
]

abbrev pub has_none : String → Bool
has_none String.[] = true
has_none (String.◌∷◌ c s) = false

-- A text without slashes that does not begin with a dot.
pub IsPlain-first :
    (c : Char) (s : String)
    → is_dot c ≡ false
    → has_slash (String.◌∷◌ c s) ≡ false
    → IsPlain (String.◌∷◌ c s)
IsPlain-first c s no_dot no_slash = record {
  element = record {
    not_empty = differs has_none (String.◌∷◌ c s) "" refl refl;
    not_dot = differs dot_first (String.◌∷◌ c s) "." no_dot refl;
    no_slash = no_slash;
  };
  not_dots = differs dot_first (String.◌∷◌ c s) ".." no_dot refl;
}

abbrev protected_images : IsPlain "_protected" × IsPlain "images"
protected_images = (IsPlain-first _ _ refl refl, IsPlain-first _ _ refl refl)

-- Joined to the directory, it is made of the directory's elements and its own.
pub path_join-render :
    (es : List String)
    → All IsPlain es
    → path_join "/_protected/images" (render false es)
      ≡ concat "/" (join ("_protected" ∷ "images" ∷ es))
unfolding path_join clean
path_join-render [] all = refl
path_join-render (e ∷ es) all =
    ap clean (directory_join (join (e ∷ es)))
    ∙ clean-plain "_protected" ("images" ∷ e ∷ es) (protected_images.0, (protected_images.1, all))

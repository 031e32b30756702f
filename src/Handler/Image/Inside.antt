-- ===== src/Handler/Image/Inside.antt =====
-- Which files `GetImage` serves.
use shark_42tokyo_tuning.Prelude.{
  ◌≡◌, refl, ap, ◌∙◌, ◌⊎◌, inl, inr, String, concat, ◌||◌, none, some, List, ◌∷◌, str_eq,
  Bool-cases,
}
use shark_42tokyo_tuning.Prelude.Paths.{clean, is_abs, contains_dots, path_join, join}
use shark_42tokyo_tuning.Prelude.Paths.Elements.{All, or_false}
use shark_42tokyo_tuning.Prelude.Paths.Joined.{IsPlain, clean-IsPlain, path_join-render}
use shark_42tokyo_tuning.Handler.Response.{Response}
use shark_42tokyo_tuning.Handler.Image.{accelerated, image_at, get_image}

-- The answer is an error, or names "/_protected/images" or a path below it, whose further elements
-- are not empty and neither "." nor "..".
abbrev pub Inside : Response → Type 0
Inside r =
    ((r.status ≡ 400) × (r.accel_redirect ≡ none))
    ⊎ ((es : List String) × All IsPlain es
        × (r.status ≡ 200)
        × (r.accel_redirect ≡ some (concat "/" (join ("_protected" ∷ "images" ∷ es)))))

image_at-Inside : (path : String) → Inside (image_at (clean path))
unfolding image_at accelerated
image_at-Inside path = elim (Bool-cases (is_abs (clean path) || contains_dots (clean path))) [
  | inl refused ↦ rw refused (inl (refl, refl))
  | inr accepted ↦
      let (relative, no_dots) =
        or_false (is_abs (clean path)) (contains_dots (clean path)) accepted in
      let (es, plain, same) = clean-IsPlain path relative no_dots in
      rw accepted (
        inr (
          es,
          plain,
          refl,
          ap (λ p. some (path_join "/_protected/images" p)) same
              ∙ ap some (path_join-render es plain),
        ))
]

-- Whatever path is asked for, `GetImage` answers 400, or sends nginx to "/_protected/images" itself,
-- or to a path below it by elements that are not empty and neither "." nor "..".
pub get_image-Inside : (path : String) → Inside (get_image path)
unfolding get_image
get_image-Inside path = elim (Bool-cases (str_eq path "")) [
  | inl empty ↦ rw empty (inl (refl, refl))
  | inr given ↦ rw given (image_at-Inside path)
]

-- ===== src/Worker/Runner/Files.antt =====
-- Where the files of a run are.
use Prim.Native.Char.{Char, code}
use text.Mathlib.TextLemmas.{nil-append, cons-append, append_assoc}
use shark_42tokyo_tuning.Prelude.{
  ◌≡◌, refl, ap, ◌∙◌, inl, inr, [], ◌∷◌, String, concat, Bool, true, false, ◌||◌, ◌==◌, Bool-cases,
}
use shark_42tokyo_tuning.Prelude.Paths.{is_slash, is_dot, clean, join}
use shark_42tokyo_tuning.Prelude.Paths.Elements.{has_slash, or_false}
use shark_42tokyo_tuning.Prelude.Paths.Joined.{clean-plain, IsPlain-first}
use shark_42tokyo_tuning.Worker.Runner.{safe_char, slug, score_file}

or_assoc : (a b c : Bool) → (a || (b || c)) ≡ ((a || b) || c)
or_assoc true b c = refl
or_assoc false b c = refl

has_slash-append : (s t : String) → has_slash (concat s t) ≡ (has_slash s || has_slash t)
has_slash-append String.[] t = rw (nil-append t) refl
has_slash-append (String.◌∷◌ c s) t =
    rw (cons-append c s t, has_slash-append s t) (or_assoc (is_slash c) (has_slash s) (has_slash t))

no_slash-append :
    (s t : String) → has_slash s ≡ false → has_slash t ≡ false → has_slash (concat s t) ≡ false
no_slash-append s t hs ht = has_slash-append s t ∙ rw (hs, ht) refl

safe_char-other : (c : Char) → is_slash (safe_char c) ≡ false
unfolding safe_char
safe_char-other c = elim (Bool-cases (code c == b':' || code c == b'/' || code c == b'\\')) [
  | inl replaced ↦ rw replaced refl
  | inr kept ↦ elim (Bool-cases (code c == b' ')) [
    | inl space ↦ rw (kept, space) refl
    | inr other ↦
        rw (kept, other)
          (or_false (code c == b':') (code c == b'/')
            (or_false (code c == b':' || code c == b'/') (code c == b'\\') kept).0).1
  ]
]

slug-no_slash : (s : String) → has_slash (slug s) ≡ false
unfolding slug
slug-no_slash String.[] = refl
slug-no_slash (String.◌∷◌ c s) = rw (safe_char-other c, slug-no_slash s) refl

pub directory_join :
    (name : String) → concat "/app/scores/" name ≡ concat "/" (join ("app" ∷ "scores" ∷ name ∷ []))
unfolding join
directory_join name =
    append_assoc "/" "app/scores/" name
    ∙ ap (concat "/") (
        append_assoc "app" "/scores/" name
        ∙ ap (concat "app")
            (append_assoc "/" "scores/" name ∙ ap (concat "/") (append_assoc "scores" "/" name)))

clean-score :
    (k : Char) (name : String)
    → is_dot k ≡ false
    → has_slash (String.◌∷◌ k name) ≡ false
    → clean (concat "/app/scores/" (String.◌∷◌ k name)) ≡ concat "/app/scores/" (String.◌∷◌ k name)
clean-score k name no_dot h = rw (directory_join (String.◌∷◌ k name)) (
    clean-plain "app" ("scores" ∷ String.◌∷◌ k name ∷ []) (
      IsPlain-first _ _ refl refl,
      (IsPlain-first _ _ refl refl, (IsPlain-first k name no_dot h, tt)),
    ))

-- The name of a file of the scores.
abbrev pub file_name : (kind target ts : String) → String
file_name kind target ts =
    concat kind (concat "-" (concat (slug target) (concat "-" (concat ts ".json"))))

pub file_name-no_slash :
    (kind target ts : String)
    → has_slash kind ≡ false
    → has_slash ts ≡ false
    → has_slash (file_name kind target ts) ≡ false
file_name-no_slash kind target ts hk ht =
    let dated : has_slash (concat "-" (concat ts ".json")) ≡ false =
      no_slash-append "-" (concat ts ".json") refl (no_slash-append ts ".json" ht refl) in
    let tail = concat (slug target) (concat "-" (concat ts ".json")) in
    no_slash-append kind (concat "-" tail) hk (
      no_slash-append "-" tail refl (
        no_slash-append (slug target) (concat "-" (concat ts ".json")) (slug-no_slash target)
          dated))

-- Whatever the target is, the default file of a kind is the file of that name in the directory of
-- the scores: the target's slashes and dots lead nowhere else. The kind is a text that does not
-- begin with a dot, and neither it nor the time has a slash.
pub score_file-in_directory :
    (k : Char) (kind target ts : String)
    → is_dot k ≡ false
    → has_slash (String.◌∷◌ k kind) ≡ false
    → has_slash ts ≡ false
    → score_file (String.◌∷◌ k kind) target ts
      ≡ concat "/app/scores/" (file_name (String.◌∷◌ k kind) target ts)
unfolding score_file
score_file-in_directory k kind target ts no_dot hk ht =
    let rest = concat "-" (concat (slug target) (concat "-" (concat ts ".json"))) in
    rw (cons-append k kind rest) (
      clean-score k (concat kind rest) no_dot
        (rw (cons-append k kind rest) at (file_name-no_slash (String.◌∷◌ k kind) target ts hk ht)))

-- ===== src/Worker/Lock/Literal.antt =====
-- The escaped text of the filter, as OData reads it.
use Prim.Native.Char.{Char, code}
use text.Mathlib.TextLemmas.{nil-append, cons-append}
use shark_42tokyo_tuning.Prelude.{
  ◌≡◌, refl, ap, ◌∙◌, String, concat, Bool, true, false, Option, none, some, ◌==◌, Bool-cases, inl,
  inr,
}
use shark_42tokyo_tuning.Worker.Lock.{escape_odata_string}

abbrev is_quote : Char → Bool
is_quote c = code c == b'\''

abbrev prepend : Char → Option (String × String) → Option (String × String)
prepend c none = none
prepend c (some (s, rest)) = some (String.◌∷◌ c s, rest)

-- How a literal of OData is read behind its opening quote: two quotes stand for one, and a single
-- one ends it. The result is the text of the literal and what follows it; `quoted` says that the
-- character before was a quote.
pub read_literal : (quoted : Bool) → String → Option (String × String)
read_literal false String.[] = none
read_literal true String.[] = some ("", "")
read_literal false (String.◌∷◌ c s) = elim (is_quote c) [
  | true ↦ read_literal true s
  | false ↦ prepend c (read_literal false s)
]
read_literal true (String.◌∷◌ c s) = elim (is_quote c) [
  | true ↦ prepend c (read_literal false s)
  | false ↦ some ("", String.◌∷◌ c s)
]

abbrev pub quote_first : String → Bool
quote_first String.[] = false
quote_first (String.◌∷◌ c s) = is_quote c

ended : (rest : String) → quote_first rest ≡ false → read_literal true rest ≡ some ("", rest)
unfolding read_literal
ended String.[] h = refl
ended (String.◌∷◌ c s) h = rw (read_literal, h) refl

abbrev quote : Char
quote = "'"

quote_rest : (rest : String) → concat "'" rest ≡ String.◌∷◌ quote rest
quote_rest rest = cons-append quote String.[] rest ∙ ap (String.◌∷◌ quote) (nil-append rest)

first_quote :
    (c : Char) (t : String)
    → is_quote c ≡ true
    → read_literal false (String.◌∷◌ c t) ≡ read_literal true t
unfolding read_literal
first_quote c t h = rw (read_literal, h) refl

second_quote :
    (c : Char) (t : String)
    → is_quote c ≡ true
    → read_literal true (String.◌∷◌ c t) ≡ prepend c (read_literal false t)
unfolding read_literal
second_quote c t h = rw (read_literal, h) refl

no_quote :
    (c : Char) (t : String)
    → is_quote c ≡ false
    → read_literal false (String.◌∷◌ c t) ≡ prepend c (read_literal false t)
unfolding read_literal
no_quote c t h = rw (read_literal, h) refl

-- Whatever the text, its escaped form between quotes is read as the text; what follows the
-- closing quote is left, if it does not begin with a quote.
pub read_literal-escape_odata_string :
    (s rest : String)
    → quote_first rest ≡ false
    → read_literal false (concat (escape_odata_string s) (concat "'" rest)) ≡ some (s, rest)
unfolding escape_odata_string
read_literal-escape_odata_string String.[] rest h =
    rw (nil-append (concat "'" rest), quote_rest rest, first_quote quote rest refl) (ended rest h)
read_literal-escape_odata_string (String.◌∷◌ c s) rest h =
    let tail = concat "'" rest in
    let before = ap (prepend c) (read_literal-escape_odata_string s rest h) in
    elim (Bool-cases (is_quote c)) [
      | inl q ↦
          rw
            (
              q,
              cons-append c (String.◌∷◌ c (escape_odata_string s)) tail,
              first_quote c _ q,
              cons-append c (escape_odata_string s) tail,
              second_quote c _ q,
            )
            before
      | inr n ↦ rw (n, cons-append c (escape_odata_string s) tail, no_quote c _ n) before
    ]

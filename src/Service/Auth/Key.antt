-- ===== src/Service/Auth/Key.antt =====
-- The key of the password cache, and what it is made of.
use Prim.Native.String.{count}
use text.Mathlib.TextLemmas.{append_inj, append_cancel_left, length-append}
use shark_42tokyo_tuning.Prelude.{
  ◌≡◌, refl, ap, ℕ, zero, suc, ◌*◌, ◌/◌, ◌%◌, ◌<◌, String, concat, List, [], ◌∷◌, arith, get_or,
  length,
}
use shark_42tokyo_tuning.Env.{Crypto, IsBytes}
use shark_42tokyo_tuning.Service.Auth.{hex_digits, encode_hex, make_password_cache_key}

abbrev AllSingle : List String → Type 0
AllSingle [] = Unit
AllSingle (s ∷ ss) = (count s ≡ 1) × AllSingle ss

get_or-single :
    (ss : List String) (i : ℕ) → AllSingle ss → i < length ss → count (get_or ss i "") ≡ 1
get_or-single [] i a h = absurd (omega arith)
get_or-single (s ∷ ss) zero a h = a.0
get_or-single (s ∷ ss) (suc i) a h = get_or-single ss i a.1 (omega arith)

digit_single : (n : ℕ) → n < 16 → count (get_or hex_digits n "") ≡ 1
digit_single n h = get_or-single hex_digits n (omega arith) h

-- Two digits for each byte.
count-encode_hex : (bs : List ℕ) → IsBytes bs → count (encode_hex bs) ≡ 2 * length bs
unfolding encode_hex
count-encode_hex [] a = refl
count-encode_hex (b ∷ bs) a = omega (
  arith,
  length-append (get_or hex_digits (b / 16) "")
      (concat (get_or hex_digits (b % 16) "") (encode_hex bs)),
  length-append (get_or hex_digits (b % 16) "") (encode_hex bs),
  digit_single (b / 16) (omega arith),
  digit_single (b % 16) (omega arith),
  count-encode_hex bs a.1,
)

count_suffix :
    (c : Crypto) (password : String) → count (concat ":" (encode_hex (c.sha256 password))) ≡ 65
count_suffix c password = omega (
  arith,
  length-append ":" (encode_hex (c.sha256 password)),
  count-encode_hex (c.sha256 password) (c.sha256-IsBytes password),
  c.length-sha256 password,
)

-- Equal keys come from equal hashes and digests: the digest has 64 digits, so the last colon ends
-- the hash.
pub make_password_cache_key_inj :
    (c : Crypto) (hash hash' password password' : String)
    → make_password_cache_key c hash password ≡ make_password_cache_key c hash' password'
    → (hash ≡ hash') × (encode_hex (c.sha256 password) ≡ encode_hex (c.sha256 password'))
unfolding make_password_cache_key
make_password_cache_key_inj c hash hash' password password' h =
    let (same, rest) = append_inj h (
      omega (
        arith,
        length-append hash (concat ":" (encode_hex (c.sha256 password))),
        length-append hash' (concat ":" (encode_hex (c.sha256 password'))),
        count_suffix c password,
        count_suffix c password',
        ap count h,
      )) in
    (same, append_cancel_left ":" _ _ rest)

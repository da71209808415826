-- ===== src/Js/Uri.antt =====
-- encodeURIComponent: every character but the unreserved ones becomes the percent-encoded bytes of
-- its UTF-8 form.
pub mod Laws
pub mod RoundTrip
use Prim.Native.String.{[], ◌∷◌, ◌++◌}
use common_services_common_u.Base.{
  ℕ, ◌+◌, ◌/◌, ◌%◌, Char, code, String, Bool, ◌&&◌, ◌||◌, List, [], ◌∷◌, ◌=?◌, leb, ltb,
  if◌then◌else◌,
}
use common_services_common_u.Js.Text.{char_or}

abbrev pub is_alphanumeric : ℕ → Bool
is_alphanumeric c = leb 48 c && leb c 57 || leb 65 c && leb c 90 || leb 97 c && leb c 122

-- A letter, a digit, or one of - _ . ! ~ * ' ( ).
unfoldable pub is_unreserved : ℕ → Bool
is_unreserved c =
    is_alphanumeric c
    || c =? 45
    || c =? 95
    || c =? 46
    || c =? 33
    || c =? 126
    || leb 39 c && leb c 42

-- The bytes of a code point in UTF-8.
unfoldable pub utf8 : ℕ → List ℕ
utf8 n =
    if ltb n 128
    then n ∷ []
    else if ltb n 2048
    then (192 + n / 64) ∷ (128 + n % 64) ∷ []
    else if ltb n 65536
    then (224 + n / 4096) ∷ (128 + n / 64 % 64) ∷ (128 + n % 64) ∷ []
    else (240 + n / 262144) ∷ (128 + n / 4096 % 64) ∷ (128 + n / 64 % 64) ∷ (128 + n % 64) ∷ []

abbrev pub hex_digit : ℕ → Char
hex_digit n = char_or "0" n "0123456789ABCDEF"

abbrev pub percent : List ℕ → String
percent [] = ""
percent (b ∷ bs) = "%" ∷ hex_digit (b / 16) ∷ hex_digit (b % 16) ∷ percent bs

unfoldable pub encode_char : Char → String
unfolding is_unreserved utf8
encode_char c = if is_unreserved (code c) then c ∷ "" else percent (utf8 (code c))

unfoldable pub encode_uri_component : String → String
unfolding encode_char
encode_uri_component [] = ""
encode_uri_component (c ∷ s) = encode_char c ++ encode_uri_component s

-- ===== src/Js/Uri/Laws.antt =====
-- encodeURIComponent: the characters of its result, and its value on a text in parts.
use Prim.Native.String.{[], ◌∷◌, ◌++◌}
use common_services_common_u.Base.{
  ℕ, zero, suc, ◌&&◌, ◌/◌, ◌%◌, Char, code, String, ◌≡◌, refl, Bool, true, ◌||◌, List, [], ◌∷◌,
  arith, ◌=?◌, Bool-cases, inl, inr, nil-append, cons-append,
}
use common_services_common_u.Js.Text.{char_or}
use common_services_common_u.Js.Uri.{
  is_unreserved, utf8, hex_digit, percent, encode_char, encode_uri_component,
}

abbrev pub AllChars : (ℕ → Bool) → String → Type 0
AllChars p [] = Unit
AllChars p (c ∷ s) = (p (code c) ≡ true) × AllChars p s

pub AllChars-append :
    (p : ℕ → Bool) (s t : String) → AllChars p s → AllChars p t → AllChars p (s ++ t)
AllChars-append p [] t h k = rw nil-append k
AllChars-append p (c ∷ s) t (g, h) k = rw cons-append (g, AllChars-append p s t h k)

pub AllChars-mono :
    (p q : ℕ → Bool) (s : String)
    → ((c : ℕ) → p c ≡ true → q c ≡ true)
    → AllChars p s
    → AllChars q s
AllChars-mono p q [] f h = tt
AllChars-mono p q (c ∷ s) f (g, h) = (f (code c) g, AllChars-mono p q s f h)

-- What may stand in an encoded component: an unreserved character or a percent sign.
unfoldable pub is_component_char : ℕ → Bool
is_component_char c = is_unreserved c || c =? b'%'

abbrev pub all_chars : (ℕ → Bool) → String → Bool
all_chars p [] = true
all_chars p (c ∷ s) = p (code c) && all_chars p s

pub AllChars-of_all_chars : (p : ℕ → Bool) (s : String) → all_chars p s ≡ true → AllChars p s
AllChars-of_all_chars p [] h = tt
AllChars-of_all_chars p (c ∷ s) h = (ground arith, AllChars-of_all_chars p s (ground arith))

char_or-all_chars :
    (p : ℕ → Bool) (d : Char) (n : ℕ) (s : String)
    → p (code d) ≡ true
    → all_chars p s ≡ true
    → p (code (char_or d n s)) ≡ true
char_or-all_chars p d n [] h k = h
char_or-all_chars p d zero (c ∷ s) h k = ground arith
char_or-all_chars p d (suc n) (c ∷ s) h k = char_or-all_chars p d n s h (ground arith)

hex_digit-is_component_char : (n : ℕ) → is_component_char (code (hex_digit n)) ≡ true
hex_digit-is_component_char n =
    char_or-all_chars is_component_char "0" n "0123456789ABCDEF"
      (unfold is_component_char is_unreserved in refl)
      (unfold is_component_char is_unreserved in refl)

percent-AllChars : (bs : List ℕ) → AllChars is_component_char (percent bs)
percent-AllChars [] = tt
percent-AllChars (b ∷ bs) = (
  unfold is_component_char is_unreserved in refl,
  (
    hex_digit-is_component_char (b / 16),
    (hex_digit-is_component_char (b % 16), percent-AllChars bs),
  ),
)

pub encode_char-AllChars : (c : Char) → AllChars is_component_char (encode_char c)
unfolding encode_char
encode_char-AllChars c = elim (Bool-cases (is_unreserved (code c))) [
  | inl e ↦ rw e (unfold is_component_char in rw e, tt)
  | inr e ↦ rw e (percent-AllChars (utf8 (code c)))
]

-- An encoded component holds unreserved characters and percent signs alone, so that none of the
-- characters that separate the parts of a URL is in it.
pub encode_uri_component-AllChars :
    (s : String) → AllChars is_component_char (encode_uri_component s)
unfolding encode_uri_component
encode_uri_component-AllChars [] = tt
encode_uri_component-AllChars (c ∷ s) =
    AllChars-append is_component_char (encode_char c) (encode_uri_component s)
      (encode_char-AllChars c) (encode_uri_component-AllChars s)

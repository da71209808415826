-- ===== src/Js/Uri/RoundTrip.antt =====
-- encodeURIComponent loses nothing: percent-decoding its result and reading the bytes as UTF-8 gives
-- back the code points of the text.
use Prim.Native.Nat.{compare, Ordering}
use Prim.Native.Char.{char, IsLt}
use Prim.Native.String.{[], ◌∷◌, ◌++◌}
use mathlib.Core.Path.{ap₂}
use mathlib.Core.List
use mathlib.Core.List.{head-eq_of_cons-eq, tail-eq_of_cons-eq}
use common_services_common_u.Base.{
  ℕ, zero, suc, ◌⊎◌, ◌+◌, ◌-◌, ◌*◌, ◌/◌, ◌%◌, ◌<◌, Char, code, String, ◌≡◌, refl, ap, ◌∙◌, Bool,
  true, false, List, [], ◌∷◌, arith, ◌=?◌, ltb, leb, Bool-cases, inl, inr, cons-append, nil-append,
  if◌then◌else◌, =?_iff, All,
}
use common_services_common_u.Js.Uri.{
  is_unreserved, utf8, hex_digit, percent, encode_char, encode_uri_component,
}

-- The reader of percent-encoded texts: between two bytes, behind a `%`, or behind one digit.
data Pending : Type 0 where
  plain : Pending
  first : Pending
  second : ℕ → Pending

abbrev hex_value : ℕ → ℕ
hex_value c = if leb 65 c then c - 55 else c - 48

-- The bytes that a percent-encoded text stands for.
unescape : Pending → String → List ℕ
unescape p [] = []
unescape plain (c ∷ s) =
    let escaped = unescape first s in
    let kept : List ℕ = code c ∷ unescape plain s in if code c =? b'%' then escaped else kept
unescape first (c ∷ s) = unescape (second (hex_value (code c))) s
unescape (second n) (c ∷ s) = (n * 16 + hex_value (code c)) ∷ unescape plain s

-- The code points that bytes of UTF-8 stand for: `k` bytes of the current one are still to come.
from_utf8 : ℕ → ℕ → List ℕ → List ℕ
from_utf8 k acc [] = []
from_utf8 zero acc (b ∷ bs) =
    let one : List ℕ = b ∷ from_utf8 0 0 bs in
    let two = from_utf8 1 (b - 192) bs in
    let three = from_utf8 2 (b - 224) bs in
    let four = from_utf8 3 (b - 240) bs in
    if ltb b 128 then one else if ltb b 224 then two else if ltb b 240 then three else four
from_utf8 (suc zero) acc (b ∷ bs) = (acc * 64 + (b - 128)) ∷ from_utf8 0 0 bs
from_utf8 (suc (suc k)) acc (b ∷ bs) = from_utf8 (suc k) (acc * 64 + (b - 128)) bs

pub decode_uri_component : String → List ℕ
unfolding unescape from_utf8
decode_uri_component s = from_utf8 0 0 (unescape plain s)

abbrev pub codes : String → List ℕ
codes [] = []
codes (c ∷ s) = code c ∷ codes s

-- What a Scalar value is: below the surrogates, or above them and in range.
abbrev Both : Ordering → Ordering → Type 0
Both Ordering.lt q = IsLt q
Both Ordering.eq _ = ⊥
Both Ordering.gt _ = ⊥

abbrev Scalar : Ordering → Ordering → Ordering → Type 0
Scalar Ordering.lt _ _ = Unit
Scalar Ordering.eq p q = Both p q
Scalar Ordering.gt p q = Both p q

lt_of_IsLt : (q : Ordering) → IsLt q → q ≡ Ordering.lt
lt_of_IsLt Ordering.lt s = refl
lt_of_IsLt Ordering.eq s = absurd s
lt_of_IsLt Ordering.gt s = absurd s

lt_of_Both : (p q : Ordering) → Both p q → q ≡ Ordering.lt
lt_of_Both Ordering.lt q s = lt_of_IsLt q s
lt_of_Both Ordering.eq q s = absurd s
lt_of_Both Ordering.gt q s = absurd s

Scalar-cases : (o p q : Ordering) → Scalar o p q → (o ≡ Ordering.lt) ⊎ (q ≡ Ordering.lt)
Scalar-cases Ordering.lt p q s = inl refl
Scalar-cases Ordering.eq p q s = inr (lt_of_Both p q s)
Scalar-cases Ordering.gt p q s = inr (lt_of_Both p q s)

code-lt : (c : Char) → code c < 1114112
code-lt (char n p) = elim (Scalar-cases (compare n 55296) (compare 57343 n) (compare n 1114112) p) [
  | inl e ↦ ground arith
  | inr e ↦ ground arith
]

from_utf8-utf8 :
    (n : ℕ) (bs : List ℕ)
    → n < 1114112
    → from_utf8 0 0 (List.◌++◌ (utf8 n) bs) ≡ n ∷ from_utf8 0 0 bs
unfolding utf8 from_utf8
from_utf8-utf8 n bs h = ground arith

digit_is_read : ℕ → Bool
digit_is_read n = hex_value (code (hex_digit n)) =? n

-- The digits below a number are read back.
reads_digits : ℕ → Bool
reads_digits zero = true
reads_digits (suc m) = if digit_is_read m then reads_digits m else false

reads_digits-digit_is_read : (m k : ℕ) → k < m → reads_digits m ≡ true → digit_is_read k ≡ true
unfolding reads_digits
reads_digits-digit_is_read zero k below all = absurd (omega arith)
reads_digits-digit_is_read (suc m) k below all = ground (arith, reads_digits-digit_is_read m k)

hex_value-hex_digit : (n : ℕ) → n < 16 → hex_value (code (hex_digit n)) ≡ n
unfolding reads_digits digit_is_read
hex_value-hex_digit n h = (=?_iff _ n).0 (reads_digits-digit_is_read 16 n h refl)

utf8_bytes : (n : ℕ) → n < 1114112 → All (λ b. b < 256) (utf8 n)
unfolding utf8
utf8_bytes n h = ground arith

read_byte :
    (b : ℕ)
    → b < 256
    → hex_value (code (hex_digit (b / 16))) * 16 + hex_value (code (hex_digit (b % 16))) ≡ b
read_byte b h =
    rw (hex_value-hex_digit (b / 16) (omega arith), hex_value-hex_digit (b % 16) (omega arith))
      (omega arith)

unescape-percent :
    (bs : List ℕ) (s : String)
    → All (λ b. b < 256) bs
    → unescape plain (percent bs ++ s) ≡ List.◌++◌ bs (unescape plain s)
unfolding unescape
unescape-percent [] s h = rw nil-append
unescape-percent (b ∷ bs) s (h, k) =
    simp cons-append (ap₂ (λ x xs. x ∷ xs) (read_byte b h) (unescape-percent bs s k))

unreserved_bounds : (c : ℕ) → is_unreserved c ≡ true → (c < 128) × ((c =? b'%') ≡ false)
unfolding is_unreserved
unreserved_bounds c h = (ground arith, ground arith)

utf8_ascii : (n : ℕ) → n < 128 → utf8 n ≡ n ∷ []
unfolding utf8
utf8_ascii n h = ground arith

unescape-cons :
    (c : Char) (s : String)
    → (code c =? b'%') ≡ false
    → unescape plain (c ∷ s) ≡ code c ∷ unescape plain s
unfolding unescape
unescape-cons c s h = rw h

unescape-encode_char :
    (c : Char) (s : String)
    → unescape plain (encode_char c ++ s) ≡ List.◌++◌ (utf8 (code c)) (unescape plain s)
unescape-encode_char c s =
    unfold encode_char in
    elim (Bool-cases (is_unreserved (code c))) [
      | inl e ↦
          rw (e, cons-append, nil-append)
            (rw (utf8_ascii (code c) (unreserved_bounds (code c) e).0)
              (unescape-cons c s (unreserved_bounds (code c) e).1))
      | inr e ↦ rw e (unescape-percent (utf8 (code c)) s (utf8_bytes (code c) (code-lt c)))
    ]

unescape-encode : (s : String) → from_utf8 0 0 (unescape plain (encode_uri_component s)) ≡ codes s
unfolding encode_uri_component unescape from_utf8
unescape-encode [] = refl
unescape-encode (c ∷ s) =
    ap (from_utf8 0 0) (unescape-encode_char c (encode_uri_component s))
    ∙ (from_utf8-utf8 (code c) (unescape plain (encode_uri_component s)) (code-lt c)
        ∙ ap (λ xs. code c ∷ xs) (unescape-encode s))

-- Percent-decoding an encoded component, and reading the bytes as UTF-8, gives the code points of
-- the text that was encoded.
pub decode-encode_uri_component :
    (s : String) → decode_uri_component (encode_uri_component s) ≡ codes s
unfolding decode_uri_component
decode-encode_uri_component s = unescape-encode s

pub decode-encode_char :
    (c : Char) (s : String)
    → decode_uri_component (encode_char c ++ s) ≡ code c ∷ decode_uri_component s
unfolding decode_uri_component
decode-encode_char c s =
    ap (from_utf8 0 0) (unescape-encode_char c s)
    ∙ from_utf8-utf8 (code c) (unescape plain s) (code-lt c)

pub decode-slash :
    (c : Char) (s : String)
    → (code c =? b'/') ≡ true
    → decode_uri_component (c ∷ s) ≡ code c ∷ decode_uri_component s
unfolding decode_uri_component unescape from_utf8
decode-slash c s h = rw ((=?_iff (code c) b'/').0 h) refl

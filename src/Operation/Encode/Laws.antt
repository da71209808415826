-- ===== src/Operation/Encode/Laws.antt =====
-- lib/swagger-client.js, Operation: what the four encoders write.
use Prim.Native.String.{[], ◌∷◌, ◌++◌}
use text.Mathlib.TextEquality.{Char-path}
use common_services_common_u.Base.{
  ℕ, Char, code, String, ◌≡◌, refl, sym, Bool, true, false, none, List, [], ◌∷◌, map, ◌==◌, ◌||◌,
  ◌=?◌, arith, if◌then◌else◌, =?_iff, Option-cases, Bool-cases, inl, inr, nil-append,
  text_append_assoc, text_append-nil, ◌∙◌,
}
use common_services_common_u.Js.Text.{index_of, split, cons_first, join, join_more}
use common_services_common_u.Js.Value.{Value}
use common_services_common_u.Js.Uri.{encode_char, encode_uri_component}
use common_services_common_u.Js.Uri.Laws.{
  AllChars, AllChars-append, AllChars-mono, encode_char-AllChars, is_component_char,
}
use common_services_common_u.Operation.Encode.{
  encode_query_param, encode_path_text, add_separated, query_separator, add_repeated, repeated,
  separated, encode_query_collection,
}

add_separated-eq-join_more :
    (sep acc : String) (vs : List Value)
    → add_separated sep acc vs ≡ acc ++ join_more sep (map encode_query_param vs)
add_separated-eq-join_more sep acc [] = sym (text_append-nil acc)
add_separated-eq-join_more sep acc (v ∷ vs) =
    add_separated-eq-join_more sep (acc ++ (sep ++ encode_query_param v)) vs
    ∙ (simp text_append_assoc)

-- The text for one item where the name is repeated.
abbrev pub pair : String → String → Value → String
pair key link v = key ++ (link ++ encode_query_param v)

add_repeated-eq-join_more :
    (key link acc : String) (vs : List Value)
    → add_repeated key link acc vs ≡ acc ++ join_more "&" (map (pair key link) vs)
add_repeated-eq-join_more key link acc [] = sym (text_append-nil acc)
add_repeated-eq-join_more key link acc (v ∷ vs) =
    add_repeated-eq-join_more key link (acc ++ ("&" ++ pair key link v)) vs
    ∙ (simp text_append_assoc)

repeated-eq-join :
    (key link : String) (vs : List Value) → repeated key link vs ≡ join "&" (map (pair key link) vs)
repeated-eq-join key link [] = refl
repeated-eq-join key link (v ∷ vs) = add_repeated-eq-join_more key link (pair key link v) vs

-- A value is written behind its name once, if there is an item.
abbrev pub named : String → String → List Value → String
named key sep [] = ""
named key sep (v ∷ vs) = key ++ ("=" ++ join sep (map encode_query_param (v ∷ vs)))

separated-eq-named : (key sep : String) (vs : List Value) → separated sep key vs ≡ named key sep vs
separated-eq-named key sep [] = refl
separated-eq-named key sep (v ∷ vs) =
    add_separated-eq-join_more sep (key ++ ("=" ++ encode_query_param v)) vs
    ∙ (simp text_append_assoc)

-- A collection in a query, for each of its formats: "default" and "multi" repeat `name=item`,
-- "brackets" repeats `name[]=item`, the four separated formats write `name=` and the items with the
-- separator between them, and every other format writes nothing.
pub encode_query_collection-eq-join :
    (type name : String) (vs : List Value)
    → encode_query_collection type name vs ≡ (
        if type == "default" || type == "multi"
        then join "&" (map (pair (encode_uri_component name) "=") vs)
        else if type == "brackets"
        then join "&" (map (pair (encode_uri_component name) "[]=") vs)
        else if query_separator type == ""
        then ""
        else named (encode_uri_component name) (query_separator type) vs)
unfolding encode_query_collection
encode_query_collection-eq-join type name vs = simp (repeated-eq-join, separated-eq-named)

-- One character of a path: the slash stands for itself.
abbrev pub encode_path_char : Char → String
encode_path_char c = if code c =? b'/' then c ∷ "" else encode_char c

abbrev pub encode_path_chars : String → String
encode_path_chars [] = ""
encode_path_chars (c ∷ s) = encode_path_char c ++ encode_path_chars s

join-cons_first :
    (c : Char) (ws : List String)
    → join "/" (map encode_uri_component (cons_first c ws))
      ≡ encode_char c ++ join "/" (map encode_uri_component ws)
unfolding encode_uri_component
join-cons_first c [] = simp text_append-nil
join-cons_first c (w ∷ ws) = simp text_append_assoc

split-cons : (k : ℕ) (s : String) → (w : String) × (ws : List String) × (split k s ≡ w ∷ ws)
unfolding split
split-cons k [] = ("", [], refl)
split-cons k (c ∷ s) = elim (Bool-cases (code c =? k)) [
  | inl e ↦ ("", split k s, rw e)
  | inr e ↦ let (w, ws, h) = split-cons k s in (c ∷ w, ws, rw (e, h))
]

join-slash :
    (s : String)
    → join "/" (map encode_uri_component ("" ∷ split b'/' s))
      ≡ "/" ++ join "/" (map encode_uri_component (split b'/' s))
unfolding encode_uri_component
join-slash s = let (w, ws, h) = split-cons b'/' s in rw h (nil-append _)

join-split : (s : String) → join "/" (map encode_uri_component (split b'/' s)) ≡ encode_path_chars s
join-split [] = unfold split encode_uri_component in refl
join-split (c ∷ s) = join-split_cons c s (join-split s)
  where
    join-split_cons :
        (c : Char) (s : String)
        → join "/" (map encode_uri_component (split b'/' s)) ≡ encode_path_chars s
        → join "/" (map encode_uri_component (split b'/' (c ∷ s))) ≡ encode_path_chars (c ∷ s)
    join-split_cons c s ih =
        unfold split in
        elim (Bool-cases (code c =? b'/')) [
          | inl e ↦ rw (e, join-slash s, ih, Char-path c "/" ((=?_iff _ _).0 e))
          | inr e ↦ rw (e, join-cons_first c (split b'/' s), ih)
        ]

index_of-none_cons :
    (k : ℕ) (c : Char) (s : String)
    → index_of k (c ∷ s) ≡ none
    → ((code c =? k) ≡ false) × (index_of k s ≡ none)
unfolding index_of
index_of-none_cons k c s h = (ground arith, ground arith)

chars_of_index_of :
    (s : String) → index_of b'/' s ≡ none → encode_uri_component s ≡ encode_path_chars s
unfolding index_of encode_uri_component
chars_of_index_of [] h = refl
chars_of_index_of (c ∷ s) h =
    rw ((index_of-none_cons b'/' c s h).0, chars_of_index_of s (index_of-none_cons b'/' c s h).1)

-- A path parameter is encoded character by character, and its slashes stay.
pub encode_path_text-eq-chars : (s : String) → encode_path_text s ≡ encode_path_chars s
unfolding encode_path_text
encode_path_text-eq-chars s = elim (Option-cases (index_of b'/' s)) [
  | inl e ↦ rw e (chars_of_index_of s e)
  | inr (n, e) ↦ rw e (join-split s)
]

-- What may stand in an encoded path parameter: a character of a component, or a slash.
abbrev pub is_path_char : ℕ → Bool
is_path_char c = is_component_char c || c =? b'/'

or_true : (a b : Bool) → b ≡ true → (a || b) ≡ true
or_true a b h = ground arith

or_left : (a b : Bool) → a ≡ true → (a || b) ≡ true
or_left a b h = ground arith

encode_path_char-AllChars : (c : Char) → AllChars is_path_char (encode_path_char c)
encode_path_char-AllChars c = elim (Bool-cases (code c =? b'/')) [
  | inl e ↦ rw e (or_true (is_component_char (code c)) (code c =? b'/') e, tt)
  | inr e ↦ rw e (
      AllChars-mono is_component_char is_path_char (encode_char c) (λ k h. or_left _ _ h)
        (encode_char-AllChars c))
]

encode_path_chars-AllChars : (s : String) → AllChars is_path_char (encode_path_chars s)
encode_path_chars-AllChars [] = tt
encode_path_chars-AllChars (c ∷ s) =
    AllChars-append is_path_char (encode_path_char c) (encode_path_chars s)
      (encode_path_char-AllChars c) (encode_path_chars-AllChars s)

-- An encoded path parameter cannot end the path of its URL: it holds unreserved characters, percent
-- signs and slashes alone.
pub encode_path_text-AllChars : (s : String) → AllChars is_path_char (encode_path_text s)
encode_path_text-AllChars s = rw (encode_path_text-eq-chars s) (encode_path_chars-AllChars s)

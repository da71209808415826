-- ===== src/Operation/Encode/RoundTrip.antt =====
-- lib/swagger-client.js, Operation: what a server reads back from the text of an encoder.
use Prim.Native.String.{[], ◌∷◌, ◌++◌}
use common_services_common_u.Base.{
  Char, code, String, ◌≡◌, ap, ◌∙◌, ◌∷◌, cons-append, nil-append, ◌=?◌, Bool-cases, inl, inr,
}
use common_services_common_u.Js.Value.{Value, to_string}
use common_services_common_u.Js.Uri.{encode_uri_component}
use common_services_common_u.Js.Uri.RoundTrip.{
  decode_uri_component, codes, decode-encode_uri_component, decode-encode_char, decode-slash,
}
use common_services_common_u.Operation.Encode.{encode_query_param, encode_path_text}
use common_services_common_u.Operation.Encode.Laws.{
  encode_path_char, encode_path_chars, encode_path_text-eq-chars,
}

-- Percent-decoding what `encodeQueryParam` writes for a value, and reading the bytes as UTF-8, gives
-- the code points of the text of the value, whatever characters it has.
pub decode-encode_query_param :
    (v : Value) → decode_uri_component (encode_query_param v) ≡ codes (to_string v)
unfolding encode_query_param
decode-encode_query_param v = decode-encode_uri_component (to_string v)

decode-encode_path_char :
    (c : Char) (s : String)
    → decode_uri_component (encode_path_char c ++ s) ≡ code c ∷ decode_uri_component s
decode-encode_path_char c s = elim (Bool-cases (code c =? b'/')) [
  | inl e ↦ rw (e, cons-append, nil-append) (decode-slash c s e)
  | inr e ↦ rw e (decode-encode_char c s)
]

decode-encode_path_chars : (s : String) → decode_uri_component (encode_path_chars s) ≡ codes s
unfolding encode_uri_component
decode-encode_path_chars [] = decode-encode_uri_component ""
decode-encode_path_chars (c ∷ s) =
    decode-encode_path_char c (encode_path_chars s)
    ∙ ap (λ xs. code c ∷ xs) (decode-encode_path_chars s)

-- Percent-decoding what `encodePathParam` writes for a text, and reading the bytes as UTF-8, gives
-- the code points of the text, its slashes included.
pub decode-encode_path_text : (s : String) → decode_uri_component (encode_path_text s) ≡ codes s
decode-encode_path_text s = rw (encode_path_text-eq-chars s) (decode-encode_path_chars s)

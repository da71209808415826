-- ===== src/Tests/Http.antt =====
-- Requests on the way to the HTTP client, and answers on the way back.
use common_services_common_u.Base.{◌≡◌, ◌==◌, String, refl, true, false, none, some, [], ◌∷◌}
use common_services_common_u.Js.Dict.{put, put_all}
use common_services_common_u.Js.Space.{is_space, trim_right, starts_solid}
use common_services_common_u.Js.Value.{Value, null, str, obj, field, no_fields}
use common_services_common_u.Js.Json.{stringify}
use common_services_common_u.Js.Uri.Laws.{all_chars, AllChars-of_all_chars}
use common_services_common_u.Request.{value, Request}
use common_services_common_u.Http.{is_ie8, Outgoing, prepare}
use common_services_common_u.Http.Laws.{IsSentFor, prepare-IsOutcomeOf}
use common_services_common_u.Http.Answer.{read_headers, on_response, on_error, callback_of}
use common_services_common_u.Http.Answer.Headers.{
  is_line_char, is_name_char, IsWellFormed, read_headers-print_headers,
}

old_browser :
    (is_ie8 (some "Mozilla/4.0 (compatible; MSIE 8.0; Windows NT 6.1)") ≡ true)
    × (is_ie8 (some "Mozilla/5.0 (compatible; MSIE 10.0; Windows NT 6.1)") ≡ false)
    × (is_ie8 none ≡ false)
unfolding is_ie8
old_browser = (refl, refl, refl)

-- A status of 599 goes to the callback of a response, as one of 304 does.
callbacks :
    (callback_of 204 ≡ on_response)
    × (callback_of 0 ≡ on_error)
    × (callback_of 598 ≡ on_error)
    × (callback_of 599 ≡ on_response)
    × (callback_of 304 ≡ on_response)
unfolding callback_of
callbacks = (refl, refl, refl, refl, refl)

abbrev post_object : Value → Request Unit
post_object type = record {
  url = "http://h/pets";
  method = "POST";
  body = value (obj (field "type" type no_fields));
  use_jquery = true;
  headers = ("Content-Type", str "application/json") ∷ ("Accept", str "*/*") ∷ [];
  cookies = none;
}

-- A body that is an object goes as JSON where it has a type that is not formData.
as_json :
    prepare (post_object (str "cat"))
    ≡ some (record {
      request = record (post_object null) { body = value (str "{\"type\":\"cat\"}") };
      raw = false;
    })
unfolding prepare stringify
as_json = refl

abbrev raw_object : Outgoing Unit
raw_object = record {
  request = record (post_object (str "")) { headers = ("Accept", str "*/*") ∷ [] };
  raw = true;
}

prepare-IsOutcomeOf_example : IsSentFor (post_object (str "")) raw_object
unfolding prepare
prepare-IsOutcomeOf_example = prepare-IsOutcomeOf (post_object (str ""))

-- A well-formed header, of a name and a value that pass the tests.
tested :
    (name v : String)
    → (name == "") ≡ false
    → all_chars is_name_char name ≡ true
    → starts_solid name ≡ true
    → trim_right name ≡ name
    → all_chars is_line_char v ≡ true
    → starts_solid v ≡ true
    → trim_right v ≡ v
    → IsWellFormed (record { name = name; value = v })
tested name v set chars start end value_chars value_start value_end = record {
  name_set = set;
  name_chars = AllChars-of_all_chars is_name_char name chars;
  name_start = start;
  name_end = end;
  value_chars = AllChars-of_all_chars is_line_char v value_chars;
  value_start = value_start;
  value_end = value_end;
}

read_headers-print_headers_example :
    read_headers "Content-Type: text/html; q=1\r\nX-Empty: \r\n"
    ≡ ("Content-Type", str "text/html; q=1") ∷ ("X-Empty", str "") ∷ []
unfolding put_all put is_space trim_right
read_headers-print_headers_example =
    read_headers-print_headers
      (record { name = "Content-Type"; value = "text/html; q=1" }
        ∷ record { name = "X-Empty"; value = "" }
        ∷ [])
      (
        tested "Content-Type" "text/html; q=1" refl refl refl refl refl refl refl,
        (tested "X-Empty" "" refl refl refl refl refl refl refl, tt),
      )

-- ===== src/Http.antt =====
-- lib/swagger-client.js, SwaggerHttp and JQueryHttpClient: what becomes of a request object on the way
-- to jQuery.ajax, and of jQuery's answer on the way to the callbacks.
pub mod Answer
pub mod Laws
pub mod Shred
use Prim.Native.String.{[], ◌∷◌, ◌++◌}
use common_services_common_u.Base.{
  ℕ, zero, suc, ◌+◌, ◌*◌, ◌-◌, Char, code, String, Bool, true, false, ◌||◌, ◌&&◌, not, Option, none,
  some, List, [], ◌∷◌, ◌==◌, ◌=?◌, ltb, leb, if◌then◌else◌, is_some,
}
use common_services_common_u.Js.Space.{between, is_space, trim, trim_left}
use common_services_common_u.Js.Text.{
  text_after, split, starts_with, contains, strip_prefix, to_lower_case,
}
use common_services_common_u.Js.Dict.{Dict, get, put, delete}
use common_services_common_u.Js.Value.{Value, null, str, obj, Fields, no_fields, get_field, is_set}
use common_services_common_u.Js.Json.{stringify}
use common_services_common_u.Request.{Body, no_body, value, form_data, Request}

abbrev pub is_digit : Char → Bool
is_digit c = between b'0' b'9' (code c)

abbrev pub begins_with_digit : String → Bool
begins_with_digit [] = false
begins_with_digit (c ∷ s) = is_digit c

-- `parseInt(s) <= 8` for a text of decimal digits behind white space and a sign; a text that does
-- not begin so is no number.
unfoldable pub read_digits : ℕ → String → ℕ
read_digits n [] = n
read_digits n (c ∷ s) =
    let more = read_digits (n * 10 + (code c - b'0')) s in if is_digit c then more else n

abbrev pub is_at_most_8 : String → Bool
is_at_most_8 [] = false
is_at_most_8 (c ∷ s) =
    if is_digit c
    then leb (read_digits 0 (c ∷ s)) 8
    else if code c =? b'-'
    then begins_with_digit s
    else if code c =? b'+'
    then begins_with_digit s && leb (read_digits 0 s) 8
    else false

abbrev pub is_old : Option String → Bool
is_old none = false
is_old (some version) = is_at_most_8 (trim_left version)

-- SwaggerHttp.isIE8, of `navigator.userAgent` if there is one.
unfoldable pub is_ie8 : Option String → Bool
unfolding text_after read_digits trim_left to_lower_case
is_ie8 none = false
is_ie8 (some agent) = is_old (text_after "msie" (to_lower_case agent))

-- The two clients.
pub data HttpClient : Type 0 where
  jquery : HttpClient
  shred : HttpClient

unfoldable pub choose_client : Option Bool → Option String → HttpClient
unfolding is_ie8
choose_client (some use_jquery) agent = if use_jquery then jquery else shred
choose_client none agent = if is_ie8 agent then jquery else shred

-- The request object as it is handed over; `raw` says that `contentType` and `processData` are false.
pub record Outgoing (Jar : Type 0) : Type 0 where
  pub request : Request Jar
  pub raw : Bool

-- `obj.body.type && obj.body.type !== 'formData'`
abbrev pub has_other_type : Option Value → Bool
has_other_type (some (str s)) = not (s == "") && not (s == "formData")
has_other_type t = is_set t

module _ {Jar : Type 0} where
  -- An object goes as it is, and the browser chooses the content type.
  abbrev pub send_raw : Request Jar → Outgoing Jar
  send_raw r = record {
    request = record r { headers = delete "Content-Type" r.headers };
    raw = true;
  }

  abbrev pub send_as : Body → Request Jar → Outgoing Jar
  send_as b r = record { request = record r { body = b }; raw = false }

  abbrev pub prepare_value : Value → Request Jar → Option (Outgoing Jar)
  prepare_value null r = none
  prepare_value (obj fs) r = some (
      if has_other_type (get_field "type" fs)
      then send_as (value (str (stringify (obj fs)))) r
      else send_raw r)
  prepare_value (Value.arr xs) r = some (send_raw r)
  prepare_value v r = some (send_as (value v) r)

  abbrev pub prepare_body : Body → Request Jar → Option (Outgoing Jar)
  prepare_body no_body r = some (send_as no_body r)
  prepare_body (form_data parts) r = some (send_raw r)
  prepare_body (value v) r = prepare_value v r

  -- SwaggerHttp.execute, up to the client that it hands the object to. `none` is the TypeError of a
  -- body that is null.
  unfoldable pub prepare : Request Jar → Option (Outgoing Jar)
  unfolding get_field delete
  prepare r = prepare_body r.body r

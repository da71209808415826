-- ===== src/Http/Answer.antt =====
-- lib/swagger-client.js, JQueryHttpClient.execute: what the callback `complete` makes of an answer of
-- jQuery.
pub mod Headers
use Prim.Native.String.{[], ◌∷◌, ◌++◌}
use common_services_common_u.Base.{
  ℕ, suc, Char, code, String, Bool, true, false, ◌||◌, ◌&&◌, not, Option, none, some, List, [], ◌∷◌,
  ◌==◌, ◌=?◌, ltb, leb, if◌then◌else◌,
}
use common_services_common_u.Js.Space.{trim}
use common_services_common_u.Js.Text.{split, starts_with, contains}
use common_services_common_u.Js.Dict.{Dict, get, put}
use common_services_common_u.Js.Value.{Value, null, str, obj, no_fields, is_set}

-- `toSplit.indexOf(":")`, with the texts before and behind it.
abbrev pub with_first : Char → Option (String × String) → Option (String × String)
with_first c none = none
with_first c (some (before, behind)) = some (c ∷ before, behind)

unfoldable pub split_colon : String → Option (String × String)
split_colon [] = none
split_colon (c ∷ s) =
    let rest = with_first c (split_colon s) in if code c =? b':' then some ("", s) else rest

abbrev pub put_line : String → Option (String × String) → Dict Value → Dict Value
put_line line none headers = put line null headers
put_line line (some (name, v)) headers = put (trim name) (str (trim v)) headers

abbrev pub put_trimmed : String → Dict Value → Dict Value
put_trimmed line headers = if line == "" then headers else put_line line (split_colon line) headers

-- The loop over the lines of `response.getAllResponseHeaders()`.
unfoldable pub read_lines : List String → Dict Value → Dict Value
unfolding trim split_colon put
read_lines [] headers = headers
read_lines (line ∷ lines) headers = read_lines lines (put_trimmed (trim line) headers)

unfoldable pub read_headers : String → Dict Value
unfolding read_lines split
read_headers text = read_lines (split b'\n' text) []

-- jQuery's answer.
pub record JqueryAnswer : Type 0 where
  pub all_headers : String
  pub status : ℕ
  pub status_text : String
  pub response_text : String
  pub response_json : Option Value

-- `out`; `text` is its `data`, and `content` its `obj`.
pub record Out : Type 0 where
  pub url : String
  pub method : String
  pub status : ℕ
  pub status_text : Option String
  pub text : String
  pub headers : Dict Value
  pub content : Option Value

abbrev pub or_set : Option Value → Option Value → Option Value
or_set a b = if is_set a then a else b

-- `headers["content-type"]||headers["Content-Type"]||null`
abbrev pub content_type_of : Dict Value → Option Value
content_type_of headers = or_set (get "content-type" headers) (get "Content-Type" headers)

-- `t.indexOf("+json") > 0`: the text is there, and not at the start.
abbrev pub names_json : String → Bool
names_json t = contains "+json" t && not (starts_with "+json" t)

abbrev pub is_json : Option Value → Bool
is_json (some (str t)) = starts_with "application/json" t || names_json t
is_json _ = false

-- The callbacks that an answer may go to.
pub data Callback : Type 0 where
  on_response : Callback
  on_error : Callback

unfoldable pub callback_of : ℕ → Callback
callback_of status =
    if leb 200 status && ltb status 300
    then on_response
    else if status =? 0 || (leb 400 status && ltb status 599)
    then on_error
    else on_response

-- `JSON.parse` is a parameter: it is read for values with numbers that the model has not.
module _ (json_parse : String → Option Value) where
  abbrev pub parsed_or_empty : Option Value → Option Value
  parsed_or_empty none = none
  parsed_or_empty (some v) = some (if is_set (some v) then v else obj no_fields)

  -- `out.obj`; a text that is no JSON is logged.
  abbrev pub read_content : JqueryAnswer → Bool → Option Value
  read_content r false = none
  read_content r true =
      if is_set r.response_json
      then r.response_json
      else parsed_or_empty (json_parse r.response_text)

  unfoldable pub complete : String → String → JqueryAnswer → Callback × Out
  unfolding read_headers callback_of get
  complete url method r =
      let headers = read_headers r.all_headers in
      (
        callback_of r.status,
        record {
          url = url;
          method = method;
          status = r.status;
          status_text = some r.status_text;
          text = r.response_text;
          headers = headers;
          content = read_content r (is_json (content_type_of headers));
        },
      )

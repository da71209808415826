-- ===== src/Js/Value.antt =====
-- JavaScript values as the console handles them: JSON data whose numbers are the natural ones.
-- `undefined` is `none` of an Option, and a file of a form is an object with a `type` and a `value`.
use Prim.Native.String.{[], ◌∷◌}
use common_services_common_u.Base.{
  ℕ, zero, suc, ◌/◌, ◌%◌, Char, String, Bool, true, false, Option, none, some, List, [], ◌∷◌, ◌==◌,
  ◌=?◌, ltb, if◌then◌else◌, not,
}
use common_services_common_u.Js.Text.{char_or, join}

mutual
  pub data Value : Type 0 where
    null : Value
    bool : Bool → Value
    num : ℕ → Value
    str : String → Value
    arr : Items → Value
    obj : Fields → Value

  pub data Items : Type 0 where
    no_items : Items
    item : Value → Items → Items

  pub data Fields : Type 0 where
    no_fields : Fields
    field : String → Value → Fields → Fields

abbrev pub digit_char : ℕ → Char
digit_char n = char_or "0" n "0123456789"

-- `String(n)`, with fuel: a number has at most as many digits as its own value, and one more.
unfoldable pub decimal_digits : ℕ → ℕ → String → String
decimal_digits zero n acc = acc
decimal_digits (suc f) n acc =
    let more = decimal_digits f (n / 10) (digit_char (n % 10) ∷ acc) in
    if ltb n 10 then digit_char n ∷ acc else more

unfoldable pub decimal : ℕ → String
unfolding decimal_digits
decimal n = decimal_digits (suc n) n ""

-- `String(v)`; an array joins its items by commas, and its null items are empty.
unfoldable mutual
  unfolding decimal

  pub to_string : Value → String
  to_string null = "null"
  to_string (bool true) = "true"
  to_string (bool false) = "false"
  to_string (num n) = decimal n
  to_string (str s) = s
  to_string (arr xs) = join "," (item_strings xs)
  to_string (obj fs) = "[object Object]"

  pub item_strings : Items → List String
  item_strings no_items = []
  item_strings (item null xs) = "" ∷ item_strings xs
  item_strings (item (bool b) xs) = (if b then "true" else "false") ∷ item_strings xs
  item_strings (item (num n) xs) = decimal n ∷ item_strings xs
  item_strings (item (str s) xs) = s ∷ item_strings xs
  item_strings (item (arr ys) xs) = join "," (item_strings ys) ∷ item_strings xs
  item_strings (item (obj fs) xs) = "[object Object]" ∷ item_strings xs

-- A test of a value, `if (v)`.
abbrev pub truthy : Value → Bool
truthy null = false
truthy (bool b) = b
truthy (num n) = not (n =? 0)
truthy (str s) = not (s == "")
truthy (arr xs) = true
truthy (obj fs) = true

-- A test of a value that may be undefined.
abbrev pub is_set : Option Value → Bool
is_set none = false
is_set (some v) = truthy v

-- A test of a text that may be undefined.
abbrev pub has_text : Option String → Bool
has_text none = false
has_text (some s) = not (s == "")

-- `o[k]` of a value that is an object.
unfoldable pub get_field : String → Fields → Option Value
get_field k no_fields = none
get_field k (field j v fs) = if j == k then some v else get_field k fs

-- `o[k] = v`
unfoldable pub set_field : String → Value → Fields → Fields
set_field k v no_fields = field k v no_fields
set_field k v (field j w fs) = if j == k then field j v fs else field j w (set_field k v fs)

abbrev pub items : List Value → Items
items [] = no_items
items (v ∷ vs) = item v (items vs)

abbrev pub to_list : Items → List Value
to_list no_items = []
to_list (item v xs) = v ∷ to_list xs

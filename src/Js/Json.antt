-- ===== src/Js/Json.antt =====
-- JSON.stringify(v): the text of a value, with no spaces.
use Prim.Native.String.{[], ◌∷◌, ◌++◌}
use common_services_common_u.Base.{
  ℕ, zero, suc, ◌+◌, ◌/◌, ◌%◌, Char, code, String, true, false, [], ◌∷◌, ◌=?◌, ltb, if◌then◌else◌,
}
use common_services_common_u.Js.Text.{char_or}
use common_services_common_u.Js.Value.{
  Value, null, bool, num, str, arr, obj, Items, no_items, item, Fields, no_fields, field, decimal,
}

abbrev low_hex_digit : ℕ → Char
low_hex_digit n = char_or "0" n "0123456789abcdef"

-- One character inside a quoted text.
unfoldable pub escape : Char → String
escape c =
    if code c =? 34
    then "\\\""
    else if code c =? 92
    then "\\\\"
    else if code c =? 8
    then "\\b"
    else if code c =? 9
    then "\\t"
    else if code c =? 10
    then "\\n"
    else if code c =? 12
    then "\\f"
    else if code c =? 13
    then "\\r"
    else if ltb (code c) 32
    then "\\u00" ++ (low_hex_digit (code c / 16) ∷ low_hex_digit (code c % 16) ∷ "")
    else c ∷ ""

unfoldable pub escape_all : String → String
unfolding escape
escape_all [] = ""
escape_all (c ∷ s) = escape c ++ escape_all s

abbrev pub quote : String → String
unfolding escape_all
quote s = "\"" ++ (escape_all s ++ "\"")

unfoldable mutual
  unfolding quote

  pub stringify : Value → String
  stringify null = "null"
  stringify (bool true) = "true"
  stringify (bool false) = "false"
  stringify (num n) = decimal n
  stringify (str s) = quote s
  stringify (arr no_items) = "[]"
  stringify (arr (item v xs)) = "[" ++ (stringify v ++ (stringify_items xs ++ "]"))
  stringify (obj no_fields) = "{}"
  stringify (obj (field k v fs)) =
      "{" ++ (quote k ++ (":" ++ (stringify v ++ (stringify_fields fs ++ "}"))))

  pub stringify_items : Items → String
  stringify_items no_items = ""
  stringify_items (item v xs) = "," ++ (stringify v ++ stringify_items xs)

  pub stringify_fields : Fields → String
  stringify_fields no_fields = ""
  stringify_fields (field k v fs) =
      "," ++ (quote k ++ (":" ++ (stringify v ++ stringify_fields fs)))

-- The spaces of an indentation.
abbrev pub spaces : ℕ → String
spaces zero = ""
spaces (suc n) = " " ++ spaces n

-- JSON.stringify(v, null, 2), of a value at an indentation.
unfoldable mutual
  unfolding quote

  pub stringify_at : ℕ → Value → String
  stringify_at n null = "null"
  stringify_at n (bool true) = "true"
  stringify_at n (bool false) = "false"
  stringify_at n (num k) = decimal k
  stringify_at n (str s) = quote s
  stringify_at n (arr no_items) = "[]"
  stringify_at n (arr (item v xs)) =
      "[\n"
      ++ (spaces (n + 2)
          ++ (stringify_at (n + 2) v ++ (indented_items n xs ++ ("\n" ++ (spaces n ++ "]")))))
  stringify_at n (obj no_fields) = "{}"
  stringify_at n (obj (field k v fs)) =
      "{\n"
      ++ (spaces (n + 2)
          ++ (quote k
              ++ (": "
                  ++ (stringify_at (n + 2) v
                      ++ (indented_fields n fs ++ ("\n" ++ (spaces n ++ "}")))))))

  pub indented_items : ℕ → Items → String
  indented_items n no_items = ""
  indented_items n (item v xs) =
      ",\n" ++ (spaces (n + 2) ++ (stringify_at (n + 2) v ++ indented_items n xs))

  pub indented_fields : ℕ → Fields → String
  indented_fields n no_fields = ""
  indented_fields n (field k v fs) =
      ",\n"
      ++ (spaces (n + 2) ++ (quote k ++ (": " ++ (stringify_at (n + 2) v ++ indented_fields n fs))))

-- ===== src/Http/Answer/Headers.antt =====
-- lib/swagger-client.js, JQueryHttpClient.execute: the headers that are read from the text of an answer.
use Prim.Native.String.{[], ◌∷◌, ◌++◌}
use text.Mathlib.TextLemmas.{cons≢nil}
use common_services_common_u.Base.{
  ℕ, String, ◌≡◌, refl, sym, ap, ◌∙◌, Bool, true, false, ◌&&◌, not, some, List, [], ◌∷◌, ◌==◌, ◌=?◌,
  eq_iff, if◌then◌else◌, Bool-cases, inl, inr, arith, All, cons-append, nil-append, ==-false_of_ne,
}
use common_services_common_u.Js.Space.{
  is_space, trim, trim_left, trim_right, starts_solid, trim_left_kept, trim_right-append,
  trim_right-append_space,
}
use common_services_common_u.Js.Text.{split}
use common_services_common_u.Js.Dict.{Dict, put, put_all}
use common_services_common_u.Js.Value.{Value, str}
use common_services_common_u.Js.Uri.Laws.{AllChars, AllChars-append, AllChars-mono}
use common_services_common_u.Http.Answer.{split_colon, put_trimmed, read_lines, read_headers}

-- A header of an answer, with no white space around its parts.
pub record Header : Type 0 where
  pub name : String
  pub value : String

abbrev pub is_line_char : ℕ → Bool
is_line_char c = not (c =? b'\n')

abbrev pub is_name_char : ℕ → Bool
is_name_char c = not (c =? b':') && is_line_char c

pub record IsWellFormed (h : Header) : Type 0 where
  pub name_set : (h.name == "") ≡ false
  pub name_chars : AllChars is_name_char h.name
  pub name_start : starts_solid h.name ≡ true
  pub name_end : trim_right h.name ≡ h.name
  pub value_chars : AllChars is_line_char h.value
  pub value_start : starts_solid h.value ≡ true
  pub value_end : trim_right h.value ≡ h.value

-- A line of the text, with its carriage return.
abbrev pub line_of : Header → String
line_of h = h.name ++ (":" ++ (" " ++ (h.value ++ "\r")))

abbrev pub print_headers : List Header → String
print_headers [] = ""
print_headers (h ∷ hs) = line_of h ++ ("\n" ++ print_headers hs)

abbrev pub entries : List Header → Dict Value
entries [] = []
entries (h ∷ hs) = (h.name, str h.value) ∷ entries hs

-- What stands behind the colon, once the line is trimmed.
abbrev behind_colon : String → String
behind_colon v = if v == "" then "" else " " ++ v

space_cons : (s : String) → " " ++ s ≡ " " ∷ s
space_cons s = rw (cons-append, nil-append) refl

colon_cons : (s : String) → ":" ++ s ≡ ":" ∷ s
colon_cons s = rw (cons-append, nil-append) refl

trim_right-value :
    (v : String) → trim_right v ≡ v → trim_right (" " ++ (v ++ "\r")) ≡ behind_colon v
unfolding trim_right is_space
trim_right-value v h =
    rw (cons-append, nil-append, trim_right-append_space v "\r" refl, h)
      (ap (λ t. if v == "" then "" else t) (sym (space_cons v)))

trim_right-colon :
    (v : String)
    → trim_right v ≡ v
    → trim_right (":" ++ (" " ++ (v ++ "\r"))) ≡ ":" ++ behind_colon v
unfolding trim_right is_space
trim_right-colon v h =
    rw (cons-append, nil-append, trim_right-value v h) (sym (colon_cons (behind_colon v)))

starts_solid-append :
    (s t : String) → (s == "") ≡ false → starts_solid s ≡ true → starts_solid (s ++ t) ≡ true
starts_solid-append [] t n h = cc
starts_solid-append (c ∷ s) t n h = rw cons-append h

colon_not_nil : (s : String) → ((":" ++ s) == "") ≡ false
colon_not_nil s = ==-false_of_ne (":" ++ s) "" (λ e. cons≢nil (rw (cons-append) at e))

trim-line :
    (h : Header) → IsWellFormed h → trim (line_of h) ≡ h.name ++ (":" ++ behind_colon h.value)
unfolding trim
trim-line h w =
    let tail = trim_right-colon h.value w.value_end in
    rw
      (
        trim_left_kept (line_of h) (starts_solid-append h.name _ w.name_set w.name_start),
        trim_right-append h.name (":" ++ (" " ++ (h.value ++ "\r"))) (rw tail (colon_not_nil _)),
        tail,
      )
      refl

split_colon-append :
    (s t : String) → AllChars is_name_char s → split_colon (s ++ (":" ++ t)) ≡ some (s, t)
unfolding split_colon
split_colon-append [] t h = rw (nil-append, cons-append, nil-append) refl
split_colon-append (c ∷ s) t (e, h) = rw (cons-append, split_colon-append s t h) (ground arith)

trim-behind_colon :
    (v : String) → starts_solid v ≡ true → trim_right v ≡ v → trim (behind_colon v) ≡ v
unfolding trim trim_left is_space trim_right
trim-behind_colon v h k = elim (Bool-cases (v == "")) [
  | inl e ↦ rw ((eq_iff v "").0 e) refl
  | inr e ↦ rw (e, cons-append, nil-append, trim_left_kept v h) k
]

name_append_ne : (s t : String) → (s == "") ≡ false → ((s ++ t) == "") ≡ false
name_append_ne [] t h = cc
name_append_ne (c ∷ s) t h = rw cons-append (==-false_of_ne (c ∷ (s ++ t)) "" (λ e. cons≢nil e))

trim_name : (s : String) → starts_solid s ≡ true → trim_right s ≡ s → trim s ≡ s
unfolding trim
trim_name s h k = rw (trim_left_kept s h) k

put_trimmed-line :
    (h : Header) (headers : Dict Value)
    → IsWellFormed h
    → put_trimmed (trim (line_of h)) headers ≡ put h.name (str h.value) headers
put_trimmed-line h headers w =
    rw
      (
        trim-line h w,
        name_append_ne h.name (":" ++ behind_colon h.value) w.name_set,
        split_colon-append h.name (behind_colon h.value) w.name_chars,
        trim-behind_colon h.value w.value_start w.value_end,
        trim_name h.name w.name_start w.name_end,
      )
      refl

split-line :
    (s t : String) → AllChars is_line_char s → split b'\n' (s ++ ("\n" ++ t)) ≡ s ∷ split b'\n' t
unfolding split
split-line [] t h = rw (nil-append, cons-append, nil-append) refl
split-line (c ∷ s) t (e, h) = rw (cons-append, split-line s t h) (ground arith)

line_of_chars : (h : Header) → IsWellFormed h → AllChars is_line_char (line_of h)
line_of_chars h w =
    let append = AllChars-append is_line_char in
    let name_chars =
      AllChars-mono is_name_char is_line_char h.name (λ c e. ground arith) w.name_chars in
    append h.name _ name_chars (
      append ":" _ (refl, tt)
        (append " " _ (refl, tt) (append h.value "\r" w.value_chars (refl, tt))))

split-print_headers :
    (h : Header) (hs : List Header)
    → IsWellFormed h
    → split b'\n' (print_headers (h ∷ hs)) ≡ line_of h ∷ split b'\n' (print_headers hs)
split-print_headers h hs w = split-line (line_of h) (print_headers hs) (line_of_chars h w)

read_lines-print_headers :
    (hs : List Header) (headers : Dict Value)
    → All IsWellFormed hs
    → read_lines (split b'\n' (print_headers hs)) headers ≡ put_all (entries hs) headers
unfolding read_lines put_all
read_lines-print_headers [] headers h = unfold split in refl
read_lines-print_headers (h ∷ hs) headers (w, ws) =
    ap (λ lines. read_lines lines headers) (split-print_headers h hs w)
    ∙ (ap (read_lines (split b'\n' (print_headers hs))) (put_trimmed-line h headers w)
        ∙ read_lines-print_headers hs (put h.name (str h.value) headers) ws)

-- Headers that are printed one to a line, with a colon and a space behind the name, are read back as
-- the dictionary of their names and values, where no name is empty or has a colon, no part has a line
-- break, and no part begins or ends with white space; of two headers of one name the last counts.
pub read_headers-print_headers :
    (hs : List Header)
    → All IsWellFormed hs
    → read_headers (print_headers hs) ≡ put_all (entries hs) []
unfolding read_headers
read_headers-print_headers hs h = read_lines-print_headers hs [] h

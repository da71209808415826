-- ===== src/Console/Xml.antt =====
-- swagger-ui.js, OperationView.formatXml, and lib/swagger-client.js, SwaggerOperation.formatXml, which is
-- the same: an XML text with its lines indented. A line of the text holds no carriage return.
pub mod Laws
use Prim.Native.String.{[], ◌∷◌, ◌++◌}
use mathlib.Core.List
use common_services_common_u.Base.{
  ℕ, zero, suc, ◌+◌, Char, code, String, Bool, true, false, ◌||◌, ◌&&◌, not, Option, none, some,
  List, [], ◌∷◌, ◌==◌, ◌=?◌, if◌then◌else◌, is_some,
}
use common_services_common_u.Js.Text.{split, join, contains, starts_with, text_after}

-- `xml.replace(/(>)(<)(\/*)/g, '$1\n$2$3')`; the flag says that the last character was a `>`.
unfoldable pub break_tags : Bool → String → String
break_tags after [] = ""
break_tags after (c ∷ s) =
    let rest = break_tags (code c =? b'>') s in
    if after && code c =? b'<' then "\n" ++ (c ∷ rest) else c ∷ rest

unfoldable pub skip_blanks : String → String
skip_blanks [] = ""
skip_blanks (c ∷ s) = let rest = skip_blanks s in if code c =? b' ' then rest else c ∷ s

-- The text with no blank at its end, if there is one there.
abbrev pub cons_cut : Char → Option String → Option String
cons_cut c none = none
cons_cut c (some s) = some (c ∷ s)

unfoldable pub cut_blank : String → Option String
cut_blank [] = none
cut_blank (c ∷ s) =
    let rest = cut_blank s in
    if s == "" then (if code c =? b' ' then some "" else none) else cons_cut c rest

-- `replace(/[ ]*(.*)[ ]+\n/g, '$1\n')`, of one line: a line with a blank at its end loses that, and the
-- blanks at its start.
abbrev pub or_line : String → Option String → String
or_line line none = line
or_line line (some cut) = skip_blanks cut

unfoldable pub trim_line : String → String
unfolding cut_blank skip_blanks
trim_line line = or_line line (cut_blank line)

-- The text up to the last `>` that has text behind it, and that text.
abbrev pub cons_before : Char → String × String → String × String
cons_before c (before, behind) = (c ∷ before, behind)

abbrev pub split_here : Char → String → Option (String × String) → Option (String × String)
split_here c s (some p) = some (cons_before c p)
split_here c s none = if code c =? b'>' && not (s == "") then some (c ∷ "", s) else none

unfoldable pub split_last : String → Option (String × String)
split_last [] = none
split_last (c ∷ s) = split_here c s (split_last s)

-- `replace(/(<.+>)(.+\n)/g, '$1\n$2')`, of one line: between the first `<` and that `>` there is more.
abbrev pub or_whole : String → Option (String × String) → List String
or_whole line none = line ∷ []
or_whole line (some (before, behind)) = before ∷ behind ∷ []

abbrev pub cons_both : Char → Option (String × String) → Option (String × String)
cons_both c none = none
cons_both c (some p) = some (cons_before c p)

-- Behind the first `<`: one character more, and then the `>`.
abbrev pub split_tag : String → Option (String × String)
split_tag [] = none
split_tag (c ∷ s) = cons_both c (split_last s)

unfoldable pub split_content : String → Option (String × String)
unfolding split_last
split_content [] = none
split_content (c ∷ s) =
    let later = cons_both c (split_content s) in
    if code c =? b'<' then cons_both c (split_tag s) else later

-- The lines of the text, all but the last of which have a line break.
unfoldable pub prepare_lines : List String → List String
unfolding trim_line split_content
prepare_lines [] = []
prepare_lines (line ∷ []) = line ∷ []
prepare_lines (line ∷ next ∷ lines) =
    let trimmed = trim_line line in
    List.◌++◌ (or_whole trimmed (split_content trimmed)) (prepare_lines (next ∷ lines))

-- The type of a line, the first that it has.
pub data LineType : Type 0 where
  single : LineType
  closing : LineType
  opening : LineType
  other : LineType

abbrev pub behind_first : String → String
behind_first [] = ""
behind_first (c ∷ s) = s

abbrev pub ends_later : String → Option String → Bool
ends_later end none = false
ends_later end (some rest) = contains end (behind_first rest)

abbrev pub opens_with : String → Bool
opens_with [] = false
opens_with (c ∷ s) = not (code c =? b'!') && (not (code c =? b'?') && contains ">" s)

-- `/<[^!?].*>/`
unfoldable pub is_opening : String → Bool
unfolding contains
is_opening [] = false
is_opening (c ∷ s) = (code c =? b'<' && opens_with s) || is_opening s

unfoldable pub line_type : String → LineType
unfolding text_after contains is_opening
line_type ln =
    if ends_later "/>" (text_after "<" ln)
    then single
    else if ends_later ">" (text_after "</" ln)
    then closing
    else if is_opening ln
    then opening
    else other

-- An integer.
pub data ℤ : Type 0 where
  pos : ℕ → ℤ
  negsuc : ℕ → ℤ

abbrev pub up : ℤ → ℤ
up (pos n) = pos (suc n)
up (negsuc zero) = pos 0
up (negsuc (suc n)) = negsuc n

abbrev pub down : ℤ → ℤ
down (pos zero) = negsuc 0
down (pos (suc n)) = pos n
down (negsuc n) = negsuc (suc n)

-- The rounds of the loop that pads, which counts down where the indentation is negative.
abbrev pub rounds : ℤ → ℕ
rounds (pos n) = n
rounds (negsuc n) = suc n

-- `indent + transitions[lastType + '->' + type]`
unfoldable pub next_indent : LineType → LineType → ℤ → ℤ
next_indent opening closing indent = indent
next_indent last closing indent = down indent
next_indent opening type indent = up indent
next_indent last type indent = indent

abbrev pub padding : ℕ → String
padding zero = ""
padding (suc n) = "  " ++ padding n

abbrev pub joins : LineType → LineType → Bool
joins opening closing = true
joins last type = false

abbrev pub without_last : String → String
without_last [] = ""
without_last (c ∷ s) = let rest = without_last s in if s == "" then "" else c ∷ rest

-- `formatted`, `indent` and `lastType`.
pub record Formatted : Type 0 where
  pub text : String
  pub indent : ℤ
  pub last_type : LineType

unfoldable pub format_line : Formatted → String → Formatted
unfolding line_type next_indent
format_line f ln =
    let type = line_type ln in
    let indent = next_indent f.last_type type f.indent in
    record {
      text =
          if joins f.last_type type
          then without_last f.text ++ (ln ++ "\n")
          else f.text ++ (padding (rounds indent) ++ (ln ++ "\n"));
      indent = indent;
      last_type = type;
    }

unfoldable pub format_lines : List String → Formatted → Formatted
unfolding format_line
format_lines [] f = f
format_lines (ln ∷ lines) f = format_lines lines (format_line f ln)

abbrev pub unformatted : Formatted
unformatted = record { text = ""; indent = pos 0; last_type = other }

unfoldable pub format_xml : String → String
unfolding break_tags split prepare_lines format_lines
format_xml xml =
    (format_lines (prepare_lines (split b'\n' (break_tags false xml))) unformatted).text

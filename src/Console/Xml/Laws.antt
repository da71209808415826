-- ===== src/Console/Xml/Laws.antt =====
-- swagger-ui.js, OperationView.formatXml: the text of nested elements, and how far lines are indented.
use Prim.Native.String.{[], ◌∷◌, ◌++◌}
use text.Mathlib.TextLemmas.{cons≢nil}
use common_services_common_u.Base.{
  ℕ, zero, suc, ◌+◌, ◌≤◌, String, ◌≡◌, refl, ap, ◌∙◌, false, List, [], ◌∷◌, ◌==◌, arith, length,
  ==-false_of_ne, cons-append, nil-append, text_append_assoc, text_append-nil,
}
use common_services_common_u.Console.Xml.{
  LineType, single, closing, opening, other, line_type, ℤ, pos, negsuc, up, down, rounds, padding,
  without_last, next_indent, Formatted, format_line, format_lines, unformatted,
}

-- A text of nested elements: an element or a text on a line of its own, or the two tags of an element
-- around further ones.
mutual
  pub data Xml : Type 0 where
    leaf : String → Xml
    content : String → Xml
    node : String → Children → String → Xml

  pub data Children : Type 0 where
    none : Children
    child : Xml → Children → Children

-- The lines, before those of what follows.
unfoldable mutual
  pub lines : Xml → List String → List String
  lines (leaf s) rest = s ∷ rest
  lines (content s) rest = s ∷ rest
  lines (node o cs c) rest = o ∷ lines_all cs (c ∷ rest)

  pub lines_all : Children → List String → List String
  lines_all none rest = rest
  lines_all (child x cs) rest = lines x (lines_all cs rest)

-- Each line is what it stands for in the text.
unfoldable mutual
  pub IsTyped : Xml → Type 0
  IsTyped (leaf s) = line_type s ≡ single
  IsTyped (content s) = line_type s ≡ other
  IsTyped (node o cs c) = (line_type o ≡ opening) × (line_type c ≡ closing) × AreTyped cs

  pub AreTyped : Children → Type 0
  AreTyped none = Unit
  AreTyped (child x cs) = IsTyped x × AreTyped cs

abbrev pub line_at : ℕ → String → String
line_at d s = padding d ++ (s ++ "\n")

-- The two tags of an element that has nothing in it are on one line.
abbrev pub print_node : ℕ → String → Children → String → String → String
print_node d o none inner c = padding d ++ (o ++ (c ++ "\n"))
print_node d o (child x cs) inner c = line_at d o ++ (inner ++ line_at d c)

-- The text, with what is inside an element one step farther in than its tags.
unfoldable mutual
  pub print : ℕ → Xml → String
  print d (leaf s) = line_at d s
  print d (content s) = line_at d s
  print d (node o cs c) = print_node d o cs (print_all (suc d) cs) c

  pub print_all : ℕ → Children → String
  print_all d none = ""
  print_all d (child x cs) = print d x ++ print_all d cs

abbrev at : String → ℤ → LineType → Formatted
at text i last = record { text = text; indent = i; last_type = last }

-- The indentation of a line behind this one, if it is no closing tag.
abbrev inner : LineType → ℤ → ℤ
inner opening i = up i
inner last i = i

format_line-single :
    (t : String) (i : ℤ) (last : LineType) (d : ℕ) (s : String)
    → line_type s ≡ single
    → inner last i ≡ pos d
    → format_line (at t i last) s ≡ at (t ++ line_at d s) (pos d) single
unfolding format_line next_indent
format_line-single t i single d s h e = rw (h, e) refl
format_line-single t i closing d s h e = rw (h, e) refl
format_line-single t i opening d s h e = rw (h, e) refl
format_line-single t i other d s h e = rw (h, e) refl

format_line-other :
    (t : String) (i : ℤ) (last : LineType) (d : ℕ) (s : String)
    → line_type s ≡ other
    → inner last i ≡ pos d
    → format_line (at t i last) s ≡ at (t ++ line_at d s) (pos d) other
unfolding format_line next_indent
format_line-other t i single d s h e = rw (h, e) refl
format_line-other t i closing d s h e = rw (h, e) refl
format_line-other t i opening d s h e = rw (h, e) refl
format_line-other t i other d s h e = rw (h, e) refl

format_line-opening :
    (t : String) (i : ℤ) (last : LineType) (d : ℕ) (s : String)
    → line_type s ≡ opening
    → inner last i ≡ pos d
    → format_line (at t i last) s ≡ at (t ++ line_at d s) (pos d) opening
unfolding format_line next_indent
format_line-opening t i single d s h e = rw (h, e) refl
format_line-opening t i closing d s h e = rw (h, e) refl
format_line-opening t i opening d s h e = rw (h, e) refl
format_line-opening t i other d s h e = rw (h, e) refl

-- A closing tag right behind its opening one, and one behind a line that opens nothing.
append-ne-nil : (s : String) → ((s ++ "\n") == "") ≡ false
append-ne-nil [] = refl
append-ne-nil (c ∷ s) = rw cons-append (==-false_of_ne _ "" (λ h. cons≢nil h))

without_last-append : (s : String) → without_last (s ++ "\n") ≡ s
without_last-append [] = refl
without_last-append (c ∷ s) =
    rw cons-append (rw (without_last, append-ne-nil s, without_last-append s) refl)

joined_text :
    (t o : String) (d : ℕ) (c : String)
    → without_last (t ++ line_at d o) ++ (c ++ "\n") ≡ t ++ (padding d ++ (o ++ (c ++ "\n")))
joined_text t o d c =
    let whole : t ++ line_at d o ≡ (t ++ (padding d ++ o)) ++ "\n" = simp text_append_assoc in
    ap (λ u. without_last u ++ (c ++ "\n")) whole
    ∙ rw (without_last-append (t ++ (padding d ++ o))) (simp text_append_assoc)

format_line-joined :
    (t o : String) (d : ℕ) (c : String)
    → line_type c ≡ closing
    → format_line (at (t ++ line_at d o) (pos d) opening) c
      ≡ at (t ++ (padding d ++ (o ++ (c ++ "\n")))) (pos d) closing
unfolding format_line next_indent
format_line-joined t o d c h = rw h (ap (λ u. at u (pos d) closing) (joined_text t o d c))

abbrev last_of : Xml → LineType
last_of (leaf s) = single
last_of (content s) = other
last_of (node o cs c) = closing

format_line-closing :
    (t : String) (x : Xml) (d : ℕ) (c : String)
    → line_type c ≡ closing
    → format_line (at t (pos (suc d)) (last_of x)) c ≡ at (t ++ line_at d c) (pos d) closing
unfolding format_line next_indent
format_line-closing t (leaf s) d c h = rw h refl
format_line-closing t (content s) d c h = rw h refl
format_line-closing t (node o cs e) d c h = rw h refl

inner-last_of : (x : Xml) (d : ℕ) → inner (last_of x) (pos d) ≡ pos d
inner-last_of (leaf s) d = refl
inner-last_of (content s) d = refl
inner-last_of (node o cs c) d = refl

mutual
  unfolding format_lines lines lines_all IsTyped AreTyped print print_all

  format_lines-lines :
      (t : String) (i : ℤ) (last : LineType) (d : ℕ) (x : Xml) (rest : List String)
      → IsTyped x
      → inner last i ≡ pos d
      → format_lines (lines x rest) (at t i last)
        ≡ format_lines rest (at (t ++ print d x) (pos d) (last_of x))
  format_lines-lines t i last d (leaf s) rest h e =
      ap (format_lines rest) (format_line-single t i last d s h e)
  format_lines-lines t i last d (content s) rest h e =
      ap (format_lines rest) (format_line-other t i last d s h e)
  format_lines-lines t i last d (node o none c) rest (h, k, hs) e =
      ap (format_lines (c ∷ rest)) (format_line-opening t i last d o h e)
      ∙ ap (format_lines rest) (format_line-joined t o d c k)
  format_lines-lines t i last d (node o (child x cs) c) rest (h, k, (hx, hs)) e =
      ap (format_lines (lines x (lines_all cs (c ∷ rest)))) (format_line-opening t i last d o h e)
      ∙ (format_lines-lines (t ++ line_at d o) (pos d) opening (suc d) x (lines_all cs (c ∷ rest))
            hx refl
          ∙ (format_lines-rest ((t ++ line_at d o) ++ print (suc d) x) x d cs c rest hs k
              ∙ ap (λ u. format_lines rest (at u (pos d) closing)) (simp text_append_assoc)))

  -- What is left of an element behind one that is inside of it.
  format_lines-rest :
      (t : String) (y : Xml) (d : ℕ) (cs : Children) (c : String) (rest : List String)
      → AreTyped cs
      → line_type c ≡ closing
      → format_lines (lines_all cs (c ∷ rest)) (at t (pos (suc d)) (last_of y))
        ≡ format_lines rest (at (t ++ (print_all (suc d) cs ++ line_at d c)) (pos d) closing)
  format_lines-rest t y d none c rest hs k =
      rw nil-append (ap (format_lines rest) (format_line-closing t y d c k))
  format_lines-rest t y d (child x cs) c rest (hx, hs) k =
      format_lines-lines t (pos (suc d)) (last_of y) (suc d) x (lines_all cs (c ∷ rest)) hx
        (inner-last_of y (suc d))
      ∙ (format_lines-rest (t ++ print (suc d) x) x d cs c rest hs k
          ∙ ap (λ u. format_lines rest (at u (pos d) closing)) (simp text_append_assoc))

format_lines-all :
    (t : String) (last : LineType) (cs : Children)
    → AreTyped cs
    → inner last (pos 0) ≡ pos 0
    → (format_lines (lines_all cs []) (at t (pos 0) last)).text ≡ t ++ print_all 0 cs
unfolding format_lines lines_all AreTyped print_all
format_lines-all t last none h e = rw text_append-nil refl
format_lines-all t last (child x cs) (hx, hs) e =
    ap Formatted.text (format_lines-lines t (pos 0) last 0 x (lines_all cs []) hx e)
    ∙ (format_lines-all (t ++ print 0 x) (last_of x) cs hs (inner-last_of x 0)
        ∙ simp text_append_assoc)

-- The text that is made of the lines of nested elements, in which every opening tag has its closing
-- one: each line is indented by two spaces for every element that it is inside of, a closing tag as
-- its opening one, and the two tags of an element with nothing in it are on one line.
pub format_lines-eq-print_all :
    (cs : Children)
    → AreTyped cs
    → (format_lines (lines_all cs []) unformatted).text ≡ print_all 0 cs
format_lines-eq-print_all cs h = format_lines-all "" other cs h refl ∙ nil-append (print_all 0 cs)

rounds-up : (i : ℤ) → rounds (up i) ≤ suc (rounds i)
rounds-up (pos n) = omega arith
rounds-up (negsuc zero) = omega arith
rounds-up (negsuc (suc n)) = omega arith

rounds-down : (i : ℤ) → rounds (down i) ≤ suc (rounds i)
rounds-down (pos zero) = omega arith
rounds-down (pos (suc n)) = omega arith
rounds-down (negsuc n) = omega arith

rounds-next_indent :
    (last type : LineType) (i : ℤ) → rounds (next_indent last type i) ≤ suc (rounds i)
unfolding next_indent
rounds-next_indent single single i = omega arith
rounds-next_indent single closing i = rounds-down i
rounds-next_indent single opening i = omega arith
rounds-next_indent single other i = omega arith
rounds-next_indent closing single i = omega arith
rounds-next_indent closing closing i = rounds-down i
rounds-next_indent closing opening i = omega arith
rounds-next_indent closing other i = omega arith
rounds-next_indent opening single i = rounds-up i
rounds-next_indent opening closing i = omega arith
rounds-next_indent opening opening i = rounds-up i
rounds-next_indent opening other i = rounds-up i
rounds-next_indent other single i = omega arith
rounds-next_indent other closing i = rounds-down i
rounds-next_indent other opening i = omega arith
rounds-next_indent other other i = omega arith

-- Whatever the tags are, the indentation of a text is never farther from where it began than there are
-- lines, to either side.
pub format_lines-bound :
    (lines : List String) (f : Formatted)
    → rounds (format_lines lines f).indent ≤ rounds f.indent + length lines
unfolding format_lines format_line
format_lines-bound [] f = omega arith
format_lines-bound (ln ∷ lines) f = omega (
  arith,
  format_lines-bound lines (format_line f ln),
  rounds-next_indent f.last_type (line_type ln) f.indent,
)

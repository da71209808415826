-- ===== src/Js/Text.antt =====
-- String.prototype (indexOf, substring, split, toUpperCase, replace) and Array.prototype.join.
-- A text is a sequence of code points; lone surrogates are not represented, and letter case is that
-- of the ASCII letters.
pub mod Laws
use Prim.Native.String.{[], ◌∷◌, ◌++◌}
use common_services_common_u.Base.{
  ℕ, zero, suc, ◌+◌, ◌-◌, Char, code, String, Bool, true, false, ◌&&◌, Option, none, some, List, [],
  ◌∷◌, ◌=?◌, leb, if◌then◌else◌,
}

-- `s.indexOf(p) === 0`, with the rest of the text, `s.substring(p.length)`.
unfoldable pub strip_prefix : String → String → Option String
strip_prefix [] s = some s
strip_prefix (c ∷ p) [] = none
strip_prefix (c ∷ p) (d ∷ s) = if code c =? code d then strip_prefix p s else none

unfoldable pub starts_with : String → String → Bool
unfolding strip_prefix
starts_with p s = elim (strip_prefix p s) [ none ↦ false | some _ ↦ true ]

-- `s.indexOf(p) >= 0`
unfoldable pub contains : String → String → Bool
unfolding starts_with
contains p [] = starts_with p []
contains p (d ∷ s) = let rest = contains p s in if starts_with p (d ∷ s) then true else rest

-- `s.indexOf(c)` for one character; `none` stands for -1.
unfoldable pub index_of : ℕ → String → Option ℕ
index_of c [] = none
index_of c (d ∷ s) =
    let rest = index_of c s in
    if code d =? c then some 0 else elim rest [ none ↦ none | some i ↦ some (suc i) ]

-- `s.split(c)` for one character; never empty.
abbrev pub cons_first : Char → List String → List String
cons_first d [] = (d ∷ []) ∷ []
cons_first d (w ∷ ws) = (d ∷ w) ∷ ws

unfoldable pub split : ℕ → String → List String
split c [] = "" ∷ []
split c (d ∷ s) = let rest = split c s in if code d =? c then "" ∷ rest else cons_first d rest

-- The texts, each behind a separator.
abbrev pub join_more : String → List String → String
join_more sep [] = ""
join_more sep (x ∷ xs) = sep ++ (x ++ join_more sep xs)

-- `xs.join(sep)`
abbrev pub join : String → List String → String
join sep [] = ""
join sep (x ∷ xs) = x ++ join_more sep xs

-- `a + b + c + …`
abbrev pub concat : List String → String
concat [] = ""
concat (x ∷ xs) = x ++ concat xs

-- The character at a position of a table of characters.
abbrev pub char_or : Char → ℕ → String → Char
char_or d n [] = d
char_or d zero (c ∷ s) = c
char_or d (suc n) (c ∷ s) = char_or d n s

unfoldable pub upper_char : Char → Char
upper_char c =
    if leb 97 (code c) && leb (code c) 122
    then char_or c (code c - 97) "ABCDEFGHIJKLMNOPQRSTUVWXYZ"
    else c

unfoldable pub to_upper_case : String → String
unfolding upper_char
to_upper_case [] = ""
to_upper_case (c ∷ s) = upper_char c ∷ to_upper_case s

unfoldable pub lower_char : Char → Char
lower_char c =
    if leb 65 (code c) && leb (code c) 90
    then char_or c (code c - 65) "abcdefghijklmnopqrstuvwxyz"
    else c

unfoldable pub to_lower_case : String → String
unfolding lower_char
to_lower_case [] = ""
to_lower_case (c ∷ s) = lower_char c ∷ to_lower_case s

-- Equality of characters under a regular expression's flag `i`.
abbrev pub fold_code : Char → ℕ
fold_code c = if leb 97 (code c) && leb (code c) 122 then code c - 32 else code c

unfoldable pub starts_with_i : String → String → Bool
starts_with_i [] s = true
starts_with_i (c ∷ p) [] = false
starts_with_i (c ∷ p) (d ∷ s) = (fold_code c =? fold_code d) && starts_with_i p s

abbrev pub count : String → ℕ
count [] = 0
count (_ ∷ s) = suc (count s)

-- `s.replace(new RegExp(p, 'gi'), v)` for a text `p` of one character and more with no
-- metacharacter, and a `v` with no `$`: `skip` characters of the last match are left out.
unfoldable pub replace_from : String → String → ℕ → String → String
unfolding starts_with_i
replace_from p v skip [] = ""
replace_from p v (suc skip) (c ∷ s) = replace_from p v skip s
replace_from p v zero (c ∷ s) =
    let found = replace_from p v (count p - 1) s in
    let other = replace_from p v zero s in if starts_with_i p (c ∷ s) then v ++ found else c ∷ other

unfoldable pub replace_all : String → String → String → String
unfolding replace_from
replace_all p v s = replace_from p v zero s

abbrev pub drop : ℕ → String → String
drop n [] = ""
drop zero (c ∷ s) = c ∷ s
drop (suc n) (c ∷ s) = drop n s

abbrev pub take : ℕ → String → String
take n [] = ""
take zero (c ∷ s) = ""
take (suc n) (c ∷ s) = c ∷ take n s

-- `s.substring(i, j)`, which takes the smaller of the two first.
unfoldable pub substring : ℕ → ℕ → String → String
substring i j s = if leb i j then drop i (take j s) else drop j (take i s)

abbrev pub replace_here : String → Option String → Char → String → String
replace_here v none c later = c ∷ later
replace_here v (some rest) c later = v ++ rest

-- `s.replace(p, v)` for a text `p` of one character and more: the first place.
unfoldable pub replace_first : String → String → String → String
unfolding strip_prefix
replace_first p v [] = ""
replace_first p v (c ∷ s) =
    let later = replace_first p v s in replace_here v (strip_prefix p (c ∷ s)) c later

abbrev pub first_of {ℓ} : {A : Type ℓ} → Option A → Option A → Option A
first_of none b = b
first_of (some a) b = some a

-- The text behind the first place of another text, if it has one.
unfoldable pub text_after : String → String → Option String
unfolding strip_prefix
text_after p [] = strip_prefix p []
text_after p (c ∷ s) = let rest = text_after p s in first_of (strip_prefix p (c ∷ s)) rest

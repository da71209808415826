-- ===== src/Js/Space.antt =====
-- White space: the class `\s` of regular expressions, and String.prototype.trim.
use Prim.Native.String.{[], ◌∷◌, ◌++◌}
use text.Mathlib.TextLemmas.{cons≢nil}
use common_services_common_u.Base.{
  ℕ, code, String, ◌≡◌, refl, Bool, true, false, ◌||◌, ◌&&◌, ◌=?◌, leb, ◌==◌, if◌then◌else◌, arith,
  nil-append, cons-append, not, ==-false_of_ne,
}

abbrev pub between : ℕ → ℕ → ℕ → Bool
between a b c = leb a c && leb c b

unfoldable pub is_space : ℕ → Bool
is_space c =
    between 9 13 c
    || c =? 32
    || c =? 160
    || c =? 5760
    || between 8192 8202 c
    || between 8232 8233 c
    || c =? 8239
    || c =? 8287
    || c =? 12288
    || c =? 65279

unfoldable pub trim_left : String → String
unfolding is_space
trim_left [] = ""
trim_left (c ∷ s) = let rest = trim_left s in if is_space (code c) then rest else c ∷ s

unfoldable pub trim_right : String → String
unfolding is_space
trim_right [] = ""
trim_right (c ∷ s) =
    let rest = trim_right s in if is_space (code c) && rest == "" then "" else c ∷ rest

-- `s.trim()`
unfoldable pub trim : String → String
unfolding trim_left trim_right
trim s = trim_right (trim_left s)

-- What begins with no white space is not changed on the left.
abbrev pub starts_solid : String → Bool
starts_solid [] = true
starts_solid (c ∷ s) = not (is_space (code c))

pub trim_left_kept : (s : String) → starts_solid s ≡ true → trim_left s ≡ s
unfolding trim_left
trim_left_kept [] h = refl
trim_left_kept (c ∷ s) h = ground arith

append-ne-nil : (s t : String) → (t == "") ≡ false → ((s ++ t) == "") ≡ false
append-ne-nil [] t h = rw nil-append h
append-ne-nil (c ∷ s) t h = rw cons-append (==-false_of_ne (c ∷ (s ++ t)) "" (λ e. cons≢nil e))

-- What is not all white space on the right keeps what stands before it.
pub trim_right-append :
    (s t : String) → (trim_right t == "") ≡ false → trim_right (s ++ t) ≡ s ++ trim_right t
unfolding trim_right
trim_right-append [] t h = simp nil-append
trim_right-append (c ∷ s) t h =
    rw (cons-append, trim_right-append s t h, append-ne-nil s (trim_right t) h)
      (simp cons-append (ground arith))

pub trim_right-append_space :
    (s t : String) → trim_right t ≡ "" → trim_right (s ++ t) ≡ trim_right s
unfolding trim_right
trim_right-append_space [] t h = rw nil-append h
trim_right-append_space (c ∷ s) t h = rw (cons-append, trim_right-append_space s t h) refl

-- ===== src/Listing/Urlify/Laws.antt =====
-- lib/swagger-client.js, SwaggerOperation.urlify: which places of a path take an argument.
use Prim.Native.String.{[], ◌∷◌, ◌++◌}
use common_services_common_u.Base.{
  ℕ, suc, ◌+◌, Char, code, String, ◌≡◌, refl, ap, sym, ◌∙◌, Bool, true, false, ◌&&◌, not, some,
  ◌=?◌, arith, cons-append, nil-append, text_append_assoc,
}
use common_services_common_u.Js.Text.{starts_with_i, count, drop}
use common_services_common_u.Js.Uri.Laws.{AllChars}
use common_services_common_u.Listing.Urlify.{scan_slot, match_name, match_slot, replace_slots}

abbrev pub is_no_brace : ℕ → Bool
is_no_brace c = not (c =? b'{')

abbrev pub is_slot_char : ℕ → Bool
is_slot_char c = not (c =? b'{') && (not (c =? b'}') && not (c =? b'/'))

starts_with_i-append : (s t : String) → starts_with_i s (s ++ t) ≡ true
unfolding starts_with_i
starts_with_i-append [] t = refl
starts_with_i-append (c ∷ s) t = rw cons-append (rw (starts_with_i-append s t) (ground arith))

drop-append : (s t : String) → drop (count s) (s ++ t) ≡ t
drop-append [] [] = refl
drop-append [] (c ∷ t) = rw nil-append refl
drop-append (c ∷ s) t = rw cons-append (drop-append s t)

-- A run of plain characters ends at its brace.
scan_slot-plain :
    (s t : String)
    → AllChars is_slot_char s
    → (scan_slot (s ++ ("}" ++ t))).0 ≡ some (suc (count s))
unfolding scan_slot
scan_slot-plain [] t h = rw (nil-append, cons-append) refl
scan_slot-plain (c ∷ s) t (e, h) = rw (cons-append) (ground (arith, scan_slot-plain s t h))

match_name-slot :
    (name more after : String)
    → AllChars is_slot_char more
    → match_name name (name ++ (more ++ ("}" ++ after))) ≡ some (count name + suc (count more))
match_name-slot name more after h =
    rw
      (
        starts_with_i-append name (more ++ ("}" ++ after)),
        drop-append name (more ++ ("}" ++ after)),
        scan_slot-plain more after h,
      )
      refl

match_slot-name :
    (name s : String) (n : ℕ) → match_name name s ≡ some n → match_slot name s ≡ some n
unfolding match_slot
match_slot-name name [] n h = unfold scan_slot in ground arith
match_slot-name name (c ∷ s) n h = rw h refl

replace_slots-skip :
    (name v s t : String) → replace_slots name v (count s) (s ++ t) ≡ replace_slots name v 0 t
unfolding replace_slots
replace_slots-skip name v [] t = rw nil-append refl
replace_slots-skip name v (c ∷ s) t = rw cons-append (replace_slots-skip name v s t)

count-append : (s t : String) → count (s ++ t) ≡ count s + count t
count-append [] t = rw nil-append (omega arith)
count-append (c ∷ s) t = rw cons-append (omega (arith, count-append s t))

-- The characters of a slot behind its opening brace.
replace_slots-behind :
    (name v more after : String)
    → replace_slots name v (count name + suc (count more)) (name ++ (more ++ ("}" ++ after)))
      ≡ replace_slots name v 0 after
replace_slots-behind name v more after =
    let inner = name ++ (more ++ "}") in
    let n : count name + suc (count more) ≡ count inner =
      omega (arith, count-append name (more ++ "}"), count-append more "}") in
    let same : name ++ (more ++ ("}" ++ after)) ≡ inner ++ after = sym (
      text_append_assoc name (more ++ "}") after
      ∙ ap (λ s. name ++ s) (text_append_assoc more "}" after)) in
    ap (λ k. replace_slots name v k (name ++ (more ++ ("}" ++ after)))) n
    ∙ (ap (replace_slots name v (count inner)) same ∙ replace_slots-skip name v inner after)

replace_slots-brace :
    (name v more after : String)
    → AllChars is_slot_char more
    → replace_slots name v 0 ("{" ∷ (name ++ (more ++ ("}" ++ after))))
      ≡ v ++ replace_slots name v 0 after
unfolding replace_slots
replace_slots-brace name v more after h =
    rw
      (
        match_slot-name name _ _ (match_name-slot name more after h),
        replace_slots-behind name v more after,
      )
      refl

replace_slots-plain :
    (name v : String) (c : Char) (s : String)
    → (code c =? b'{') ≡ false
    → replace_slots name v 0 (c ∷ s) ≡ c ∷ replace_slots name v 0 s
unfolding replace_slots
replace_slots-plain name v c s e = rw e refl

-- The first slot of a path whose text begins with the name of a parameter takes its argument, whatever
-- follows the name inside the slot, up to its closing brace, with no brace and no slash; the path
-- before the slot is kept.
pub replace_slots-slot :
    (name v before more after : String)
    → AllChars is_no_brace before
    → AllChars is_slot_char more
    → replace_slots name v 0 (before ++ ("{" ++ (name ++ (more ++ ("}" ++ after)))))
      ≡ before ++ (v ++ replace_slots name v 0 after)
unfolding replace_slots
replace_slots-slot name v [] more after h k =
    rw (nil-append, cons-append, nil-append)
      (replace_slots-brace name v more after k ∙ sym (nil-append _))
replace_slots-slot name v (c ∷ before) more after (e, h) k =
    rw (cons-append, replace_slots-plain name v c _ (ground arith))
      (ap (λ s. c ∷ s) (replace_slots-slot name v before more after h k)
        ∙ sym (cons-append c before _))

-- ===== src/Console/Resource/Laws.antt =====
-- swagger-ui.js, ResourceView.render and SignatureView: the ids of the operations, and what clicks leave
-- of the text that is entered.
use mathlib.Core.List
use common_services_common_u.Base.{
  ℕ, suc, ◌+◌, ◌<◌, String, ◌≡◌, refl, sym, ap, ◌∙◌, ◌⊎◌, inl, inr, true, ◌&&◌, Option, some, List,
  [], ◌∷◌, ◌==◌, arith, length, length-append, Bool-cases,
}
use common_services_common_u.Js.Space.{trim}
use common_services_common_u.Js.Text.{count}
use common_services_common_u.Console.Pages.Ids.{
  AreDistinct, AreDistinct-push, free_id-Finds, at_least_le_length,
}
use common_services_common_u.Console.Resource.{
  assign_nicknames, SignatureState, Event, switch_to_description, switch_to_snippet,
  snippet_to_text_area, handle, handle_all,
}

abbrev Assigns : ℕ → Option (List String) → Type 0
Assigns n o = (ids : List String) × (o ≡ some ids) × (length ids ≡ n) × AreDistinct ids

assign_nicknames-Assigns :
    (fuel : ℕ) (nicknames methods : List String)
    → length methods + length nicknames < fuel
    → AreDistinct methods
    → Assigns (length methods + length nicknames) (assign_nicknames fuel nicknames methods)
unfolding assign_nicknames
assign_nicknames-Assigns fuel [] methods h d = (methods, refl, omega arith, d)
assign_nicknames-Assigns fuel (n ∷ nicknames) methods h d =
    let (id, next, e, f) =
      free_id-Finds fuel methods n 0 (omega (arith, h, at_least_le_length (count n) methods)) in
    let more = List.◌++◌ methods (id ∷ []) in
    let longer : length more ≡ suc (length methods) =
      omega (arith, length-append methods (id ∷ [])) in
    let (all, g, l, distinct) =
      assign_nicknames-Assigns fuel nicknames more (omega (arith, longer, h))
        (AreDistinct-push methods id d f) in
    rw e (all, g, omega (arith, l, longer), distinct)

-- The loops over the operations of a resource end: with more fuel than there are operations each of
-- them has a nickname, and no two have the same one.
pub assign_nicknames_total :
    (fuel : ℕ) (nicknames : List String)
    → length nicknames < fuel
    → (ids : List String) × (assign_nicknames fuel nicknames [] ≡ some ids)
      × (length ids ≡ length nicknames)
      × AreDistinct ids
assign_nicknames_total fuel nicknames h =
    let (ids, e, l, distinct) = assign_nicknames-Assigns fuel nicknames [] (omega (arith, h)) tt in
    (ids, e, omega (arith, l), distinct)

-- What clicks make of the text.
abbrev Keeps : SignatureState → SignatureState → Type 0
Keeps s s' =
    (s'.is_param ≡ s.is_param)
    × (s'.sample_json ≡ s.sample_json)
    × ((s'.text_area ≡ s.text_area)
        ⊎ ((s.is_param ≡ true)
            × ((trim s.text_area == "") ≡ true)
            × (s'.text_area ≡ s.sample_json)))

handle-Keeps : (e : Event) (s : SignatureState) → Keeps s (handle e s)
unfolding handle
handle-Keeps switch_to_description s = (refl, refl, inl refl)
handle-Keeps switch_to_snippet s = (refl, refl, inl refl)
handle-Keeps snippet_to_text_area s = elim (Bool-cases (s.is_param && (trim s.text_area == ""))) [
  | inl e ↦ rw e (refl, refl, inr (ground arith, ground arith, refl))
  | inr e ↦ rw e (refl, refl, inl refl)
]

Keeps-trans : (s s' s'' : SignatureState) → Keeps s s' → Keeps s' s'' → Keeps s s''
Keeps-trans s s' s'' (p, q, k) (p', q', inl t') = (p' ∙ p, q' ∙ q, step k)
  where
    step :
        (s'.text_area ≡ s.text_area)
          ⊎ ((s.is_param ≡ true)
              × ((trim s.text_area == "") ≡ true)
              × (s'.text_area ≡ s.sample_json))
        → (s''.text_area ≡ s.text_area)
          ⊎ ((s.is_param ≡ true)
              × ((trim s.text_area == "") ≡ true)
              × (s''.text_area ≡ s.sample_json))
    step (inl t) = inl (t' ∙ t)
    step (inr (a, b, c)) = inr (a, b, t' ∙ c)
Keeps-trans s s' s'' (p, q, inl t) (p', q', inr (a, b, c)) =
    (p' ∙ p, q' ∙ q, inr (sym p ∙ a, ap (λ u. trim u == "") (sym t) ∙ b, c ∙ q))
Keeps-trans s s' s'' (p, q, inr (a, b, c)) (p', q', inr (a', b', c')) =
    (p' ∙ p, q' ∙ q, inr (a, b, c' ∙ q))

handle_all-Keeps : (es : List Event) (s : SignatureState) → Keeps s (handle_all es s)
unfolding handle_all
handle_all-Keeps [] s = (refl, refl, inl refl)
handle_all-Keeps (e ∷ es) s =
    Keeps-trans s (handle e s) (handle_all es (handle e s)) (handle-Keeps e s)
      (handle_all-Keeps es (handle e s))

-- Whatever is clicked on a signature, in whatever order: the text of the form is as it was, or else
-- it was blank, the signature is that of a parameter, and the text is now the sample of it. What
-- has been entered is never written over.
pub handle_all-text_area :
    (es : List Event) (s : SignatureState)
    → ((handle_all es s).text_area ≡ s.text_area)
      ⊎ ((s.is_param ≡ true)
          × ((trim s.text_area == "") ≡ true)
          × ((handle_all es s).text_area ≡ s.sample_json))
handle_all-text_area es s = (handle_all-Keeps es s).2

-- ===== src/Console/View/Laws.antt =====
-- swagger-ui.js, OperationView.render and ParameterView.render: what the two of them make of the
-- parameters of an operation.

use common_services_common_u.Base.{
  String, ◌≡◌, refl, ap, ◌∙◌, Bool, ◌||◌, Option, none, some, is_some, List, [], ◌∷◌, map, ◌==◌,
  if◌then◌else◌, any, Bool-cases, inl, inr, eq_iff, arith,
}
use common_services_common_u.Js.Text.{to_lower_case}
use common_services_common_u.Js.Value.{Value, str, is_set, has_text}
use common_services_common_u.Console.View.{
  ParameterModel, is_file_type, own_type, scan_types, with_consumes, render_parameter,
  show_parameters, view_type, type_of_ref, or_else, is_place, or_value,
}

-- The type that a description gives a parameter: the first of its fields that is no empty text, or
-- the name of its schema if none is there.
abbrev pub described_type : ParameterModel → Option String
described_type p =
    if has_text p.type
    then p.type
    else if is_some p.data_type
    then p.data_type
    else type_of_ref p.ref

abbrev pub is_upload : ParameterModel → Bool
is_upload p = is_file_type (or_else p.type p.data_type)

-- What a form is sent as: what the operation consumes, or multipart if it names nothing and takes a
-- file.
abbrev pub form_type : Option Value → List ParameterModel → Option Value
form_type consumes ps =
    if is_set consumes
    then consumes
    else if any is_upload ps
    then some (str "multipart/form-data")
    else consumes

abbrev pub shown : Option Value → ParameterModel → ParameterModel
shown consumes p = record p {
  type = described_type p;
  param_type = or_else p.place p.param_type;
  is_body = is_place "body" (or_else p.place p.param_type) || is_place "body" p.place || p.is_body;
  is_file = is_file_type (described_type p) || p.is_file;
  default = or_value p.default p.default_value;
  is_list = p.has_allowable_values || p.is_list;
  consumes = consumes;
}

abbrev written : ParameterModel → ParameterModel
written p = record p { type = some (own_type p) }

abbrev text_or_empty : Option String → String
text_or_empty o = elim (or_else o (some "")) [ none ↦ "" | some t ↦ t ]

is_file_type-text_or_empty :
    (o : Option String) → is_file_type (some (text_or_empty o)) ≡ is_file_type o
unfolding to_lower_case
is_file_type-text_or_empty none = refl
is_file_type-text_or_empty (some s) = elim (Bool-cases (s == "")) [
  | inl e ↦ rw ((eq_iff s "").0 e) refl
  | inr e ↦ rw (text_or_empty, e) refl
]

is_file_type-own_type : (p : ParameterModel) → is_file_type (some (own_type p)) ≡ is_upload p
is_file_type-own_type p = is_file_type-text_or_empty (or_else p.type p.data_type)

-- `type || dataType` of a written type, with the reference behind it.
abbrev second_type : Option String → Option String → Option String → Option String
second_type t d ref = let u = or_else t d in if is_some u then u else type_of_ref ref

abbrev first_type : Option String → Option String → Option String → Option String
first_type t d ref = if has_text t then t else if is_some d then d else type_of_ref ref

second_type-none :
    (d ref : Option String)
    → second_type (some (text_or_empty (or_else none d))) d ref ≡ first_type none d ref
second_type-none none ref = refl
second_type-none (some s) ref = elim (Bool-cases (s == "")) [
  | inl e ↦ rw ((eq_iff s "").0 e) refl
  | inr e ↦ rw (text_or_empty, or_else, e) (rw e refl)
]

second_type-first_type :
    (t d ref : Option String)
    → second_type (some (text_or_empty (or_else t d))) d ref ≡ first_type t d ref
second_type-first_type none d ref = second_type-none d ref
second_type-first_type (some s) d ref = elim (Bool-cases (s == "")) [
  | inl e ↦ rw ((eq_iff s "").0 e) (second_type-none d ref)
  | inr e ↦ rw (text_or_empty, or_else, e) (rw (e, e) refl)
]

view_type-written : (p : ParameterModel) → view_type (written p) ≡ described_type p
view_type-written p = second_type-first_type p.type p.data_type p.ref

abbrev multipart_if : Bool → Option Value → Option Value
multipart_if upload consumes =
    if upload
    then (if is_set consumes then consumes else some (str "multipart/form-data"))
    else consumes

form_type-cons :
    (consumes : Option Value) (p : ParameterModel) (ps : List ParameterModel)
    → form_type (multipart_if (is_upload p) consumes) ps ≡ form_type consumes (p ∷ ps)
form_type-cons consumes p ps = ground arith

scan_types-eq :
    (ps : List ParameterModel) (consumes : Option Value)
    → scan_types ps consumes ≡ (map written ps, form_type consumes ps)
unfolding scan_types
scan_types-eq [] consumes =
    ap (λ c. ([], c))
      (elim (Bool-cases (is_set consumes)) [ inl e ↦ rw e refl | inr e ↦ rw e refl ])
scan_types-eq (p ∷ ps) consumes =
    ap (λ (b : Bool). step (scan_types ps (multipart_if b consumes))) (is_file_type-own_type p)
    ∙ (ap step (scan_types-eq ps (multipart_if (is_upload p) consumes))
        ∙ ap (λ c. (written p ∷ map written ps, c)) (form_type-cons consumes p ps))
  where
    step : List ParameterModel × Option Value → List ParameterModel × Option Value
    step (rest, all) = (written p ∷ rest, all)

render_parameter-shown :
    (consumes : Option Value) (p : ParameterModel)
    → render_parameter (with_consumes consumes (written p)) ≡ shown consumes p
unfolding render_parameter
render_parameter-shown consumes p = rw (view_type-written p) refl

map-shown :
    (consumes : Option Value) (ps : List ParameterModel)
    → map (λ p. render_parameter (with_consumes consumes p)) (map written ps)
      ≡ map (shown consumes) ps
map-shown consumes [] = refl
map-shown consumes (p ∷ ps) = rw (render_parameter-shown consumes p, map-shown consumes ps) refl

-- The two passes of the views over the parameters of an operation, one of which writes what the
-- other reads, against one description of each: its type is the first of type and dataType that is
-- no empty text, else the name of the definition that its schema refers to; its place, default and
-- flags are those of its description; and all get the content type of the form, which is multipart
-- if the operation consumes nothing and any of them, before or behind, is a file.
pub show_parameters-eq-map :
    (consumes : Option Value) (ps : List ParameterModel)
    → show_parameters consumes ps ≡ map (shown (form_type consumes ps)) ps
unfolding show_parameters
show_parameters-eq-map consumes ps =
    ap (λ (all, c). map (λ p. render_parameter (with_consumes c p)) all) (scan_types-eq ps consumes)
    ∙ map-shown (form_type consumes ps) ps

-- ===== src/Console/Form/Laws.antt =====
-- swagger-ui.js, OperationView.submitOperation: what the arguments of a call hold.
use mathlib.Core.List
use common_services_common_u.Base.{
  String, ◌≡◌, refl, sym, ap, Bool, true, false, ◌||◌, ◌&&◌, not, Option, some, List, [], ◌∷◌, ◌==◌,
  eq_iff, if◌then◌else◌, is_empty, arith, Bool-cases, inl, inr,
}
use common_services_common_u.Js.Space.{trim}
use common_services_common_u.Js.Text.{join}
use common_services_common_u.Js.Dict.{Dict, get, put, get-put}
use common_services_common_u.Js.Value.{Value, str, items}
use common_services_common_u.Console.Form.{
  Input, Area, Select, Choice, one, several, Form, is_blank, input_errors, area_errors, put_text,
  read_inputs, read_areas, read_selects, selected, texts_of, choice_text, get_selected_value, call,
  submit_map, submit_operation,
}

abbrev is_given : Option (Option Value) → Bool
is_given (some (some v)) = true
is_given v = false

-- Every required input has an argument in the map.
abbrev pub all_given : List Input → Dict (Option Value) → Bool
all_given [] map = true
all_given (o ∷ os) map = (not o.is_required || is_given (get o.name map)) && all_given os map

and_left : (a b : Bool) → (a && b) ≡ true → a ≡ true
and_left a b h = ground arith

and_right : (a b : Bool) → (a && b) ≡ true → b ≡ true
and_right a b h = ground arith

and_both : (a b : Bool) → a ≡ true → b ≡ true → (a && b) ≡ true
and_both a b h k = ground arith

-- Writing a value takes no argument away.
is_given-put :
    (name key : String) (v : Value) (map : Dict (Option Value))
    → is_given (get name map) ≡ true
    → is_given (get name (put key (some v) map)) ≡ true
is_given-put name key v map h =
    rw get-put (elim (Bool-cases (key == name)) [ inl e ↦ rw e refl | inr e ↦ rw e h ])

or_given : (a b c : Bool) → (b ≡ true → c ≡ true) → (not a || b) ≡ true → (not a || c) ≡ true
or_given true true c h k = h refl
or_given true false c h k = cc
or_given false b c h k = refl

all_given-put :
    (os : List Input) (key : String) (v : Value) (map : Dict (Option Value))
    → all_given os map ≡ true
    → all_given os (put key (some v) map) ≡ true
all_given-put [] key v map h = refl
all_given-put (o ∷ os) key v map h =
    and_both _ _ (or_given o.is_required _ _ (is_given-put o.name key v map) (and_left _ _ h))
      (all_given-put os key v map (and_right _ _ h))

all_given-put_text :
    (os : List Input) (key v : String) (map : Dict (Option Value))
    → all_given os map ≡ true
    → all_given os (put_text key v map) ≡ true
all_given-put_text os key v map h = elim (Bool-cases (is_blank v)) [
  | inl e ↦ rw e h
  | inr e ↦ rw e (all_given-put os key (str v) map h)
]

is_given-put_text :
    (name v : String) (map : Dict (Option Value))
    → is_blank v ≡ false
    → is_given (get name (put_text name v map)) ≡ true
is_given-put_text name v map h = rw (h, get-put) (ground (arith, eq_iff name name))

given_first :
    (is_required is_empty given : Bool)
    → (is_required && is_empty) ≡ false
    → (is_empty ≡ false → given ≡ true)
    → (not is_required || given) ≡ true
given_first true true given h k = cc
given_first true false given h k = k refl
given_first false is_empty given h k = refl

-- One input, by whether it is one for a file.
read_inputs-step :
    (o : Input) (os : List Input) (map : Dict (Option Value)) (is_upload is_file : Bool)
    → (o.type == "file") ≡ is_file
    → read_inputs (o ∷ os) (map, is_upload)
      ≡ read_inputs os (
          if is_file
          then (put o.name o.file (put_text o.name o.value map), true)
          else (put_text o.name o.value map, is_upload))
unfolding read_inputs
read_inputs-step o os map is_upload is_file e =
    ap
      (λ t. read_inputs os (
        if t
        then (put o.name o.file (put_text o.name o.value map), true)
        else (put_text o.name o.value map, is_upload)))
      e

-- The flag of a file stays set.
read_inputs-upload :
    (os : List Input) (map : Dict (Option Value)) → (read_inputs os (map, true)).1 ≡ true
read_inputs-upload [] map = unfold read_inputs in refl
read_inputs-upload (o ∷ os) map = elim (Bool-cases (o.type == "file")) [
  | inl e ↦ rw (read_inputs-step o os map true true e) (read_inputs-upload os _)
  | inr e ↦ rw (read_inputs-step o os map true false e) (read_inputs-upload os _)
]

errors-head :
    (o : Input) (os : List Input)
    → is_empty (input_errors (o ∷ os)) ≡ true
    → ((o.is_required && is_blank o.value) ≡ false) × (is_empty (input_errors os) ≡ true)
unfolding input_errors
errors-head o os h = elim (Bool-cases (o.is_required && is_blank o.value)) [
  | inl e ↦ cc (rw e at h)
  | inr e ↦ (e, rw e at h)
]

read_inputs-all_given :
    (before os : List Input) (map : Dict (Option Value))
    → is_empty (input_errors os) ≡ true
    → all_given before map ≡ true
    → (read_inputs os (map, false)).1 ≡ false
    → (all_given before (read_inputs os (map, false)).0
        && all_given os (read_inputs os (map, false)).0)
      ≡ true
read_inputs-all_given before [] map e h k = unfold read_inputs in rw h refl
read_inputs-all_given before (o ∷ os) map e h k = elim (Bool-cases (o.type == "file")) [
  | inl t ↦ cc (
    read_inputs-upload os (put o.name o.file (put_text o.name o.value map)),
    rw (read_inputs-step o os map false true t) at k,
  )
  | inr t ↦
      let (filled, rest) = errors-head o os e in
      let more = put_text o.name o.value map in
      let now : all_given (o ∷ before) more ≡ true =
        and_both _ _
          (given_first o.is_required (is_blank o.value) _ filled
            (is_given-put_text o.name o.value map))
          (all_given-put_text before o.name o.value map h) in
      let step = read_inputs-step o os map false false t in
      let after = (read_inputs os (more, false)).0 in
      rw step (
        rotate (not o.is_required || is_given (get o.name after)) (all_given before after)
          (all_given os after) (read_inputs-all_given (o ∷ before) os more rest now (rw step at k)))
]
  where
    rotate : (a b c : Bool) → ((a && b) && c) ≡ true → (b && (a && c)) ≡ true
    rotate a b c h = ground arith

read_areas-all_given :
    (os : List Area) (inputs : List Input) (map : Dict (Option Value))
    → all_given inputs map ≡ true
    → all_given inputs (read_areas os map) ≡ true
unfolding read_areas
read_areas-all_given [] inputs map h = h
read_areas-all_given (o ∷ os) inputs map h =
    read_areas-all_given os inputs (put_text o.name o.value map)
      (all_given-put_text inputs o.name o.value map h)

selected-given :
    (options : List (String × Bool))
    → is_blank (join "," (texts_of options)) ≡ false
    → (v : Value) × (vs : List Value) × (selected options ≡ v ∷ vs)
selected-given [] h = cc (let no : true ≡ false = unfold trim in h in no)
selected-given ((v, true) ∷ options) h = (str v, selected options, refl)
selected-given ((v, false) ∷ options) h = selected-given options h

-- A selection that is not blank is a value.
get_selected_value-given :
    (c : Choice) → is_blank (choice_text c) ≡ false → (v : Value) × (get_selected_value c ≡ some v)
unfolding get_selected_value
get_selected_value-given (one v) h = (str v, refl)
get_selected_value-given (several options) h =
    let (v, vs, e) = selected-given options h in rw e (Value.arr (items (v ∷ vs)), refl)

read_selects-step :
    (o : Select) (os : List Select) (map : Dict (Option Value)) (blank : Bool)
    → is_blank (choice_text o.choice) ≡ blank
    → read_selects (o ∷ os) map
      ≡ read_selects os (if blank then map else put o.name (get_selected_value o.choice) map)
unfolding read_selects
read_selects-step o os map blank e =
    ap (λ t. read_selects os (if t then map else put o.name (get_selected_value o.choice) map)) e

read_selects-all_given :
    (os : List Select) (inputs : List Input) (map : Dict (Option Value))
    → all_given inputs map ≡ true
    → all_given inputs (read_selects os map) ≡ true
read_selects-all_given [] inputs map h = unfold read_selects in h
read_selects-all_given (o ∷ os) inputs map h = elim (Bool-cases (is_blank (choice_text o.choice))) [
  | inl e ↦ rw (read_selects-step o os map true e) (read_selects-all_given os inputs map h)
  | inr e ↦
      let (v, g) = get_selected_value-given o.choice e in
      rw (read_selects-step o os map false e, g)
        (read_selects-all_given os inputs (put o.name (some v) map)
          (all_given-put inputs o.name v map h))
]

submit_map-call :
    (form : Form) (read : Dict (Option Value) × Bool) (map : Dict (Option Value))
    → submit_map form read ≡ call map
    → (read.1 ≡ false) × (read_selects form.selects (read_areas form.areas read.0) ≡ map)
submit_map-call form (inputs, true) map e = cc
submit_map-call form (inputs, false) map e = (refl, cc)

is_empty-append : (xs ys : List String) → is_empty (List.◌++◌ xs ys) ≡ true → is_empty xs ≡ true
is_empty-append [] ys h = refl
is_empty-append (x ∷ xs) ys h = cc

-- When the form of an operation is submitted, and calls it, every required input has an argument in
-- the map of the call.
pub submit_operation-all_given :
    (form : Form) (map : Dict (Option Value))
    → submit_operation form ≡ call map
    → all_given form.inputs map ≡ true
unfolding submit_operation
submit_operation-all_given form map h =
    let errors = List.◌++◌ (input_errors form.inputs) (area_errors form.areas) in
    elim (Bool-cases (is_empty errors)) [
      | inr e ↦ cc (rw e at h)
      | inl e ↦
          let (flag, same) =
            submit_map-call form (read_inputs form.inputs ([], false)) map (rw e at h) in
          let read = (read_inputs form.inputs ([], false)).0 in
          let given =
            and_right true (all_given form.inputs read)
              (read_inputs-all_given [] form.inputs [] (is_empty-append _ _ e) refl flag) in
          rw (sym same) (
            read_selects-all_given form.selects form.inputs _
              (read_areas-all_given form.areas form.inputs _ given))
    ]

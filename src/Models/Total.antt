-- ===== src/Models/Total.antt =====
-- lib/swagger-client.js, Model.getMockSignature: the recursion through the models ends.
use Prim.Native.String.{◌++◌}
use mathlib.Core.List
use common_services_common_u.Base.{
  ℕ, zero, suc, ◌≤◌, ◌<◌, String, ◌≡◌, refl, Bool, true, false, ◌||◌, Option, none, some, List, [],
  ◌∷◌, ◌==◌, eq_iff, arith, length, Bool-cases, inl, inr,
}
use common_services_common_u.Js.Dict.{Dict, get}
use common_services_common_u.Models.{
  Model, Property, name_of, properties_of, class_text, has_name, Signature, Call, model_of,
  append_model, append_models, get_mock_signature,
}

-- The models that are not ignored.
abbrev pub count_unless : Bool → ℕ → ℕ
count_unless true n = n
count_unless false n = suc n

abbrev pub remaining : List String → Dict Model → ℕ
remaining ignored [] = 0
remaining ignored ((key, m) ∷ models) =
    count_unless (has_name (name_of m) ignored) (remaining ignored models)

abbrev pub IsWithin : List String → List String → Type 0
IsWithin xs ys = (name : String) → has_name name xs ≡ true → has_name name ys ≡ true

pub has_name-append :
    (name : String) (xs ys : List String)
    → has_name name (List.◌++◌ xs ys) ≡ has_name name xs || has_name name ys
has_name-append name [] ys = refl
has_name-append name (x ∷ xs) ys = rw (has_name-append name xs ys) (ground arith)

pub remaining_le :
    (xs ys : List String) (models : Dict Model)
    → IsWithin xs ys
    → remaining ys models ≤ remaining xs models
remaining_le xs ys [] h = omega arith
remaining_le xs ys ((key, m) ∷ models) h =
    go (has_name (name_of m) xs) (has_name (name_of m) ys) (h (name_of m))
      (remaining_le xs ys models h)
  where
    go :
        (a b : Bool) {x y : ℕ} → (a ≡ true → b ≡ true) → y ≤ x → count_unless b y ≤ count_unless a x
    go true true h k = k
    go true false h k = cc (h refl)
    go false true h k = omega arith
    go false false h k = omega arith

pub remaining_le_length :
    (ignored : List String) (models : Dict Model) → remaining ignored models ≤ length models
remaining_le_length ignored [] = omega arith
remaining_le_length ignored ((key, m) ∷ models) =
    go (has_name (name_of m) ignored) (remaining_le_length ignored models)
  where
    go : (a : Bool) {x n : ℕ} → x ≤ n → count_unless a x ≤ suc n
    go true h = omega arith
    go false h = omega arith

pub IsWithin-append : (xs ys : List String) → IsWithin xs (List.◌++◌ xs ys)
IsWithin-append xs ys name h = rw (has_name-append name xs ys, h) refl

pub has_last : (name : String) (xs : List String) → has_name name (List.◌++◌ xs (name ∷ [])) ≡ true
has_last name xs = rw (has_name-append name xs (name ∷ [])) (ground (arith, eq_iff name name))

count_unless_lt :
    (a b : Bool) (x y : ℕ) → (a ≡ true → b ≡ true) → y < x → count_unless b y < count_unless a x
count_unless_lt true true x y h k = k
count_unless_lt true false x y h k = cc (h refl)
count_unless_lt false true x y h k = omega arith
count_unless_lt false false x y h k = omega arith

-- Ignoring a model that is there leaves fewer.
pub remaining_lt :
    (ref : String) (m : Model) (ignored : List String) (models : Dict Model)
    → get ref models ≡ some m
    → has_name (name_of m) ignored ≡ false
    → remaining (List.◌++◌ ignored (name_of m ∷ [])) models < remaining ignored models
unfolding get
remaining_lt ref m ignored [] e h = cc
remaining_lt ref m ignored ((key, k) ∷ models) e h =
    let more = List.◌++◌ ignored (name_of m ∷ []) in
    elim (Bool-cases (key == ref)) [
      | inl t ↦
          let same : k ≡ m = cc (rw t at e) in
          let le = remaining_le ignored more models (IsWithin-append ignored (name_of m ∷ [])) in
          rw (same, has_last (name_of m) ignored, h) (omega (arith, le))
      | inr f ↦
          count_unless_lt _ _ _ _ (IsWithin-append ignored (name_of m ∷ []) (name_of k))
            (remaining_lt ref m ignored models (rw f at e) h)
    ]

-- What a call returns: a text, and at least the names that it was given.
abbrev pub Returns : Signature → List String → Type 0
Returns s ignored =
    (text : String) × (after : List String) × (s ≡ some (text, after)) × IsWithin ignored after

module _ (models : Dict Model) where
  abbrev pub IsTotalBelow : ℕ → Call → Type 0
  IsTotalBelow n call =
      (m : Model) (ignored : List String)
      → remaining (List.◌++◌ ignored (name_of m ∷ [])) models < n
      → Returns (call m ignored) ignored

  model_of-get :
      (ref : Option String) (m : Model)
      → model_of models ref ≡ some m
      → (key : String) × (get key models ≡ some m)
  model_of-get none m e = ("undefined", e)
  model_of-get (some ref) m e = (ref, e)

  pub append_model-Returns :
      (n : ℕ) (call : Call) (o : Option Model) (text : String) (ignored : List String)
      (later : String → List String → Signature)
      → IsTotalBelow n call
      → ((m : Model) → o ≡ some m → (key : String) × (get key models ≡ some m))
      → remaining ignored models ≤ n
      → ((t : String) (names : List String)
          → IsWithin ignored names
          → Returns (later t names) names)
      → Returns (append_model models call o text ignored later) ignored
  append_model-Returns n call none text ignored later total found h k = k text ignored (λ name x. x)
  append_model-Returns n call (some m) text ignored later total found h k =
      elim (Bool-cases (has_name (name_of m) ignored)) [
        | inl e ↦ rw e (k text ignored (λ name x. x))
        | inr e ↦
            let (key, g) = found m refl in
            let lt = remaining_lt key m ignored models g e in
            let (t, names, r, w) = total m ignored (omega (arith, lt, h)) in
            let (u, after, s, v) = k (text ++ ("<br>" ++ t)) names w in
            rw (e, r) (u, after, s, λ name x. v name (w name x))
      ]

  append_models-Returns :
      (n : ℕ) (call : Call) (ps : List Property) (text : String) (ignored : List String)
      → IsTotalBelow n call
      → remaining ignored models ≤ n
      → Returns (append_models models call ps text ignored) ignored
  unfolding append_models
  append_models-Returns n call [] text ignored total h = (text, ignored, refl, λ name x. x)
  append_models-Returns n call (p ∷ ps) text ignored total h =
      append_model-Returns n call (model_of models p.ref) text ignored
        (append_models models call ps) total (model_of-get p.ref) h
        (λ t names w.
          append_models-Returns n call ps t names total
            (omega (arith, h, remaining_le ignored names models w)))

  get_mock_signature-Returns : (fuel : ℕ) → IsTotalBelow fuel (get_mock_signature models fuel)
  unfolding get_mock_signature
  get_mock_signature-Returns zero m ignored h = absurd (omega (arith, h))
  get_mock_signature-Returns (suc fuel) m ignored h =
      let more = List.◌++◌ ignored (name_of m ∷ []) in
      let (t, after, e, w) =
        append_models-Returns fuel (get_mock_signature models fuel) (properties_of m) (class_text m)
          more (get_mock_signature-Returns fuel) (omega (arith, h)) in
      (t, after, e, λ name x. w name (IsWithin-append ignored (name_of m ∷ []) name x))

  -- The recursion ends on every store of models, however they refer to each other: with more fuel
  -- than there are models, the signature of any model is returned, whatever is ignored.
  pub get_mock_signature_total :
      (fuel : ℕ) (m : Model) (ignored : List String)
      → length models < fuel
      → (text : String) × (after : List String) × (get_mock_signature models fuel m ignored
          ≡ some (text, after))
  get_mock_signature_total fuel m ignored h =
      let more = List.◌++◌ ignored (name_of m ∷ []) in
      let (text, after, e, w) =
        get_mock_signature-Returns fuel m ignored
          (omega (arith, h, remaining_le_length more models)) in
      (text, after, e)

-- ===== src/Listing/Model/Samples.antt =====
-- lib/swagger-client.js, SwaggerModel.createJSONSample: its recursion through the models ends.
use mathlib.Core.List
use common_services_common_u.Base.{
  ℕ, zero, suc, ◌≤◌, ◌<◌, String, ◌≡◌, refl, ap, Option, none, some, List, [], ◌∷◌, arith, length,
  Bool-cases, inl, inr, ◌==◌,
}
use common_services_common_u.Js.Dict.{Dict, get}
use common_services_common_u.Js.Value.{Value, Fields, no_fields}
use common_services_common_u.Models.{has_name}
use common_services_common_u.Models.Total.{remaining, remaining_lt, remaining_le_length}
use common_services_common_u.Listing.Model.{ModelProperty, ListedModel, shapes, shape_of}
use common_services_common_u.Listing.Model.Sample.{
  Call, referred, sample_with, sample_fields, set_defined, create_sample,
}

get-shapes :
    (key : String) (m : ListedModel) (models : Dict ListedModel)
    → get key models ≡ some m
    → get key (shapes models) ≡ some (shape_of m)
unfolding get
get-shapes key m [] e = cc
get-shapes key m ((k, n) ∷ models) e = elim (Bool-cases (k == key)) [
  | inl t ↦ rw t (ap some (ap shape_of (cc (rw t at e))))
  | inr f ↦ rw f (get-shapes key m models (rw f at e))
]

module _ (models : Dict ListedModel) where
  abbrev EndsBelow : ℕ → Call → Type 0
  EndsBelow n call =
      (m : ListedModel) (ignored : List String)
      → remaining (List.◌++◌ ignored (m.name ∷ [])) (shapes models) < n
      → (fs : Fields) × (call m ignored ≡ some fs)

  abbrev Returns : Option Fields → Type 0
  Returns o = (fs : Fields) × (o ≡ some fs)

  sample_with-Returns :
      (n : ℕ) (call : Call) (p : ModelProperty) (o : Option ListedModel) (ignored : List String)
      (f : Option Value → Option Fields)
      → EndsBelow n call
      → ((m : ListedModel) → o ≡ some m → (key : String) × (get key models ≡ some m))
      → remaining ignored (shapes models) ≤ n
      → ((v : Option Value) → Returns (f v))
      → Returns (sample_with models call p o ignored f)
  sample_with-Returns n call p none ignored f total found h k = k _
  sample_with-Returns n call p (some m) ignored f total found h k =
      elim (Bool-cases (has_name m.name ignored)) [
        | inl e ↦ rw e (k _)
        | inr e ↦
            let (key, g) = found m refl in
            let lt =
              remaining_lt key (shape_of m) ignored (shapes models) (get-shapes key m models g) e in
            let (fs, r) = total m ignored (omega (arith, lt, h)) in rw (e, r) (k _)
      ]

  referred-get :
      (ref : Option String) (m : ListedModel)
      → referred models ref ≡ some m
      → (key : String) × (get key models ≡ some m)
  referred-get none m e = cc
  referred-get (some key) m e = (key, e)

  sample_fields-Returns :
      (n : ℕ) (call : Call) (ps : List ModelProperty) (ignored : List String) (fs : Fields)
      → EndsBelow n call
      → remaining ignored (shapes models) ≤ n
      → Returns (sample_fields models call ps ignored fs)
  unfolding sample_fields
  sample_fields-Returns n call [] ignored fs total h = (fs, refl)
  sample_fields-Returns n call (p ∷ ps) ignored fs total h =
      sample_with-Returns n call p (referred models p.ref_model) ignored _ total
        (referred-get p.ref_model) h
        (λ v. sample_fields-Returns n call ps ignored (set_defined p.name v fs) total h)

  create_sample-EndsBelow : (fuel : ℕ) → EndsBelow fuel (create_sample models fuel)
  unfolding create_sample
  create_sample-EndsBelow zero m ignored h = absurd (omega (arith, h))
  create_sample-EndsBelow (suc fuel) m ignored h =
      sample_fields-Returns fuel (create_sample models fuel) m.properties
        (List.◌++◌ ignored (m.name ∷ [])) no_fields (create_sample-EndsBelow fuel)
        (omega (arith, h))

  -- The sample of any model of a description of the older versions is returned, however its models
  -- refer to each other, with more fuel than there are models.
  pub create_sample_total :
      (fuel : ℕ) (m : ListedModel) (ignored : List String)
      → length (shapes models) < fuel
      → (fs : Fields) × (create_sample models fuel m ignored ≡ some fs)
  create_sample_total fuel m ignored h =
      create_sample-EndsBelow fuel m ignored
        (omega (arith, h, remaining_le_length (List.◌++◌ ignored (m.name ∷ [])) (shapes models)))

-- ===== src/Listing/Model/Total.antt =====
-- lib/swagger-client.js, SwaggerModel.getMockSignature: its recursion ends, and it prints what version 2
-- prints.
use Prim.Native.String.{◌++◌}
use mathlib.Core.List
use common_services_common_u.Base.{
  ℕ, zero, suc, ◌≤◌, ◌<◌, String, ◌≡◌, refl, ap, ◌∙◌, Option, none, some, List, [], ◌∷◌, arith,
  length, fun_ext, if◌then◌else◌,
}
use common_services_common_u.Js.Dict.{Dict, get}
use common_services_common_u.Models
use common_services_common_u.Models.{
  name_of, properties_of, class_text, Signature, Call, append_model, append_models,
  get_mock_signature, model_of, has_name, go_on_with,
}
use common_services_common_u.Models.Total.{
  remaining, IsWithin-append, remaining_le, remaining_le_length, Returns, IsTotalBelow,
  append_model-Returns,
}
use common_services_common_u.Listing.Model.{
  ListedModel, shapes, append_text, append_ref, listed_class_text, ref_model_of, append_ref_models,
  listed_signature,
}

module _ (models : Dict ListedModel) where
  ref_model_of-get :
      (ref : Option String) (m : Models.Model)
      → ref_model_of models ref ≡ some m
      → (key : String) × (get key (shapes models) ≡ some m)
  ref_model_of-get none m e = cc
  ref_model_of-get (some ref) m e = (ref, e)

  append_text-go_on_with :
      (s : Signature) (text : String) (later : String → List String → Signature)
      → append_text text s later ≡ go_on_with (shapes models) s (λ t. later (text ++ ("<br>" ++ t)))
  append_text-go_on_with none text later = refl
  append_text-go_on_with (some (t, ignored)) text later = refl

  -- The two versions of the body of the loop, each with a text of its own.
  append_ref-eq :
      (call : Call) (o : Option Models.Model) (text : String) (ignored : List String)
      (later : String → List String → Signature)
      → append_ref call o text ignored later
        ≡ append_model (shapes models) call o text ignored later
  append_ref-eq call none text ignored later = refl
  append_ref-eq call (some m) text ignored later =
      ap (λ s. if has_name (name_of m) ignored then later text ignored else s)
        (append_text-go_on_with (call m ignored) text later)

  append_ref_models-Returns :
      (n : ℕ) (call : Call) (ps : List Models.Property) (text : String) (ignored : List String)
      → IsTotalBelow (shapes models) n call
      → remaining ignored (shapes models) ≤ n
      → Returns (append_ref_models models call ps text ignored) ignored
  unfolding append_ref_models
  append_ref_models-Returns n call [] text ignored total h = (text, ignored, refl, λ name x. x)
  append_ref_models-Returns n call (p ∷ ps) text ignored total h =
      rw
        (append_ref-eq call (ref_model_of models p.ref) text ignored
          (append_ref_models models call ps))
        (append_model-Returns (shapes models) n call (ref_model_of models p.ref) text ignored
          (append_ref_models models call ps) total (ref_model_of-get p.ref) h
          (λ t names w.
            append_ref_models-Returns n call ps t names total
              (omega (arith, h, remaining_le ignored names (shapes models) w))))

  listed_signature-Returns :
      (fuel : ℕ) → IsTotalBelow (shapes models) fuel (listed_signature models fuel)
  unfolding listed_signature
  listed_signature-Returns zero m ignored h = absurd (omega (arith, h))
  listed_signature-Returns (suc fuel) m ignored h =
      let more = List.◌++◌ ignored (name_of m ∷ []) in
      let (t, after, e, w) =
        append_ref_models-Returns fuel (listed_signature models fuel) (properties_of m)
          (listed_class_text m) more (listed_signature-Returns fuel) (omega (arith, h)) in
      (t, after, e, λ name x. w name (IsWithin-append ignored (name_of m ∷ []) name x))

  -- The signature of any model of a description is returned, however its models refer to each other,
  -- with more fuel than there are models.
  pub listed_signature_total :
      (fuel : ℕ) (m : Models.Model) (ignored : List String)
      → length (shapes models) < fuel
      → (text : String) × (after : List String) × (listed_signature models fuel m ignored
          ≡ some (text, after))
  listed_signature_total fuel m ignored h =
      let more = List.◌++◌ ignored (name_of m ∷ []) in
      let (text, after, e, w) =
        listed_signature-Returns fuel m ignored
          (omega (arith, h, remaining_le_length more (shapes models))) in
      (text, after, e)

  ref_model_of-model_of :
      (ref : Option String)
      → get "undefined" (shapes models) ≡ none
      → ref_model_of models ref ≡ model_of (shapes models) ref
  ref_model_of-model_of none h = cc
  ref_model_of-model_of (some key) h = refl

  append_ref_models-eq :
      (call : Call) (ps : List Models.Property) (text : String) (ignored : List String)
      → get "undefined" (shapes models) ≡ none
      → append_ref_models models call ps text ignored
        ≡ append_models (shapes models) call ps text ignored
  unfolding append_ref_models append_models
  append_ref_models-eq call [] text ignored h = refl
  append_ref_models-eq call (p ∷ ps) text ignored h =
      append_ref-eq call (ref_model_of models p.ref) text ignored (append_ref_models models call ps)
      ∙ ap
          (λ o. append_model (shapes models) call o text ignored (append_ref_models models call ps))
          (ref_model_of-model_of p.ref h)
      ∙ ap (append_model (shapes models) call (model_of (shapes models) p.ref) text ignored)
          (fun_ext (λ t. fun_ext (λ names. append_ref_models-eq call ps t names h)))

  -- Where no model is named "undefined", the signatures of models of the older versions are those that
  -- version 2 prints for models with the same texts and references.
  pub listed_signature-eq-get_mock_signature :
      (fuel : ℕ) (m : Models.Model) (ignored : List String)
      → get "undefined" (shapes models) ≡ none
      → listed_signature models fuel m ignored ≡ get_mock_signature (shapes models) fuel m ignored
  unfolding listed_signature get_mock_signature
  listed_signature-eq-get_mock_signature zero m ignored h = refl
  listed_signature-eq-get_mock_signature (suc fuel) m ignored h =
      let more = List.◌++◌ ignored (name_of m ∷ []) in
      append_ref_models-eq (listed_signature models fuel) (properties_of m) (listed_class_text m)
        more h
      ∙ ap (λ call. append_models (shapes models) call (properties_of m) (class_text m) more)
          (fun_ext (λ k. fun_ext (λ names. listed_signature-eq-get_mock_signature fuel k names h)))

-- ===== src/Tests/Construct.antt =====
-- What the constructor of an operation makes of its description.
use common_services_common_u.Base.{◌≡◌, refl, true, false, none, some, [], ◌∷◌}
use common_services_common_u.Js.Dict.{get, delete}
use common_services_common_u.Js.Text.{to_lower_case}
use common_services_common_u.Js.Value.{bool, str}
use common_services_common_u.Schema.{schema, no_schema, items_of, get_parameter_type}
use common_services_common_u.Schema.Signature.{resolve_model, type_text}
use common_services_common_u.Operation.Construct.{
  deprecated_of, show_parameter, is_same, Response, success_response, a_type,
}
use common_services_common_u.Tests.Models.{no_facets}

deprecated : deprecated_of (some (str "YES")) ≡ some (bool true)
unfolding deprecated_of to_lower_case
deprecated = refl

-- Items with values of their own do not make a list: the test is of the parameter's own `enum`.
shown_items :
    show_parameter
      (schema
        (record no_facets { type = some "array" })
        (items_of (
          schema
            (record no_facets { type = some "string"; enum = some (str "a" ∷ []) })
            no_schema)))
      none
    ≡ record { is_list = false; allow_multiple = false; enum = none; allowable_values = none }
unfolding show_parameter get_parameter_type to_lower_case type_text
shown_items = refl

shown_boolean :
    show_parameter
      (schema (record no_facets { type = some "boolean"; default = some (str "true") }) no_schema)
      none
    ≡ record {
      is_list = true;
      allow_multiple = false;
      enum = some (str "true" ∷ str "false" ∷ []);
      allowable_values = some ((str "true", true) ∷ (str "false", false) ∷ []);
    }
unfolding show_parameter get_parameter_type to_lower_case type_text is_same
shown_boolean = refl

abbrev text_response : Response
text_response = record {
  schema_of = some (schema (record no_facets { type = some "string" }) no_schema);
}

abbrev no_response : Response
no_response = record { schema_of = none }

success :
    success_response []
      (("404", no_response) ∷ ("201", text_response) ∷ ("default", no_response) ∷ [])
    ≡ (("404", no_response) ∷ ("default", no_response) ∷ [], some ("201", a_type (some "string")))
unfolding success_response get delete resolve_model
success = refl

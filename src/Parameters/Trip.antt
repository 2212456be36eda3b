-- ===== src/Parameters/Trip.antt =====
-- src/common/Parameter.cpp: a parameter written as JSON and read again.
use lib_stereo_camera.Common.{String, ◌≡◌, refl, some, string_discrete, lookup}
use lib_stereo_camera.Types.{ParameterType}
use lib_stereo_camera.Client.{ParameterValue, object, string}
use lib_stereo_camera.Json.{JsonOps, IsJson, FitsInt, members_of, at-members_of}
use lib_stereo_camera.Parameters.{
  Parameter, Fresh, new_value, new_parameter, to_json, parameter_members, value_from, integer_from,
  float_from, enum_from, from_json,
}

module _ {R : Type 0} (fresh : Fresh R) where
  -- What is kept of a value: the member that the parameter's type names.
  unfoldable pub kept_value : ParameterType → ParameterValue R → ParameterValue R
  unfolding new_value
  kept_value ParameterType.integer v = record (new_value fresh) { int_val = v.int_val }
  kept_value ParameterType.float v = record (new_value fresh) {
    float_val = v.float_val;
    type = ParameterType.float;
  }
  kept_value ParameterType.enum v = record (new_value fresh) {
    enum_val = v.enum_val;
    type = ParameterType.enum;
  }

  unfoldable pub kept : Parameter R → Parameter R
  unfolding kept_value
  kept p = record p { value = kept_value p.type p.value }

-- The text of each type.
abbrev type_text : ParameterType → String
type_text ParameterType.integer = "integer"
type_text ParameterType.float = "float"
type_text ParameterType.enum = "enum"

module _ {R : Type 0} {lib : JsonOps R} (json : IsJson lib) (fresh : Fresh R) where
  type_member :
      (t : ParameterType) (p : Parameter R)
      → lookup string_discrete "type" (parameter_members t p) ≡ some (string (type_text t))
  unfolding parameter_members lookup string_discrete
  type_member ParameterType.integer p = refl
  type_member ParameterType.float p = refl
  type_member ParameterType.enum p = refl

  -- The branch of the type reads back the member that it names.
  value_from_members :
      (t : ParameterType) (p q : Parameter R)
      → FitsInt p.value.int_val
      → q.value ≡ new_value fresh
      → value_from lib fresh (type_text t) (object (members_of (parameter_members t p))) q
        ≡ some (record q { type = t; value = kept_value fresh t p.value })
  unfolding value_from integer_from float_from enum_from parameter_members lookup string_discrete
      kept_value
  value_from_members ParameterType.integer p q fits e =
      rw
        (
          at-members_of json "value" (parameter_members ParameterType.integer p) refl,
          json.get_int_integer p.value.int_val fits,
          e,
        )
        refl
  value_from_members ParameterType.float p q fits e =
      rw
        (
          at-members_of json "value" (parameter_members ParameterType.float p) refl,
          json.get_real_float p.value.float_val,
          e,
        )
        refl
  value_from_members ParameterType.enum p q fits e =
      rw
        (
          at-members_of json "value" (parameter_members ParameterType.enum p) refl,
          json.get_text_string p.value.enum_val,
          e,
        )
        refl

  -- A parameter whose integer is one of an `int`, written as JSON and read again, is the parameter, but
  -- that of its value only the member that its type names is kept, and the type with it.
  pub from_json-to_json :
      (p : Parameter R)
      → FitsInt p.value.int_val
      → from_json lib fresh (to_json p) ≡ some (kept fresh p)
  unfolding to_json kept from_json new_parameter parameter_members lookup string_discrete
  from_json-to_json p fits =
      let ms = parameter_members p.type p in
      rw
        (
          at-members_of json "name" ms refl,
          at-members_of json "is_readonly" ms refl,
          at-members_of json "is_available" ms refl,
          at-members_of json "type" ms (type_member p.type p),
          json.get_text_string p.name,
          json.get_bool_boolean p.is_readonly,
          json.get_bool_boolean p.is_available,
          json.get_text_string (type_text p.type),
        )
        (value_from_members p.type p
          (record (new_parameter fresh) {
            name = p.name;
            is_readonly = p.is_readonly;
            is_available = p.is_available;
          })
          fits refl)

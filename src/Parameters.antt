-- ===== src/Parameters.antt =====
-- src/common/Parameter.cpp and include/stereo_camera/common/Parameter.h: the parameters, their table and
-- their JSON.
pub mod Trip
pub mod Table
use lib_stereo_camera.Common.{
  String, List, [], ◌∷◌, map, Bool, true, false, Option, none, some, if◌then◌else◌, is_yes, Assoc,
  lookup, insert, string_discrete, not, pos, ◌>>=◌,
}
use lib_stereo_camera.Types.{ParameterType}
use lib_stereo_camera.Client.{ParameterValue, Json, integer, float, string, boolean, array, object}
use lib_stereo_camera.Json.{JsonOps, elements_of, members_of}

-- `struct Parameter`
pub record Parameter (R : Type 0) : Type 0 where
  pub name : String
  pub type : ParameterType
  pub value : ParameterValue R
  pub is_readonly : Bool
  pub is_available : Bool

-- What C++ leaves in the members of a `Parameter p;` that it does not initialise, and the double 0.
pub record Fresh (R : Type 0) : Type 0 where
  pub type : ParameterType
  pub is_readonly : Bool
  pub is_available : Bool
  pub zero : R

module _ {R : Type 0} (fresh : Fresh R) where
  -- `ParameterValue{}`
  unfoldable pub new_value : ParameterValue R
  new_value = record {
    int_val = pos 0;
    float_val = fresh.zero;
    enum_val = "";
    type = ParameterType.integer;
  }

  unfoldable pub new_parameter : Parameter R
  unfolding new_value
  new_parameter = record {
    name = "";
    type = fresh.type;
    value = new_value;
    is_readonly = fresh.is_readonly;
    is_available = fresh.is_available;
  }

module _ {R : Type 0} where
  -- The members of a parameter's object, in the order of their keys, in which the object holds them;
  -- the last two depend on the type.
  unfoldable pub parameter_members : ParameterType → Parameter R → List (String × Json R)
  parameter_members t p =
      ("is_available", boolean p.is_available)
      ∷ ("is_readonly", boolean p.is_readonly)
      ∷ ("name", string p.name)
      ∷ value_members t p.value
    where
      value_members : ParameterType → ParameterValue R → List (String × Json R)
      value_members ParameterType.integer v =
          ("type", string "integer") ∷ ("value", integer v.int_val) ∷ []
      value_members ParameterType.float v =
          ("type", string "float") ∷ ("value", float v.float_val) ∷ []
      value_members ParameterType.enum v =
          ("type", string "enum") ∷ ("value", string v.enum_val) ∷ []

  -- `Parameter::to_json`
  unfoldable pub to_json : Parameter R → Json R
  to_json p = object (members_of (parameter_members p.type p))

module _ {R : Type 0} (lib : JsonOps R) (fresh : Fresh R) where
  abbrev get_at : {A : Type 0} → (Json R → Option A) → String → Json R → Option A
  get_at get key j = do v ← lib.at key j; get v

  -- The branches on the text of the type; another text leaves the type as it is.
  unfoldable pub integer_from : Json R → Parameter R → Option (Parameter R)
  integer_from j p = do
    n ← get_at lib.get_int "value" j
    some (record p {
      type = ParameterType.integer;
      value = record p.value { int_val = n; type = ParameterType.integer };
    })

  unfoldable pub float_from : Json R → Parameter R → Option (Parameter R)
  float_from j p = do
    x ← get_at lib.get_real "value" j
    some (record p {
      type = ParameterType.float;
      value = record p.value { float_val = x; type = ParameterType.float };
    })

  unfoldable pub enum_from : Json R → Parameter R → Option (Parameter R)
  enum_from j p = do
    s ← get_at lib.get_text "value" j
    some (record p {
      type = ParameterType.enum;
      value = record p.value { enum_val = s; type = ParameterType.enum };
    })

  unfoldable pub value_from : String → Json R → Parameter R → Option (Parameter R)
  unfolding integer_from float_from enum_from
  value_from t j p =
      if is_yes (string_discrete t "integer")
      then integer_from j p
      else if is_yes (string_discrete t "float")
      then float_from j p
      else if is_yes (string_discrete t "enum")
      then enum_from j p
      else some p

  -- `Parameter::from_json`; none where it throws.
  unfoldable pub from_json : Json R → Option (Parameter R)
  unfolding new_parameter value_from
  from_json j = do
    name ← get_at lib.get_text "name" j
    is_readonly ← get_at lib.get_bool "is_readonly" j
    is_available ← get_at lib.get_bool "is_available" j
    t ← get_at lib.get_text "type" j
    value_from t j (record (new_parameter fresh) {
      name = name;
      is_readonly = is_readonly;
      is_available = is_available;
    })

-- `class ParameterManager`
abbrev pub ParameterManager : Type 0 → Type 0
ParameterManager R = Assoc String (Parameter R)

module _ {R : Type 0} where
  unfoldable pub define : Parameter R → ParameterManager R → ParameterManager R
  define p params = insert string_discrete p.name p params

  -- An unknown name gives a parameter that is not available.
  unfoldable pub get : Fresh R → String → ParameterManager R → Parameter R
  unfolding new_parameter
  get fresh name params = elim (lookup string_discrete name params) [
    | none ↦ record (new_parameter fresh) { name = name; is_available = false }
    | some p ↦ p
  ]

  unfoldable pub set_value :
      String
      → ParameterValue R
      → Option (Parameter R)
      → ParameterManager R
      → ParameterManager R × Bool
  set_value name value none params = (params, false)
  set_value name value (some p) params =
      if p.is_readonly
      then (params, false)
      else if not p.is_available
      then (params, false)
      else (insert string_discrete name (record p { value = value }) params, true)

  -- `ParameterManager::set`
  unfoldable pub set : String → ParameterValue R → ParameterManager R → ParameterManager R × Bool
  unfolding set_value
  set name value params = set_value name value (lookup string_discrete name params) params

  unfoldable pub list : ParameterManager R → List (Parameter R)
  list params = map (λ e. e.1) params

  -- `ParameterManager::to_json`
  unfoldable pub all_to_json : ParameterManager R → Json R
  unfolding to_json elements_of
  all_to_json params = array (elements_of (map (λ e. to_json e.1) params))

module _ {R : Type 0} (lib : JsonOps R) (fresh : Fresh R) where
  -- The loop of `ParameterManager::from_json`, with whether it got to the end: what it read before a
  -- throw stays.
  unfoldable pub read_all : List (Json R) → ParameterManager R → ParameterManager R × Bool
  unfolding define
  read_all [] params = (params, true)
  read_all (item ∷ items) params = elim (from_json lib fresh item) [
    | none ↦ (params, false)
    | some p ↦ read_all items (define p params)
  ]

  unfoldable pub all_from_json : Json R → ParameterManager R → ParameterManager R × Bool
  unfolding read_all
  all_from_json j params = read_all (lib.items j) params

-- ===== src/Admin/Commands.antt =====
-- src/api/AdminServer.cpp: a command that a client writes as JSON reaches its handler.
use lib_stereo_camera.Common.{
  ℕ, ◌≡◌, refl, ap₂, String, List, [], ◌∷◌, map, true, some, lookup, string_discrete,
}
use lib_stereo_camera.Types.{DataType, data_type_to_channel, ParameterType}
use lib_stereo_camera.Client.{Json, Replies, ParameterValue, string, integer, float, array, object}
use lib_stereo_camera.Json.{JsonOps, IsJson, FitsInt, elements_of, members_of, at-members_of}
use lib_stereo_camera.Parameters.{Fresh}
use lib_stereo_camera.Parameters.Trip.{kept_value}
use lib_stereo_camera.Sessions.Commands.{
  Command, inits, disposes, connects, disconnects, starts_capture, stops_capture, sets_parameter,
  gets_parameter, handle,
}
use lib_stereo_camera.Sessions.Status.{Node}
use lib_stereo_camera.Admin.{
  is_object, command_of, read_body, data_types, value_of, parameter_value, response_json,
}
use lib_stereo_camera.Admin.Route.{
  put_handler, dispatch, route_set_parameter, route_get_parameter, answer, route_read, route,
}

module _ {R : Type 0} where
  -- The member that holds a value.
  abbrev pub value_json : ParameterType → ParameterValue R → Json R
  value_json ParameterType.integer v = integer v.int_val
  value_json ParameterType.float v = float v.float_val
  value_json ParameterType.enum v = string v.enum_val

  -- The name of a command and its arguments, as a client writes them.
  abbrev pub command_name : Command R → String
  command_name inits = "init"
  command_name disposes = "dispose"
  command_name connects = "connect"
  command_name disconnects = "disconnect"
  command_name (starts_capture ts) = "start_capture"
  command_name (stops_capture ts) = "stop_capture"
  command_name (sets_parameter name value) = "set_parameter"
  command_name (gets_parameter name) = "get_parameter"

  abbrev pub types_json : List DataType → Json R
  types_json ts = array (elements_of (map (λ t. string (data_type_to_channel t)) ts))

  abbrev pub arguments : Command R → List (String × Json R)
  arguments (starts_capture ts) = ("data_types", types_json ts) ∷ []
  arguments (stops_capture ts) = ("data_types", types_json ts) ∷ []
  arguments (sets_parameter name value) =
      ("name", string name) ∷ ("value", value_json value.type value) ∷ []
  arguments (gets_parameter name) = ("name", string name) ∷ []
  arguments c = []

  abbrev pub request_members : String → Command R → List (String × Json R)
  request_members id c =
      ("command", string (command_name c)) ∷ ("client_id", string id) ∷ arguments c

  -- A value's integer is one of an `int`.
  abbrev pub Fits : Command R → Type 0
  Fits (sets_parameter name value) = FitsInt value.int_val
  Fits c = Unit

  -- What is received of a command: of a value only what its type names.
  abbrev pub received : Fresh R → Command R → Command R
  received fresh (sets_parameter name value) =
      sets_parameter name (kept_value fresh value.type value)
  received fresh c = c

module _ {R : Type 0} {lib : JsonOps R} (json : IsJson lib) (fresh : Fresh R) (reply : Replies R)
    (percent : ℕ → ℕ → R) where
  -- The data types of a request come back as they were.
  get_types :
      (ts : List DataType) → map lib.get_type (map (λ t. string (data_type_to_channel t)) ts) ≡ ts
  get_types [] = refl
  get_types (t ∷ ts) = ap₂ (λ u us. u ∷ us) (json.get_type_string t) (get_types ts)

  data_types_lem :
      (j : Json R) (ts : List DataType)
      → lib.at "data_types" j ≡ some (types_json ts)
      → data_types lib j ≡ ts
  unfolding data_types
  data_types_lem j ts e =
      rw
        (
          json.contains_found "data_types" j e,
          e,
          json.items_array (map (λ t. string (data_type_to_channel t)) ts),
        )
        (get_types ts)

  value_of_lem :
      (t : ParameterType) (v : ParameterValue R)
      → FitsInt v.int_val
      → value_of lib fresh (value_json t v) ≡ some (kept_value fresh t v)
  unfolding value_of kept_value
  value_of_lem ParameterType.integer v fits =
      rw (json.integer_kind v.int_val, json.get_int_integer v.int_val fits) refl
  value_of_lem ParameterType.float v fits =
      rw
        (
          (json.float_kind v.float_val).0,
          (json.float_kind v.float_val).1,
          json.get_real_float v.float_val,
        )
        refl
  value_of_lem ParameterType.enum v fits =
      rw
        (
          (json.string_kind v.enum_val).0,
          (json.string_kind v.enum_val).1,
          (json.string_kind v.enum_val).2,
          json.get_text_string v.enum_val,
        )
        refl

  -- The object that a client sends, and its members.
  abbrev request_json : String → Command R → Json R
  request_json id c = object (members_of (request_members id c))

  member_at :
      (k id : String) (c : Command R) {v : Json R}
      → lookup string_discrete k (request_members id c) ≡ some v
      → lib.at k (request_json id c) ≡ some v
  member_at k id c e = at-members_of json k (request_members id c) e

  dispatch_lem :
      (id : String) (c : Command R) (n : Node R)
      → Fits c
      → dispatch lib fresh reply percent (command_name c) id (request_json id c) n
        ≡ some (put_handler n (handle reply id (received fresh c) n.handler))
  unfolding dispatch handle string_discrete route_set_parameter route_get_parameter lookup
      parameter_value
  dispatch_lem id inits n fits = refl
  dispatch_lem id disposes n fits = refl
  dispatch_lem id connects n fits = refl
  dispatch_lem id disconnects n fits = refl
  dispatch_lem id (starts_capture ts) n fits =
      rw
        (data_types_lem (request_json id (starts_capture ts)) ts
          (member_at "data_types" id (starts_capture ts) refl))
        refl
  dispatch_lem id (stops_capture ts) n fits =
      rw
        (data_types_lem (request_json id (stops_capture ts)) ts
          (member_at "data_types" id (stops_capture ts) refl))
        refl
  dispatch_lem id (sets_parameter name value) n fits =
      let c : Command R = sets_parameter name value in
      let j = request_json id c in
      let v = member_at "value" id c refl in
      rw
        (
          json.value_text_found "name" "" j (member_at "name" id c refl),
          json.contains_found "value" j v,
          v,
          value_of_lem value.type value fits,
        )
        refl
  dispatch_lem id (gets_parameter name) n fits =
      let c : Command R = gets_parameter name in
      rw (json.value_text_found "name" "" (request_json id c) (member_at "name" id c refl)) refl

  -- A request whose body is the JSON of a command of a client reaches that command's handler with the
  -- client's name and the command's arguments, whatever its path: its answer is the handler's, the node is
  -- as the handler leaves it, and nothing throws. Of a parameter's value what its type names is received;
  -- its integer is one of an `int`.
  pub request_reaches_handler :
      (path_cmd body id : String) (c : Command R) (n : Node R)
      → is_object body ≡ true
      → lib.parse body ≡ some (object (members_of (request_members id c)))
      → Fits c
      → let (resp, after) = handle reply id (received fresh c) n.handler in
        route lib fresh reply percent (command_of lib path_cmd body) body n
        ≡ some (response_json resp, record n { handler = after })
  unfolding route route_read command_of read_body answer put_handler lookup string_discrete
  request_reaches_handler path_cmd body id c n o p fits =
      let j = request_json id c in
      let name = member_at "command" id c refl in
      let client = member_at "client_id" id c refl in
      rw
        (
          o,
          p,
          json.contains_found "command" j name,
          json.value_text_found "command" path_cmd j name,
          json.value_text_found "client_id" "default" j client,
          dispatch_lem id c n fits,
        )
        refl

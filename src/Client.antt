-- ===== src/Client.antt =====
-- src/api/CameraSDKClient.cpp: the requests that the node sends to the camera SDK service. What comes
-- back is decided outside (`Replies`); Decode is what `http_post` makes of it.
pub mod Decode
use lib_stereo_camera.Common.{ℤ, String, List, [], ◌∷◌, Bool, true, false, Assoc}
use lib_stereo_camera.Types.{
  DataType, ParameterType, ResponseCode, success, error, not_ready, already_init, invalid_param,
  unavailable,
}

-- `struct ParameterValue`; the type `R` stands for `double`.
pub record ParameterValue (R : Type 0) : Type 0 where
  pub int_val : ℤ
  pub float_val : R
  pub enum_val : String
  pub type : ParameterType

-- A field of a request's JSON body.
pub data Field (R : Type 0) : Type 0 where
  text : String → Field R
  texts : List String → Field R
  types : List DataType → Field R
  number : ℤ → Field R
  real : R → Field R

-- What `http_post` is given: the endpoint and the body.
pub record Post (R : Type 0) : Type 0 where
  pub endpoint : String
  pub body : Assoc String (Field R)

-- The methods of `CameraSDKClient`.
pub data Request (R : Type 0) : Type 0 where
  init dispose connect disconnect check_status : Request R
  start_capture stop_capture : List DataType → Request R
  activate_channel deactivate_channel : String → Request R
  start_capture_by_channels stop_capture_by_channels : List String → Request R
  set_parameter : String → ParameterValue R → Request R
  get_parameter : String → Request R

module _ {R : Type 0} where
  -- `set_parameter` sends the member that the value's type names.
  unfoldable pub value_field : ParameterType → ParameterValue R → Field R
  value_field ParameterType.enum v = text v.enum_val
  value_field ParameterType.float v = real v.float_val
  value_field ParameterType.integer v = number v.int_val

  unfoldable pub to_post : Request R → Post R
  unfolding value_field
  to_post init = record { endpoint = "/api/init"; body = ("command", text "init") ∷ [] }
  to_post dispose = record { endpoint = "/api/dispose"; body = ("command", text "dispose") ∷ [] }
  to_post connect = record { endpoint = "/api/connect"; body = ("command", text "connect") ∷ [] }
  to_post disconnect = record {
    endpoint = "/api/disconnect";
    body = ("command", text "disconnect") ∷ [];
  }
  to_post check_status = record {
    endpoint = "/api/check_status";
    body = ("command", text "check_status") ∷ [];
  }
  to_post (start_capture ts) = record {
    endpoint = "/api/start_capture";
    body = ("command", text "start_capture") ∷ ("data_types", types ts) ∷ [];
  }
  to_post (stop_capture ts) = record {
    endpoint = "/api/stop_capture";
    body = ("command", text "stop_capture") ∷ ("data_types", types ts) ∷ [];
  }
  to_post (activate_channel c) = record {
    endpoint = "/api/activate_channel";
    body = ("command", text "activate_channel") ∷ ("data_type", text c) ∷ [];
  }
  to_post (deactivate_channel c) = record {
    endpoint = "/api/deactivate_channel";
    body = ("command", text "deactivate_channel") ∷ ("data_type", text c) ∷ [];
  }
  to_post (start_capture_by_channels cs) = record {
    endpoint = "/api/start_capture";
    body = ("command", text "start_capture") ∷ ("data_types", texts cs) ∷ [];
  }
  to_post (stop_capture_by_channels cs) = record {
    endpoint = "/api/stop_capture";
    body = ("command", text "stop_capture") ∷ ("data_types", texts cs) ∷ [];
  }
  to_post (set_parameter n v) = record {
    endpoint = "/api/set_parameter";
    body =
        ("command", text "set_parameter") ∷ ("name", text n) ∷ ("value", value_field v.type v) ∷ [];
  }
  to_post (get_parameter n) = record {
    endpoint = "/api/get_parameter";
    body = ("command", text "get_parameter") ∷ ("name", text n) ∷ [];
  }

-- The calls made so far, each with the base URL of its client, newest first.
abbrev pub Calls : Type 0 → Type 0
Calls R = List (String × Request R)

-- A JSON value, as the library `nlohmann::json` documents it.
mutual
  pub data Json (R : Type 0) : Type 0 where
    null : Json R
    boolean : Bool → Json R
    integer : ℤ → Json R
    float : R → Json R
    string : String → Json R
    array : Elements R → Json R
    object : Members R → Json R

  pub data Elements (R : Type 0) : Type 0 where
    end : Elements R
    element : Json R → Elements R → Elements R

  pub data Members (R : Type 0) : Type 0 where
    no_member : Members R
    member : String → Json R → Members R → Members R

-- `struct Response`
pub record Response (R : Type 0) : Type 0 where
  pub code : ResponseCode
  pub message : String
  pub detail : Json R

-- `make_response` without a detail, and with one.
unfoldable pub make_response : {R : Type 0} → ResponseCode → String → Response R
make_response code message = record { code = code; message = message; detail = object no_member }

unfoldable pub make_response_with : {R : Type 0} → ResponseCode → String → Json R → Response R
make_response_with code message detail = record { code = code; message = message; detail = detail }

-- The camera service's replies: to the newest call, given all the calls so far.
abbrev pub Replies : Type 0 → Type 0
Replies R = Calls R → Response R

-- `resp.code == Success || resp.code == AlreadyInit`
unfoldable pub accepted : ResponseCode → Bool
accepted success = true
accepted already_init = true
accepted error = false
accepted not_ready = false
accepted invalid_param = false
accepted unavailable = false

-- ===== src/Admin.antt =====
-- src/api/AdminServer.cpp and include/stereo_camera/api/AdminServer.h: how a request over HTTP is read,
-- and which handler of src/api/ClientHandler.cpp it reaches. A request's bytes are a text here.
-- Sockets, TLS, the threads and the log are left out; one request is handled at a time.
pub mod Reading
pub mod Route
pub mod Listener
pub mod Pool
pub mod Refused
pub mod Commands
use Prim.Native.Char.{Char, code}
use Prim.Native.String
use Prim.Native.String.{String, [] as empty_text, ◌∷◌ as ◌:>◌, len, slice, find}
use lib_stereo_camera.Common.{
  ℕ, suc, pos, ◌+◌, ◌-◌, List, [], ◌∷◌, map, Bool, true, false, not, ◌&&◌, Option, none, some,
  ◌>>=◌, if◌then◌else◌, is_yes, ◌==◌, leb, ltb, Assoc, lookup, string_discrete,
}
use lib_stereo_camera.Types.{
  DataType, ParameterType, ResponseCode, success, error, not_ready, already_init, invalid_param,
  unavailable,
}
use lib_stereo_camera.Client.{
  ParameterValue, Json, Response, make_response, null, string, object, Replies,
}
use lib_stereo_camera.Json.{JsonOps, members_of, natural}
use lib_stereo_camera.Parameters.{Fresh, new_value}
use lib_stereo_camera.Sessions.{
  ClientHandler, handle_init, handle_dispose, handle_connect, handle_disconnect,
  handle_start_capture, handle_stop_capture, handle_set_parameter, handle_get_parameter,
}
use lib_stereo_camera.Sessions.Status.{Node, handle_check_status}

-- `std::tolower` on one character, in the locale "C".
abbrev lower_table : List (Char × Char)
lower_table =
    ("A", "a")
    ∷ ("B", "b")
    ∷ ("C", "c")
    ∷ ("D", "d")
    ∷ ("E", "e")
    ∷ ("F", "f")
    ∷ ("G", "g")
    ∷ ("H", "h")
    ∷ ("I", "i")
    ∷ ("J", "j")
    ∷ ("K", "k")
    ∷ ("L", "l")
    ∷ ("M", "m")
    ∷ ("N", "n")
    ∷ ("O", "o")
    ∷ ("P", "p")
    ∷ ("Q", "q")
    ∷ ("R", "r")
    ∷ ("S", "s")
    ∷ ("T", "t")
    ∷ ("U", "u")
    ∷ ("V", "v")
    ∷ ("W", "w")
    ∷ ("X", "x")
    ∷ ("Y", "y")
    ∷ ("Z", "z")
    ∷ []

unfoldable pub lower_in : List (Char × Char) → Char → Char
lower_in [] c = c
lower_in ((upper, lower) ∷ table) c =
    let rest = lower_in table c in if code c == code upper then lower else rest

unfoldable pub to_lower : String → String
unfolding lower_in
to_lower empty_text = empty_text
to_lower (c :> s) = lower_in lower_table c :> to_lower s

-- The names that `path_to_command` spells differently.
abbrev pub command_names : Assoc String String
command_names =
    ("checkstatus", "check_status")
    ∷ ("init", "init")
    ∷ ("dispose", "dispose")
    ∷ ("connect", "connect")
    ∷ ("disconnect", "disconnect")
    ∷ ("startcapture", "start_capture")
    ∷ ("stopcapture", "stop_capture")
    ∷ ("setparameter", "set_parameter")
    ∷ ("getparameter", "get_parameter")
    ∷ []

-- `if (!p.empty() && p[0] == '/') p = p.substr(1)`
unfoldable pub drop_slash : String → String
drop_slash empty_text = empty_text
drop_slash (c :> s) = if code c == 47 then s else c :> s

unfoldable pub path_to_command : String → String
unfolding to_lower drop_slash
path_to_command path =
    let lower = to_lower (drop_slash path) in
    elim (lookup string_discrete lower command_names) [ none ↦ lower | some name ↦ name ]

-- `s.find(t, from)`; a miss is one more than the length.
unfoldable pub find_from : String → String → ℕ → ℕ
find_from s t from = find (slice s from (len s)) t + from

abbrev found : String → ℕ → Bool
found s at = leb at (len s)

-- The path on the first line of a header, or "/".
unfoldable pub path_of : String → String
unfolding find_from
path_of header =
    let first_space = find header " " in
    let second_space = find_from header " " (suc first_space) in
    if found header first_space && found header second_space
    then slice header (suc first_space) second_space
    else "/"

-- The path and the body of a request; without the end of a header all of it is body.
unfoldable pub path_and_body : String → String × String
unfolding path_of
path_and_body raw =
    let header_end_pos = find raw "\r\n\r\n" in
    if found raw header_end_pos
    then (path_of (slice raw 0 header_end_pos), slice raw (header_end_pos + 4) (len raw))
    else ("/", raw)

-- Whether a body is to be parsed.
unfoldable pub is_object : String → Bool
is_object empty_text = false
is_object (c :> s) = code c == 123

-- `static_cast<int>(resp.code)`
unfoldable pub response_code : ResponseCode → ℕ
response_code success = 0
response_code error = 1
response_code not_ready = 2
response_code already_init = 3
response_code invalid_param = 4
response_code unavailable = 5

unfoldable pub response_json : {R : Type 0} → Response R → Json R
unfolding response_code
response_json resp = object (
    members_of (
      ("code", natural (response_code resp.code))
      ∷ ("message", string resp.message)
      ∷ ("detail", resp.detail)
      ∷ []))

-- What `route` answers to a body that is not JSON, or whose client id is not a text.
unfoldable pub invalid_body : {R : Type 0} → Json R
invalid_body =
    object (members_of (("code", natural 1) ∷ ("message", string "Invalid JSON body") ∷ []))

module _ {R : Type 0} (lib : JsonOps R) where
  -- The command of a request: what its body names, or else what its path does.
  unfoldable pub command_of : String → String → String
  command_of cmd body =
      if is_object body
      then elim (lib.parse body) [
        | none ↦ cmd
        | some j ↦
            if lib.contains "command" j
            then elim (lib.value_text "command" cmd j) [ none ↦ cmd | some name ↦ name ]
            else cmd
      ]
      else cmd

  -- The first part of `route`: the body as JSON, and the client; none if the body is invalid.
  unfoldable pub read_body : String → Option (Json R × String)
  read_body body =
      if is_object body
      then lib.parse body >>= (λ j. lib.value_text "client_id" "default" j >>= (λ id. some (j, id)))
      else some (null, "default")

  unfoldable pub data_types : Json R → List DataType
  data_types j =
      if lib.contains "data_types" j
      then elim (lib.at "data_types" j) [ none ↦ [] | some ts ↦ map lib.get_type (lib.items ts) ]
      else []

module _ {R : Type 0} (lib : JsonOps R) (fresh : Fresh R) where
  -- The value of `set_parameter`; none where reading it throws.
  unfoldable pub value_of : Json R → Option (ParameterValue R)
  value_of v =
      if lib.is_number_integer v
      then lib.get_int v
        >>= (λ n. some (record (new_value fresh) { int_val = n; type = ParameterType.integer }))
      else if lib.is_number_float v
      then lib.get_real v
        >>= (λ x. some (record (new_value fresh) { float_val = x; type = ParameterType.float }))
      else if lib.is_string v
      then lib.get_text v
        >>= (λ s. some (record (new_value fresh) { enum_val = s; type = ParameterType.enum }))
      else some (new_value fresh)

  unfoldable pub parameter_value : Json R → Option (ParameterValue R)
  unfolding value_of
  parameter_value j =
      if lib.contains "value" j then lib.at "value" j >>= value_of else some (new_value fresh)

-- ===== src/Examples/Requests.antt =====
-- Runs of src/api/AdminServer.cpp.
use lib_stereo_camera.Common.{
  ℕ, ◌≡◌, refl, [], ◌∷◌, true, if◌then◌else◌, none, some, lookup, string_discrete,
}
use lib_stereo_camera.Types.{imu}
use lib_stereo_camera.Client.{object}
use lib_stereo_camera.Json.{JsonOps, members_of}
use lib_stereo_camera.Sessions.Commands.{Command, starts_capture, handle}
use lib_stereo_camera.Sessions.Status.{Node}
use lib_stereo_camera.Admin.{path_to_command, path_and_body, command_of, is_object, response_json}
use lib_stereo_camera.Admin.Route.{route}
use lib_stereo_camera.Admin.Refused.{parameter_request_throws}
use lib_stereo_camera.Admin.Commands.{request_members, received, request_reaches_handler}
use lib_stereo_camera.Examples.Settings.{library, library-IsJson, fresh}
use lib_stereo_camera.Examples.Cameras.{reply}
use lib_stereo_camera.Examples.Clients.{handler}

path_to_command_test : path_to_command "/StartCapture" ≡ "start_capture"
unfolding path_to_command lookup string_discrete
path_to_command_test = refl

path_and_body_test :
    path_and_body "POST /connect HTTP/1.1\r\nHost: a\r\n\r\n{}" ≡ ("/connect", "{}")
unfolding path_and_body
path_and_body_test = refl

abbrev node : Node ℕ
node = record { handler = handler; pipeline = none; buffer2 = none; wss_server = none }

abbrev percent : ℕ → ℕ → ℕ
percent part whole = part

abbrev start : Command ℕ
start = starts_capture (imu ∷ [])

-- A library that reads the text "{1}" as the request of a client.
abbrev lib : JsonOps ℕ
lib = library "{1}" (object (members_of (request_members "alice" start)))

request_reaches_handler_example :
    let (resp, after) = handle reply "alice" (received fresh start) node.handler in
    route lib fresh reply percent (command_of lib "get_parameter" "{1}") "{1}" node
    ≡ some (response_json resp, record node { handler = after })
unfolding is_object string_discrete
request_reaches_handler_example =
    request_reaches_handler
      (library-IsJson "{1}" (object (members_of (request_members "alice" start)))) fresh reply
      percent "get_parameter" "{1}" "alice" start node refl refl tt

parameter_request_throws_example :
    route lib fresh reply percent (if true then "set_parameter" else "get_parameter") "" node ≡ none
unfolding is_object
parameter_request_throws_example =
    parameter_request_throws lib fresh reply percent
      (library-IsJson "{1}" (object (members_of (request_members "alice" start)))) true "" node refl

-- ===== src/Admin/Route.antt =====
-- src/api/AdminServer.cpp: `route`, and what `handle_connection` answers.
use Prim.Native.String
use lib_stereo_camera.Common.{
  ℕ, String, Option, none, some, ◌>>=◌, if◌then◌else◌, is_yes, string_discrete,
}
use lib_stereo_camera.Types.{error}
use lib_stereo_camera.Client.{Json, Response, make_response, Replies}
use lib_stereo_camera.Json.{JsonOps}
use lib_stereo_camera.Parameters.{Fresh}
use lib_stereo_camera.Sessions.{
  ClientHandler, handle_init, handle_dispose, handle_connect, handle_disconnect,
  handle_start_capture, handle_stop_capture, handle_set_parameter, handle_get_parameter,
}
use lib_stereo_camera.Sessions.Status.{Node, handle_check_status}
use lib_stereo_camera.Admin.{
  path_to_command, path_and_body, command_of, read_body, data_types, parameter_value, response_json,
  invalid_body,
}

-- The node after a handler.
unfoldable pub put_handler :
    {R : Type 0} → Node R → Response R × ClientHandler R → Response R × Node R
put_handler n (resp, h) = (resp, record n { handler = h })

-- `lib` and `fresh` are the JSON library and what C++ leaves uninitialised, `reply` the camera
-- service, and `percent` the double arithmetic of the status.
module _ {R : Type 0} (lib : JsonOps R) (fresh : Fresh R) (reply : Replies R)
    (percent : ℕ → ℕ → R) where
  unfoldable pub route_set_parameter : String → Json R → Node R → Option (Response R × Node R)
  unfolding put_handler
  route_set_parameter client_id j n = lib.value_text "name" "" j >>= (λ name.
      parameter_value lib fresh j >>= (λ value.
        some (put_handler n (handle_set_parameter reply client_id name value n.handler))))

  unfoldable pub route_get_parameter : String → Json R → Node R → Option (Response R × Node R)
  unfolding put_handler
  route_get_parameter client_id j n =
      lib.value_text "name" "" j
      >>= (λ name. some (put_handler n (handle_get_parameter reply client_id name n.handler)))

  -- The chain of tests on the command; none where what it calls throws.
  unfoldable pub dispatch : String → String → Json R → Node R → Option (Response R × Node R)
  unfolding put_handler route_set_parameter route_get_parameter
  dispatch cmd client_id j n =
      if is_yes (string_discrete cmd "init")
      then some (put_handler n (handle_init client_id n.handler))
      else if is_yes (string_discrete cmd "dispose")
      then some (put_handler n (handle_dispose client_id n.handler))
      else if is_yes (string_discrete cmd "connect")
      then some (put_handler n (handle_connect client_id n.handler))
      else if is_yes (string_discrete cmd "disconnect")
      then some (put_handler n (handle_disconnect client_id n.handler))
      else if is_yes (string_discrete cmd "check_status")
      then some (handle_check_status percent fresh.zero client_id n, n)
      else if is_yes (string_discrete cmd "start_capture")
      then some (put_handler n (handle_start_capture client_id (data_types lib j) n.handler))
      else if is_yes (string_discrete cmd "stop_capture")
      then some (put_handler n (handle_stop_capture client_id (data_types lib j) n.handler))
      else if is_yes (string_discrete cmd "set_parameter")
      then route_set_parameter client_id j n
      else if is_yes (string_discrete cmd "get_parameter")
      then route_get_parameter client_id j n
      else some (make_response error (String.◌++◌ "Unknown command: " cmd), n)

  unfoldable pub answer : Response R × Node R → Json R × Node R
  answer (resp, n) = (response_json resp, n)

  -- `route` once the body is read; none if an exception leaves it, which ends the process.
  unfoldable pub route_read : String → Option (Json R × String) → Node R → Option (Json R × Node R)
  unfolding dispatch answer
  route_read cmd none n = some (invalid_body, n)
  route_read cmd (some (j, client_id)) n = dispatch cmd client_id j n >>= (λ r. some (answer r))

  unfoldable pub route : String → String → Node R → Option (Json R × Node R)
  route cmd body n = route_read cmd (read_body lib body) n

  -- What `handle_connection` does with a request that it has read.
  unfoldable pub handle_request : String → Node R → Option (Json R × Node R)
  unfolding route
  handle_request raw n =
      let (path, body) = path_and_body raw in
      route (command_of lib (path_to_command path) body) body n

-- ===== src/Sessions/Commands.antt =====
-- The commands that src/api/AdminServer.cpp takes to the handlers of src/api/ClientHandler.cpp, one
-- after the other.
use lib_stereo_camera.Common.{String, List, [], ◌∷◌}
use lib_stereo_camera.Types.{DataType}
use lib_stereo_camera.Client.{Replies, ParameterValue, Response}
use lib_stereo_camera.Sessions.{
  ClientHandler, handle_init, handle_dispose, handle_connect, handle_disconnect,
  handle_start_capture, handle_stop_capture, handle_set_parameter, handle_get_parameter,
}
use lib_stereo_camera.Sessions.Invariant.{
  HandlerIsValid, handle_connect-IsValid, handle_disconnect-IsValid, handle_start_capture-IsValid,
  handle_stop_capture-IsValid,
}
use lib_stereo_camera.Sessions.Invariant.Asking.{
  handle_set_parameter-IsValid, handle_get_parameter-IsValid,
}

-- The commands of a client.
pub data Command (R : Type 0) : Type 0 where
  inits disposes connects disconnects : Command R
  starts_capture stops_capture : List DataType → Command R
  sets_parameter : String → ParameterValue R → Command R
  gets_parameter : String → Command R

module _ {R : Type 0} (reply : Replies R) where
  unfoldable pub handle : String → Command R → ClientHandler R → Response R × ClientHandler R
  handle id inits h = handle_init id h
  handle id disposes h = handle_dispose id h
  handle id connects h = handle_connect id h
  handle id disconnects h = handle_disconnect id h
  handle id (starts_capture ts) h = handle_start_capture id ts h
  handle id (stops_capture ts) h = handle_stop_capture id ts h
  handle id (sets_parameter name value) h = handle_set_parameter reply id name value h
  handle id (gets_parameter name) h = handle_get_parameter reply id name h

  -- The commands of any clients, in the order in which the handler takes them.
  unfoldable pub serve : List (String × Command R) → ClientHandler R → ClientHandler R
  unfolding handle
  serve [] h = h
  serve ((id, c) ∷ cs) h = serve cs (handle id c h).1

  handle-IsValid :
      (id : String) (c : Command R) (h : ClientHandler R)
      → HandlerIsValid h
      → HandlerIsValid (handle id c h).1
  unfolding handle handle_init handle_dispose
  handle-IsValid id inits h v = v
  handle-IsValid id disposes h v = v
  handle-IsValid id connects h v = handle_connect-IsValid id h v
  handle-IsValid id disconnects h v = handle_disconnect-IsValid id h v
  handle-IsValid id (starts_capture ts) h v = handle_start_capture-IsValid id ts h v
  handle-IsValid id (stops_capture ts) h v = handle_stop_capture-IsValid id ts h v
  handle-IsValid id (sets_parameter name value) h v =
      handle_set_parameter-IsValid reply id name value h v
  handle-IsValid id (gets_parameter name) h v = handle_get_parameter-IsValid reply id name h v

  -- Whatever commands clients send, and whatever the camera service replies, no session lists a type
  -- twice, a session that is not connected lists none, and every camera's slot stays valid.
  pub serve-IsValid :
      (cs : List (String × Command R)) (h : ClientHandler R)
      → HandlerIsValid h
      → HandlerIsValid (serve cs h)
  unfolding serve
  serve-IsValid [] h v = v
  serve-IsValid ((id, c) ∷ cs) h v = serve-IsValid cs (handle id c h).1 (handle-IsValid id c h v)

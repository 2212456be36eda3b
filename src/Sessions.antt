-- ===== src/Sessions.antt =====
-- src/api/ClientHandler.cpp and include/stereo_camera/api/ClientHandler.h: the sessions of the clients and
-- what each command of a client does to them and to the cameras. The table of sessions is locked in
-- every handler; one handler runs at a time here. Log lines are left out.
pub mod Guards
pub mod Invariant
pub mod Commands
pub mod Capture
pub mod Status
use Prim.Native.String.{◌++◌}
use lib_stereo_camera.Common.{
  String, List, [], ◌∷◌, Bool, true, false, Option, none, some, if◌then◌else◌, is_yes, Assoc,
  lookup, insert, add_missing, erase_values, string_discrete,
}
use lib_stereo_camera.Types.{
  DataType, data_type_discrete, stereo_image, imu, ResponseCode, success, error, not_ready,
  already_init,
}
use lib_stereo_camera.Client.{
  ParameterValue, Calls, Replies, Response, make_response, make_response_with, Json, boolean,
  string, object, member, no_member, set_parameter, get_parameter, Request,
}
use lib_stereo_camera.Slots.{SdkSlotManager, start_capture, stop_capture}
use lib_stereo_camera.Slots.Lifecycle.{get_camera_ids, get_client}

-- `struct ClientSession`
pub record ClientSession : Type 0 where
  pub id : String
  pub connected : Bool
  pub active_types : List DataType
  pub camera_id : String

-- `class ClientHandler`: the manager is a pointer that may be null.
pub record ClientHandler (R : Type 0) : Type 0 where
  pub sessions : Assoc String ClientSession
  pub sdk_manager : Option (SdkSlotManager R)
  pub module_initialized : Bool

-- A session that `sessions_[client_id]` creates.
abbrev pub no_session : ClientSession
no_session = record { id = ""; connected = false; active_types = []; camera_id = "" }

-- `it == sessions_.end() || !it->second.connected`, turned round: the session of a connected client.
unfoldable pub connected_session : String → Assoc String ClientSession → Option ClientSession
connected_session client_id sessions = elim (lookup string_discrete client_id sessions) [
  | none ↦ none
  | some s ↦ if s.connected then some s else none
]

-- The types that a request without types stands for.
unfoldable pub capture_types : List DataType → List DataType
capture_types [] = stereo_image ∷ imu ∷ []
capture_types (t ∷ ts) = t ∷ ts

-- The first of the camera ids, or "cam1".
unfoldable pub first_camera : List String → String
first_camera [] = "cam1"
first_camera (id ∷ ids) = id

-- `reopen_params`
unfoldable pub needs_reopen : String → Bool
needs_reopen name =
    if is_yes (string_discrete name "fps")
    then true
    else if is_yes (string_discrete name "resolution")
    then true
    else is_yes (string_discrete name "depth_mode")

-- Sessions after a connect, a disconnect, a start and a stop.
unfoldable pub open_session : String → ClientSession → ClientSession
open_session client_id s = record s { id = client_id; connected = true }

unfoldable pub close_session : ClientSession → ClientSession
close_session s = record s { connected = false; active_types = [] }

unfoldable pub add_types : List DataType → ClientSession → ClientSession
add_types ts s = record s { active_types = add_missing data_type_discrete ts s.active_types }

unfoldable pub drop_types : List DataType → ClientSession → ClientSession
drop_types ts s = record s { active_types = erase_values data_type_discrete ts s.active_types }

-- `sessions_[client_id]`, which is a new session if there is none.
unfoldable pub session_of : String → Assoc String ClientSession → ClientSession
session_of client_id sessions = elim (lookup string_discrete client_id sessions) [
  | none ↦ no_session
  | some s ↦ s
]

module _ {R : Type 0} where
  unfoldable pub set_session : String → ClientSession → ClientHandler R → ClientHandler R
  set_session client_id s h = record h { sessions = insert string_discrete client_id s h.sessions }

  unfoldable pub handle_init : String → ClientHandler R → Response R × ClientHandler R
  handle_init client_id h =
      (make_response already_init "Already initialized — use connect to start a session", h)

  unfoldable pub handle_dispose : String → ClientHandler R → Response R × ClientHandler R
  handle_dispose client_id h =
      (make_response error "Dispose not permitted via API — shutdown the service instead", h)

  unfoldable pub handle_connect : String → ClientHandler R → Response R × ClientHandler R
  unfolding session_of open_session set_session
  handle_connect client_id h =
      let s = session_of client_id h.sessions in
      if h.module_initialized
      then if s.connected
        then (make_response already_init "Already connected", h)
        else (make_response success "Connected", set_session client_id (open_session client_id s) h)
      else (make_response not_ready "Not initialized", h)

  -- The cleanup of `handle_disconnect`: skipped without a manager, types or a camera.
  unfoldable pub release :
      String → List DataType → Option (SdkSlotManager R) → Option (SdkSlotManager R)
  release camera_id ts none = none
  release camera_id [] (some m) = some m
  release camera_id (t ∷ ts) (some m) =
      if is_yes (string_discrete camera_id "")
      then some m
      else some (stop_capture camera_id (t ∷ ts) m).1

  unfoldable pub handle_disconnect : String → ClientHandler R → Response R × ClientHandler R
  unfolding connected_session close_session set_session release
  handle_disconnect client_id h = elim (connected_session client_id h.sessions) [
    | none ↦ (make_response not_ready "Not connected", h)
    | some s ↦ (
      make_response success "Disconnected",
      record (set_session client_id (close_session s) h) {
        sdk_manager = release s.camera_id s.active_types h.sdk_manager;
      },
    )
  ]

  unfoldable pub handle_start_capture :
      String → List DataType → ClientHandler R → Response R × ClientHandler R
  unfolding connected_session capture_types add_types set_session first_camera
  handle_start_capture client_id types h = elim (connected_session client_id h.sessions) [
    | none ↦ (make_response not_ready "Not connected", h)
    | some s ↦
        let asked = capture_types types in
        elim h.sdk_manager [
          | none ↦
              (make_response success "Capture started", set_session client_id (add_types asked s) h)
          | some m ↦
              let camera_id = first_camera (get_camera_ids m) in
              let r = start_capture camera_id asked m in
              (
                if r.0
                    then make_response success "Capture started"
                    else make_response error "StartCapture failed",
                record (set_session client_id (record (add_types asked s) { camera_id = camera_id })
                    h) { sdk_manager = some r.1 },
              )
        ]
  ]

  unfoldable pub handle_stop_capture :
      String → List DataType → ClientHandler R → Response R × ClientHandler R
  unfolding connected_session capture_types drop_types set_session first_camera
  handle_stop_capture client_id types h = elim (connected_session client_id h.sessions) [
    | none ↦ (make_response not_ready "Not connected", h)
    | some s ↦
        let asked = capture_types types in
        (
          make_response success "Capture stopped",
          record (set_session client_id (drop_types asked s) h) {
            sdk_manager = elim h.sdk_manager [
              | none ↦ none
              | some m ↦ some (stop_capture (first_camera (get_camera_ids m)) asked m).1
            ];
          },
        )
  ]

  -- The request is sent to the client, unless there is none.
  unfoldable pub ask_client :
      Replies R
      → Request R
      → ClientHandler R
      → (Response R → Response R)
      → SdkSlotManager R
      → Option String
      → Response R × ClientHandler R
  ask_client reply request h answer m none = (make_response error "No camera client", h)
  ask_client reply request h answer m (some client) =
      let calls = (client, request) ∷ m.calls in
      (answer (reply calls), record h { sdk_manager = some (record m { calls = calls }) })

  -- To the client of the first of the camera ids.
  unfoldable pub ask_first :
      Replies R
      → Request R
      → ClientHandler R
      → (Response R → Response R)
      → SdkSlotManager R
      → List String
      → Response R × ClientHandler R
  unfolding ask_client
  ask_first reply request h answer m [] = (make_response error "No camera available", h)
  ask_first reply request h answer m (id ∷ ids) =
      ask_client reply request h answer m (get_client id m)

  -- What both handlers of parameters do for a connected client: one request to the first camera.
  unfoldable pub ask_camera :
      Replies R
      → Request R
      → (Response R → Response R)
      → ClientHandler R
      → Option (SdkSlotManager R)
      → Response R × ClientHandler R
  unfolding ask_first
  ask_camera reply request answer h none = (make_response error "No SDK manager", h)
  ask_camera reply request answer h (some m) = ask_first reply request h answer m (get_camera_ids m)

  unfoldable pub reopen_detail : String → Json R
  unfolding needs_reopen
  reopen_detail name = object (
      member "name" (string name) (
        member "needs_reopen" (boolean (needs_reopen name)) (
          if needs_reopen name
          then member "reopen_message"
              (string ("Parameter " ++ name ++ " requires camera reopen to take effect")) no_member
          else no_member)))

  unfoldable pub handle_set_parameter :
      Replies R
      → String
      → String
      → ParameterValue R
      → ClientHandler R
      → Response R × ClientHandler R
  unfolding connected_session ask_camera reopen_detail
  handle_set_parameter reply client_id name value h =
      elim (connected_session client_id h.sessions) [
        | none ↦ (make_response not_ready "Not connected", h)
        | some s ↦
            ask_camera reply (set_parameter name value)
              (λ r. make_response_with r.code r.message (reopen_detail name)) h h.sdk_manager
      ]

  unfoldable pub handle_get_parameter :
      Replies R → String → String → ClientHandler R → Response R × ClientHandler R
  unfolding connected_session ask_camera
  handle_get_parameter reply client_id name h = elim (connected_session client_id h.sessions) [
    | none ↦ (make_response not_ready "Not connected", h)
    | some s ↦ ask_camera reply (get_parameter name) (λ r. r) h h.sdk_manager
  ]

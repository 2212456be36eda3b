-- ===== src/Sessions/Capture/Started.antt =====
-- src/api/ClientHandler.cpp: the session and the camera that a start, a stop and a disconnect find.
use lib_stereo_camera.Common.{
  ◌≡◌, arith, String, List, [], ◌∷◌, true, some, Option-cases, Bool-cases, inl, inr, Assoc, lookup,
  insert, lookup-insert, string_discrete, map,
}
use lib_stereo_camera.Types.{DataType, success}
use lib_stereo_camera.Client.{make_response}
use lib_stereo_camera.Slots.{SdkSlot, SdkSlotManager, start_capture, started, stopped, stop_capture}
use lib_stereo_camera.Slots.Lifecycle.{get_camera_ids}
use lib_stereo_camera.Sessions.{
  ClientSession, ClientHandler, connected_session, set_session, add_types, close_session, release,
  capture_types, first_camera, handle_disconnect, handle_start_capture, handle_stop_capture,
  drop_types,
}

-- The session of a connected client after a start on a camera.
abbrev recording : String → List DataType → ClientSession → ClientSession
recording camera_id ts s = record (add_types ts s) { camera_id = camera_id }

-- The first camera stays the first when its slot is changed.
first_camera-insert :
    (slot new : SdkSlot) (slots : Assoc String SdkSlot)
    → lookup string_discrete (first_camera (map (λ e. e.0) slots)) slots ≡ some slot
    → first_camera
        (map (λ e. e.0) (insert string_discrete (first_camera (map (λ e. e.0) slots)) new slots))
      ≡ first_camera (map (λ e. e.0) slots)
unfolding first_camera insert lookup
first_camera-insert slot new [] e = absurd (ground arith)
first_camera-insert slot new ((k, old) ∷ slots) e = ground (arith, string_discrete k k)

connected_session-set :
    {R : Type 0} (client_id : String) (s : ClientSession) (h : ClientHandler R)
    → s.connected ≡ true
    → connected_session client_id (set_session client_id s h).sessions ≡ some s
unfolding connected_session set_session
connected_session-set client_id s h e =
    ground (arith, lookup-insert string_discrete client_id client_id s h.sessions)

connected_session-connected :
    (client_id : String) (sessions : Assoc String ClientSession) {s : ClientSession}
    → connected_session client_id sessions ≡ some s
    → s.connected ≡ true
unfolding connected_session
connected_session-connected client_id sessions {s} e =
    elim (Option-cases (lookup string_discrete client_id sessions)) [
      | inl gone ↦ ground arith
      | inr (t, found) ↦ ground (arith, Bool-cases t.connected)
    ]

-- A client that is connected, a manager, and the slot of the manager's first camera.
module _ {R : Type 0} (client_id : String) (types : List DataType) (h : ClientHandler R)
    {s : ClientSession} {m : SdkSlotManager R} {slot : SdkSlot}
    (open_ : connected_session client_id h.sessions ≡ some s) (managed : h.sdk_manager ≡ some m)
    (found : lookup string_discrete (first_camera (get_camera_ids m)) m.slots ≡ some slot) where
  abbrev camera : String
  camera = first_camera (get_camera_ids m)

  abbrev pub after_start : ClientHandler R
  after_start = record (set_session client_id (recording camera (capture_types types) s) h) {
    sdk_manager = some (start_capture camera (capture_types types) m).1;
  }

  start_capture-found : (ts : List DataType) → (start_capture camera ts m).0 ≡ true
  unfolding start_capture
  start_capture-found ts = ground arith

  pub handle_start_capture-found :
      handle_start_capture client_id types h
      ≡ (make_response success "Capture started", after_start)
  unfolding handle_start_capture
  handle_start_capture-found = ground (arith, start_capture-found (capture_types types))

  pub connected_after_start :
      connected_session client_id after_start.sessions
      ≡ some (recording camera (capture_types types) s)
  unfolding add_types set_session
  connected_after_start =
      connected_session-set client_id (recording camera (capture_types types) s) h
        (connected_session-connected client_id h.sessions open_)

  abbrev pub started_manager : SdkSlotManager R
  started_manager = (start_capture camera (capture_types types) m).1

  pub camera_after_start : first_camera (get_camera_ids started_manager) ≡ camera
  unfolding start_capture get_camera_ids
  camera_after_start =
      ground (arith, first_camera-insert slot (started (capture_types types) slot) m.slots)

  pub found_after_start :
      lookup string_discrete (first_camera (get_camera_ids started_manager)) started_manager.slots
      ≡ some (started (capture_types types) slot)
  unfolding start_capture
  found_after_start = ground (
    arith,
    camera_after_start,
    lookup-insert string_discrete camera camera (started (capture_types types) slot) m.slots,
  )

  pub handle_stop_capture-found : handle_stop_capture client_id types h ≡ (
    make_response success "Capture stopped",
    record (set_session client_id (drop_types (capture_types types) s) h) {
      sdk_manager = some (stop_capture camera (capture_types types) m).1;
    },
  )
  unfolding handle_stop_capture
  handle_stop_capture-found = ground arith

  abbrev after_disconnect : ClientHandler R
  after_disconnect = record (set_session client_id (close_session s) h) {
    sdk_manager = release s.camera_id s.active_types h.sdk_manager;
  }

  pub handle_disconnect-found :
      handle_disconnect client_id h ≡ (make_response success "Disconnected", after_disconnect)
  unfolding handle_disconnect
  handle_disconnect-found = ground arith

pub found-stop_capture :
    {R : Type 0} (id : String) (ts : List DataType) (m : SdkSlotManager R) {slot : SdkSlot}
    → lookup string_discrete id m.slots ≡ some slot
    → lookup string_discrete id (stop_capture id ts m).1.slots ≡ some (stopped ts slot)
unfolding stop_capture
found-stop_capture id ts m {slot} e =
    ground (arith, lookup-insert string_discrete id id (stopped ts slot) m.slots)

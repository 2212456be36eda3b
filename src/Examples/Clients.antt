-- ===== src/Examples/Clients.antt =====
-- Runs of src/api/ClientHandler.cpp.
use lib_stereo_camera.Common.{
  some, ℕ, ◌≡◌, ◌≢◌, refl, ap, arith, is_yes, [], ◌∷◌, true, false, none, some, lookup, insert,
  string_discrete, contains, pos,
}
use lib_stereo_camera.Types.{imu, success, integer}
use lib_stereo_camera.Client.{make_response, ParameterValue}
use lib_stereo_camera.Slots.{SdkSlot, new_slot, make}
use lib_stereo_camera.Slots.Invariant.{new_slot-IsValid}
use lib_stereo_camera.Slots.Lifecycle.{get_camera_ids}
use lib_stereo_camera.Sessions.{
  ClientSession, ClientHandler, connected_session, first_camera, handle_disconnect,
  handle_start_capture, handle_stop_capture,
}
use lib_stereo_camera.Sessions.Invariant.{HandlerIsValid, ManagerIsValid}
use lib_stereo_camera.Sessions.Commands.{
  connects, disconnects, starts_capture, gets_parameter, serve, serve-IsValid,
}
use lib_stereo_camera.Sessions.Capture.{slot_of, stop_undoes_start, disconnect_after_two_starts}
use lib_stereo_camera.Examples.Cameras.{config, manager, manager-IsValid, reply}

abbrev pub handler : ClientHandler ℕ
handler = record { sessions = []; sdk_manager = some manager; module_initialized = true }

-- The handler after a client has connected.
abbrev session : ClientSession
session = record { id = "alice"; connected = true; active_types = []; camera_id = "" }

abbrev connected : ClientHandler ℕ
connected = record handler { sessions = ("alice", session) ∷ [] }

abbrev value : ParameterValue ℕ
value = record { int_val = pos 30; float_val = 0; enum_val = ""; type = integer }

handler-IsValid : HandlerIsValid handler
unfolding ManagerIsValid lookup
handler-IsValid = record { session = λ id s e. absurd (ground arith); manager = manager-IsValid }

serve-IsValid_example : HandlerIsValid (
    serve reply
      (("alice", connects)
        ∷ ("alice", starts_capture [])
        ∷ ("bob", gets_parameter "fps")
        ∷ ("alice", disconnects)
        ∷ [])
      handler)
serve-IsValid_example =
    serve-IsValid reply
      (("alice", connects)
        ∷ ("alice", starts_capture [])
        ∷ ("bob", gets_parameter "fps")
        ∷ ("alice", disconnects)
        ∷ [])
      handler handler-IsValid

-- The slot of the camera at the start.
abbrev camera_slot : SdkSlot
camera_slot = new_slot config

camera-found :
    lookup string_discrete (first_camera (get_camera_ids manager)) manager.slots ≡ some camera_slot
unfolding first_camera get_camera_ids make lookup string_discrete insert
camera-found = refl

alice-connected : connected_session "alice" connected.sessions ≡ some session
unfolding connected_session lookup string_discrete
alice-connected = refl

stop_undoes_start_example :
    let r = handle_start_capture "alice" (imu ∷ []) connected in
    let q = handle_stop_capture "alice" (imu ∷ []) r.1 in
    (r.0 ≡ make_response success "Capture started")
    × (q.0 ≡ make_response success "Capture stopped")
    × ((after : SdkSlot) × (slot_of (first_camera (get_camera_ids manager)) q.1 ≡ some after)
        × (after.subscriber_count ≡ camera_slot.subscriber_count)
        × (after.capturing ≡ camera_slot.capturing)
        × (after.dealer_thread ≡ camera_slot.dealer_thread)
        × (after.active_types ≡ camera_slot.active_types))
unfolding new_slot contains
stop_undoes_start_example =
    stop_undoes_start "alice" (imu ∷ []) connected alice-connected refl camera-found
      (new_slot-IsValid config) (λ t h. absurd (ground arith))

-- The names differ: they do as texts.
first_camera-named : first_camera (get_camera_ids manager) ≢ ""
unfolding first_camera get_camera_ids make insert lookup string_discrete
first_camera-named e = absurd (ground (arith, differ))
  where
    differ : false ≡ true
    differ = ap (λ s. is_yes (string_discrete s "")) e

disconnect_after_two_starts_example :
    let once = (handle_start_capture "alice" (imu ∷ []) connected).1 in
    let twice = (handle_start_capture "alice" (imu ∷ []) once).1 in
    let r = handle_disconnect "alice" twice in
    (r.0 ≡ make_response success "Disconnected")
    × (connected_session "alice" r.1.sessions ≡ none)
    × ((after : SdkSlot) × (slot_of (first_camera (get_camera_ids manager)) r.1 ≡ some after)
        × (after.capturing ≡ true))
disconnect_after_two_starts_example =
    disconnect_after_two_starts "alice" (imu ∷ []) connected alice-connected refl camera-found
      first_camera-named

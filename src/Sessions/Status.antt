-- ===== src/Sessions/Status.antt =====
-- src/api/ClientHandler.cpp, `handle_check_status`, and the JSON of `get_status` in
-- src/data/SDKSlotManager.cpp. Members stand in the order in which they are assigned.
use lib_stereo_camera.Common.{
  ℕ, String, List, [], ◌∷◌, ◌++◌, map, Bool, Option, none, some, if◌then◌else◌, ltb, length,
}
use lib_stereo_camera.Common.Size.{add_size}
use lib_stereo_camera.Types.{data_type_to_channel, success}
use lib_stereo_camera.Client.{
  Json, Response, make_response_with, boolean, float, string, array, object,
}
use lib_stereo_camera.Json.{elements_of, members_of, natural}
use lib_stereo_camera.Slots.Lifecycle.{CameraStatus, get_status}
use lib_stereo_camera.Buffer.{DataBuffer, BufferSlotKey, active_slots, slot_size}
use lib_stereo_camera.Spsc
use lib_stereo_camera.Pipeline.{DataPipeline}
use lib_stereo_camera.Sessions.{ClientHandler}

-- What the handler asks of the WebSocket server.
pub record WssStatus : Type 0 where
  pub running : Bool
  pub clients : ℕ
  pub frames_sent : ℕ

-- The handler with the other parts that it points to; a pointer may be null.
pub record Node (R : Type 0) : Type 0 where
  pub handler : ClientHandler R
  pub pipeline : Option DataPipeline
  pub buffer2 : Option DataBuffer
  pub wss_server : Option WssStatus

module _ {R : Type 0} where
  unfoldable pub channel_json : String × String → Json R
  channel_json (name, endpoint) =
      object (members_of (("name", string name) ∷ ("endpoint", string endpoint) ∷ []))

  unfoldable pub camera_json : CameraStatus → Json R
  unfolding channel_json
  camera_json cam = object (
      members_of (
        ("camera_id", string cam.camera_id)
        ∷ ("capturing", boolean cam.capturing)
        ∷ ("subscriber_count", natural cam.subscriber_count)
        ∷ ("active_types", array (elements_of (map string cam.active_types)))
        ∷ ("channels", array (elements_of (map channel_json cam.channels)))
        ∷ []))

  unfoldable pub slot_json : DataBuffer → BufferSlotKey → Json R
  slot_json b s = object (
      members_of (
        ("camera_id", string s.camera_id)
        ∷ ("type", string (data_type_to_channel s.type))
        ∷ ("buffered", natural (slot_size s.camera_id s.type b))
        ∷ []))

  -- The members that a part adds if it is there.
  unfoldable pub cameras_member : ClientHandler R → List (String × Json R)
  unfolding camera_json
  cameras_member h = elim h.sdk_manager [
    | none ↦ []
    | some m ↦ ("cameras", array (elements_of (map camera_json (get_status m)))) ∷ []
  ]

  unfoldable pub buffer_member : Option DataBuffer → List (String × Json R)
  unfolding slot_json
  buffer_member none = []
  buffer_member (some b) =
      (
        "data_buffer_2",
        object (
            members_of
              (("active_slots", array (elements_of (map (slot_json b) (active_slots b)))) ∷ [])),
      )
      ∷ []

  unfoldable pub wss_member : Option WssStatus → List (String × Json R)
  wss_member none = []
  wss_member (some w) =
      (
        "wss",
        object (
            members_of (
              ("running", boolean w.running)
              ∷ ("clients", natural w.clients)
              ∷ ("frames_sent", natural w.frames_sent)
              ∷ [])),
      )
      ∷ []

-- `percent` is `100.0 * dropped / total` and `zero` is 0.0.
module _ {R : Type 0} (percent : ℕ → ℕ → R) (zero : R) where
  unfoldable pub drop_rate : ℕ → ℕ → R
  drop_rate pushed dropped =
      if ltb 0 (add_size pushed dropped) then percent dropped (add_size pushed dropped) else zero

  unfoldable pub pipeline_member : Option DataPipeline → List (String × Json R)
  unfolding drop_rate
  pipeline_member none = []
  pipeline_member (some p) =
      (
        "pipeline",
        object (
            members_of (
              ("total_pushed", natural p.total_pushed)
              ∷ ("total_dropped", natural p.total_dropped)
              ∷ ("queue_2d_size", natural (Spsc.size p.queue_2d))
              ∷ ("queue_3d_size", natural (Spsc.size p.queue_3d))
              ∷ ("queue_sensor_size", natural (Spsc.size p.queue_sensor))
              ∷ ("drop_rate_pct", float (drop_rate p.total_pushed p.total_dropped))
              ∷ [])),
      )
      ∷ []

  -- `handle_check_status` changes nothing.
  unfoldable pub handle_check_status : String → Node R → Response R
  unfolding cameras_member pipeline_member buffer_member wss_member
  handle_check_status client_id n = make_response_with success "Status" (
      object (
        members_of (
          ("initialized", boolean n.handler.module_initialized)
          ∷ ("sessions", natural (length n.handler.sessions))
          ∷ (cameras_member n.handler
              ++ (pipeline_member n.pipeline
                  ++ (buffer_member n.buffer2 ++ wss_member n.wss_server))))))

-- ===== src/Slots.antt =====
-- src/data/SDKSlotManager.cpp and include/stereo_camera/data/SDKSlotManager.h: the cameras, who
-- captures from them, and the calls made to their SDK clients. Each method runs under the mutex, so
-- it is one function on the state; threads are the flag that a dealer thread is owned. Log lines
-- are left out.
pub mod Lifecycle
pub mod Channels
pub mod Invariant
pub mod Capture
use lib_stereo_camera.Common.{
  ℕ, ◌+◌, ◌-◌, String, List, [], ◌∷◌, ◌++◌, map, Bool, true, false, not, ◌&&◌, ◌||◌, Option, none,
  some, if◌then◌else◌, ltb, is_yes, Assoc, lookup, insert, add_missing, erase_values, missing_from,
  string_discrete,
}
use lib_stereo_camera.Types.{
  DataType, data_type_discrete, data_type_to_group, data_type_to_channel, visual_geometric_2d,
  visual_geometric_3d, sensor_tracking, data_group_discrete,
}
use lib_stereo_camera.Client.{
  connect, start_capture_by_channels, stop_capture_by_channels, deactivate_channel, Calls,
}
use lib_stereo_camera.Buffer
use lib_stereo_camera.Buffer.{DataBuffer}

-- The loop of `types_to_channels`: which groups occur.
unfoldable pub has_groups : List DataType → Bool → Bool → Bool → Bool × Bool × Bool
has_groups [] has_2d has_3d has_sensor = (has_2d, has_3d, has_sensor)
has_groups (t ∷ ts) has_2d has_3d has_sensor =
    let g = data_type_to_group t in
    has_groups ts (has_2d || is_yes (data_group_discrete g visual_geometric_2d))
      (has_3d || is_yes (data_group_discrete g visual_geometric_3d))
      (has_sensor || is_yes (data_group_discrete g sensor_tracking))

unfoldable pub push_if : Bool → String → List String → List String
push_if b c cs = if b then cs ++ c ∷ [] else cs

unfoldable pub types_to_channels : List DataType → List String
unfolding has_groups push_if
types_to_channels types =
    let (has_2d, has_3d, has_sensor) = has_groups types false false false in
    push_if has_sensor "sensor_data" (push_if has_3d "visual_3d" (push_if has_2d "visual_2d" []))

unfoldable pub types_to_type_names : List DataType → List String
types_to_type_names types = map data_type_to_channel types

-- `struct SDKSlot`; the client is known by its base URL. The dealer thread is owned or not.
pub record SdkSlot : Type 0 where
  pub camera_id : String
  pub zmq_endpoint : String
  pub channels : Assoc String String
  pub client : String
  pub dealer_thread : Bool
  pub capturing : Bool
  pub subscriber_count : ℕ
  pub active_types : List DataType
  pub active_channels : List String

-- `struct CameraSDKConfig`
pub record CameraSdkConfig : Type 0 where
  pub id : String
  pub base_url : String
  pub zmq_endpoint : String
  pub channels : Assoc String String

-- `class SDKSlotManager`, with the calls that its clients have made.
pub record SdkSlotManager (R : Type 0) : Type 0 where
  pub buffer : DataBuffer
  pub slots : Assoc String SdkSlot
  pub running : Bool
  pub calls : Calls R

unfoldable pub new_slot : CameraSdkConfig → SdkSlot
new_slot cfg = record {
  camera_id = cfg.id;
  zmq_endpoint = cfg.zmq_endpoint;
  channels = cfg.channels;
  client = cfg.base_url;
  dealer_thread = false;
  capturing = false;
  subscriber_count = 0;
  active_types = [];
  active_channels = [];
}

-- The loops over the types that call `create_slot` and `remove_slot`.
unfoldable pub create_slots : String → List DataType → DataBuffer → DataBuffer
create_slots camera_id [] b = b
create_slots camera_id (t ∷ ts) b = create_slots camera_id ts (Buffer.create_slot camera_id t b)

unfoldable pub remove_slots : String → List DataType → DataBuffer → DataBuffer
remove_slots camera_id [] b = b
remove_slots camera_id (t ∷ ts) b = remove_slots camera_id ts (Buffer.remove_slot camera_id t b)

-- `new_type_names`: the types not found among the types that were active and are not asked for.
unfoldable pub new_types : List DataType → List DataType → List String
new_types types active =
    types_to_type_names
      (missing_from data_type_discrete (missing_from data_type_discrete types active) types)

-- What `start_capture` does to the camera's slot.
unfoldable pub started : List DataType → SdkSlot → SdkSlot
started types slot =
    let activate = missing_from string_discrete slot.active_channels (types_to_channels types) in
    record slot {
      subscriber_count = slot.subscriber_count + 1;
      active_types = add_missing data_type_discrete types slot.active_types;
      active_channels = slot.active_channels ++ activate;
      capturing = true;
      dealer_thread = if slot.capturing then slot.dealer_thread else true;
    }

-- What `stop_capture` does to the camera's slot.
unfoldable pub stopped : List DataType → SdkSlot → SdkSlot
stopped types slot =
    let count = if ltb 0 slot.subscriber_count then slot.subscriber_count - 1 else 0 in
    let left = erase_values data_type_discrete types slot.active_types in
    let deactivate =
      missing_from string_discrete (types_to_channels left) (types_to_channels types) in
    let last = not (ltb 0 count) && slot.capturing in
    record slot {
      subscriber_count = count;
      active_types = left;
      active_channels =
          if slot.capturing
          then erase_values string_discrete deactivate slot.active_channels
          else slot.active_channels;
      capturing = if last then false else slot.capturing;
      dealer_thread = if last then false else slot.dealer_thread;
    }

-- Whether a camera has a slot that owns a dealer thread.
unfoldable pub owns_thread : String → Assoc String SdkSlot → Bool
owns_thread camera_id slots = elim (lookup string_discrete camera_id slots) [
  | none ↦ false
  | some slot ↦ slot.dealer_thread
]

module _ {R : Type 0} where
  unfoldable pub make : DataBuffer → SdkSlotManager R
  make buffer = record { buffer = buffer; slots = []; running = false; calls = [] }

  -- A camera that has a slot gets a new one; the old one is destroyed, and if it owns a dealer thread,
  -- which is then joinable, that ends the process: none.
  unfoldable pub configure : List CameraSdkConfig → SdkSlotManager R → Option (SdkSlotManager R)
  unfolding new_slot owns_thread
  configure [] m = some m
  configure (cfg ∷ cfgs) m =
      let rest =
        configure cfgs
          (record m { slots = insert string_discrete cfg.id (new_slot cfg) m.slots }) in
      if owns_thread cfg.id m.slots then none else rest

  -- The calls that `start_capture` makes: a capturing camera is connected to again first.
  unfoldable pub start_calls : SdkSlot → List String → Calls R → Calls R
  start_calls slot [] calls = calls
  start_calls slot (n ∷ ns) calls =
      let before = if slot.capturing then (slot.client, connect) ∷ calls else calls in
      (slot.client, start_capture_by_channels (n ∷ ns)) ∷ before

  unfoldable pub start_capture : String → List DataType → SdkSlotManager R → Bool × SdkSlotManager R
  unfolding started start_calls new_types create_slots
  start_capture camera_id types m = elim (lookup string_discrete camera_id m.slots) [
    | none ↦ (false, m)
    | some slot ↦ (
      true,
      record m {
        buffer = create_slots camera_id types m.buffer;
        slots = insert string_discrete camera_id (started types slot) m.slots;
        running = if slot.capturing then m.running else true;
        calls =
            start_calls slot
              (new_types types (add_missing data_type_discrete types slot.active_types)) m.calls;
      },
    )
  ]

  -- `deactivate_channel` for each name in turn
  unfoldable pub deactivate_all : String → List String → Calls R → Calls R
  deactivate_all client [] calls = calls
  deactivate_all client (n ∷ ns) calls =
      deactivate_all client ns ((client, deactivate_channel n) ∷ calls)

  -- The calls that stop the named types: none if there is no name.
  unfoldable pub stop_calls : String → List String → Calls R → Calls R
  unfolding deactivate_all
  stop_calls client [] calls = calls
  stop_calls client (n ∷ ns) calls =
      deactivate_all client (n ∷ ns) ((client, stop_capture_by_channels (n ∷ ns)) ∷ calls)

  unfoldable pub stop_capture : String → List DataType → SdkSlotManager R → Bool × SdkSlotManager R
  unfolding stopped stop_calls remove_slots types_to_type_names
  stop_capture camera_id types m = elim (lookup string_discrete camera_id m.slots) [
    | none ↦ (false, m)
    | some slot ↦ (
      true,
      record m {
        buffer = remove_slots camera_id types m.buffer;
        slots = insert string_discrete camera_id (stopped types slot) m.slots;
        calls =
            if slot.capturing
            then stop_calls slot.client (types_to_type_names types) m.calls
            else m.calls;
      },
    )
  ]

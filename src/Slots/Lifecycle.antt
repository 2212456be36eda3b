-- ===== src/Slots/Lifecycle.antt =====
-- src/data/SDKSlotManager.cpp: the methods over all cameras, and the getters.
use lib_stereo_camera.Common.{
  ℕ, String, List, [], ◌∷◌, map, Bool, true, false, Option, none, some, if◌then◌else◌, Assoc,
  lookup, string_discrete,
}
use lib_stereo_camera.Types.{data_type_to_channel}
use lib_stereo_camera.Client.{init, connect, disconnect, dispose, Calls, Replies, accepted}
use lib_stereo_camera.Buffer.{DataBuffer}
use lib_stereo_camera.Slots.{SdkSlot, SdkSlotManager, types_to_type_names, stop_calls, remove_slots}

-- What `stop_all` does to each slot.
unfoldable pub halted : SdkSlot → SdkSlot
halted slot = record slot { capturing = false; subscriber_count = 0; dealer_thread = false }

-- What `force_stop_all_captures` does to each slot; one that does not capture is passed over.
unfoldable pub forced : SdkSlot → SdkSlot
forced slot =
    if slot.capturing
    then record slot {
      capturing = false;
      subscriber_count = 0;
      active_types = [];
      active_channels = [];
      dealer_thread = false;
    }
    else slot

abbrev pub each_slot : (SdkSlot → SdkSlot) → Assoc String SdkSlot → Assoc String SdkSlot
each_slot f = map (λ e. (e.0, f e.1))

-- The buffer after the loop of `force_stop_all_captures`.
unfoldable pub force_buffer : Assoc String SdkSlot → DataBuffer → DataBuffer
unfolding remove_slots
force_buffer [] b = b
force_buffer ((id, slot) ∷ slots) b =
    force_buffer slots (if slot.capturing then remove_slots id slot.active_types b else b)

module _ {R : Type 0} where
  -- The loop of `start_all`: `init`, and `connect` where `init` was accepted.
  unfoldable pub start_each : Replies R → Assoc String SdkSlot → Calls R → Calls R
  unfolding accepted
  start_each reply [] calls = calls
  start_each reply ((id, slot) ∷ slots) calls =
      let asked = (slot.client, init) ∷ calls in
      start_each reply slots
        (if accepted (reply asked).code then (slot.client, connect) ∷ asked else asked)

  unfoldable pub start_all : Replies R → SdkSlotManager R → SdkSlotManager R
  unfolding start_each
  start_all reply m = record m { running = true; calls = start_each reply m.slots m.calls }

  -- The second loop of `stop_all`.
  unfoldable pub release_each : Assoc String SdkSlot → Calls R → Calls R
  release_each [] calls = calls
  release_each ((id, slot) ∷ slots) calls =
      release_each slots ((slot.client, dispose) ∷ (slot.client, disconnect) ∷ calls)

  unfoldable pub stop_all : SdkSlotManager R → SdkSlotManager R
  unfolding halted release_each
  stop_all m = record m {
    running = false;
    slots = each_slot halted m.slots;
    calls = release_each m.slots m.calls;
  }

  -- The calls after the loop of `force_stop_all_captures`.
  unfoldable pub force_calls : Assoc String SdkSlot → Calls R → Calls R
  unfolding stop_calls types_to_type_names
  force_calls [] calls = calls
  force_calls ((id, slot) ∷ slots) calls = force_calls slots (
      if slot.capturing
      then stop_calls slot.client (types_to_type_names slot.active_types) calls
      else calls)

  unfoldable pub force_stop_all_captures : SdkSlotManager R → SdkSlotManager R
  unfolding forced force_calls force_buffer
  force_stop_all_captures m = record m {
    slots = each_slot forced m.slots;
    calls = force_calls m.slots m.calls;
    buffer = force_buffer m.slots m.buffer;
  }

  unfoldable pub get_client : String → SdkSlotManager R → Option String
  get_client camera_id m = elim (lookup string_discrete camera_id m.slots) [
    | none ↦ none
    | some slot ↦ some slot.client
  ]

  unfoldable pub get_camera_ids : SdkSlotManager R → List String
  get_camera_ids m = map (λ e. e.0) m.slots

  unfoldable pub capturing_active : String → SdkSlotManager R → Bool
  capturing_active camera_id m = elim (lookup string_discrete camera_id m.slots) [
    | none ↦ false
    | some slot ↦ slot.capturing
  ]

-- An entry of the JSON array that `get_status` returns.
pub record CameraStatus : Type 0 where
  pub camera_id : String
  pub capturing : Bool
  pub subscriber_count : ℕ
  pub active_types : List String
  pub channels : Assoc String String

unfoldable pub get_status : {R : Type 0} → SdkSlotManager R → List CameraStatus
get_status m = map status_of m.slots
  where
    status_of : String × SdkSlot → CameraStatus
    status_of (id, slot) = record {
      camera_id = id;
      capturing = slot.capturing;
      subscriber_count = slot.subscriber_count;
      active_types = map data_type_to_channel slot.active_types;
      channels = slot.channels;
    }

-- ===== src/Pipeline.antt =====
-- include/stereo_camera/data/DataPipeline.h, and what src/data/SDKSlotManager.cpp (`dealer_loop`) does with
-- each message from a camera: its parts go to the buffer, and as one frame to the group's queue.
-- Waking the publisher (`notify`) is left out. No `data_callback_` is set in the node.
pub mod Dealer
pub mod Encode
pub mod Publisher
pub mod Drain
use lib_stereo_camera.Common.{
  suc, ℕ, ℤ, bits64, ◌+◌, String, List, [], ◌∷◌, ◌++◌, Bool, true, false, not, ◌||◌, Option, none,
  some, is_yes, string_discrete, if◌then◌else◌,
}
use lib_stereo_camera.Common.Size.{add_size}
use lib_stereo_camera.Types.{
  DataType, Timestamp, DataBundle, ChannelFrame, DataGroup, visual_geometric_2d,
  visual_geometric_3d, sensor_tracking,
}
use lib_stereo_camera.Buffer
use lib_stereo_camera.Buffer.{DataBuffer}
use lib_stereo_camera.Spsc
use lib_stereo_camera.Spsc.{SpscQueue, try_push, empty}

-- `struct DataPipeline`
pub record DataPipeline : Type 0 where
  pub queue_2d : SpscQueue ChannelFrame
  pub queue_3d : SpscQueue ChannelFrame
  pub queue_sensor : SpscQueue ChannelFrame
  pub running : Bool
  pub total_pushed : ℕ
  pub total_dropped : ℕ

-- `ChannelFrame{}`
abbrev pub no_frame : ChannelFrame
no_frame = record { camera_id = ""; timestamp = record { sec = 0; nsec = 0 }; bundles = [] }

unfoldable pub new_queue : SpscQueue ChannelFrame
new_queue = Spsc.make no_frame 16

unfoldable pub new_pipeline : DataPipeline
unfolding new_queue
new_pipeline = record {
  queue_2d = new_queue;
  queue_3d = new_queue;
  queue_sensor = new_queue;
  running = true;
  total_pushed = 0;
  total_dropped = 0;
}

unfoldable pub queue_for_group : DataGroup → DataPipeline → SpscQueue ChannelFrame
queue_for_group visual_geometric_2d p = p.queue_2d
queue_for_group visual_geometric_3d p = p.queue_3d
queue_for_group sensor_tracking p = p.queue_sensor

-- A write through the pointer that `queue_for_group` returns.
unfoldable pub set_queue : DataGroup → SpscQueue ChannelFrame → DataPipeline → DataPipeline
set_queue visual_geometric_2d q p = record p { queue_2d = q }
set_queue visual_geometric_3d q p = record p { queue_3d = q }
set_queue sensor_tracking q p = record p { queue_sensor = q }

unfoldable pub has_data : DataPipeline → Bool
has_data p = not (empty p.queue_2d) || not (empty p.queue_3d) || not (empty p.queue_sensor)

-- The end of each branch of `dealer_loop`: a frame with bundles is queued, and counted as pushed or
-- dropped.
unfoldable pub count : Bool → DataPipeline → DataPipeline
count true p = record p { total_pushed = add_size p.total_pushed 1 }
count false p = record p { total_dropped = add_size p.total_dropped 1 }

unfoldable pub enqueue : DataGroup → ChannelFrame → DataPipeline → DataPipeline
unfolding queue_for_group set_queue count
enqueue g frame p =
    let (pushed, q) = try_push frame (queue_for_group g p) in count pushed (set_queue g q p)

-- What `dealer_loop` reads from a message's JSON header: whether it is active, its time as two `int`,
-- and the name of each part, or none where reading the part throws.
pub record Header : Type 0 where
  pub active : Bool
  pub ts_sec : ℤ
  pub ts_nsec : ℤ
  pub ids : List (Option String)

-- The group that a topic of `dealer_loop` stands for.
unfoldable pub group_of : String → Option DataGroup
group_of grp =
    if is_yes (string_discrete grp "visual_2d")
    then some visual_geometric_2d
    else if is_yes (string_discrete grp "visual_3d")
    then some visual_geometric_3d
    else if is_yes (string_discrete grp "sensor_data")
    then some sensor_tracking
    else none

-- The outcome of the loop over the parts: whether it ended without a throw, the buffer, the
-- bundles of the frame.
pub record Parts : Type 0 where
  pub completed : Bool
  pub buffer : DataBuffer
  pub bundles : List DataBundle

-- A frame without bundles is not queued; nor is one whose loop was left by a throw.
unfoldable pub queue_frame : String → Timestamp → DataGroup → Parts → DataPipeline → DataPipeline
unfolding enqueue
queue_frame camera_id ts g parts p =
    if parts.completed
    then elim parts.bundles [
      | [] ↦ p
      | x ∷ xs ↦ enqueue g (record { camera_id = camera_id; timestamp = ts; bundles = x ∷ xs }) p
    ]
    else p

-- `get_type` is the JSON library's reading of a `DataType`; none if it throws.
module _ (get_type : String → Option DataType) where
  -- The loop over the parts and the payloads; new bundles lie from the address given upwards.
  unfoldable pub parts_loop :
      String
      → Timestamp
      → List (Option String)
      → List (List ℕ)
      → ℕ
      → DataBuffer
      → List DataBundle
      → Parts
  parts_loop camera_id ts [] payloads address b bundles = record {
    completed = true;
    buffer = b;
    bundles = bundles;
  }
  parts_loop camera_id ts (id ∷ ids) [] address b bundles = record {
    completed = true;
    buffer = b;
    bundles = bundles;
  }
  parts_loop camera_id ts (none ∷ ids) (payload ∷ payloads) address b bundles = record {
    completed = false;
    buffer = b;
    bundles = bundles;
  }
  parts_loop camera_id ts (some id ∷ ids) (payload ∷ payloads) address b bundles =
      elim (get_type id) [
        | none ↦ parts_loop camera_id ts ids payloads (suc address) b bundles
        | some type ↦
            let x : DataBundle = record {
              address = address;
              timestamp = ts;
              type = type;
              payload = payload;
            } in
            parts_loop camera_id ts ids payloads (suc address) (Buffer.push camera_id x b)
              (bundles ++ x ∷ [])
      ]

  -- `parse` is `nlohmann::json::parse` and the reading of the header; none if it throws.
  -- What `dealer_loop` does with the parts of one message on the socket of a topic.
  unfoldable pub receive :
      (List ℕ → Option Header)
      → String
      → String
      → List (List ℕ)
      → ℕ
      → DataBuffer × DataPipeline
      → DataBuffer × DataPipeline
  unfolding group_of parts_loop queue_frame bits64
  receive parse camera_id grp [] address (b, p) = (b, p)
  receive parse camera_id grp (hdr ∷ payloads) address (b, p) = elim (parse hdr) [
    | none ↦ (b, p)
    | some header ↦
        let ts : Timestamp = record { sec = bits64 header.ts_sec; nsec = bits64 header.ts_nsec } in
        if header.active
        then elim (group_of grp) [
          | none ↦ (b, p)
          | some g ↦
              let parts = parts_loop camera_id ts header.ids payloads address b [] in
              (parts.buffer, queue_frame camera_id ts g parts p)
        ]
        else (b, p)
  ]

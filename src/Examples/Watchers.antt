-- ===== src/Examples/Watchers.antt =====
-- Runs of the WebSocket server's clients (src/data/WSServer.cpp): their queues, their messages, and
-- the encoding of images.
use lib_stereo_camera.Common.{
  ℕ, ◌+◌, ◌*◌, ◌/◌, ◌^◌, ◌%◌, ◌<◌, ◌≤◌, ◌≡◌, refl, arith, String, List, [], ◌∷◌, ◌++◌, Bool, true,
  false, not, ◌&&◌, Option, some, if◌then◌else◌, ◌==◌, replicate, length-replicate, length, take,
  drop, filter,
}
use lib_stereo_camera.Types.{imu, stereo_image, type_code, DataBundle, ChannelFrame}
use lib_stereo_camera.Buffer
use lib_stereo_camera.Buffer.{DataBuffer, BufferSlotKey, key_of, key_discrete, active_slots, clear}
use lib_stereo_camera.Spsc.Refine.{IsValid, contents, make-IsValid, try_push-IsValid}
use lib_stereo_camera.Pipeline.{no_frame, new_queue}
use lib_stereo_camera.Pipeline.Encode.{
  EncodeQueues, new_queues, encode_stereo_image, has_encode_data, find_resolution, encode_halves,
  bytes_of_u32,
}
use lib_stereo_camera.Pipeline.Encode.Loop.{new_encoder, encode_pass}
use lib_stereo_camera.Pipeline.Encode.Images.{Encoded, images, encode_pass-images}
use lib_stereo_camera.Spsc.{try_push, make}
use lib_stereo_camera.Pipeline.Encode.Split.{split_images, encode_stereo_image-split}
use lib_stereo_camera.Server.{WssClient, SendItem, new_client}
use lib_stereo_camera.Server.Topics.{frame}
use lib_stereo_camera.Server.Queue.{OnePerType, Event, passes, takes, happen_all, one_item_per_type}
use lib_stereo_camera.Server.Cleanup
use lib_stereo_camera.Server.Cleanup.{
  new_server, client_count, accept_pass, cleared_when_all_gone, is_empty,
}
use lib_stereo_camera.Server.Sending.{
  send_loop_passes, all_written, queue_frames, queue_drained, message_received, send_to_one,
  read_message,
}
use lib_stereo_camera.Wire.{ws_read_frame}
use lib_stereo_camera.Examples.Streams.{one_byte, one_byte-Delivers}

abbrev reading : DataBundle
reading = record {
  address = 7;
  timestamp = record { sec = 5; nsec = 6 };
  type = imu;
  payload = 9 ∷ [];
}

abbrev buffer : DataBuffer
buffer = Buffer.push "cam1" reading (Buffer.make 2)

-- Every message subscribes to the readings of all cameras.
abbrev parse : List ℕ → Option Bool
parse xs = some true

abbrev action : Bool → Option String
action j = some "subscribe"

abbrev has_topics : Bool → Bool
has_topics j = true

abbrev topics : Bool → List (Option String)
topics j = some "imu" ∷ []

abbrev events : List Event
events = passes (frame 1 (1 ∷ [])) [] buffer ∷ takes ∷ []

one_item_per_type_example :
    let r = happen_all parse action has_topics topics events (new_client, 0) in
    OnePerType r.0 × (length r.0.send_queue ≤ 9)
unfolding new_client
one_item_per_type_example =
    one_item_per_type parse action has_topics topics events (new_client, 0) tt

abbrev watcher : WssClient
watcher = record {
  subscriptions = "all" ∷ [];
  active = true;
  last_sent = [];
  send_queue = [];
  send_running = true;
}

abbrev slots : List BufferSlotKey
slots = key_of "cam1" imu ∷ []

abbrev comings : List Cleanup.Event
comings = Cleanup.accepts true buffer ∷ Cleanup.goes 0 ∷ []

cleared_when_all_gone_example :
    let s = Cleanup.happen_all comings new_server in
    let r = accept_pass false (s, buffer) in
    (r.1 ≡ (if not (is_empty s.clients) && client_count s == 0 then clear buffer else buffer))
    × (r.0.clients ≡ filter (λ c. c.active) s.clients ++ (if false then new_client ∷ [] else []))
    × (client_count r.0 ≡ client_count s + (if false then 1 else 0))
    × (length r.0.clients ≡ client_count r.0)
cleared_when_all_gone_example = cleared_when_all_gone comings false buffer

abbrev queue : List SendItem
queue = record { type = imu; bundle = reading } ∷ []

queue_drained_example :
    let r = send_loop_passes (all_written queue) (record watcher { send_queue = queue }, []) in
    (r.0.send_queue ≡ []) × (r.1 ≡ [] ++ queue_frames queue)
queue_drained_example =
    queue_drained queue (record watcher { send_queue = queue }) [] refl refl refl

new_queue-IsValid : IsValid new_queue
unfolding new_queue
new_queue-IsValid = (make-IsValid no_frame 4).0

-- A compression that keeps two bytes, and an allocator.
abbrev compress : List ℕ → ℕ → ℕ → Option (List ℕ)
compress src w h = some (1 ∷ 2 ∷ [])

abbrev allocate : ℕ → ℕ
allocate n = 1000 + n

-- There are as many bytes as one likes.
black : (n : ℕ) → (xs : List ℕ) × (length xs ≡ n)
black n = (replicate n 0, length-replicate n 0)

-- A pair of images of 672 by 376 black pixels.
abbrev raw : List ℕ
raw = (black 2021376).0

encoded : encode_stereo_image compress raw ≡ some (2 ∷ 0 ∷ 0 ∷ 0 ∷ 1 ∷ 2 ∷ 1 ∷ 2 ∷ [])
unfolding encode_stereo_image find_resolution encode_halves bytes_of_u32
encoded = rw ((black 2021376).1) refl

compress-small :
    (src : List ℕ) (w h : ℕ) (jpg : List ℕ) → compress src w h ≡ some jpg → length jpg < 2 ^ 32
compress-small src w h jpg e = ground (arith, e)

encode_stereo_image-split_example :
    let out : List ℕ = 2 ∷ 0 ∷ 0 ∷ 0 ∷ 1 ∷ 2 ∷ 1 ∷ 2 ∷ [] in
    let half = length raw / 2 in
    (w : ℕ) × (h : ℕ) × (half ≡ w * h * 4)
    × (compress (take half raw) w h ≡ some (split_images out).0)
    × (compress (drop half raw) w h ≡ some (split_images out).1)
encode_stereo_image-split_example =
    encode_stereo_image-split compress raw (omega (arith, (black 2021376).1)) compress-small encoded

-- A stereo image waits in the 2D queue.
abbrev stereo_frame : ChannelFrame
stereo_frame = record {
  camera_id = "cam1";
  timestamp = record { sec = 5; nsec = 0 };
  bundles =
      record {
        address = 7;
        timestamp = record { sec = 5; nsec = 0 };
        type = stereo_image;
        payload = raw;
      }
      ∷ [];
}

abbrev fed_queues : EncodeQueues
fed_queues = record new_queues { encode_queue_2d = (try_push stereo_frame new_queue).1 }

fed-IsValid : IsValid fed_queues.encode_queue_2d
unfolding new_queue make
fed-IsValid = try_push-IsValid no_frame new_queue-IsValid stereo_frame (omega arith)

encode_pass-images_example :
    let r = encode_pass compress allocate fed_queues new_encoder in
    Encoded compress allocate
      (images (contents no_frame fed_queues.encode_queue_2d))
      new_encoder
      r.1
    × (has_encode_data r.0 ≡ false)
    × (r.2 ≡ has_encode_data fed_queues)
unfolding new_queues
encode_pass-images_example =
    encode_pass-images compress allocate fed_queues new_encoder fed-IsValid new_queue-IsValid
      new_queue-IsValid

message_received_example :
    (xs : List ℕ) × (s' : List ℕ) × (ws_read_frame one_byte
        ((send_to_one true imu reading (watcher, [])).1 ++ 6 ∷ [])
      ≡ (some (2, xs), s'))
    × (s' ≡ 6 ∷ [])
    × (read_message xs ≡ (
      type_code imu,
      reading.timestamp.sec % 2 ^ 32,
      reading.timestamp.nsec % 2 ^ 32,
      reading.payload,
    ))
message_received_example =
    message_received one_byte-Delivers imu reading watcher (6 ∷ [])
      ((send_to_one true imu reading (watcher, [])).1 ++ 6 ∷ []) (omega arith) refl

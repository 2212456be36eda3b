-- ===== src/Pipeline/Publisher.antt =====
-- src/data/DataPublisher.cpp (`pub_loop`, `publish_group`), and the callback that src/main.cpp gives the
-- publisher. The ZMQ sockets are the messages sent on them; a message that ZMQ drops counts as sent.
use lib_stereo_camera.Common.{
  ℕ, zero, suc, pos, signed64, String, List, [], ◌∷◌, ◌++◌, map, Bool, none, some, if◌then◌else◌,
  length,
}
use Prim.Native.String
use lib_stereo_camera.Types.{DataBundle, ChannelFrame, data_type_to_channel, data_type_to_group}
use lib_stereo_camera.Client.{
  Json, integer, string, object, array, Elements, end, element, member, no_member,
}
use lib_stereo_camera.Buffer
use lib_stereo_camera.Buffer.{DataBuffer}
use lib_stereo_camera.Spsc.{SpscQueue, pop}
use lib_stereo_camera.Pipeline.{DataPipeline, no_frame}
use lib_stereo_camera.Pipeline.Encode.{EncodeQueues, push_encode}

-- A multipart message: topic, header and payloads.
pub record Message (R : Type 0) : Type 0 where
  pub topic : String
  pub header : Json R
  pub payloads : List (List ℕ)

-- What the publisher writes to: the messages sent so far, oldest first, and what the callback of
-- main changes.
pub record Outlet (R : Type 0) : Type 0 where
  pub sent : List (Message R)
  pub buffer2 : DataBuffer
  pub encode : EncodeQueues

unfoldable pub push_bundles : String → List DataBundle → DataBuffer → DataBuffer
push_bundles camera_id [] b = b
push_bundles camera_id (x ∷ xs) b = push_bundles camera_id xs (Buffer.push camera_id x b)

module _ {R : Type 0} where
  unfoldable pub parts_of : List DataBundle → Elements R
  parts_of [] = end
  parts_of (x ∷ xs) =
      element
        (object (
          member "id" (string (data_type_to_channel x.type))
            (member "size" (integer (pos (length x.payload))) no_member)))
        (parts_of xs)

  unfoldable pub message_of : String → ChannelFrame → Message R
  unfolding parts_of signed64
  message_of channel frame = record {
    topic = String.◌++◌ frame.camera_id (String.◌++◌ "/" channel);
    header = object (
        member "camera_id" (string frame.camera_id) (
          member "channel" (string channel) (
            member "parts" (array (parts_of frame.bundles)) (
              member "ts_nsec" (integer (signed64 frame.timestamp.nsec))
                (member "ts_sec" (integer (signed64 frame.timestamp.sec)) no_member)))));
    payloads = map (λ x. x.payload) frame.bundles;
  }

  -- A message goes out if there are bundles and the channel's socket is there.
  unfoldable pub send_if : Bool → List DataBundle → Message R → List (Message R) → List (Message R)
  send_if bound [] msg sent = sent
  send_if bound (x ∷ xs) msg sent = if bound then sent ++ msg ∷ [] else sent

  unfoldable pub publish_group : Bool → String → ChannelFrame → List (Message R) → List (Message R)
  unfolding message_of send_if
  publish_group bound channel frame sent =
      send_if bound frame.bundles (message_of channel frame) sent

  -- The callback that `main` sets, called for a frame with bundles.
  unfoldable pub pub_callback : ChannelFrame → List DataBundle → Outlet R → Outlet R
  unfolding push_bundles push_encode
  pub_callback frame [] o = o
  pub_callback frame (x ∷ xs) o = record o {
    buffer2 = push_bundles frame.camera_id (x ∷ xs) o.buffer2;
    encode = push_encode (data_type_to_group x.type) frame o.encode;
  }

  -- The body of one of the three loops of `pub_loop`.
  unfoldable pub publish_frame : Bool → String → ChannelFrame → Outlet R → Outlet R
  unfolding publish_group pub_callback
  publish_frame bound channel frame o =
      pub_callback frame frame.bundles
        (record o { sent = publish_group bound channel frame o.sent })

  -- `while (queue.pop(frame))`, on fuel
  unfoldable pub pub_queue :
      ℕ → Bool → String → SpscQueue ChannelFrame → Outlet R → SpscQueue ChannelFrame × Outlet R
  unfolding publish_frame
  pub_queue zero bound channel q o = (q, o)
  pub_queue (suc fuel) bound channel q o =
      let (out, rest) = pop no_frame q in
      elim out [
        | none ↦ (rest, o)
        | some frame ↦ pub_queue fuel bound channel rest (publish_frame bound channel frame o)
      ]

  -- One pass of `pub_loop` over the queues. A queue's capacity is fuel enough: see `Drain`.
  unfoldable pub pub_pass : (String → Bool) → DataPipeline → Outlet R → DataPipeline × Outlet R
  unfolding pub_queue
  pub_pass bound p o =
      let (q2, o2) =
        pub_queue p.queue_2d.capacity (bound "visual_geometric_2d") "visual_geometric_2d" p.queue_2d
          o in
      let (q3, o3) =
        pub_queue p.queue_3d.capacity (bound "visual_geometric_3d") "visual_geometric_3d" p.queue_3d
          o2 in
      let (qs, os) =
        pub_queue p.queue_sensor.capacity (bound "sensor_tracking") "sensor_tracking" p.queue_sensor
          o3 in
      (record p { queue_2d = q2; queue_3d = q3; queue_sensor = qs }, os)

-- ===== src/Server.antt =====
-- src/data/WSServer.cpp and include/stereo_camera/data/WSServer.h: the clients of the WebSocket
-- server. `client_loop` reads a client's subscriptions and queues what it is subscribed to, `send_loop`
-- takes items off the queue, and `accept_loop` adds clients and removes those that are gone. Each
-- function is what one thread does between taking a lock and giving it back, or one pass of a loop.
-- Sockets, TLS and the waits are left out, and the counter that the log line reads is kept.
pub mod Listener
pub mod Topics
pub mod Queue
pub mod Again
pub mod Cleanup
pub mod Sending
use Prim.Native.String
use Prim.Native.String.{String}
use lib_stereo_camera.Common.{
  ℕ, ◌+◌, ◌%◌, ◌^◌, List, [], ◌∷◌, ◌++◌, Bool, true, false, not, ◌&&◌, ◌||◌, Option, none, some,
  if◌then◌else◌, ◌==◌, Assoc, lookup, insert, string_discrete, is_yes, add_missing, erase_value,
}
use lib_stereo_camera.Types.{
  DataType, stereo_image, depth_map, point_cloud, imu, disparity_map, confidence_map, temperature,
  magnetometer, barometer, data_type_discrete, data_type_to_channel, DataBundle,
}
use lib_stereo_camera.Buffer.{BufferSlotKey, DataBuffer, get_latest}

-- `struct SendItem`
pub record SendItem : Type 0 where
  pub type : DataType
  pub bundle : DataBundle

-- `struct WSSClient`: `last_sent` has the addresses of the bundles last queued. The connection and
-- the threads are left out.
pub record WssClient : Type 0 where
  pub subscriptions : List String
  pub active : Bool
  pub last_sent : Assoc String ℕ
  pub send_queue : List SendItem
  pub send_running : Bool

-- A client as `accept_loop` makes it, its send thread started.
unfoldable pub new_client : WssClient
new_client = record {
  subscriptions = [];
  active = true;
  last_sent = [];
  send_queue = [];
  send_running = true;
}

-- The test on the subscriptions of a client: the loop stops at the first that matches.
unfoldable pub is_subscribed : String → String → List String → Bool
is_subscribed channel full_topic [] = false
is_subscribed channel full_topic (sub ∷ subs) =
    is_yes (string_discrete sub "all")
    || is_yes (string_discrete sub channel)
    || is_yes (string_discrete sub full_topic)
    || is_subscribed channel full_topic subs

unfoldable pub full_topic : BufferSlotKey → String
full_topic slot = String.◌++◌ slot.camera_id (String.◌++◌ "/" (data_type_to_channel slot.type))

unfoldable pub wants : BufferSlotKey → WssClient → Bool
unfolding full_topic is_subscribed
wants slot c = is_subscribed (data_type_to_channel slot.type) (full_topic slot) c.subscriptions

-- `std::to_string(static_cast<int>(type))`
unfoldable pub type_digit : DataType → String
type_digit stereo_image = "0"
type_digit depth_map = "1"
type_digit point_cloud = "2"
type_digit imu = "3"
type_digit disparity_map = "4"
type_digit confidence_map = "5"
type_digit temperature = "6"
type_digit magnetometer = "7"
type_digit barometer = "8"

-- The key of a slot in `last_sent`.
unfoldable pub sent_key : BufferSlotKey → String
unfolding type_digit
sent_key slot = String.◌++◌ slot.camera_id (String.◌++◌ "/" (type_digit slot.type))

-- Where a slot's bundle comes from: a stereo image from the cache of encoded images, another type
-- from the buffer.
unfoldable pub bundle_of : Assoc String DataBundle → DataBuffer → BufferSlotKey → Option DataBundle
bundle_of encoded_stereo buffer slot =
    if is_yes (data_type_discrete slot.type stereo_image)
    then lookup string_discrete slot.camera_id encoded_stereo
    else get_latest slot.camera_id slot.type buffer

-- `session->last_sent[key] == bundle.get()`: no address has been stored under a new key, and the
-- one it then has is null.
unfoldable pub was_sent : Option ℕ → DataBundle → Bool
was_sent none bundle = false
was_sent (some address) bundle = address == bundle.address

-- The loop over the queue that erases the items of a type.
unfoldable pub erase_type : DataType → List SendItem → List SendItem
erase_type type [] = []
erase_type type (item ∷ queue) =
    let rest = erase_type type queue in
    if is_yes (data_type_discrete item.type type) then rest else item ∷ rest

-- The client once a bundle is queued for it.
unfoldable pub queue_bundle : BufferSlotKey → DataBundle → WssClient → WssClient
unfolding erase_type sent_key
queue_bundle slot bundle c = record c {
  last_sent = insert string_discrete (sent_key slot) bundle.address c.last_sent;
  send_queue =
      erase_type slot.type c.send_queue ++ record { type = slot.type; bundle = bundle } ∷ [];
}

-- The bundle of a slot unless it is null, empty, or the last one sent.
unfoldable pub to_send : BufferSlotKey → Option DataBundle → WssClient → Option DataBundle
unfolding was_sent sent_key
to_send slot none c = none
to_send slot (some bundle) c = elim bundle.payload [
  | [] ↦ none
  | byte ∷ bytes ↦
      if was_sent (lookup string_discrete (sent_key slot) c.last_sent) bundle
      then none
      else some bundle
]

-- The rest of the loop's body: the bundle that is found is queued, and counted in the server's
-- `frame_count_`.
unfoldable pub send_found : BufferSlotKey → Option DataBundle → WssClient × ℕ → WssClient × ℕ
send_found slot none s = s
send_found slot (some bundle) s = (queue_bundle slot bundle s.0, (s.1 + 1) % 2 ^ 32)

-- The body of the loop over the active slots.
unfoldable pub send_slot :
    Assoc String DataBundle → DataBuffer → BufferSlotKey → WssClient × ℕ → WssClient × ℕ
send_slot encoded_stereo buffer slot s =
    if wants slot s.0
    then send_found slot (to_send slot (bundle_of encoded_stereo buffer slot) s.0) s
    else s

-- The loop over the slots that were active when it started.
unfoldable pub send_slots :
    Assoc String DataBundle → DataBuffer → List BufferSlotKey → WssClient × ℕ → WssClient × ℕ
unfolding send_slot
send_slots encoded_stereo buffer [] s = s
send_slots encoded_stereo buffer (slot ∷ slots) s =
    send_slots encoded_stereo buffer slots (send_slot encoded_stereo buffer slot s)

-- The first item of a queue, and the others.
unfoldable pub pop_front : List SendItem → Option SendItem × List SendItem
pop_front [] = (none, [])
pop_front (item ∷ queue) = (some item, queue)

-- What `send_loop` takes from the queue under its lock.
unfoldable pub next_item : WssClient → Option SendItem × WssClient
unfolding pop_front
next_item c = let (item, rest) = pop_front c.send_queue in (item, record c { send_queue = rest })

-- The end of `client_loop`.
unfoldable pub leave : WssClient → WssClient
leave c = record c { active = false; send_running = false }

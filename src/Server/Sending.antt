-- ===== src/Server/Sending.antt =====
-- src/data/WSServer.cpp: `send_loop` and `send_to_one`, which write the items of a client's queue.
use lib_stereo_camera.Common.{
  ℕ, ◌+◌, ◌%◌, ◌^◌, ◌<◌, ◌≡◌, refl, sym, ap, ap₂, ◌∙◌, arith, List, [], ◌∷◌, ◌++◌, append_assoc,
  append-nil, map, Bool, true, false, ◌&&◌, Option, none, some, if◌then◌else◌, length, take, drop,
}
use lib_stereo_camera.Common.Size.{size_mod}
use lib_stereo_camera.Types.{DataType, type_code, DataBundle}
use lib_stereo_camera.Pipeline.Encode.{bytes_of_u32}
use lib_stereo_camera.Pipeline.Encode.Split.{u32_of_bytes, u32_of_bytes-bytes_of_u32}
use lib_stereo_camera.Wire.{ws_send_binary, ws_read_frame}
use lib_stereo_camera.Wire.Stream.{Delivers}
use lib_stereo_camera.Wire.Frames.{ws_read_frame-written}
use lib_stereo_camera.Server.{SendItem, WssClient, next_item, pop_front}

-- The message of an item: its type and the two parts of its timestamp, cut to 32 bits, and the
-- payload.
unfoldable pub message_bytes : DataType → DataBundle → List ℕ
message_bytes type bundle =
    bytes_of_u32 (type_code type)
    ++ (bytes_of_u32 (bundle.timestamp.sec % 2 ^ 32)
        ++ (bytes_of_u32 (bundle.timestamp.nsec % 2 ^ 32) ++ bundle.payload))

-- `send_to_one` on a client and the bytes written to it so far. Whether the write succeeds is decided outside;
-- one that fails makes the client inactive, and what it wrote of the frame is left out.
unfoldable pub send_to_one : Bool → DataType → DataBundle → WssClient × List ℕ → WssClient × List ℕ
unfolding message_bytes
send_to_one true type bundle (c, out) = (c, out ++ ws_send_binary (message_bytes type bundle))
send_to_one false type bundle (c, out) = (record c { active = false }, out)

unfoldable pub send_taken : Bool → Option SendItem × WssClient → List ℕ → WssClient × List ℕ
send_taken written (none, c) out = (c, out)
send_taken written (some item, c) out = send_to_one written item.type item.bundle (c, out)

-- One pass of `send_loop`.
unfoldable pub send_loop_pass : Bool → WssClient × List ℕ → WssClient × List ℕ
send_loop_pass written (c, out) =
    if c.send_running && c.active then send_taken written (next_item c) out else (c, out)

-- As many passes, with the results of their writes.
unfoldable pub send_loop_passes : List Bool → WssClient × List ℕ → WssClient × List ℕ
send_loop_passes [] s = s
send_loop_passes (written ∷ ws) s = send_loop_passes ws (send_loop_pass written s)

-- The frames of the items of a queue, in order.
unfoldable pub queue_frames : List SendItem → List ℕ
queue_frames [] = []
queue_frames (item ∷ queue) =
    ws_send_binary (message_bytes item.type item.bundle) ++ queue_frames queue

abbrev pub all_written : List SendItem → List Bool
all_written queue = map (λ item. true) queue

take_first :
    (item : SendItem) (queue : List SendItem) (c : WssClient) (out : List ℕ)
    → c.send_queue ≡ item ∷ queue
    → c.active ≡ true
    → c.send_running ≡ true
    → send_loop_pass true (c, out) ≡ (
      record c { send_queue = queue },
      out ++ ws_send_binary (message_bytes item.type item.bundle),
    )
unfolding send_loop_pass send_taken send_to_one next_item pop_front
take_first item queue c out q a r = rw (r, a, ap pop_front q) refl

-- While its writes succeed and nothing is queued meanwhile, the send thread of an active client writes
-- every item of the queue, in order, in as many passes as there are items, and the queue is then empty.
pub queue_drained :
    (queue : List SendItem) (c : WssClient) (out : List ℕ)
    → c.send_queue ≡ queue
    → c.active ≡ true
    → c.send_running ≡ true
    → let r = send_loop_passes (all_written queue) (c, out) in
      (r.0.send_queue ≡ []) × (r.1 ≡ out ++ queue_frames queue)
unfolding send_loop_passes send_loop_pass send_taken send_to_one queue_frames next_item pop_front
queue_drained [] c out q a r = (q, sym (append-nil out))
queue_drained (item ∷ queue) c out q a r =
    let first = take_first item queue c out q a r in
    let frame = ws_send_binary (message_bytes item.type item.bundle) in
    let (none_left, rest) =
      queue_drained queue (record c { send_queue = queue }) (out ++ frame) refl a r in
    let same = ap (send_loop_passes (all_written queue)) first in
    (
      ap (λ s. s.0.send_queue) same ∙ none_left,
      ap (λ s. s.1) same ∙ rest ∙ append_assoc out frame (queue_frames queue),
    )

-- A client's reading of a message: the type's code, the timestamp and the payload.
unfoldable pub read_message : List ℕ → ℕ × ℕ × ℕ × List ℕ
read_message xs = (
  u32_of_bytes (take 4 xs),
  u32_of_bytes (take 4 (drop 4 xs)),
  u32_of_bytes (take 4 (drop 8 xs)),
  drop 12 xs,
)

type_code-small : (type : DataType) → type_code type < 2 ^ 32
type_code-small type = ground arith

length-message_bytes :
    (type : DataType) (bundle : DataBundle)
    → length (message_bytes type bundle) ≡ length bundle.payload + 12
unfolding message_bytes bytes_of_u32
length-message_bytes type bundle = omega arith

read_message-message_bytes :
    (type : DataType) (bundle : DataBundle)
    → read_message (message_bytes type bundle) ≡ (
      type_code type,
      bundle.timestamp.sec % 2 ^ 32,
      bundle.timestamp.nsec % 2 ^ 32,
      bundle.payload,
    )
unfolding read_message message_bytes bytes_of_u32
read_message-message_bytes type bundle =
    let word : (n : ℕ) → n < 2 ^ 32 → u32_of_bytes (bytes_of_u32 n) ≡ n =
      u32_of_bytes-bytes_of_u32 in
    let sec = bundle.timestamp.sec % 2 ^ 32 in
    let nsec = bundle.timestamp.nsec % 2 ^ 32 in
    let read : ℕ → ℕ → ℕ → ℕ × ℕ × ℕ × List ℕ = λ t a b. (t, a, b, bundle.payload) in
    ap (λ t. read t (u32_of_bytes (bytes_of_u32 sec)) (u32_of_bytes (bytes_of_u32 nsec)))
      (word (type_code type) (type_code-small type))
    ∙ ap₂ (read (type_code type)) (word sec (omega arith)) (word nsec (omega arith))

-- A message that `send_to_one` writes, of a payload of fewer than 2 ^ 64 - 12 bytes, is read by
-- `ws_read_frame` at the other end as a binary frame, in whatever pieces the connection delivers it, and its
-- bytes give back the type's code, the timestamp's parts modulo 2 ^ 32, and the payload.
pub message_received :
    {S : Type 0} {ssl_read : ℕ → S → Option (List ℕ) × S} {pending : S → List ℕ}
    → Delivers ssl_read pending
    → (type : DataType) (bundle : DataBundle) (c : WssClient) (rest : List ℕ) (s : S)
    → length bundle.payload + 12 < size_mod
    → pending s ≡ (send_to_one true type bundle (c, [])).1 ++ rest
    → (xs : List ℕ) × (s' : S) × (ws_read_frame ssl_read s ≡ (some (2, xs), s'))
      × (pending s' ≡ rest)
      × (read_message xs ≡ (
        type_code type,
        bundle.timestamp.sec % 2 ^ 32,
        bundle.timestamp.nsec % 2 ^ 32,
        bundle.payload,
      ))
unfolding send_to_one
message_received d type bundle c rest s small p =
    let xs = message_bytes type bundle in
    let (s', got, left) =
      ws_read_frame-written d true xs rest s
        (omega (arith, small, length-message_bytes type bundle)) p in
    (xs, s', got, left, read_message-message_bytes type bundle)

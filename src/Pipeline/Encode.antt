-- ===== src/Pipeline/Encode.antt =====
-- src/data/WSServer.cpp, the encode path: the three queues that `push_encode` feeds, and the encoding of
-- one stereo image. The numbers that only the log reads are left
-- out, and so is waking the encode thread.
pub mod Loop
pub mod Split
pub mod Images
use lib_stereo_camera.Common.{
  ℕ, ◌/◌, ◌%◌, ◌*◌, ◌^◌, List, [], ◌∷◌, ◌++◌, Bool, not, ◌||◌, Option, none, some, if◌then◌else◌,
  ltb, ◌==◌, length, take, drop,
}
use lib_stereo_camera.Types.{
  ChannelFrame, DataGroup, visual_geometric_2d, visual_geometric_3d, sensor_tracking,
}
use lib_stereo_camera.Spsc.{SpscQueue, try_push, empty, set_max_depth}
use lib_stereo_camera.Pipeline.{new_queue}

-- The encode queues of `class WSServer`.
pub record EncodeQueues : Type 0 where
  pub encode_queue_2d : SpscQueue ChannelFrame
  pub encode_queue_3d : SpscQueue ChannelFrame
  pub encode_queue_sensor : SpscQueue ChannelFrame

unfoldable pub new_queues : EncodeQueues
unfolding new_queue
new_queues = record {
  encode_queue_2d = new_queue;
  encode_queue_3d = new_queue;
  encode_queue_sensor = new_queue;
}

-- A frame that a full queue refuses is dropped silently.
unfoldable pub push_encode : DataGroup → ChannelFrame → EncodeQueues → EncodeQueues
push_encode visual_geometric_2d frame e = record e {
  encode_queue_2d = (try_push frame e.encode_queue_2d).1;
}
push_encode visual_geometric_3d frame e = record e {
  encode_queue_3d = (try_push frame e.encode_queue_3d).1;
}
push_encode sensor_tracking frame e = record e {
  encode_queue_sensor = (try_push frame e.encode_queue_sensor).1;
}

unfoldable pub set_encode_queue_depth : ℕ → EncodeQueues → EncodeQueues
set_encode_queue_depth depth e = record {
  encode_queue_2d = set_max_depth depth e.encode_queue_2d;
  encode_queue_3d = set_max_depth depth e.encode_queue_3d;
  encode_queue_sensor = set_max_depth depth e.encode_queue_sensor;
}

unfoldable pub has_encode_data : EncodeQueues → Bool
has_encode_data e =
    not (empty e.encode_queue_2d)
    || not (empty e.encode_queue_3d)
    || not (empty e.encode_queue_sensor)

-- The table `res`: pixels, width, height.
abbrev pub res : List (ℕ × ℕ × ℕ)
res =
    (1280 * 720, 1280, 720)
    ∷ (1920 * 1080, 1920, 1080)
    ∷ (1920 * 1200, 1920, 1200)
    ∷ (2208 * 1242, 2208, 1242)
    ∷ (672 * 376, 672, 376)
    ∷ (1280 * 480, 1280, 480)
    ∷ []

-- The first entry of the table with as many pixels, of which the cast to `int` keeps 32 bits: it is an
-- entry's number, below 2 ^ 31, if these bits are.
unfoldable pub find_resolution : ℕ → List (ℕ × ℕ × ℕ) → Option (ℕ × ℕ)
find_resolution pixels [] = none
find_resolution pixels ((pw, w, h) ∷ rs) =
    if pixels % 2 ^ 32 == pw then some (w, h) else find_resolution pixels rs

-- The four bytes of a `uint32_t` as they lie in memory (little endian).
unfoldable pub bytes_of_u32 : ℕ → List ℕ
bytes_of_u32 n = n % 256 ∷ n / 256 % 256 ∷ n / 65536 % 256 ∷ n / 16777216 % 256 ∷ []

-- `compress` is `tjCompress2` with the server's settings: the JPEG of an image of BGRA bytes of a
-- width and a height; none if it fails.
module _ (compress : List ℕ → ℕ → ℕ → Option (List ℕ)) where
  -- Both halves are compressed; the first one's size goes before them.
  unfoldable pub encode_halves : List ℕ → ℕ → ℕ → ℕ → Option (List ℕ)
  unfolding bytes_of_u32
  encode_halves raw half w h = elim (compress (take half raw) w h) [
    | none ↦ none
    | some left ↦ elim (compress (drop half raw) w h) [
      | none ↦ none
      | some right ↦ some (bytes_of_u32 (length left) ++ left ++ right)
    ]
  ]

  unfoldable pub encode_stereo_image : List ℕ → Option (List ℕ)
  unfolding find_resolution encode_halves
  encode_stereo_image raw =
      let half = length raw / 2 in
      let pixels = half / 4 in
      if ltb (length raw) 8 || (pixels == 0 || not (half % 4 == 0))
      then none
      else elim (find_resolution pixels res) [
        | none ↦ none
        | some (w, h) ↦ encode_halves raw half w h
      ]

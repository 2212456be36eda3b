-- ===== src/Examples/Streams.antt =====
-- Runs of the frames' way: the dealer and the publisher (src/data/SDKSlotManager.cpp,
-- src/data/DataPublisher.cpp) and the WebSocket frames (src/data/WSServer.cpp).
use lib_stereo_camera.Common.{
  ℕ, ◌≤◌, ◌≡◌, refl, arith, String, List, [], ◌∷◌, ◌++◌, Bool, true, Option, none, some, length,
  bit_and, pos,
}
use lib_stereo_camera.Types.{DataType, imu, DataBundle, ChannelFrame}
use lib_stereo_camera.Buffer
use lib_stereo_camera.Buffer.{DataBuffer}
use lib_stereo_camera.Spsc.Refine.{IsValid, make-IsValid, try_push-IsValid}
use lib_stereo_camera.Spsc
use lib_stereo_camera.Spsc.{try_push, make}
use lib_stereo_camera.Pipeline.{DataPipeline, no_frame, new_queue, new_pipeline, Header}
use lib_stereo_camera.Pipeline.Encode.{new_queues}
use lib_stereo_camera.Pipeline.Publisher.{Outlet, pub_pass}
use lib_stereo_camera.Pipeline.Drain.{Published, pub_pass_lem}
use lib_stereo_camera.Wire.{ws_read_frame, ws_send_binary}
use lib_stereo_camera.Wire.Stream.{Delivers}
use lib_stereo_camera.Wire.Frames.{ws_read_frame-written}
use lib_stereo_camera.Wire.Masked.{masked_frame, masked_frame_read}

abbrev bundle : DataBundle
bundle = record {
  address = 1;
  timestamp = record { sec = 5; nsec = 0 };
  type = imu;
  payload = 9 ∷ [];
}

abbrev frame : ChannelFrame
frame = record {
  camera_id = "cam1";
  timestamp = record { sec = 5; nsec = 0 };
  bundles = bundle ∷ [];
}

new_queue-IsValid : IsValid new_queue
unfolding new_queue
new_queue-IsValid = (make-IsValid no_frame 4).0

-- A header that names one part, and the library's reading of the names.
abbrev header : Header
header = record { active = true; ts_sec = pos 5; ts_nsec = pos 0; ids = some "imu" ∷ [] }

abbrev parse : List ℕ → Option Header
parse hdr = some header

abbrev get_type : String → Option DataType
get_type id = some imu

abbrev outlet : Outlet ℕ
outlet = record { sent = []; buffer2 = Buffer.make 2; encode = new_queues }

abbrev bound : String → Bool
bound channel = true

-- A pipeline whose sensor queue holds a frame.
abbrev waiting : DataPipeline
waiting = record new_pipeline { queue_sensor = (try_push frame new_queue).1 }

waiting-IsValid : IsValid waiting.queue_sensor
unfolding new_queue make
waiting-IsValid = try_push-IsValid no_frame new_queue-IsValid frame (omega arith)

pub_pass_lem_example : Published bound waiting outlet (pub_pass bound waiting outlet)
unfolding new_pipeline
pub_pass_lem_example =
    pub_pass_lem bound waiting outlet new_queue-IsValid new_queue-IsValid waiting-IsValid

-- A connection that delivers one byte at a time.
abbrev pub one_byte : ℕ → List ℕ → Option (List ℕ) × List ℕ
one_byte n [] = (none, [])
one_byte n (x ∷ xs) = (some (x ∷ []), xs)

one_byte-read :
    (n : ℕ) (s : List ℕ)
    → 1 ≤ n
    → 1 ≤ length s
    → (bs : List ℕ) × (s' : List ℕ) × (one_byte n s ≡ (some bs, s'))
      × (1 ≤ length bs)
      × (length bs ≤ n)
      × (s ≡ bs ++ s')
one_byte-read n [] low h = elim h [ ]
one_byte-read n (x ∷ xs) low h = (x ∷ [], xs, refl, omega arith, low, refl)

pub one_byte-Delivers : Delivers one_byte (λ s. s)
one_byte-Delivers = record { read = one_byte-read }

ws_read_frame-written_example :
    (s' : List ℕ) × (ws_read_frame one_byte (ws_send_binary (4 ∷ 5 ∷ []) ++ 6 ∷ [])
      ≡ (some (2, 4 ∷ 5 ∷ []), s'))
    × (s' ≡ 6 ∷ [])
ws_read_frame-written_example =
    ws_read_frame-written one_byte-Delivers true (4 ∷ 5 ∷ []) (6 ∷ [])
      (ws_send_binary (4 ∷ 5 ∷ []) ++ 6 ∷ []) (omega arith) refl

masked_frame_read_example :
    (s' : List ℕ) × (ws_read_frame one_byte (masked_frame 129 1 2 3 4 (9 ∷ 8 ∷ []) ++ 6 ∷ [])
      ≡ (some (bit_and 129 15, 9 ∷ 8 ∷ []), s'))
    × (s' ≡ 6 ∷ [])
masked_frame_read_example =
    masked_frame_read one_byte-Delivers 129 1 2 3 4 (9 ∷ 8 ∷ []) (6 ∷ [])
      (masked_frame 129 1 2 3 4 (9 ∷ 8 ∷ []) ++ 6 ∷ []) (omega arith) refl

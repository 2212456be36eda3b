-- ===== src/Examples/Records.antt =====
-- Runs of src/data/LoopbackSubscriber.cpp on a message of src/data/DataPublisher.cpp, and of
-- src/data/DataStorage.cpp.
use lib_stereo_camera.Common.{
  ℕ, ◌≡◌, refl, arith, List, [], ◌∷◌, Option, none, some, suc, String, Bool, true, pos,
}
use lib_stereo_camera.Common.Size.{add_size}
use lib_stereo_camera.Types.{imu, DataBundle, DataGroup, ChannelFrame}
use lib_stereo_camera.Client.{Json, integer}
use lib_stereo_camera.Json.{JsonOps}
use lib_stereo_camera.Buffer
use lib_stereo_camera.Pipeline.Publisher.{message_of, push_bundles}
use lib_stereo_camera.Loopback.{Loopback, feed, sub_message}
use lib_stereo_camera.Loopback.Received.{copied, published_received}
use lib_stereo_camera.Storage.{FileStorage, ByteFiles, bundle_json, save_bundle, load_bundle}
use lib_stereo_camera.Storage.Trip.{load-save}
use lib_stereo_camera.Examples.Settings.{library, library-IsJson}

abbrev bundle : DataBundle
bundle = record {
  address = 1;
  timestamp = record { sec = 5; nsec = 0 };
  type = imu;
  payload = 9 ∷ [];
}

abbrev frame : ChannelFrame
frame = record {
  camera_id = "cam1";
  timestamp = record { sec = 5; nsec = 0 };
  bundles = bundle ∷ [];
}

abbrev header : Json ℕ
header = (message_of "sensor_tracking" frame).header

abbrev lib : JsonOps ℕ
lib = library "{}" header

abbrev parse : List ℕ → Option (Json ℕ)
parse hdr = some header

-- A callback that counts the frames.
abbrev call : Option (DataGroup → ChannelFrame → ℕ → ℕ)
call = some (λ g f n. suc n)

abbrev idle : Loopback ℕ
idle = record { buffer = Buffer.make 2; fed = 0; total_frames = 0 }

published_received_example :
    let copy = copied 50 frame in
    sub_message lib call parse
      ((1 ∷ []) ∷ (2 ∷ []) ∷ (message_of {R = ℕ} "sensor_tracking" frame).payloads)
      50
      idle
    ≡ record {
      buffer = push_bundles frame.camera_id copy.bundles idle.buffer;
      fed = feed call copy copy.bundles idle.fed;
      total_frames = add_size idle.total_frames 1;
    }
published_received_example =
    published_received (library-IsJson "{}" header) call parse (1 ∷ []) (2 ∷ []) "sensor_tracking"
      frame 50 idle (omega arith) (omega arith) refl

abbrev storage : FileStorage
storage = record { base_dir = "/data" }

-- Three bytes stand for the JSON's text.
abbrev dump : Json ℕ → List ℕ
dump j = 7 ∷ 7 ∷ 7 ∷ []

abbrev parse_text : List ℕ → Option (Json ℕ)
parse_text xs = some (bundle_json bundle)

abbrev number : Json ℕ → Option ℕ
number (integer (pos n)) = some n
number j = none

abbrev always : String → Bool
always path = true

-- A bundle to fill, with more bytes than the saved one.
abbrev other : DataBundle
other = record {
  address = 2;
  timestamp = record { sec = 0; nsec = 3 };
  type = imu;
  payload = 4 ∷ 4 ∷ 4 ∷ [];
}

abbrev no_files : ByteFiles
no_files = []

load-save_example :
    let (after, saved) =
      save_bundle lib parse_text dump number number always always storage "a.bin" bundle no_files in
    (saved ≡ some true)
    × (load_bundle lib parse_text dump number number
          (1 ∷ 2 ∷ 3 ∷ 4 ∷ [])
          after
          storage
          "a.bin"
          other
        ≡ (record bundle { address = 2 }, some true))
load-save_example =
    load-save lib (library-IsJson "{}" header) parse_text dump number number (λ n fits. refl)
      (λ n fits. refl) always always storage "a.bin" bundle other no_files (1 ∷ 2 ∷ 3 ∷ 4 ∷ []) refl
      refl (omega arith) (omega arith) (omega arith) refl (omega arith) refl

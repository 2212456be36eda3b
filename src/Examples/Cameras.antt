-- ===== src/Examples/Cameras.antt =====
-- Runs of src/data/SDKSlotManager.cpp.
use lib_stereo_camera.Common.{insert, ℕ, ◌≡◌, refl, [], ◌∷◌, some, lookup}
use lib_stereo_camera.Types.{imu, success}
use lib_stereo_camera.Client.{Replies, make_response}
use lib_stereo_camera.Buffer
use lib_stereo_camera.Slots.{
  SdkSlotManager, CameraSdkConfig, new_slot, configure, owns_thread, make,
}
use lib_stereo_camera.Slots.Invariant.{
  starts, IsValid, Outcome, terminates, step, step-IsValid, insert-valid, new_manager-IsValid,
  new_slot-IsValid,
}

abbrev pub config : CameraSdkConfig
config = record {
  id = "cam1";
  base_url = "https://127.0.0.1:8443";
  zmq_endpoint = "ipc:///tmp/zed_vision";
  channels = [];
}

abbrev pub manager : SdkSlotManager ℕ
manager = record (make (Buffer.make 2)) { slots = ("cam1", new_slot config) ∷ [] }

abbrev pub reply : Replies ℕ
reply calls = make_response success ""

manager-configured : configure (config ∷ []) (make (Buffer.make 2)) ≡ some manager
unfolding configure owns_thread make lookup insert
manager-configured = refl

pub manager-IsValid : IsValid manager
unfolding make insert
manager-IsValid = record {
  each =
      insert-valid {R = ℕ} "cam1" (new_slot config) (make (Buffer.make 2)) (new_slot-IsValid config)
        (new_manager-IsValid (Buffer.make 2));
}

step-IsValid_example :
    Outcome
      (terminates (starts "cam1" (imu ∷ [])) manager)
      (step reply (starts "cam1" (imu ∷ [])) manager)
step-IsValid_example = step-IsValid reply (starts "cam1" (imu ∷ [])) manager manager-IsValid

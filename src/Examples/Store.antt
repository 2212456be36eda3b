-- ===== src/Examples/Store.antt =====
-- Runs of include/stereo_camera/data/DataBuffer.h, src/data/DataBuffer.cpp and
-- include/stereo_camera/common/Types.h.
use lib_stereo_camera.Common.{ℕ, ◌≡◌, arith, List, [], ◌∷◌}
use lib_stereo_camera.Types.{stereo_image, imu, DataBundle}
use lib_stereo_camera.Ring.{RingBuffer, next_power_of_two, get_latest_n}
use lib_stereo_camera.Ring
use lib_stereo_camera.Buffer
use lib_stereo_camera.Buffer.{DataBuffer, key_of, get_latest, slot_size}
use lib_stereo_camera.Buffer.Invariant.{IsValid, Op, pushes, removes, creates}
use lib_stereo_camera.Buffer.Refine.{held, run, store_run, run_refines}

abbrev image_at : ℕ → DataBundle
image_at n = record {
  address = n;
  timestamp = record { sec = n; nsec = 0 };
  type = stereo_image;
  payload = n ∷ [];
}

-- A buffer of two bundles per camera and type, and three images for one camera.
abbrev buffer : DataBuffer
buffer = Buffer.make 2

abbrev three_images : List Op
three_images =
    creates "cam1" imu
    ∷ pushes "cam1" (image_at 1)
    ∷ pushes "cam1" (image_at 2)
    ∷ pushes "cam1" (image_at 3)
    ∷ removes "cam1" imu
    ∷ []

buffer-IsValid : IsValid buffer
buffer-IsValid = Buffer.Invariant.make-IsValid 2 (omega arith)

run_refines_example :
    IsValid (run three_images buffer)
    × (held (run three_images buffer) ≡ store_run (next_power_of_two 2) three_images (held buffer))
unfolding Buffer.make
run_refines_example = run_refines three_images buffer-IsValid

abbrev ring : RingBuffer ℕ
ring = Ring.make 0 2

-- ===== src/Examples/Images.antt =====
-- Runs of src/vision at small images, with natural numbers for the floats.
use lib_stereo_camera.Common.{
  ℕ, ◌<◌, ◌+◌, ◌-◌, ◌*◌, ◌/◌, ◌%◌, ◌^◌, ◌≤◌, ◌≡◌, refl, arith, map, List, [], String, true, false,
  none, some, if◌then◌else◌, is_yes, string_discrete, ltb, leb, length, replicate,
}
use lib_stereo_camera.Floats.{FloatOps, IsFloat}
use lib_stereo_camera.Vision.{StereoImagePair, DisparityConfig, DisparityMap, compute_disparity}
use lib_stereo_camera.Vision.Depth.{DepthMap, Point3D, compute_depth, generate}
use lib_stereo_camera.Vision.Pixel.{half_of, max_disp_of, Entry}
use lib_stereo_camera.Vision.Compute.{
  IsSound, IsGray, compute_disparity_lem, wrapped_size_reads_outside,
}
use lib_stereo_camera.Vision.Cloud.{points_at, concat_below}
use lib_stereo_camera.Vision.Steps.{pair_to_cloud}

abbrev pub literal : String → ℕ
literal s = if is_yes (string_discrete s "0.0f") then 0 else 2

-- Whole numbers, whose difference stops at 0.
abbrev pub ops : FloatOps ℕ
ops = record {
  literal = literal;
  of_nat = λ n. n;
  to_byte = λ n. n % 256;
  add = λ a b. a + b;
  sub = λ a b. a - b;
  mul = λ a b. a * b;
  div = λ a b. a / b;
  abs = λ a. a;
  sqrt = λ a. a;
  less = λ a b. ltb a b;
  less_eq = λ a b. leb a b;
}

ltb_trans : (a b c : ℕ) → ltb a b ≡ true → ltb b c ≡ true → ltb a c ≡ true
ltb_trans a b c p q = ground arith

ltb_irrefl : (a : ℕ) → ltb a a ≡ false
ltb_irrefl a = ground arith

literal_zero : literal "0.0f" ≡ 0
unfolding string_discrete
literal_zero = refl

ops-IsFloat : IsFloat ops
ops-IsFloat = record {
  less_trans = ltb_trans;
  less_irrefl = ltb_irrefl;
  literal_zero = literal_zero;
  less_of_nat = λ m n hm hn. refl;
}

-- Three rows of four pixels.
abbrev pair : StereoImagePair
pair = record { left = replicate 48 9; right = replicate 48 7; width = 4; height = 3 }

abbrev config : DisparityConfig
config = record { max_disparity = 1; block_size = 3; subpixel = true }

pair-IsSound : IsSound pair config
pair-IsSound = omega arith

compute_disparity_lem_example :
    (left : List ℕ) × (right : List ℕ) × (m : DisparityMap ℕ) × IsGray ops pair.left 4 3 left
    × IsGray ops pair.right 4 3 right
    × (compute_disparity ops pair config ≡ some m)
    × (m.width_ ≡ 4)
    × (m.height_ ≡ 3)
    × (length m.data_ ≡ 12)
    × ((x y : ℕ)
        → x < 4
        → y < 3
        → Entry ops left right 4 3 (half_of config) (max_disp_of config 4) true m.data_ x y)
compute_disparity_lem_example = compute_disparity_lem ops ops-IsFloat pair config pair-IsSound

abbrev old : DepthMap ℕ
old = record { data_ = replicate 20 5; width_ = 4; height_ = 5 }

pair_to_cloud_example :
    (m : DisparityMap ℕ) × (depth : DepthMap ℕ) × (points : List (Point3D ℕ)) × (compute_disparity
        ops pair config
      ≡ some m)
    × (compute_depth ops m 6 2 old ≡ some depth)
    × (generate ops depth 1 1 1 1 ≡ some points)
    × (depth.data_
        ≡ map
            (λ d.
              if ops.less (ops.literal "0.0f") d
              then ops.div (ops.mul 6 2) d
              else ops.literal "0.0f")
            m.data_)
    × (points ≡ concat_below 3 (λ v. concat_below 4 (points_at ops 1 1 1 1 depth v)))
    × (length points ≤ 12)
pair_to_cloud_example = pair_to_cloud ops ops-IsFloat pair config 6 2 1 1 1 1 old pair-IsSound

-- 2^30 pixels, and no bytes.
abbrev no_bytes : StereoImagePair
no_bytes = record { left = []; right = []; width = 2 ^ 15; height = 2 ^ 15 }

wrapped_size_reads_outside_example : compute_disparity ops no_bytes config ≡ none
wrapped_size_reads_outside_example =
    wrapped_size_reads_outside ops no_bytes config (omega arith) (omega arith)

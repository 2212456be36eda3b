-- ===== src/Vision/Depth.antt =====
-- src/vision/DepthMap.cpp and src/vision/PointCloud.cpp: depths from disparities, points from depths.
use lib_stereo_camera.Common.{
  ℕ, ◌-◌, ◌+◌, ◌*◌, List, [], ◌∷◌, ◌++◌, Option, some, ◌>>=◌, if◌then◌else◌, length, take,
  replicate,
}
use lib_stereo_camera.Common.Loops.{for_up, get_elem?, write}
use lib_stereo_camera.Floats.{FloatOps}
use lib_stereo_camera.Vision.{DisparityMap, u32}

pub record DepthMap (F : Type 0) : Type 0 where
  pub data_ : List F
  pub width_ : ℕ
  pub height_ : ℕ

pub record Point3D (F : Type 0) : Type 0 where
  pub x : F
  pub y : F
  pub z : F

-- `resize` of a vector, whose new items are `zero`.
unfoldable pub resize_to : {F : Type 0} → F → ℕ → List F → List F
resize_to zero n xs = take n xs ++ replicate (n - length xs) zero

module _ {F : Type 0} (ops : FloatOps F) where
  -- The depth of one disparity.
  unfoldable pub depth_of : F → F → F → F
  depth_of baseline focal_length disp =
      if ops.less (ops.literal "0.0f") disp
      then ops.div (ops.mul baseline focal_length) disp
      else ops.literal "0.0f"

  unfoldable pub depth_round : F → F → List F → ℕ → List F → Option (List F)
  unfolding depth_of write
  depth_round baseline focal_length disp i data_ =
      get_elem? disp i >>= (λ x. write data_ i (depth_of baseline focal_length x))

  -- `DepthMap::compute`, on the map as it was.
  unfoldable pub compute_depth : DisparityMap F → F → F → DepthMap F → Option (DepthMap F)
  unfolding for_up depth_round resize_to
  compute_depth disparity baseline focal_length m =
      for_up (length disparity.data_) (depth_round baseline focal_length disparity.data_)
        (resize_to (ops.literal "0.0f") (u32 (disparity.width_ * disparity.height_)) m.data_)
      >>= (λ found.
          some (record { data_ = found; width_ = disparity.width_; height_ = disparity.height_ }))

  -- The point of column `u` and row `v` at depth `z`.
  unfoldable pub point_of : (fx fy cx cy : F) → (u v : ℕ) → F → Point3D F
  point_of fx fy cx cy u v z = record {
    x = ops.div (ops.mul (ops.sub (ops.of_nat u) cx) z) fx;
    y = ops.div (ops.mul (ops.sub (ops.of_nat v) cy) z) fy;
    z = z;
  }

  unfoldable pub point_round :
      (fx fy cx cy : F) → DepthMap F → (v u : ℕ) → List (Point3D F) → Option (List (Point3D F))
  unfolding point_of
  point_round fx fy cx cy depth v u points =
      get_elem? depth.data_ (u32 (v * depth.width_ + u)) >>= (λ z.
        if ops.less_eq z (ops.literal "0.0f")
        then some points
        else some (points ++ point_of fx fy cx cy u v z ∷ []))

  -- `PointCloud::generate`
  unfoldable pub generate : DepthMap F → (fx fy cx cy : F) → Option (List (Point3D F))
  unfolding for_up point_round
  generate depth fx fy cx cy =
      for_up depth.height_ (λ v. for_up depth.width_ (point_round fx fy cx cy depth v)) []

-- ===== src/Vision/Steps.antt =====
-- src/vision: the three steps from a stereo pair to points, one after the other.
use mathlib.Core.Path.{subst}
use lib_stereo_camera.Common.{
  ℕ, ◌*◌, ◌^◌, ◌<◌, ◌≤◌, ◌≡◌, refl, sym, ap₂, ◌∙◌, arith, List, some, length, length-map, map,
  if◌then◌else◌,
}
use lib_stereo_camera.Floats.{FloatOps, IsFloat}
use lib_stereo_camera.Vision.{StereoImagePair, DisparityConfig, DisparityMap, compute_disparity}
use lib_stereo_camera.Vision.Depth.{DepthMap, Point3D, depth_of, compute_depth, generate}
use lib_stereo_camera.Vision.Cloud.{compute_depth_lem, points_at, concat_below, generate_lem}
use lib_stereo_camera.Vision.Compute.{IsSound, compute_disparity_lem}

-- The three steps on a sound pair, whatever the depth map held: each is defined, the depth of a pixel is
-- baseline times focal length by its disparity, if that is positive, and 0 otherwise; and the cloud has,
-- row by row, the pinhole camera's points of the pixels whose depth is not 0 or less, at most one for each
-- pixel.
pub pair_to_cloud :
    {F : Type 0} (ops : FloatOps F)
    → IsFloat ops
    → (pair : StereoImagePair) (config : DisparityConfig) (baseline focal fx fy cx cy : F)
      (old : DepthMap F)
    → IsSound pair config
    → (m : DisparityMap F) × (depth : DepthMap F) × (points : List (Point3D F)) × (compute_disparity
          ops pair config
        ≡ some m)
      × (compute_depth ops m baseline focal old ≡ some depth)
      × (generate ops depth fx fy cx cy ≡ some points)
      × (depth.data_
          ≡ map
              (λ d.
                if ops.less (ops.literal "0.0f") d
                then ops.div (ops.mul baseline focal) d
                else ops.literal "0.0f")
              m.data_)
      × (points
          ≡ concat_below pair.height
              (λ v. concat_below pair.width (points_at ops fx fy cx cy depth v)))
      × (length points ≤ pair.height * pair.width)
unfolding depth_of
pair_to_cloud ops float pair config baseline focal fx fy cx cy old sound =
    let (left, right, m, gray_left, gray_right, made, width, height, size, entries) =
      compute_disparity_lem ops float pair config sound in
    let area : m.width_ * m.height_ ≡ pair.width * pair.height = ap₂ (λ a b. a * b) width height in
    let small : m.width_ * m.height_ < 2 ^ 32 = omega (arith, sound.small, area) in
    let depth : DepthMap _ = record {
      data_ = map (depth_of ops baseline focal) m.data_;
      width_ = m.width_;
      height_ = m.height_;
    } in
    let points =
      λ (h w : ℕ). concat_below h (λ v. concat_below w (points_at ops fx fy cx cy depth v)) in
    let (cloud, count) =
      generate_lem ops fx fy cx cy depth
        (length-map (depth_of ops baseline focal) m.data_ ∙ size ∙ sym area) small in
    (
      m,
      depth,
      points m.height_ m.width_,
      made,
      compute_depth_lem ops m baseline focal old (size ∙ sym area) small,
      cloud,
      refl,
      ap₂ points height width,
      subst (λ n. length (points m.height_ m.width_) ≤ n) (ap₂ (λ a b. a * b) height width) count,
    )

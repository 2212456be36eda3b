-- ===== src/Calibration.antt =====
-- src/calibration/Calibration2D.cpp: the intrinsics of one camera, estimated, saved and loaded.
-- Calibration.Stereo is src/calibration/Calibration3D.cpp.
pub mod Stereo
pub mod Mean
pub mod Trip
pub mod Baseline
use lib_stereo_camera.Common.{
  ℕ, ◌*◌, ◌%◌, List, [], ◌∷◌, String, Bool, true, false, not, ◌||◌, Option, none, some, ◌>>=◌,
  if◌then◌else◌, ◌==◌, length, replicate, map, lookup, insert, string_discrete,
}
use lib_stereo_camera.Common.Size.{size_mod}
use lib_stereo_camera.Floats.{FloatOps}
use lib_stereo_camera.Client.{Json, float, array, object}
use lib_stereo_camera.Json.{JsonOps, elements_of, members_of}
use lib_stereo_camera.Config.Files.{FileStore}

-- `j.value(key, default)` of a `double`, of a vector of them and of a JSON value; none where it throws.
pub record ValueOps (R : Type 0) : Type 0 where
  pub value_real : String → R → Json R → Option R
  pub value_reals : String → List R → Json R → Option (List R)
  pub value_json : String → Json R → Json R → Option (Json R)

-- A vector of `double` as JSON.
unfoldable pub reals : {R : Type 0} → List R → Json R
reals xs = array (elements_of (map float xs))

pub record CalibrationParams2D (R : Type 0) : Type 0 where
  pub fx : R
  pub fy : R
  pub cx : R
  pub cy : R
  pub distortion : List R

pub record Point2D (R : Type 0) : Type 0 where
  pub x : R
  pub y : R

-- Views of the calibration target, each a list of points.
abbrev pub Views : Type 0 → Type 0
Views P = List (List P)

unfoldable pub params2d_json : {R : Type 0} → CalibrationParams2D R → Json R
params2d_json p = object (
    members_of (
      ("fx", float p.fx)
      ∷ ("fy", float p.fy)
      ∷ ("cx", float p.cx)
      ∷ ("cy", float p.cy)
      ∷ ("distortion", reals p.distortion)
      ∷ []))

unfoldable pub is_empty : {A : Type 0} → List A → Bool
is_empty [] = true
is_empty (x ∷ xs) = false

-- `views[0].size()`, of views that are not empty.
unfoldable pub first_size : {P : Type 0} → Views P → ℕ
first_size [] = 0
first_size (view ∷ views) = length view

-- `for (view : views) for (pt : view) acc = step(acc, pt);`
unfoldable pub each_point : {S P : Type 0} → (S → P → S) → S → List P → S
each_point step acc [] = acc
each_point step acc (pt ∷ pts) = each_point step (step acc pt) pts

unfoldable pub each_view : {S P : Type 0} → (S → P → S) → S → Views P → S
unfolding each_point
each_view step acc [] = acc
each_view step acc (view ∷ views) = each_view step (each_point step acc view) views

module _ {R : Type 0} (ops : FloatOps R) where
  unfoldable pub no_params2d : CalibrationParams2D R
  no_params2d = record {
    fx = ops.of_nat 0;
    fy = ops.of_nat 0;
    cx = ops.of_nat 0;
    cy = ops.of_nat 0;
    distortion = [];
  }

  unfoldable pub params2d_of_json : ValueOps R → Json R → Option (CalibrationParams2D R)
  params2d_of_json values j = values.value_real "fx" (ops.literal "0.0") j >>= (λ fx.
      values.value_real "fy" (ops.literal "0.0") j >>= (λ fy.
        values.value_real "cx" (ops.literal "0.0") j >>= (λ cx.
          values.value_real "cy" (ops.literal "0.0") j >>= (λ cy.
            values.value_reals "distortion" [] j >>= (λ distortion.
              some (record { fx = fx; fy = fy; cx = cx; cy = cy; distortion = distortion }))))))

  unfoldable pub add_point : R × R → Point2D R → R × R
  add_point (sum_x, sum_y) pt = (ops.add sum_x pt.x, ops.add sum_y pt.y)

  -- The distance of a point from the centre, added up.
  unfoldable pub add_distance : (cx cy : R) → R → Point2D R → R
  add_distance cx cy mean_dist pt =
      let dx = ops.sub pt.x cx in
      let dy = ops.sub pt.y cy in
      ops.add mean_dist (ops.sqrt (ops.add (ops.mul dx dx) (ops.mul dy dy)))

  unfoldable pub estimate : (total_pts : R) → Views (Point2D R) → CalibrationParams2D R
  unfolding each_view add_point add_distance
  estimate total_pts image_points =
      let (sum_x, sum_y) = each_view add_point (ops.of_nat 0, ops.of_nat 0) image_points in
      let cx = ops.div sum_x total_pts in
      let cy = ops.div sum_y total_pts in
      let mean_dist =
        ops.div (each_view (add_distance cx cy) (ops.of_nat 0) image_points) total_pts in
      let scale = ops.div mean_dist (ops.sqrt (ops.literal "2.0")) in
      record {
        fx = scale;
        fy = scale;
        cx = cx;
        cy = cy;
        distortion = replicate 5 (ops.literal "0.0");
      }

  -- `Calibration2D::calibrate`: the parameters after the call, which it returns too. Of the object's
  -- points only the number of views counts.
  unfoldable pub calibrate2d :
      {P : Type 0} → Views (Point2D R) → Views P → CalibrationParams2D R → CalibrationParams2D R
  unfolding is_empty first_size estimate
  calibrate2d image_points object_points params =
      if is_empty image_points || not (length image_points == length object_points)
      then params
      else estimate (ops.of_nat (length image_points * first_size image_points % size_mod))
          image_points

-- What throws is caught, and the parameters stay.
unfoldable pub parsed_params : {P : Type 0} → Option P → P → P × Bool
parsed_params none params = (params, false)
parsed_params (some p) params = (p, true)

-- `save` and `load` of a class whose parameters are a `P`. `dump` is `json::dump(2)`, and `opens` tells
-- whether a file can be opened for writing.
module _ {R P : Type 0} where
  unfoldable pub save_params :
      (dump : Json R → String) (opens : String → Bool)
      → (P → Json R)
      → String
      → P
      → FileStore
      → FileStore × Bool
  save_params dump opens to_json path params files =
      if opens path
      then (insert string_discrete path (dump (to_json params)) files, true)
      else (files, false)

  unfoldable pub load_params_text : JsonOps R → (Json R → Option P) → Option String → P → P × Bool
  unfolding parsed_params
  load_params_text lib of_json none params = (params, false)
  load_params_text lib of_json (some text) params =
      parsed_params (lib.parse text >>= of_json) params

  unfoldable pub load_params_file :
      JsonOps R → (Json R → Option P) → FileStore → String → P → P × Bool
  unfolding load_params_text
  load_params_file lib of_json files path params =
      load_params_text lib of_json (lookup string_discrete path files) params

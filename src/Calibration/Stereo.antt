-- ===== src/Calibration/Stereo.antt =====
-- src/calibration/Calibration3D.cpp: the parameters of a pair of cameras.
use lib_stereo_camera.Common.{
  ◌*◌, ◌%◌, List, [], ◌∷◌, ◌++◌, not, ◌&&◌, ◌||◌, Option, none, some, ◌>>=◌, if◌then◌else◌, ◌==◌,
  length, take, drop, set,
}
use lib_stereo_camera.Common.Size.{size_mod}
use lib_stereo_camera.Floats.{FloatOps}
use lib_stereo_camera.Client.{Json, object}
use lib_stereo_camera.Json.{members_of}
use lib_stereo_camera.Calibration.{
  ValueOps, reals, CalibrationParams2D, Point2D, Views, params2d_json, is_empty, first_size,
  no_params2d, params2d_of_json, calibrate2d,
}

-- `R` and `T` are arrays of nine and three numbers.
pub record StereoCalibrationParams (R : Type 0) : Type 0 where
  pub left : CalibrationParams2D R
  pub right : CalibrationParams2D R
  pub rotation : List R
  pub translation : List R

unfoldable pub stereo_json : {R : Type 0} → StereoCalibrationParams R → Json R
unfolding params2d_json reals
stereo_json p = object (
    members_of (
      ("left", params2d_json p.left)
      ∷ ("right", params2d_json p.right)
      ∷ ("R", reals p.rotation)
      ∷ ("T", reals p.translation)
      ∷ []))

-- `for (i = 0; i < n && i < xs.size(); ++i) data[i] = xs[i];` on an array of `n` numbers.
unfoldable pub copy_into : {R : Type 0} → List R → List R → List R
copy_into array xs = take (length array) xs ++ drop (length xs) array

module _ {R : Type 0} (ops : FloatOps R) where
  abbrev zero : R
  zero = ops.of_nat 0

  abbrev one : R
  one = ops.of_nat 1

  unfoldable pub identity : List R
  identity = one ∷ zero ∷ zero ∷ zero ∷ one ∷ zero ∷ zero ∷ zero ∷ one ∷ []

  unfoldable pub origin : List R
  origin = zero ∷ zero ∷ zero ∷ []

  unfoldable pub stereo_of_json : ValueOps R → Json R → Option (StereoCalibrationParams R)
  unfolding params2d_of_json copy_into identity origin
  stereo_of_json values j =
      (values.value_json "left" (object (members_of [])) j >>= params2d_of_json ops values)
      >>= (λ left.
          (values.value_json "right" (object (members_of [])) j >>= params2d_of_json ops values)
          >>= (λ right. values.value_reals "R" identity j >>= (λ rotation.
              values.value_reals "T" origin j >>= (λ translation. some (record {
                left = left;
                right = right;
                rotation = copy_into identity rotation;
                translation = copy_into origin translation;
              })))))

  -- The differences of a view's columns, added up; none where the right view is too short.
  unfoldable pub view_dx : R → List (Point2D R) → List (Point2D R) → Option R
  view_dx sum_dx [] right = some sum_dx
  view_dx sum_dx (l ∷ left) [] = none
  view_dx sum_dx (l ∷ left) (r ∷ right) = view_dx (ops.add sum_dx (ops.sub l.x r.x)) left right

  unfoldable pub views_dx : R → Views (Point2D R) → Views (Point2D R) → Option R
  unfolding view_dx
  views_dx sum_dx [] rights = some sum_dx
  views_dx sum_dx (left ∷ lefts) [] = none
  views_dx sum_dx (left ∷ lefts) (right ∷ rights) =
      view_dx sum_dx left right >>= (λ sum. views_dx sum lefts rights)

  -- The baseline's first part, from the mean disparity.
  unfoldable pub set_baseline : R → StereoCalibrationParams R → StereoCalibrationParams R
  set_baseline mean_disp p =
      if ops.less (ops.of_nat 0) p.left.fx && ops.less (ops.literal "0.1") mean_disp
      then record p { translation = set p.translation 0 (ops.div p.left.fx mean_disp) }
      else p

  -- `Calibration3D::calibrate`: the parameters after the call, which it returns too.
  unfoldable pub calibrate3d :
      {P : Type 0}
      → Views (Point2D R)
      → Views (Point2D R)
      → Views P
      → StereoCalibrationParams R
      → Option (StereoCalibrationParams R)
  unfolding calibrate2d no_params2d is_empty first_size views_dx set_baseline
  calibrate3d left_points right_points object_points params =
      if is_empty left_points || not (length left_points == length right_points)
      then some params
      else views_dx (ops.of_nat 0) left_points right_points >>= (λ sum_dx. some (
          set_baseline
            (ops.div sum_dx (ops.of_nat (length left_points * first_size left_points % size_mod)))
            (record params {
              left = calibrate2d ops left_points object_points (no_params2d ops);
              right = calibrate2d ops right_points object_points (no_params2d ops);
            })))

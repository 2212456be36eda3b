-- ===== src/Examples/Calibrations.antt =====
-- Runs of src/calibration on two views of two points, with natural numbers for the floats.
use lib_stereo_camera.Common.{
  ℕ, ◌≡◌, ◌<◌, ◌*◌, ◌^◌, ◌>>=◌, ◌∙◌, refl, ap, arith, List, [], ◌∷◌, String, Bool, true, Option,
  none, some, length, map, string_discrete,
}
use lib_stereo_camera.Client.{Json, Elements, float, array, element, end}
use lib_stereo_camera.Json.{elements_of}
use lib_stereo_camera.Config.Files.{FileStore}
use lib_stereo_camera.Calibration.{
  ValueOps, CalibrationParams2D, Point2D, Views, first_size, no_params2d, calibrate2d, save_params,
  load_params_file,
}
use lib_stereo_camera.Calibration.Mean.{EachHas, all_points, fitted, calibrate2d_lem}
use lib_stereo_camera.Calibration.Stereo.{
  StereoCalibrationParams, identity, origin, stereo_json, stereo_of_json,
}
use lib_stereo_camera.Calibration.Trip.{IsValue, IsSized, stereo_load-save}
use lib_stereo_camera.Examples.Images.{ops}
use lib_stereo_camera.Examples.Settings.{library, library-IsJson, real_of, find, members}

abbrev point : ℕ → ℕ → Point2D ℕ
point x y = record { x = x; y = y }

abbrev lefts : Views (Point2D ℕ)
lefts = (point 8 2 ∷ point 6 4 ∷ []) ∷ (point 4 6 ∷ point 2 8 ∷ []) ∷ []

abbrev rights : Views (Point2D ℕ)
rights = (point 5 2 ∷ point 3 4 ∷ []) ∷ (point 1 6 ∷ point 0 8 ∷ []) ∷ []

abbrev objects : Views ℕ
objects = (1 ∷ 2 ∷ []) ∷ (3 ∷ 4 ∷ []) ∷ []

abbrev start : CalibrationParams2D ℕ
start = no_params2d ops

lefts-EachHas : EachHas (first_size lefts) lefts
unfolding first_size
lefts-EachHas = omega arith

lefts_count : length lefts * first_size lefts < 2 ^ 64
unfolding first_size
lefts_count = omega arith

calibrate2d_lem_example : calibrate2d ops lefts objects start ≡ fitted ops (all_points lefts)
calibrate2d_lem_example =
    calibrate2d_lem ops lefts objects start (λ e. cc) refl lefts-EachHas lefts_count

abbrev params : StereoCalibrationParams ℕ
params = record { left = start; right = start; rotation = identity ops; translation = origin ops }

-- The second right view lacks a point.
abbrev short_rights : Views (Point2D ℕ)
short_rights = (point 5 2 ∷ point 3 4 ∷ []) ∷ (point 1 6 ∷ []) ∷ []

abbrev real_or : ℕ → Option (Json ℕ) → Option ℕ
real_or d none = some d
real_or d (some j) = real_of j

abbrev reals_of : Elements ℕ → Option (List ℕ)
reals_of end = some []
reals_of (element j js) = real_of j >>= (λ x. reals_of js >>= (λ xs. some (x ∷ xs)))

abbrev reals_or : List ℕ → Option (Json ℕ) → Option (List ℕ)
reals_or d none = some d
reals_or d (some (array js)) = reals_of js
reals_or d (some j) = none

abbrev json_or : Json ℕ → Option (Json ℕ) → Option (Json ℕ)
json_or d none = some d
json_or d (some j) = some j

abbrev values : ValueOps ℕ
values = record {
  value_real = λ k d j. real_or d (find k (members j));
  value_reals = λ k d j. reals_or d (find k (members j));
  value_json = λ k d j. json_or d (find k (members j));
}

reals_of-floats : (xs : List ℕ) → reals_of (elements_of (map float xs)) ≡ some xs
unfolding elements_of
reals_of-floats [] = refl
reals_of-floats (x ∷ xs) = ap (λ o. o >>= (λ ys. some (x ∷ ys))) (reals_of-floats xs)

values-IsValue : (text : String) (j : Json ℕ) → IsValue (library text j) values
values-IsValue text j = record {
  real_found = λ k d j e. ap (real_or d) e;
  reals_found = λ k d j {xs} e. ap (reals_or d) e ∙ reals_of-floats xs;
  json_found = λ k d j e. ap (json_or d) e;
}

abbrev dump : Json ℕ → String
dump j = "{}"

abbrev always : String → Bool
always path = true

abbrev no_files : FileStore
no_files = []

params-IsSized : IsSized params
unfolding identity origin string_discrete
params-IsSized = record { nine = refl; three = refl }

stereo_load-save_example :
    let (after, saved) = save_params dump always stereo_json "stereo.json" params no_files in
    (saved ≡ true)
    × (load_params_file
          (library "{}" (stereo_json params))
          (stereo_of_json ops values)
          after
          "stereo.json"
          params
        ≡ (params, true))
unfolding string_discrete
stereo_load-save_example =
    stereo_load-save ops dump always "stereo.json" params params no_files
      (library-IsJson "{}" (stereo_json params)) (values-IsValue "{}" (stereo_json params))
      params-IsSized refl refl

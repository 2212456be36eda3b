-- ===== src/Calibration/Trip.antt =====
-- src/calibration: parameters that `save` wrote, read by `load`.
use lib_stereo_camera.Common.{
  ◌≡◌, refl, sym, ap, ap₂, ◌∙◌, arith, List, [], ◌∷◌, String, Bool, true, false, Option, some, ◌++◌,
  length, take, map, lookup, lookup-insert, if_pos, string_discrete, take_whole, append-nil,
  drop_all,
}
use lib_stereo_camera.Floats.{FloatOps}
use lib_stereo_camera.Client.{Json, float, array, object}
use lib_stereo_camera.Json.{JsonOps, IsJson, elements_of, members_of, at-members_of}
use lib_stereo_camera.Config.Files.{FileStore}
use lib_stereo_camera.Calibration.{
  ValueOps, reals, CalibrationParams2D, params2d_json, params2d_of_json, save_params, parsed_params,
  load_params_text, load_params_file,
}
use lib_stereo_camera.Calibration.Stereo.{
  StereoCalibrationParams, stereo_json, copy_into, identity, origin, stereo_of_json,
}

-- What the library documents of `value`: it gives what stands under the key.
pub record IsValue {R : Type 0} (lib : JsonOps R) (values : ValueOps R) : Type 0 where
  pub real_found :
      (k : String) (d : R) (j : Json R) {x : R}
      → lib.at k j ≡ some (float x)
      → values.value_real k d j ≡ some x
  pub reals_found :
      (k : String) (d : List R) (j : Json R) {xs : List R}
      → lib.at k j ≡ some (array (elements_of (map float xs)))
      → values.value_reals k d j ≡ some xs
  pub json_found :
      (k : String) (d j : Json R) {v : Json R}
      → lib.at k j ≡ some v
      → values.value_json k d j ≡ some v

-- `R` has nine numbers, and `T` three.
pub record IsSized {R : Type 0} (p : StereoCalibrationParams R) : Type 0 where
  pub nine : length p.rotation ≡ 9
  pub three : length p.translation ≡ 3

module _ {R : Type 0} (ops : FloatOps R) {lib : JsonOps R} {values : ValueOps R} (json : IsJson lib)
    (value : IsValue lib values) where
  params2d-trip :
      (p : CalibrationParams2D R) → params2d_of_json ops values (params2d_json p) ≡ some p
  unfolding params2d_of_json params2d_json lookup string_discrete reals
  params2d-trip p =
      let members : List (String × Json R) =
        ("fx", float p.fx)
        ∷ ("fy", float p.fy)
        ∷ ("cx", float p.cx)
        ∷ ("cy", float p.cy)
        ∷ ("distortion", reals p.distortion)
        ∷ [] in
      let j = object (members_of members) in
      rw
        (
          value.real_found "fx" (ops.literal "0.0") j (at-members_of json "fx" members refl),
          value.real_found "fy" (ops.literal "0.0") j (at-members_of json "fy" members refl),
          value.real_found "cx" (ops.literal "0.0") j (at-members_of json "cx" members refl),
          value.real_found "cy" (ops.literal "0.0") j (at-members_of json "cy" members refl),
          value.reals_found "distortion" [] j (at-members_of json "distortion" members refl),
        )
        refl

  copy_into_whole : (old xs : List R) → length xs ≡ length old → copy_into old xs ≡ xs
  unfolding copy_into
  copy_into_whole old xs same =
      ap₂ (λ us vs. us ++ vs) (ap (λ n. take n xs) (sym same) ∙ take_whole xs)
        (drop_all (length xs) old (omega arith))
      ∙ append-nil xs

  stereo-trip :
      (p : StereoCalibrationParams R)
      → IsSized p
      → stereo_of_json ops values (stereo_json p) ≡ some p
  unfolding stereo_of_json stereo_json lookup string_discrete reals identity origin
  stereo-trip p sized =
      let members : List (String × Json R) =
        ("left", params2d_json p.left)
        ∷ ("right", params2d_json p.right)
        ∷ ("R", reals p.rotation)
        ∷ ("T", reals p.translation)
        ∷ [] in
      let j = object (members_of members) in
      let empty = object (members_of []) in
      rw
        (
          value.json_found "left" empty j (at-members_of json "left" members refl),
          value.json_found "right" empty j (at-members_of json "right" members refl),
          params2d-trip p.left,
          params2d-trip p.right,
          value.reals_found "R" (identity ops) j (at-members_of json "R" members refl),
          value.reals_found "T" (origin ops) j (at-members_of json "T" members refl),
          copy_into_whole (identity ops) p.rotation sized.nine,
          copy_into_whole (origin ops) p.translation sized.three,
        )
        refl

-- What is read as it was written is loaded as it was saved.
saved_loaded :
    {R P : Type 0} (lib : JsonOps R) (dump : Json R → String) (opens : String → Bool)
    (to_json : P → Json R) (of_json : Json R → Option P) (path : String) (p old : P)
    (files : FileStore)
    → opens path ≡ true
    → lib.parse (dump (to_json p)) ≡ some (to_json p)
    → of_json (to_json p) ≡ some p
    → let (after, saved) = save_params dump opens to_json path p files in
      (saved ≡ true) × (load_params_file lib of_json after path old ≡ (p, true))
unfolding save_params load_params_file load_params_text parsed_params
saved_loaded lib dump opens to_json of_json path p old files opened back trip = rw opened (
  refl,
  rw
      (
        lookup-insert string_discrete path path (dump (to_json p)) files,
        if_pos (string_discrete path path) refl (some (dump (to_json p)))
            (lookup string_discrete path files),
        back,
        trip,
      )
      refl,
)

-- A `load` that fails leaves the parameters.
failed_keeps :
    {R P : Type 0} (lib : JsonOps R) (of_json : Json R → Option P) (files : FileStore)
    (path : String) (old : P)
    → (load_params_file lib of_json files path old).1 ≡ false
    → (load_params_file lib of_json files path old).0 ≡ old
unfolding load_params_file load_params_text parsed_params
failed_keeps lib of_json files path old failed = ground arith

-- If the file can be opened and the library reads back the JSON that it dumped, `save` of a pair's
-- parameters reports success, and `load` then gives them, whatever they were before.
pub stereo_load-save :
    {R : Type 0} (ops : FloatOps R) {lib : JsonOps R} {values : ValueOps R} (dump : Json R → String)
    (opens : String → Bool) (path : String) (p old : StereoCalibrationParams R) (files : FileStore)
    → IsJson lib
    → IsValue lib values
    → IsSized p
    → opens path ≡ true
    → lib.parse (dump (stereo_json p)) ≡ some (stereo_json p)
    → let (after, saved) = save_params dump opens stereo_json path p files in
      (saved ≡ true) × (load_params_file lib (stereo_of_json ops values) after path old ≡ (p, true))
stereo_load-save ops {lib} {values} dump opens path p old files json value sized opened back =
    saved_loaded lib dump opens stereo_json (stereo_of_json ops values) path p old files opened back
      (stereo-trip ops json value p sized)

-- ===== src/Calibration/Baseline.antt =====
-- src/calibration/Calibration3D.cpp: when `calibrate` is defined, and what it sets.
use lib_stereo_camera.Common.{
  suc, zip, map, ◌++◌, if◌then◌else◌, Bool, ◌*◌, ◌%◌, ◌<◌, ◌≤◌, ◌≡◌, refl, ap, arith, List, [], ◌∷◌,
  false, not, ◌&&◌, none, some, ◌>>=◌, ◌==◌, length, dec_lt,
}
use lib_stereo_camera.Common.Size.{size_mod}
use lib_stereo_camera.Floats.{FloatOps}
use lib_stereo_camera.Calibration.{Point2D, Views, is_empty, first_size, no_params2d, calibrate2d}
use lib_stereo_camera.Calibration.Stereo.{StereoCalibrationParams, view_dx, views_dx, calibrate3d}

-- Every left view has a right one that is not shorter.
abbrev pub Reaches : {A B : Type 0} → Views A → Views B → Type 0
Reaches [] rights = Unit
Reaches (left ∷ lefts) [] = ⊥
Reaches (left ∷ lefts) (right ∷ rights) = (length left ≤ length right) × Reaches lefts rights

module _ {R : Type 0} (ops : FloatOps R) where
  -- Numbers added up from one.
  unfoldable pub sum_from : R → List R → R
  sum_from acc [] = acc
  sum_from acc (x ∷ xs) = sum_from (ops.add acc x) xs

  -- How far each left point lies to the right of its right one, view by view.
  unfoldable pub differences : Views (Point2D R) → Views (Point2D R) → List R
  differences lefts [] = []
  differences [] (right ∷ rights) = []
  differences (left ∷ lefts) (right ∷ rights) =
      map (λ p. ops.sub p.0.x p.1.x) (zip left right) ++ differences lefts rights

  -- The mean of these, by the number of views times that of the first view's points.
  unfoldable pub mean_difference : Views (Point2D R) → Views (Point2D R) → R
  mean_difference lefts rights =
      ops.div (sum_from (ops.of_nat 0) (differences lefts rights))
        (ops.of_nat (length lefts * first_size lefts % size_mod))

  view_dx-defined :
      (acc : R) (left right : List (Point2D R))
      → length left ≤ length right
      → view_dx ops acc left right
        ≡ some (sum_from acc (map (λ p. ops.sub p.0.x p.1.x) (zip left right)))
  unfolding view_dx sum_from zip
  view_dx-defined acc [] right h = refl
  view_dx-defined acc (l ∷ left) [] h = absurd (omega arith)
  view_dx-defined acc (l ∷ left) (r ∷ right) h =
      view_dx-defined (ops.add acc (ops.sub l.x r.x)) left right (omega arith)

  view_dx-none :
      (acc : R) (left right : List (Point2D R))
      → length right < length left
      → view_dx ops acc left right ≡ none
  unfolding view_dx
  view_dx-none acc [] right h = absurd (omega arith)
  view_dx-none acc (l ∷ left) [] h = refl
  view_dx-none acc (l ∷ left) (r ∷ right) h =
      view_dx-none (ops.add acc (ops.sub l.x r.x)) left right (omega arith)

  views_dx-none :
      (acc : R) (lefts rights : Views (Point2D R))
      → ¬ Reaches lefts rights
      → views_dx ops acc lefts rights ≡ none
  unfolding views_dx
  views_dx-none acc [] rights h = absurd (h tt)
  views_dx-none acc (left ∷ lefts) [] h = refl
  views_dx-none acc (left ∷ lefts) (right ∷ rights) h = elim (dec_lt (length right) (length left)) [
    | yes short ↦
        ap (λ o. o >>= (λ s. views_dx ops s lefts rights)) (view_dx-none acc left right short)
    | no long ↦
        let fits : length left ≤ length right = omega arith in
        rw (view_dx-defined acc left right fits) (
          views_dx-none (sum_from acc (map (λ p. ops.sub p.0.x p.1.x) (zip left right))) lefts
            rights (λ more. h (fits, more)))
  ]

  -- The first number replaced, if there is reason to.
  abbrev pub placed : Bool → R → List R → List R
  placed b v [] = []
  placed b v (x ∷ xs) = (if b then v else x) ∷ xs

  -- The translation after a calibration: its first part is the left focal length by the mean difference,
  -- if the one is positive and the other more than 0.1; the rest stays.
  unfoldable pub moved : R → R → List R → List R
  moved fx mean xs =
      placed (ops.less (ops.of_nat 0) fx && ops.less (ops.literal "0.1") mean) (ops.div fx mean) xs

  -- What a calibration of these views leaves: both cameras estimated on their own, the rotation as it
  -- was, and the translation moved.
  pub record Calibrated {P : Type 0} (lefts rights : Views (Point2D R)) (objects : Views P)
      (before after : StereoCalibrationParams R) : Type 0 where
    pub left_set : after.left ≡ calibrate2d ops lefts objects (no_params2d ops)
    pub right_set : after.right ≡ calibrate2d ops rights objects (no_params2d ops)
    pub same_rotation : after.rotation ≡ before.rotation
    pub baseline :
        after.translation
        ≡ moved
            (calibrate2d ops lefts objects (no_params2d ops)).fx
            (mean_difference lefts rights)
            before.translation

  -- If one of them is shorter, `calibrate` reads outside it.
  pub calibrate3d_reads_outside :
      {P : Type 0} (lefts rights : Views (Point2D R)) (objects : Views P)
      (params : StereoCalibrationParams R)
      → length lefts ≡ length rights
      → ¬ Reaches lefts rights
      → calibrate3d ops lefts rights objects params ≡ none
  unfolding calibrate3d is_empty
  calibrate3d_reads_outside [] rights objects params same short = absurd (short tt)
  calibrate3d_reads_outside (view ∷ views) rights objects params same short =
      let tests : not (suc (length views) == length rights) ≡ false = ground arith in
      rw (tests, views_dx-none (ops.of_nat 0) (view ∷ views) rights short) refl

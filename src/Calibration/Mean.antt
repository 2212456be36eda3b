-- ===== src/Calibration/Mean.antt =====
-- src/calibration/Calibration2D.cpp: what `calibrate` estimates.
use lib_stereo_camera.Common.{
  ℕ, suc, ◌*◌, ◌%◌, ◌^◌, ◌<◌, ◌≡◌, ◌≢◌, ◌⊎◌, inl, inr, refl, sym, ap, ◌∙◌, arith, List, [], ◌∷◌,
  ◌++◌, false, not, ◌==◌, length, length-append, replicate,
}
use mathlib.Core.Path.{fun_ext}
use lib_stereo_camera.Common.Size.{size_mod}
use lib_stereo_camera.Floats.{FloatOps}
use lib_stereo_camera.Calibration.{
  CalibrationParams2D, Point2D, Views, is_empty, first_size, each_point, each_view, add_point,
  add_distance, estimate, calibrate2d,
}

-- All points of all views, in order.
unfoldable pub all_points : {P : Type 0} → Views P → List P
all_points [] = []
all_points (view ∷ views) = view ++ all_points views

-- Every view has `n` points.
abbrev pub EachHas : {P : Type 0} → ℕ → Views P → Type 0
EachHas n [] = Unit
EachHas n (view ∷ views) = (length view ≡ n) × EachHas n views

length-all_points :
    {P : Type 0} (n : ℕ) (views : Views P)
    → EachHas n views
    → length (all_points views) ≡ length views * n
unfolding all_points
length-all_points n [] h = omega arith
length-all_points n (view ∷ views) h =
    grind (arith, length-append view (all_points views), length-all_points n views h.1, h.0)

each_point-append :
    {S P : Type 0} (step : S → P → S) (acc : S) (xs ys : List P)
    → each_point step acc (xs ++ ys) ≡ each_point step (each_point step acc xs) ys
unfolding each_point
each_point-append step acc [] ys = refl
each_point-append step acc (x ∷ xs) ys = each_point-append step (step acc x) xs ys

-- The loop over views and points is one over all points.
each_view-all_points :
    {S P : Type 0} (step : S → P → S) (acc : S) (views : Views P)
    → each_view step acc views ≡ each_point step acc (all_points views)
unfolding each_view each_point all_points
each_view-all_points step acc [] = refl
each_view-all_points step acc (view ∷ views) =
    each_view-all_points step (each_point step acc view) views
    ∙ sym (each_point-append step acc view (all_points views))

module _ {R : Type 0} (ops : FloatOps R) where
  -- The values `f` of the points, added up from 0.
  unfoldable pub sum_from : R → (Point2D R → R) → List (Point2D R) → R
  sum_from acc f [] = acc
  sum_from acc f (pt ∷ pts) = sum_from (ops.add acc (f pt)) f pts

  unfoldable pub mean_of : (Point2D R → R) → List (Point2D R) → R
  unfolding sum_from
  mean_of f pts = ops.div (sum_from (ops.of_nat 0) f pts) (ops.of_nat (length pts))

  -- The distance of a point from a centre.
  unfoldable pub distance : (cx cy : R) → Point2D R → R
  distance cx cy pt = ops.sqrt (
      ops.add (ops.mul (ops.sub pt.x cx) (ops.sub pt.x cx))
        (ops.mul (ops.sub pt.y cy) (ops.sub pt.y cy)))

  each_point-add_point :
      (a b : R) (pts : List (Point2D R))
      → each_point (add_point ops) (a, b) pts
        ≡ (sum_from a (λ p. p.x) pts, sum_from b (λ p. p.y) pts)
  unfolding each_point add_point sum_from
  each_point-add_point a b [] = refl
  each_point-add_point a b (pt ∷ pts) = each_point-add_point (ops.add a pt.x) (ops.add b pt.y) pts

  each_point-add_distance :
      (cx cy acc : R) (pts : List (Point2D R))
      → each_point (add_distance ops cx cy) acc pts ≡ sum_from acc (distance cx cy) pts
  unfolding each_point add_distance sum_from distance
  each_point-add_distance cx cy acc [] = refl
  each_point-add_distance cx cy acc (pt ∷ pts) =
      each_point-add_distance cx cy (ops.add acc (distance cx cy pt)) pts

  -- The centre of the points, and their mean distance from it by the root of 2.
  unfoldable pub fitted : List (Point2D R) → CalibrationParams2D R
  unfolding mean_of distance
  fitted pts =
      let cx = mean_of (λ p. p.x) pts in
      let cy = mean_of (λ p. p.y) pts in
      let scale = ops.div (mean_of (distance cx cy) pts) (ops.sqrt (ops.literal "2.0")) in
      record {
        fx = scale;
        fy = scale;
        cx = cx;
        cy = cy;
        distortion = replicate 5 (ops.literal "0.0");
      }

  -- The parameters from the sums over the points.
  abbrev from_sums : (total : R) → R × R → (R → R → R) → CalibrationParams2D R
  from_sums total sums distances =
      let cx = ops.div (sums.0) total in
      let cy = ops.div (sums.1) total in
      let scale = ops.div (ops.div (distances cx cy) total) (ops.sqrt (ops.literal "2.0")) in
      record {
        fx = scale;
        fy = scale;
        cx = cx;
        cy = cy;
        distortion = replicate 5 (ops.literal "0.0");
      }

  estimate-fitted :
      (total : R) (views : Views (Point2D R))
      → total ≡ ops.of_nat (length (all_points views))
      → estimate ops total views ≡ fitted (all_points views)
  unfolding estimate fitted mean_of
  estimate-fitted total views e =
      let zero = ops.of_nat 0 in
      ap (λ sums. from_sums total sums (λ cx cy. each_view (add_distance ops cx cy) zero views))
        (each_view-all_points (add_point ops) (zero, zero) views
          ∙ each_point-add_point zero zero (all_points views))
      ∙ ap
          (from_sums total (
            sum_from zero (λ p. p.x) (all_points views),
            sum_from zero (λ p. p.y) (all_points views),
          ))
          (fun_ext (λ cx. fun_ext (λ cy.
            each_view-all_points (add_distance ops cx cy) zero views
            ∙ each_point-add_distance cx cy zero (all_points views))))
      ∙ ap
          (λ n.
            from_sums n
              (
                sum_from zero (λ p. p.x) (all_points views),
                sum_from zero (λ p. p.y) (all_points views),
              )
              (λ cx cy. sum_from zero (distance cx cy) (all_points views)))
          e

  -- With as many views of the object as of its image, one at least, each of as many points as the first,
  -- the parameters become the centre of all points, and their mean distance from it divided by the root
  -- of 2, with five zeros for the distortion, whatever they were.
  pub calibrate2d_lem :
      {P : Type 0} (image_points : Views (Point2D R)) (object_points : Views P)
      (params : CalibrationParams2D R)
      → image_points ≢ []
      → length image_points ≡ length object_points
      → EachHas (first_size image_points) image_points
      → length image_points * first_size image_points < 2 ^ 64
      → calibrate2d ops image_points object_points params ≡ fitted (all_points image_points)
  unfolding calibrate2d is_empty
  calibrate2d_lem [] object_points params some_view same each fits = absurd (some_view refl)
  calibrate2d_lem (view ∷ views) object_points params some_view same each fits =
      let tests : not (suc (length views) == length object_points) ≡ false = ground arith in
      rw tests (
        estimate-fitted _ (view ∷ views) (
          ap ops.of_nat {x = length (view ∷ views) * first_size (view ∷ views) % size_mod}
            {y = length (all_points (view ∷ views))}
            (omega
              (arith, fits, length-all_points (first_size (view ∷ views)) (view ∷ views) each))))

  -- Without views, or with another number of views of the object, they stay.
  calibrate2d-invalid :
      {P : Type 0} (image_points : Views (Point2D R)) (object_points : Views P)
      (params : CalibrationParams2D R)
      → (image_points ≡ []) ⊎ (length image_points ≢ length object_points)
      → calibrate2d ops image_points object_points params ≡ params
  unfolding calibrate2d is_empty
  calibrate2d-invalid [] object_points params bad = refl
  calibrate2d-invalid (view ∷ views) object_points params (inl e) = cc
  calibrate2d-invalid (view ∷ views) object_points params (inr differ) = ground arith

-- ===== src/Vision/Cloud.antt =====
-- src/vision/DepthMap.cpp and src/vision/PointCloud.cpp: the depths and the points of a disparity map.
use lib_stereo_camera.Common.{
  ℕ, zero, suc, ◌+◌, ◌*◌, ◌^◌, ◌<◌, ◌≤◌, ◌≡◌, refl, sym, ap, ◌∙◌, arith, List, [], ◌∷◌, ◌++◌,
  Bool-cases, inl, inr, some, ◌>>=◌, if◌then◌else◌, length, length-append, length-set,
  length-take-append-replicate, length-map, map, set, get_or, ℕ_discrete, append_assoc, append-nil,
}
use lib_stereo_camera.Common.Loops.{
  for_up, for_up_lem, for_up-states, get_elem?, get_elem?-found, get_elem?-set_self,
  get_elem?-set_ne, get_elem?-ext, get_elem?-get_or, write-set, index-lt,
}
use lib_stereo_camera.Floats.{FloatOps}
use lib_stereo_camera.Vision.{u32, DisparityMap}
use lib_stereo_camera.Vision.Depth.{
  DepthMap, Point3D, resize_to, depth_of, depth_round, compute_depth, point_of, point_round,
  generate,
}

length-resize_to : {F : Type 0} (z : F) (n : ℕ) (xs : List F) → length (resize_to z n xs) ≡ n
unfolding resize_to
length-resize_to z n xs = length-take-append-replicate n xs z

get_elem?-map :
    {A B : Type 0} (f : A → B) (xs : List A) (i : ℕ) {x : A}
    → get_elem? xs i ≡ some x
    → get_elem? (map f xs) i ≡ some (f x)
get_elem?-map f [] i e = cc
get_elem?-map f (y ∷ xs) zero e = cc
get_elem?-map f (y ∷ xs) (suc i) e = get_elem?-map f xs i e

module _ {F : Type 0} (ops : FloatOps F) where
  -- The rounds of the loop, on a vector of the map's size.
  depth_rounds :
      (baseline focal : F) (disp data_ : List F)
      → length data_ ≡ length disp
      → for_up (length disp) (depth_round ops baseline focal disp) data_
        ≡ some (map (depth_of ops baseline focal) disp)
  unfolding depth_round
  depth_rounds baseline focal disp data_ size =
      let (found, ran, (same, done)) =
        for_up_lem
          (λ k out.
            (length out ≡ length disp)
            × ((i : ℕ)
                → i < k
                → get_elem? out i ≡ get_elem? (map (depth_of ops baseline focal) disp) i))
          (length disp) (depth_round ops baseline focal disp)
          (λ i out lt (same, done).
            let (x, at_i) = get_elem?-found disp i lt in
            let v = depth_of ops baseline focal x in
            let inside : i < length out = omega arith in
            (
              set out i v,
              rw at_i (write-set out i v inside),
              (
                length-set out i v ∙ same,
                λ j le. elim (ℕ_discrete i j) [
                  | yes e ↦
                      ap (get_elem? (set out i v)) (sym e)
                      ∙ get_elem?-set_self out i v inside
                      ∙ sym (get_elem?-map (depth_of ops baseline focal) disp i at_i)
                      ∙ ap (get_elem? (map (depth_of ops baseline focal) disp)) e
                  | no differ ↦ get_elem?-set_ne out i j v differ ∙ done j (omega arith)
                ],
              ),
            ))
          data_ (size, λ i lt. absurd (omega arith)) in
      ran
      ∙ ap some (
          get_elem?-ext found (map (depth_of ops baseline focal) disp)
            (same ∙ sym (length-map (depth_of ops baseline focal) disp))
            (λ i lt. done i (omega arith)))

  -- A map with a disparity for each pixel is turned into that of their depths, whatever the depth map
  -- held before.
  pub compute_depth_lem :
      (m : DisparityMap F) (baseline focal : F) (old : DepthMap F)
      → length m.data_ ≡ m.width_ * m.height_
      → m.width_ * m.height_ < 2 ^ 32
      → compute_depth ops m baseline focal old
        ≡ some (record {
          data_ = map (depth_of ops baseline focal) m.data_;
          width_ = m.width_;
          height_ = m.height_;
        })
  unfolding compute_depth
  compute_depth_lem m baseline focal old size small =
      ap
        (λ o.
          o >>= (λ found. some (record { data_ = found; width_ = m.width_; height_ = m.height_ })))
        (depth_rounds baseline focal m.data_
          (resize_to (ops.literal "0.0f") (u32 (m.width_ * m.height_)) old.data_)
          (length-resize_to (ops.literal "0.0f") (u32 (m.width_ * m.height_)) old.data_
            ∙ omega arith))

  -- The point that the pinhole camera sees at a pixel, by the pixel's depth, unless that is 0 or less. A
  -- depth that is not a number has its point.
  unfoldable pub points_at : (fx fy cx cy : F) → DepthMap F → (v u : ℕ) → List (Point3D F)
  points_at fx fy cx cy depth v u =
      let z = get_or depth.data_ (v * depth.width_ + u) (ops.literal "0.0f") in
      if ops.less_eq z (ops.literal "0.0f")
      then []
      else record {
        x = ops.div (ops.mul (ops.sub (ops.of_nat u) cx) z) fx;
        y = ops.div (ops.mul (ops.sub (ops.of_nat v) cy) z) fy;
        z = z;
      }
        ∷ []

  points_at-length :
      (fx fy cx cy : F) (depth : DepthMap F) (v u : ℕ)
      → length (points_at fx fy cx cy depth v u) ≤ 1
  unfolding points_at
  points_at-length fx fy cx cy depth v u = ground arith

-- The lists `f 0` to `f (n - 1)`, joined.
unfoldable pub concat_below : {A : Type 0} → ℕ → (ℕ → List A) → List A
concat_below zero f = []
concat_below (suc n) f = concat_below n f ++ f n

length-concat_below :
    {A : Type 0} (n k : ℕ) (f : ℕ → List A)
    → ((i : ℕ) → length (f i) ≤ k)
    → length (concat_below n f) ≤ n * k
unfolding concat_below
length-concat_below zero k f h = omega arith
length-concat_below (suc n) k f h =
    grind (arith, length-append (concat_below n f) (f n), length-concat_below n k f h, h n)

module _ {F : Type 0} (ops : FloatOps F) (fx fy cx cy : F) (depth : DepthMap F)
    (size : length depth.data_ ≡ depth.width_ * depth.height_)
    (small : depth.width_ * depth.height_ < 2 ^ 32) where
  abbrev row : ℕ → List (Point3D F)
  row v = concat_below depth.width_ (points_at ops fx fy cx cy depth v)

  round-points :
      (v u : ℕ) (points : List (Point3D F))
      → v < depth.height_
      → u < depth.width_
      → point_round ops fx fy cx cy depth v u points
        ≡ some (points ++ points_at ops fx fy cx cy depth v u)
  unfolding point_round points_at point_of
  round-points v u points hv hu =
      let inside : v * depth.width_ + u < depth.width_ * depth.height_ =
        index-lt depth.width_ depth.height_ u v hu hv in
      let z = get_or depth.data_ (v * depth.width_ + u) (ops.literal "0.0f") in
      let read : get_elem? depth.data_ (u32 (v * depth.width_ + u)) ≡ some z =
        ap (get_elem? depth.data_) {x = u32 (v * depth.width_ + u)} {y = v * depth.width_ + u}
          (omega arith)
        ∙ get_elem?-get_or depth.data_ (v * depth.width_ + u) (ops.literal "0.0f") (omega arith) in
      elim (Bool-cases (ops.less_eq z (ops.literal "0.0f"))) [
        | inl far ↦ rw (read, far) (ap some (sym (append-nil points)))
        | inr near ↦ rw (read, near) refl
      ]

  -- The cloud of a whole depth map has the points of its pixels whose depth is not 0 or less, row by row, and no
  -- others.
  pub generate_lem :
      (generate ops depth fx fy cx cy ≡ some (concat_below depth.height_ row))
      × (length (concat_below depth.height_ row) ≤ depth.height_ * depth.width_)
  unfolding generate concat_below
  generate_lem = (
    for_up-states (λ v. concat_below v row) depth.height_
        (λ v. for_up depth.width_ (point_round ops fx fy cx cy depth v))
        (λ v hv.
          ap (for_up depth.width_ (point_round ops fx fy cx cy depth v))
            (sym (append-nil (concat_below v row)))
          ∙ for_up-states
              (λ u. concat_below v row ++ concat_below u (points_at ops fx fy cx cy depth v))
              depth.width_ (point_round ops fx fy cx cy depth v)
              (λ u hu.
                round-points v u
                  (concat_below v row ++ concat_below u (points_at ops fx fy cx cy depth v)) hv hu
                ∙ ap some (
                    append_assoc (concat_below v row)
                      (concat_below u (points_at ops fx fy cx cy depth v))
                      (points_at ops fx fy cx cy depth v u)))),
    length-concat_below depth.height_ depth.width_ row (λ v. row_length v),
  )
    where
      row_length : (v : ℕ) → length (row v) ≤ depth.width_
      row_length v = omega (
        arith,
        length-concat_below depth.width_ 1 (points_at ops fx fy cx cy depth v)
            (λ u. points_at-length ops fx fy cx cy depth v u),
      )

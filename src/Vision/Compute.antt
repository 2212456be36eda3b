-- ===== src/Vision/Compute.antt =====
-- src/vision/DisparityMap.cpp: `compute` on a stereo pair, and where its test of the images' sizes
-- is not enough.
use lib_stereo_camera.Common.{
  ℕ, suc, ◌+◌, ◌-◌, ◌*◌, ◌^◌, ◌<◌, ◌≤◌, ◌≡◌, refl, ap, ◌∙◌, arith, min, List, false, Option, none,
  some, ◌>>=◌, ltb, length, length-replicate, replicate,
}
use lib_stereo_camera.Common.Loops.{
  for_up, get_elem?, get_elem?-replicate, get_elem?-none, for_up-none, write, index-lt,
}
use lib_stereo_camera.Floats.{FloatOps, IsFloat}
use lib_stereo_camera.Vision.{
  u32, StereoImagePair, DisparityConfig, DisparityMap, disparity_rows, gray_of, to_gray,
  compute_disparity,
}
use lib_stereo_camera.Vision.Sad.{Covers}
use lib_stereo_camera.Vision.Gray.{to_gray_lem}
use lib_stereo_camera.Vision.Pixel.{Fits, half_of, max_disp_of, Entry}
use lib_stereo_camera.Vision.Map.{rows-Done}

-- A pair whose images have four bytes for each pixel, and sizes within which `compute` computes
-- without a wrap.
pub record IsSound (pair : StereoImagePair) (config : DisparityConfig) : Type 0 where
  pub left_whole : pair.width * pair.height * 4 ≤ length pair.left
  pub right_whole : pair.width * pair.height * 4 ≤ length pair.right
  pub wide : pair.width < 2 ^ 31
  pub high : pair.height < 2 ^ 31
  pub small : pair.width * pair.height < 2 ^ 30
  pub block : config.block_size < 2 ^ 32
  pub tried : min config.max_disparity pair.width < 2 ^ 24

module _ {F : Type 0} (ops : FloatOps F) where
  -- The image that the bytes make: one value for each pixel, from its own four bytes.
  pub record IsGray (bgra : List ℕ) (w h : ℕ) (gray : List ℕ) : Type 0 where
    pub covers : Covers w h gray
    pub made : (i : ℕ) → i < w * h → get_elem? gray i ≡ gray_of ops bgra i

  compute_rows :
      (pair : StereoImagePair) (config : DisparityConfig) {left right : List ℕ} {found : List F}
      → IsSound pair config
      → to_gray ops pair.left pair.width pair.height ≡ some left
      → to_gray ops pair.right pair.width pair.height ≡ some right
      → disparity_rows ops left right pair.width pair.height config
          (replicate (pair.width * pair.height) (ops.literal "0.0f"))
        ≡ some found
      → compute_disparity ops pair config
        ≡ some (record { data_ = found; width_ = pair.width; height_ = pair.height })
  unfolding compute_disparity
  compute_rows pair config {left} {right} {found} sound gray_left gray_right ran =
      let w = pair.width in
      let h = pair.height in
      let size : u32 (w * h) ≡ w * h = omega (arith, sound.small) in
      let whole_left : ltb (length pair.left) (u32 (u32 (w * h) * 4)) ≡ false =
        ground (arith, size, sound.left_whole, sound.small) in
      let whole_right : ltb (length pair.right) (u32 (u32 (w * h) * 4)) ≡ false =
        ground (arith, size, sound.right_whole, sound.small) in
      rw (whole_left, whole_right, gray_left, gray_right)
        (ap
            (λ n.
              disparity_rows ops left right w h config (replicate n (ops.literal "0.0f"))
              >>= (λ out. some (record { data_ = out; width_ = w; height_ = h })))
            size
          ∙ ap (λ o. o >>= (λ out. some (record { data_ = out; width_ = w; height_ = h }))) ran)

  -- On a sound pair `compute` reads and writes inside its vectors only, and gives a map of the pair's
  -- size. At each pixel it holds 0 if the pixel is at the border, and otherwise the disparity of least
  -- cost, moved by its neighbours' costs if that is asked for, where the cost is the mean absolute
  -- difference of two windows of the gray images, by a sum modulo 2 ^ 32.
  pub compute_disparity_lem :
      IsFloat ops
      → (pair : StereoImagePair) (config : DisparityConfig) → IsSound pair config
      → (left : List ℕ) × (right : List ℕ) × (m : DisparityMap F) × IsGray pair.left pair.width
          pair.height left
        × IsGray pair.right pair.width pair.height right
        × (compute_disparity ops pair config ≡ some m)
        × (m.width_ ≡ pair.width)
        × (m.height_ ≡ pair.height)
        × (length m.data_ ≡ pair.width * pair.height)
        × ((x y : ℕ)
            → x < pair.width
            → y < pair.height
            → Entry ops left right pair.width pair.height
                (half_of config)
                (max_disp_of config pair.width)
                config.subpixel
                m.data_
                x
                y)
  compute_disparity_lem float pair config sound =
      let w = pair.width in
      let h = pair.height in
      let (left, gray_left, covers_left, made_left) =
        to_gray_lem ops pair.left w h sound.left_whole (omega (arith, sound.small)) in
      let (right, gray_right, covers_right, made_right) =
        to_gray_lem ops pair.right w h sound.right_whole (omega (arith, sound.small)) in
      let fits : Fits left right w h config = record {
        covers_left = covers_left;
        covers_right = covers_right;
        wide = sound.wide;
        high = sound.high;
        small = omega (arith, sound.small);
        block = sound.block;
        tried = sound.tried;
      } in
      let (found, ran, done) =
        rows-Done ops float left right w h config fits (replicate (w * h) (ops.literal "0.0f"))
          (record {
            size = length-replicate (w * h) (ops.literal "0.0f");
            entry = λ x y hx lt. absurd (omega arith);
            rest = λ i le lt. get_elem?-replicate (w * h) i (ops.literal "0.0f") lt;
          }) in
      (
        left,
        right,
        record { data_ = found; width_ = w; height_ = h },
        record { covers = covers_left; made = made_left },
        record { covers = covers_right; made = made_right },
        compute_rows pair config sound gray_left gray_right ran,
        refl,
        refl,
        done.size,
        λ x y hx hy. done.entry x y hx (omega (arith, index-lt w h x y hx hy)),
      )

  gray_of-none : (bgra : List ℕ) (i : ℕ) → length bgra ≤ u32 (i * 4) + 2 → gray_of ops bgra i ≡ none
  unfolding gray_of
  gray_of-none bgra i h = ground (arith, get_elem?-none bgra (u32 (i * 4) + 2))

  -- The number of bytes that `compute` asks of the images wraps: with a pair of 2^30 pixels, it reads
  -- outside the left image wherever that has at most 2^32 - 2 bytes, the empty one included.
  pub wrapped_size_reads_outside :
      (pair : StereoImagePair) (config : DisparityConfig)
      → pair.width * pair.height ≡ 2 ^ 30
      → length pair.left ≤ 2 ^ 32 - 2
      → compute_disparity ops pair config ≡ none
  unfolding compute_disparity to_gray
  wrapped_size_reads_outside pair config size short =
      let passes : (k : ℕ) → ltb k (u32 (u32 (pair.width * pair.height) * 4)) ≡ false =
        λ k. ground (arith, size) in
      rw (passes (length pair.left), passes (length pair.right), outside) refl
    where
      body : ℕ → List ℕ → Option (List ℕ)
      body i gray = gray_of ops pair.left i >>= (λ v. write gray i v)

      outside : to_gray ops pair.left pair.width pair.height ≡ none
      outside =
          ap (λ n. for_up n body (replicate n 0)) {x = u32 (pair.width * pair.height)}
            {y = suc (2 ^ 30 - 1)} (omega (arith, size))
          ∙ for_up-none (2 ^ 30 - 1) body
              (λ gray.
                ap (λ o. o >>= (λ v. write gray (2 ^ 30 - 1) v))
                  (gray_of-none pair.left (2 ^ 30 - 1) (omega arith)))
              (replicate (suc (2 ^ 30 - 1)) 0)

-- ===== src/Vision/Pixel.antt =====
-- src/vision/DisparityMap.cpp: what `compute` is to find at a pixel, and that it does.
use lib_stereo_camera.Common.{
  ℕ, ◌+◌, ◌*◌, ◌/◌, ◌^◌, ◌<◌, ◌≤◌, ◌≡◌, ap, ◌∙◌, arith, min, max, List, Bool, true, false, ◌||◌,
  Option, some, ◌>>=◌, ltb, leb,
}
use mathlib.Core.Path.{fun_ext}
use lib_stereo_camera.Common.Loops.{for_up, get_elem?}
use lib_stereo_camera.Floats.{FloatOps, IsFloat}
use lib_stereo_camera.Vision.{
  u32, DisparityConfig, mean_cost, new_search, search_round, refined, pixel_disparity, near_border,
}
use lib_stereo_camera.Vision.Sad.{Covers, window_sad, window_count, compute_sad_lem}
use lib_stereo_camera.Vision.Winner.{Chosen, search_lem}

-- The pixels whose window, or the one of a disparity that is tried, leaves the image.
unfoldable pub border : (w h half max_disp x y : ℕ) → Bool
border w h half max_disp x y =
    ltb x (half + max_disp) || leb w (x + half) || ltb y half || leb h (y + half)

-- The wraps of `uint32_t` in the tests do not matter.
pub near_border-border :
    (w h half max_disp x y : ℕ)
    → w < 2 ^ 31
    → h < 2 ^ 31
    → half < 2 ^ 31
    → max_disp ≤ w
    → x < w
    → y < h
    → near_border w h half max_disp x y ≡ border w h half max_disp x y
unfolding near_border border
near_border-border w h half max_disp x y hw hh hhalf hd hx hy = ground arith

-- Gray images that cover the pixels, and sizes that neither `int`, `uint32_t` nor `float` cuts off.
pub record Fits (left right : List ℕ) (w h : ℕ) (config : DisparityConfig) : Type 0 where
  pub covers_left : Covers w h left
  pub covers_right : Covers w h right
  pub wide : w < 2 ^ 31
  pub high : h < 2 ^ 31
  pub small : w * h < 2 ^ 32
  pub block : config.block_size < 2 ^ 32
  pub tried : min config.max_disparity w < 2 ^ 24

abbrev pub half_of : DisparityConfig → ℕ
half_of config = max config.block_size 1 / 2

abbrev pub max_disp_of : DisparityConfig → ℕ → ℕ
max_disp_of config w = min config.max_disparity w

module _ {F : Type 0} (ops : FloatOps F) where
  -- The cost of disparity `d` at a pixel.
  unfoldable pub cost_of : (left right : List ℕ) (w h half x y d : ℕ) → F
  unfolding mean_cost
  cost_of left right w h half x y d =
      mean_cost ops (u32 (window_sad left right w h half d x y), u32 (window_count w h half d x y))

  -- What the map holds at a pixel: 0 at the border, and the disparity of least cost elsewhere.
  abbrev pub RightAt :
      (left right : List ℕ) (w h half max_disp : ℕ) (subpixel : Bool) (x y : ℕ) → Bool → F → Type 0
  RightAt left right w h half max_disp subpixel x y true v = v ≡ ops.literal "0.0f"
  RightAt left right w h half max_disp subpixel x y false v =
      Chosen ops (cost_of left right w h half x y) max_disp subpixel v

  -- The entry of a pixel, once it has been computed.
  abbrev pub Entry :
      (left right : List ℕ) (w h half max_disp : ℕ) (subpixel : Bool) → List F → (x y : ℕ) → Type 0
  Entry left right w h half max_disp subpixel data_ x y =
      (v : F) × (get_elem? data_ (y * w + x) ≡ some v)
      × RightAt left right w h half max_disp subpixel x y (border w h half max_disp x y) v

module _ {F : Type 0} (ops : FloatOps F) (float : IsFloat ops) (left right : List ℕ) (w h : ℕ)
    (config : DisparityConfig) (fits : Fits left right w h config) where
  -- Every pixel of such images has its disparity.
  pub pixel_disparity_lem :
      (x y : ℕ)
      → (v : F) × (pixel_disparity ops left right w h config x y ≡ some v)
        × Chosen ops
            (cost_of ops left right w h (half_of config) x y)
            (max_disp_of config w)
            config.subpixel
            v
  unfolding pixel_disparity cost_of
  pixel_disparity_lem x y =
      let (s, ran, chosen) =
        search_lem ops float (cost_of ops left right w h (half_of config) x y)
          (max_disp_of config w) fits.tried config.subpixel in
      (
        refined ops config.subpixel (max_disp_of config w) s,
        ap
              (λ (cost : ℕ → Option F).
                for_up (max_disp_of config w) (search_round ops cost (max_disp_of config w))
                  (new_search ops)
                >>= (λ t. some (refined ops config.subpixel (max_disp_of config w) t)))
              (fun_ext (λ d.
                compute_sad_lem ops left right w h x y d (max config.block_size 1) fits.covers_left
                  fits.covers_right fits.small))
            ∙ ap (λ o. o >>= (λ t. some (refined ops config.subpixel (max_disp_of config w) t)))
                ran,
        chosen,
      )

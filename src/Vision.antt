-- ===== src/Vision.antt =====
-- src/vision/DisparityMap.cpp, src/vision/DepthMap.cpp, src/vision/PointCloud.cpp: from a stereo pair
-- to disparities, depths and points. A read or write outside a vector has no defined result: none.
pub mod Depth
pub mod Sad
pub mod Gray
pub mod Winner
pub mod Pixel
pub mod Map
pub mod Compute
pub mod Cloud
pub mod Steps
use lib_stereo_camera.Common.{
  ℕ, suc, ◌+◌, ◌-◌, ◌*◌, ◌/◌, ◌%◌, ◌^◌, min, max, List, [], ◌∷◌, ◌++◌, Bool, true, false, not, ◌||◌,
  ◌&&◌, Option, none, some, ◌>>=◌, if◌then◌else◌, ltb, leb, ◌==◌, length, take, replicate,
}
use lib_stereo_camera.Common.Loops.{for_up, get_elem?, write}
use lib_stereo_camera.Floats.{FloatOps}

-- `uint32_t`
abbrev pub u32 : ℕ → ℕ
u32 n = n % 2 ^ 32

abbrev pub sub_u32 : ℕ → ℕ → ℕ
sub_u32 a b = u32 (a + 2 ^ 32 - b)

pub record StereoImagePair : Type 0 where
  pub left : List ℕ
  pub right : List ℕ
  pub width : ℕ
  pub height : ℕ

pub record DisparityConfig : Type 0 where
  pub max_disparity : ℕ
  pub block_size : ℕ
  pub subpixel : Bool

abbrev pub default_config : DisparityConfig
default_config = record { max_disparity = 64; block_size = 7; subpixel = true }

pub record DisparityMap (F : Type 0) : Type 0 where
  pub data_ : List F
  pub width_ : ℕ
  pub height_ : ℕ

-- The state of the search over the disparities of one pixel.
pub record Search (F : Type 0) : Type 0 where
  pub best_cost : F
  pub best_disp : F
  pub prev_cost : F
  pub next_cost : F

abbrev pub abs_diff : ℕ → ℕ → ℕ
abs_diff a b = (a - b) + (b - a)

module _ {F : Type 0} (ops : FloatOps F) where
  unfoldable pub gray_of : List ℕ → ℕ → Option ℕ
  gray_of bgra i = get_elem? bgra (u32 (i * 4)) >>= (λ b. get_elem? bgra (u32 (i * 4) + 1) >>= (λ g.
      get_elem? bgra (u32 (i * 4) + 2) >>= (λ r. some (
        ops.to_byte (
          ops.add
            (ops.add (ops.mul (ops.literal "0.299f") (ops.of_nat r))
              (ops.mul (ops.literal "0.587f") (ops.of_nat g)))
            (ops.mul (ops.literal "0.114f") (ops.of_nat b)))))))

  unfoldable pub to_gray : List ℕ → ℕ → ℕ → Option (List ℕ)
  unfolding for_up gray_of write
  to_gray bgra w h =
      for_up (u32 (w * h)) (λ i gray. gray_of bgra i >>= (λ v. write gray i v))
        (replicate (u32 (w * h)) 0)

-- The window's offsets `dy` and `dx` run from `-half` to `half`; they stand here as `ky` and `kx`, from
-- 0, so that `ry` is `y + ky - half`, and `rx` is `x + kx - half`.
unfoldable pub row_outside : ℕ → ℕ → ℕ → ℕ → Bool
row_outside h half y ky = ltb (y + ky) half || leb (h + half) (y + ky)

unfoldable pub column_outside : ℕ → ℕ → ℕ → ℕ → ℕ → Bool
column_outside w half d x kx =
    ltb (x + kx) half
    || leb (w + half) (x + kx)
    || ltb (x + kx) (half + d)
    || leb (w + half + d) (x + kx)

-- A round of the inner loop, on `sad` and `count`.
unfoldable pub sad_cell :
    (left_gray right_gray : List ℕ) (w half d x ry kx : ℕ) → ℕ × ℕ → Option (ℕ × ℕ)
unfolding column_outside
sad_cell left_gray right_gray w half d x ry kx (sad, count) =
    if column_outside w half d x kx
    then some (sad, count)
    else get_elem? left_gray (u32 (ry * w + (x + kx - half))) >>= (λ a.
      get_elem? right_gray (u32 (ry * w + (x + kx - half - d)))
      >>= (λ b. some (u32 (sad + abs_diff a b), u32 (count + 1))))

-- A round of the outer loop.
unfoldable pub sad_row :
    (left_gray right_gray : List ℕ) (w h half d x y ky : ℕ) → ℕ × ℕ → Option (ℕ × ℕ)
unfolding for_up sad_cell row_outside
sad_row left_gray right_gray w h half d x y ky acc =
    if row_outside h half y ky
    then some acc
    else for_up (2 * half + 1) (λ kx. sad_cell left_gray right_gray w half d x (y + ky - half) kx)
        acc

-- The pixels near the border are passed over.
unfoldable pub near_border : (w h half max_disp x y : ℕ) → Bool
near_border w h half max_disp x y =
    ltb x (u32 (half + max_disp)) || leb (sub_u32 w half) x || ltb y half || leb (sub_u32 h half) y

module _ {F : Type 0} (ops : FloatOps F) where
  unfoldable pub mean_cost : ℕ × ℕ → F
  mean_cost (sad, count) =
      if ltb 0 count then ops.div (ops.of_nat sad) (ops.of_nat count) else ops.literal "1e30f"

  unfoldable pub compute_sad : (left_gray right_gray : List ℕ) (w h x y d block : ℕ) → Option F
  unfolding for_up sad_row mean_cost
  compute_sad left_gray right_gray w h x y d block =
      let half = block / 2 in
      for_up (2 * half + 1) (λ ky. sad_row left_gray right_gray w h half d x y ky) (0, 0)
      >>= (λ acc. some (mean_cost acc))

  unfoldable pub new_search : Search F
  new_search = record {
    best_cost = ops.literal "1e30f";
    best_disp = ops.literal "0.0f";
    prev_cost = ops.literal "1e30f";
    next_cost = ops.literal "1e30f";
  }

  -- A round of the loop over the disparities; `cost` calls `compute_sad` at the pixel.
  unfoldable pub search_round : (ℕ → Option F) → ℕ → ℕ → Search F → Option (Search F)
  search_round cost max_disp d s = cost d >>= (λ c.
      if ops.less c s.best_cost
      then (if ltb 0 d then cost (d - 1) else some s.prev_cost) >>= (λ prev.
          (if ltb d (sub_u32 max_disp 1) then cost (d + 1) else some s.next_cost) >>= (λ next.
            some (record {
              best_cost = c;
              best_disp = ops.of_nat d;
              prev_cost = prev;
              next_cost = next;
            })))
      else some s)

  unfoldable pub denom : Search F → F
  denom s = ops.add (ops.sub s.prev_cost (ops.mul (ops.literal "2.0f") s.best_cost)) s.next_cost

  unfoldable pub refined : Bool → ℕ → Search F → F
  unfolding denom
  refined subpixel max_disp s =
      if subpixel
        && ops.less (ops.of_nat 0) s.best_disp
        && ops.less s.best_disp (ops.of_nat (sub_u32 max_disp 1))
        && ops.less (ops.literal "1e-6f") (ops.abs (denom s))
      then ops.sub s.best_disp
          (ops.div (ops.sub s.prev_cost s.next_cost) (ops.mul (ops.literal "2.0f") (denom s)))
      else s.best_disp

  -- The disparity of one pixel.
  unfoldable pub pixel_disparity :
      (left_gray right_gray : List ℕ) (w h : ℕ) → DisparityConfig → (x y : ℕ) → Option F
  unfolding for_up search_round refined new_search compute_sad
  pixel_disparity left_gray right_gray w h config x y =
      let block = max config.block_size 1 in
      let max_disp = min config.max_disparity w in
      let cost = λ (d : ℕ). compute_sad left_gray right_gray w h x y d block in
      for_up max_disp (search_round cost max_disp) new_search
      >>= (λ s. some (refined config.subpixel max_disp s))

  -- A round of the inner loop over the columns.
  unfoldable pub disparity_cell :
      (left_gray right_gray : List ℕ) (w h : ℕ)
      → DisparityConfig
      → (y x : ℕ) → List F
      → Option (List F)
  unfolding pixel_disparity near_border write
  disparity_cell left_gray right_gray w h config y x data_ =
      if near_border w h (max config.block_size 1 / 2) (min config.max_disparity w) x y
      then some data_
      else pixel_disparity left_gray right_gray w h config x y
        >>= (λ v. write data_ (u32 (y * w + x)) v)

  unfoldable pub disparity_rows :
      (left_gray right_gray : List ℕ) (w h : ℕ) → DisparityConfig → List F → Option (List F)
  unfolding for_up disparity_cell
  disparity_rows left_gray right_gray w h config data_ =
      for_up h (λ y. for_up w (disparity_cell left_gray right_gray w h config y)) data_

  unfoldable pub compute_disparity : StereoImagePair → DisparityConfig → Option (DisparityMap F)
  unfolding to_gray disparity_rows
  compute_disparity pair config =
      let w = pair.width in
      let h = pair.height in
      let zeros = replicate (u32 (w * h)) (ops.literal "0.0f") in
      let needed = u32 (u32 (w * h) * 4) in
      if ltb (length pair.left) needed || ltb (length pair.right) needed
      then some (record { data_ = zeros; width_ = w; height_ = h })
      else to_gray ops pair.left w h >>= (λ left_gray. to_gray ops pair.right w h >>= (λ right_gray.
        disparity_rows left_gray right_gray w h config zeros
        >>= (λ found. some (record { data_ = found; width_ = w; height_ = h }))))

-- ===== src/Vision/Map.antt =====
-- src/vision/DisparityMap.cpp: the loops of `compute` over rows and columns.
use lib_stereo_camera.Common.{
  ℕ, suc, ◌+◌, ◌*◌, ◌<◌, ◌≤◌, ◌≡◌, refl, sym, ap, ◌∙◌, arith, List, true, false, Bool-cases, inl,
  inr, some, length, set, length-set, ℕ_discrete, ap₂,
}
use mathlib.Core.Path.{subst}
use lib_stereo_camera.Common.Loops.{
  for_up, for_up_lem, get_elem?, get_elem?-set_self, get_elem?-set_ne, write, write-set, index-lt,
  index_inj,
}
use lib_stereo_camera.Floats.{FloatOps, IsFloat}
use lib_stereo_camera.Vision.{u32, DisparityConfig, near_border, disparity_cell, disparity_rows}
use lib_stereo_camera.Vision.Pixel.{
  Fits, half_of, max_disp_of, border, near_border-border, cost_of, RightAt, Entry,
  pixel_disparity_lem,
}
use lib_stereo_camera.Vision.Winner.{Chosen}

module _ {F : Type 0} (ops : FloatOps F) (float : IsFloat ops) (left right : List ℕ) (w h : ℕ)
    (config : DisparityConfig) (fits : Fits left right w h config) where
  abbrev pub half : ℕ
  half = half_of config

  abbrev pub max_disp : ℕ
  max_disp = max_disp_of config w

  -- What holds of the map once the pixels before the `k`-th, row by row, are done.
  pub record Done (k : ℕ) (data_ : List F) : Type 0 where
    pub size : length data_ ≡ w * h
    pub entry :
        (x y : ℕ)
        → x < w
        → y * w + x < k
        → Entry ops left right w h half max_disp config.subpixel data_ x y
    pub rest : (i : ℕ) → k ≤ i → i < w * h → get_elem? data_ i ≡ some (ops.literal "0.0f")

  -- A pixel that is passed over keeps its 0.
  skipped-Done :
      (x y : ℕ) (data_ : List F)
      → x < w
      → y < h
      → border w h half max_disp x y ≡ true
      → Done (y * w + x) data_
      → Done (y * w + suc x) data_
  skipped-Done x y data_ hx hy out done = record {
    size = done.size;
    entry = λ x' y' hx' lt. elim (ℕ_discrete (y * w + x) (y' * w + x')) [
      | yes same ↦
          let (ex, ey) = index_inj w x y x' y' hx hx' same in
          (
            ops.literal "0.0f",
            ap (get_elem? data_) (sym same)
                ∙ done.rest (y * w + x) (omega arith) (index-lt w h x y hx hy),
            subst
                (λ b.
                  RightAt ops left right w h half max_disp config.subpixel x' y' b
                    (ops.literal "0.0f"))
                (sym out ∙ ap₂ (border w h half max_disp) ex ey) refl,
          )
      | no differ ↦ done.entry x' y' hx' (omega arith)
    ];
    rest = λ i le lt. done.rest i (omega arith) lt;
  }

  -- A pixel that is computed is written, and the others stay.
  written-Done :
      (x y : ℕ) (data_ : List F) (v : F)
      → x < w
      → y < h
      → border w h half max_disp x y ≡ false
      → Chosen ops (cost_of ops left right w h half x y) max_disp config.subpixel v
      → Done (y * w + x) data_
      → Done (y * w + suc x) (set data_ (y * w + x) v)
  written-Done x y data_ v hx hy inner chosen done = record {
    size = length-set data_ (y * w + x) v ∙ done.size;
    entry = λ x' y' hx' lt. elim (ℕ_discrete (y * w + x) (y' * w + x')) [
      | yes same ↦
          let (ex, ey) = index_inj w x y x' y' hx hx' same in
          let inside : y * w + x < length data_ =
            omega (arith, index-lt w h x y hx hy, done.size) in
          (
            v,
            ap (get_elem? (set data_ (y * w + x) v)) (sym same)
                ∙ get_elem?-set_self data_ (y * w + x) v inside,
            subst (λ b. RightAt ops left right w h half max_disp config.subpixel x' y' b v)
                (sym inner ∙ ap₂ (border w h half max_disp) ex ey) (subst2_cost ex ey chosen),
          )
      | no differ ↦
          let (u, found, right_at) = done.entry x' y' hx' (omega arith) in
          (u, get_elem?-set_ne data_ (y * w + x) (y' * w + x') v differ ∙ found, right_at)
    ];
    rest = λ i le lt.
        get_elem?-set_ne data_ (y * w + x) i v (λ e. absurd (omega arith))
        ∙ done.rest i (omega arith) lt;
  }
    where
      subst2_cost :
          {x' y' : ℕ}
          → x ≡ x'
          → y ≡ y'
          → Chosen ops (cost_of ops left right w h half x y) max_disp config.subpixel v
          → Chosen ops (cost_of ops left right w h half x' y') max_disp config.subpixel v
      subst2_cost ex ey c =
          subst (λ (f : ℕ → F). Chosen ops f max_disp config.subpixel v)
            (ap₂ (cost_of ops left right w h half) ex ey) c

  cell-Done :
      (y x : ℕ) (data_ : List F)
      → y < h
      → x < w
      → Done (y * w + x) data_
      → (found : List F) × (disparity_cell ops left right w h config y x data_ ≡ some found)
        × Done (y * w + suc x) found
  unfolding disparity_cell
  cell-Done y x data_ hy hx done =
      let same : near_border w h half max_disp x y ≡ border w h half max_disp x y =
        near_border-border w h half max_disp x y fits.wide fits.high (ground (arith, fits.block))
          (omega arith) hx hy in
      let inside : y * w + x < w * h = index-lt w h x y hx hy in
      elim (Bool-cases (border w h half max_disp x y)) [
        | inl out ↦ (data_, rw (same, out) refl, skipped-Done x y data_ hx hy out done)
        | inr inner ↦
            let (v, found, chosen) = pixel_disparity_lem ops float left right w h config fits x y in
            (
              set data_ (y * w + x) v,
              rw (same, inner, found)
                  (ap (λ i. write data_ i v) {x = u32 (y * w + x)} {y = y * w + x}
                      (omega (arith, fits.small))
                    ∙ write-set data_ (y * w + x) v (omega (arith, done.size))),
              written-Done x y data_ v hx hy inner chosen done,
            )
      ]

  row-Done :
      (y : ℕ) (data_ : List F)
      → y < h
      → Done (y * w) data_
      → (found : List F) × (for_up w (disparity_cell ops left right w h config y) data_
          ≡ some found)
        × Done (suc y * w) found
  row-Done y data_ hy done =
      let (found, ran, filled) =
        for_up_lem (λ x. Done (y * w + x)) w (disparity_cell ops left right w h config y)
          (λ x d lt filled. cell-Done y x d hy lt filled) data_
          (subst (λ k. Done k data_) (omega arith) done) in
      (found, ran, subst (λ k. Done k found) (omega arith) filled)

  pub rows-Done :
      (data_ : List F)
      → Done 0 data_
      → (found : List F) × (disparity_rows ops left right w h config data_ ≡ some found)
        × Done (h * w) found
  unfolding disparity_rows
  rows-Done data_ done =
      for_up_lem (λ y. Done (y * w)) h (λ y. for_up w (disparity_cell ops left right w h config y))
        (λ y d lt filled. row-Done y d lt filled) data_
        (subst (λ k. Done k data_) (omega arith) done)

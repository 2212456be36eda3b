-- ===== src/Vision/Gray.antt =====
-- src/vision/DisparityMap.cpp: what `to_gray` computes, and that it stays inside the image.
use lib_stereo_camera.Common.{
  ℕ, ◌+◌, ◌*◌, ◌^◌, ◌<◌, ◌≤◌, ◌≡◌, refl, sym, ap, ◌∙◌, arith, List, some, ◌>>=◌, ℕ_discrete, length,
  set, length-set, length-replicate, replicate,
}
use lib_stereo_camera.Common.Loops.{
  for_up, get_elem?, get_elem?-found, write, write-set, for_up_lem, get_elem?-set_self,
  get_elem?-set_ne,
}
use lib_stereo_camera.Floats.{FloatOps}
use lib_stereo_camera.Vision.{u32, gray_of, to_gray}
use lib_stereo_camera.Vision.Sad.{Covers}

module _ {F : Type 0} (ops : FloatOps F) where
  gray_of_lem :
      (bgra : List ℕ) (i : ℕ)
      → u32 (i * 4) + 3 < length bgra
      → (v : ℕ) × (gray_of ops bgra i ≡ some v)
  unfolding gray_of
  gray_of_lem bgra i h =
      let (b, read_b) = get_elem?-found bgra (u32 (i * 4)) (omega arith) in
      let (g, read_g) = get_elem?-found bgra (u32 (i * 4) + 1) (omega arith) in
      let (r, read_r) = get_elem?-found bgra (u32 (i * 4) + 2) (omega arith) in
      rw (read_b, read_g, read_r) (_, refl)

  -- The rounds of `to_gray` on the vector of a size that is known.
  gray_rounds :
      (bgra : List ℕ) (n : ℕ)
      → n * 4 ≤ length bgra
      → n ≤ 2 ^ 30
      → (gray : List ℕ) × (for_up n
            (λ i gray. gray_of ops bgra i >>= (λ v. write gray i v))
            (replicate n 0)
          ≡ some gray)
        × (length gray ≡ n)
        × ((i : ℕ) → i < n → get_elem? gray i ≡ gray_of ops bgra i)
  gray_rounds bgra n enough small =
      let (gray, ran, (covers, made)) =
        for_up_lem
          (λ k gray. (length gray ≡ n) × ((i : ℕ) → i < k → get_elem? gray i ≡ gray_of ops bgra i))
          n (λ i gray. gray_of ops bgra i >>= (λ v. write gray i v))
          (λ i gray lt (covers, done).
            let (v, made) = gray_of_lem bgra i (omega arith) in
            let inside : i < length gray = omega arith in
            (
              set gray i v,
              rw made (write-set gray i v inside),
              (
                length-set gray i v ∙ covers,
                λ j le. elim (ℕ_discrete i j) [
                  | yes same ↦
                      ap (get_elem? (set gray i v)) (sym same)
                      ∙ get_elem?-set_self gray i v inside
                      ∙ sym made
                      ∙ ap (gray_of ops bgra) same
                  | no differ ↦ get_elem?-set_ne gray i j v differ ∙ done j (omega arith)
                ],
              ),
            ))
          (replicate n 0) (length-replicate n 0, λ i lt. absurd (omega arith)) in
      (gray, ran, covers, made)

  -- An image of four bytes for each of at most 2^30 pixels is turned into one of one byte for each, every
  -- one made from its own four bytes.
  pub to_gray_lem :
      (bgra : List ℕ) (w h : ℕ)
      → w * h * 4 ≤ length bgra
      → w * h ≤ 2 ^ 30
      → (gray : List ℕ) × (to_gray ops bgra w h ≡ some gray)
        × Covers w h gray
        × ((i : ℕ) → i < w * h → get_elem? gray i ≡ gray_of ops bgra i)
  unfolding to_gray
  to_gray_lem bgra w h enough small =
      let (gray, ran, covers, made) = gray_rounds bgra (w * h) enough small in
      (
        gray,
        ap (λ n. for_up n (λ i gray. gray_of ops bgra i >>= (λ v. write gray i v)) (replicate n 0))
              {x = u32 (w * h)} {y = w * h} (omega arith)
            ∙ ran,
        covers,
        made,
      )

-- ===== src/Pipeline/Encode/Split.antt =====
-- src/data/WSServer.cpp: an encoded stereo image (`encode_stereo_image`), taken apart again.
use lib_stereo_camera.Common.{
  ℕ, ◌+◌, ◌*◌, ◌/◌, ◌^◌, ◌<◌, ◌≡◌, sym, ap, ap₂, ◌∙◌, arith, List, [], ◌∷◌, ◌++◌, Option, some,
  Option-cases, inl, inr, length, take, drop, take-append, drop-append_self,
}
use lib_stereo_camera.Pipeline.Encode.{
  bytes_of_u32, res, find_resolution, encode_halves, encode_stereo_image,
}

-- Four bytes as the number whose memory they are (little endian).
unfoldable pub u32_of_bytes : List ℕ → ℕ
u32_of_bytes [] = 0
u32_of_bytes (b ∷ bs) = b + 256 * u32_of_bytes bs

-- The two images of an encoded pair: the first one's size stands before them.
unfoldable pub split_images : List ℕ → List ℕ × List ℕ
split_images out =
    let left_sz = u32_of_bytes (take 4 out) in
    (take left_sz (drop 4 out), drop left_sz (drop 4 out))

pub u32_of_bytes-bytes_of_u32 : (n : ℕ) → n < 2 ^ 32 → u32_of_bytes (bytes_of_u32 n) ≡ n
unfolding u32_of_bytes bytes_of_u32
u32_of_bytes-bytes_of_u32 n h = omega arith

split_images-joined :
    (left right : List ℕ)
    → length left < 2 ^ 32
    → split_images (bytes_of_u32 (length left) ++ left ++ right) ≡ (left, right)
unfolding split_images bytes_of_u32 u32_of_bytes
split_images-joined left right h =
    ap (λ n. (take n (left ++ right), drop n (left ++ right)))
      (u32_of_bytes-bytes_of_u32 (length left) h)
    ∙ ap₂ (λ xs ys. (xs, ys)) (take-append left right) (drop-append_self left right)

find_resolution_lem :
    (pixels : ℕ) {w h : ℕ}
    → pixels < 2 ^ 32
    → find_resolution pixels res ≡ some (w, h)
    → pixels ≡ w * h
unfolding find_resolution
find_resolution_lem pixels {w} {h} small e = ground arith

module _ (compress : List ℕ → ℕ → ℕ → Option (List ℕ)) where
  encode_halves_lem :
      (raw : List ℕ) (half w h : ℕ) {out : List ℕ}
      → encode_halves compress raw half w h ≡ some out
      → (left : List ℕ) × (right : List ℕ) × (compress (take half raw) w h ≡ some left)
        × (compress (drop half raw) w h ≡ some right)
        × (out ≡ bytes_of_u32 (length left) ++ left ++ right)
  unfolding encode_halves
  encode_halves_lem raw half w h {out} e = elim (Option-cases (compress (take half raw) w h)) [
    | inl l ↦ absurd (ground (arith, e, l))
    | inr (left, l) ↦ elim (Option-cases (compress (drop half raw) w h)) [
      | inl r ↦ absurd (ground (arith, e, l, r))
      | inr (right, r) ↦ (left, right, l, r, ground (arith, e, l, r))
    ]
  ]

  encode_stereo_image_inv :
      (raw : List ℕ) {out : List ℕ}
      → length raw < 2 ^ 35
      → encode_stereo_image compress raw ≡ some out
      → (w : ℕ) × (h : ℕ) × (length raw / 2 ≡ w * h * 4)
        × (encode_halves compress raw (length raw / 2) w h ≡ some out)
  unfolding encode_stereo_image
  encode_stereo_image_inv raw {out} short e =
      elim (Option-cases (find_resolution (length raw / 2 / 4) res)) [
        | inl f ↦ absurd (ground (arith, e, f))
        | inr ((w, h), f) ↦ (
          w,
          h,
          ground (arith, e, f, find_resolution_lem (length raw / 2 / 4) (omega arith) f),
          ground (arith, e, f),
        )
      ]

  -- If the input has fewer than 2 ^ 35 bytes, as the number of pixels is cut to 32 bits, the compression
  -- gives fewer than 2 ^ 32 bytes, and a pair of images is encoded, each half of
  -- the input has four bytes for each pixel of one resolution, and the output, split at the size
  -- that it starts with, gives the compressed images of the two halves.
  pub encode_stereo_image-split :
      (raw : List ℕ) {out : List ℕ}
      → length raw < 2 ^ 35
      → ((src : List ℕ) (w h : ℕ) (jpg : List ℕ)
          → compress src w h ≡ some jpg
          → length jpg < 2 ^ 32)
      → encode_stereo_image compress raw ≡ some out
      → let half = length raw / 2 in
        (w : ℕ) × (h : ℕ) × (half ≡ w * h * 4)
        × (compress (take half raw) w h ≡ some (split_images out).0)
        × (compress (drop half raw) w h ≡ some (split_images out).1)
  encode_stereo_image-split raw {out} short small e =
      let half = length raw / 2 in
      let (w, h, pixels, halves) = encode_stereo_image_inv raw short e in
      let (left, right, l, r, shape) = encode_halves_lem raw half w h halves in
      let parts =
        ap split_images shape ∙ split_images-joined left right (small (take half raw) w h left l) in
      (w, h, pixels, l ∙ sym (ap (λ p. some p.0) parts), r ∙ sym (ap (λ p. some p.1) parts))

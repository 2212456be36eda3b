-- ===== src/Wire/Masked.antt =====
-- A frame that a client sends, masked as RFC 6455 demands, read by `ws_read_frame` of
-- src/data/WSServer.cpp.
use lib_stereo_camera.Common.{
  ℕ, suc, ◌+◌, ◌%◌, ◌<◌, ◌≡◌, refl, sym, ap, ap₂, ◌∙◌, arith, List, [], ◌∷◌, ◌++◌, append_assoc,
  bit_xor, Option, some, length, bit_and, get_or, not, ◌==◌, if◌then◌else◌, true,
}
use lib_stereo_camera.Common.Bits.{bit_and_mask, bit_and_top, bit_xor-bit_xor}
use lib_stereo_camera.Common.Size.{size_mod}
use lib_stereo_camera.Wire.{read_length, read_mask, read_payload, unmask, ws_read_frame}
use lib_stereo_camera.Wire.Length.{len7, extension, read_length_lem}
use lib_stereo_camera.Wire.Stream.{Delivers, ssl_read_full_lem, read_payload_lem}
use lib_stereo_camera.Wire.Frames.{frame_of_reads}

-- The masking of RFC 6455 with the bytes `a`, `b`, `c` and `d`, which take turns.
unfoldable pub masked : ℕ → ℕ → ℕ → ℕ → List ℕ → List ℕ
masked a b c d [] = []
masked a b c d (x ∷ xs) = bit_xor x a ∷ masked b c d a xs

-- The bytes of a masked frame: the bit above the seven of the length tells that a mask follows it.
abbrev pub masked_frame : ℕ → ℕ → ℕ → ℕ → ℕ → List ℕ → List ℕ
masked_frame first a b c d xs =
    (first ∷ (128 + len7 (length xs)) ∷ extension (length xs))
    ++ ((a ∷ b ∷ c ∷ d ∷ []) ++ masked a b c d xs)

-- The byte of the mask that `unmask` takes at an index.
abbrev byte_at : List ℕ → ℕ → ℕ
byte_at mask i = get_or mask (i % 4) 0

unmask-masked_at :
    (mask : List ℕ) (i : ℕ) (xs : List ℕ)
    → unmask mask i (
        masked
          (byte_at mask i)
          (byte_at mask (suc i))
          (byte_at mask (suc (suc i)))
          (byte_at mask (suc (suc (suc i))))
          xs)
      ≡ xs
unfolding unmask masked
unmask-masked_at mask i [] = refl
unmask-masked_at mask i (x ∷ xs) =
    let again : byte_at mask i ≡ byte_at mask (suc (suc (suc (suc i)))) =
      ap (λ n. get_or mask n 0) {x = i % 4} {y = suc (suc (suc (suc i))) % 4} (omega arith) in
    ap₂ (λ y ys. y ∷ ys) (bit_xor-bit_xor x (byte_at mask i))
      (ap
          (λ e. unmask mask (suc i) (
            masked (byte_at mask (suc i)) (byte_at mask (suc (suc i)))
              (byte_at mask (suc (suc (suc i)))) e xs))
          again
        ∙ unmask-masked_at mask (suc i) xs)

length-masked : (a b c d : ℕ) (xs : List ℕ) → length (masked a b c d xs) ≡ length xs
unfolding masked
length-masked a b c d [] = refl
length-masked a b c d (x ∷ xs) = ap suc (length-masked b c d a xs)

len7-masked :
    (n : ℕ) → (bit_and (128 + len7 n) 127 ≡ len7 n) × (not (bit_and (128 + len7 n) 128 == 0) ≡ true)
len7-masked n =
    let small : len7 n < 128 = ground arith in
    (
      bit_and_mask 7 (128 + len7 n) ∙ omega (arith, small),
      ground (arith, bit_and_top 7 (len7 n) small),
    )

-- A masked frame of a payload shorter than 2 ^ 64 bytes is read with its opcode and the payload as it
-- was before masking, in whatever pieces the connection delivers it, and the bytes after it are left.
pub masked_frame_read :
    {S : Type 0} {ssl_read : ℕ → S → Option (List ℕ) × S} {pending : S → List ℕ}
    → Delivers ssl_read pending
    → (first a b c d : ℕ) (xs rest : List ℕ) (s : S) → length xs < size_mod
    → pending s ≡ masked_frame first a b c d xs ++ rest
    → (s' : S) × (ws_read_frame ssl_read s ≡ (some (bit_and first 15, xs), s'))
      × (pending s' ≡ rest)
unfolding read_mask
masked_frame_read {ssl_read = ssl_read} dl first a b c d xs rest s h p =
    let n = length xs in
    let mask : List ℕ = a ∷ b ∷ c ∷ d ∷ [] in
    let ms = masked a b c d xs in
    let low = len7-masked n in
    let (s1, e1, p1) =
      ssl_read_full_lem dl s (first ∷ (128 + len7 n) ∷ []) (extension n ++ (mask ++ (ms ++ rest))) (
        p
        ∙ append_assoc (first ∷ (128 + len7 n) ∷ extension n) (mask ++ ms) rest
        ∙ ap (λ ys. first ∷ (128 + len7 n) ∷ (extension n ++ ys)) (append_assoc mask ms rest)) in
    let (s2, e2, p2) = read_length_lem dl n s1 (mask ++ (ms ++ rest)) h p1 in
    let (s3, e3, p3) = ssl_read_full_lem dl s2 mask (ms ++ rest) p2 in
    let (s4, e4, p4) = read_payload_lem dl s3 ms rest p3 in
    (
      s4,
      frame_of_reads ssl_read s first (128 + len7 n) e1
            (ap (λ k. read_length ssl_read k s1) low.0 ∙ e2)
            (ap (λ m. read_mask ssl_read m s2) low.1 ∙ e3)
            (ap (λ k. read_payload ssl_read k s3) (sym (length-masked a b c d xs)) ∙ e4)
          ∙ ap (λ m. (some (bit_and first 15, if m then unmask mask 0 ms else ms), s4)) low.1
          ∙ ap (λ ys. (some (bit_and first 15, ys), s4)) (unmask-masked_at mask 0 xs),
      p4,
    )

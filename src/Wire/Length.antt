-- ===== src/Wire/Length.antt =====
-- The payload length in a frame's header, written and read back.
use native.Mathlib.Nat.{div-div-eq-div-mul, div-le_self}
use lib_stereo_camera.Common.{
  ℕ, zero, suc, ◌+◌, ◌*◌, ◌/◌, ◌%◌, ◌^◌, ◌≤◌, ◌<◌, ◌≡◌, refl, sym, ap, ap₂, ◌∙◌, arith, List, [],
  ◌∷◌, bit_and, bit_or, length, ltb, if◌then◌else◌, Option, some, ◌++◌, Bool-cases, inl, inr,
  get_or,
}
use lib_stereo_camera.Common.Bits.{shr, pow-add, bit_and_mask, bit_and_below, bit_or_shift}
use lib_stereo_camera.Common.Size.{size_mod}
use lib_stereo_camera.Wire.{
  len_bytes, join_bytes, frame_header, and_then, ssl_read_full, read_length,
}
use lib_stereo_camera.Wire.Stream.{Delivers, ssl_read_full_lem}

low_byte : (x : ℕ) → bit_and x 255 ≡ x % 256
low_byte x = bit_and_mask 8 x

-- The bytes of a `uint64_t`, highest first, joined again.
join_bytes-len_bytes :
    (i len : ℕ) → len < size_mod → join_bytes (shr len (i * 8)) (len_bytes i len) ≡ len
unfolding join_bytes len_bytes
join_bytes-len_bytes zero len h = omega arith
join_bytes-len_bytes (suc i) len h =
    ap (λ acc. join_bytes acc (len_bytes i len)) joined ∙ join_bytes-len_bytes i len h
  where
    upper : shr len (suc i * 8) ≡ shr len (i * 8) / 256
    upper =
        ap (λ k. len / 2 ^ k) {y = i * 8 + 8} (omega arith)
        ∙ ap (λ k. len / k) (pow-add 2 (i * 8) 8)
        ∙ sym (div-div-eq-div-mul len (2 ^ (i * 8)) 256)

    below : shr len (i * 8) ≤ len
    below = div-le_self len (2 ^ (i * 8))

    joined :
        bit_or (shr len (suc i * 8) * 2 ^ 8 % size_mod) (bit_and (shr len (i * 8)) 255)
        ≡ shr len (i * 8)
    joined =
        ap₂ bit_or {y = shr len (i * 8) / 256 * 2 ^ 8} {v = shr len (i * 8) % 256}
          (omega (arith, upper, below)) (low_byte (shr len (i * 8)))
        ∙ bit_or_shift 8 (shr len (i * 8) / 256) (shr len (i * 8) % 256) (omega arith)
        ∙ omega arith

-- The second byte of a header without the mask bit, and the bytes of the length after it.
abbrev pub len7 : ℕ → ℕ
len7 len = if ltb len 126 then len else if ltb len 65536 then 126 else 127

unfoldable pub extension : ℕ → List ℕ
extension len =
    if ltb len 126
    then []
    else if ltb len 65536
    then bit_and (shr len 8) 255 ∷ bit_and len 255 ∷ []
    else len_bytes 8 len

pub frame_header-parts : (first len : ℕ) → frame_header first len ≡ first ∷ len7 len ∷ extension len
unfolding frame_header extension
frame_header-parts first len = ground arith

pub len7-low : (len : ℕ) → (bit_and (len7 len) 127 ≡ len7 len) × (bit_and (len7 len) 128 ≡ 0)
len7-low len =
    let small : len7 len < 128 = ground arith in
    (omega (arith, bit_and_mask 7 (len7 len), small), bit_and_below 7 (len7 len) small)

two_bytes :
    (len : ℕ) → len < 65536 → bit_or (bit_and (shr len 8) 255 * 2 ^ 8) (bit_and len 255) ≡ len
two_bytes len h =
    ap₂ bit_or {y = len / 256 * 2 ^ 8} {v = len % 256} (omega (arith, low_byte (shr len 8)))
      (low_byte len)
    ∙ bit_or_shift 8 (len / 256) (len % 256) (omega arith)
    ∙ omega arith

length-len_bytes : (i len : ℕ) → length (len_bytes i len) ≡ i
unfolding len_bytes
length-len_bytes zero len = refl
length-len_bytes (suc i) len = omega (arith, length-len_bytes i len)

module _ {S : Type 0} {ssl_read : ℕ → S → Option (List ℕ) × S} {pending : S → List ℕ}
    (d : Delivers ssl_read pending) where
  -- The length written is the length read.
  pub read_length_lem :
      (len : ℕ) (s : S) (ys : List ℕ)
      → len < size_mod
      → pending s ≡ extension len ++ ys
      → (s' : S) × (read_length ssl_read (len7 len) s ≡ (some len, s')) × (pending s' ≡ ys)
  unfolding read_length extension and_then
  read_length_lem len s ys h p = elim (Bool-cases (ltb len 126)) [
    | inl short ↦
        let none_there : extension len ≡ [] = ground arith in
        (s, ground arith, p ∙ ap (λ e. e ++ ys) none_there)
    | inr long ↦ elim (Bool-cases (ltb len 65536)) [
      | inl middle ↦
          let two = bit_and (shr len 8) 255 ∷ bit_and len 255 ∷ [] in
          let seven : len7 len ≡ 126 = ground arith in
          let there : extension len ≡ bit_and (shr len 8) 255 ∷ bit_and len 255 ∷ [] =
            ground arith in
          let small : len < 65536 = ground arith in
          let (s', e, left) = ssl_read_full_lem d s two ys (p ∙ ap (λ e. e ++ ys) there) in
          (
            s',
            ap (λ n. read_length ssl_read n s) seven
                ∙ ap
                    (λ r.
                      and_then r
                        (λ ext t. (some (bit_or (get_or ext 0 0 * 2 ^ 8) (get_or ext 1 0)), t)))
                    e
                ∙ ap (λ (n : ℕ). (some n, s')) (two_bytes len small),
            left,
          )
      | inr large ↦
          let seven : len7 len ≡ 127 = ground arith in
          let there : extension len ≡ len_bytes 8 len = ground arith in
          let (s', e, left) =
            ssl_read_full_lem d s (len_bytes 8 len) ys (p ∙ ap (λ e. e ++ ys) there) in
          let top : 0 ≡ shr len 64 = omega (arith, h) in
          (
            s',
            ap (λ n. read_length ssl_read n s) seven
                ∙ ap (λ r. and_then r (λ ext t. (some (join_bytes 0 ext), t)))
                    (ap (λ k. ssl_read_full ssl_read k s) {x = 8} (sym (length-len_bytes 8 len))
                      ∙ e)
                ∙ ap (λ (n : ℕ). (some n, s'))
                    (ap (λ acc. join_bytes acc (len_bytes 8 len)) top
                      ∙ join_bytes-len_bytes 8 len h),
            left,
          )
    ]
  ]

-- ===== src/Wire/Frames.antt =====
-- A frame that src/data/WSServer.cpp writes, read back by its `ws_read_frame`.
use lib_stereo_camera.Common.{
  ℕ, arith, ◌<◌, ◌≡◌, refl, ap, ◌∙◌, List, [], ◌∷◌, ◌++◌, append_assoc, Option, some, length, take,
  take_whole, ◌^◌, bit_and, not, ◌==◌, if◌then◌else◌, Bool, true, false,
}
use lib_stereo_camera.Common.Size.{size_mod}
use lib_stereo_camera.Wire.{
  frame_header, ws_send_binary, broadcast, int_bytes, and_then, ssl_read_full, read_length,
  read_mask, read_payload, unmask, ws_read_frame,
}
use lib_stereo_camera.Wire.Length.{len7, extension, frame_header-parts, len7-low, read_length_lem}
use lib_stereo_camera.Wire.Stream.{Delivers, ssl_read_full_lem, read_payload_lem}

-- `ws_read_frame` from the results of its reads.
pub frame_of_reads :
    {S : Type 0} (ssl_read : ℕ → S → Option (List ℕ) × S) (s : S) {s1 s2 s3 s4 : S} (first b : ℕ)
    {len : ℕ} {mask xs : List ℕ}
    → ssl_read_full ssl_read 2 s ≡ (some (first ∷ b ∷ []), s1)
    → read_length ssl_read (bit_and b 127) s1 ≡ (some len, s2)
    → read_mask ssl_read (not (bit_and b 128 == 0)) s2 ≡ (some mask, s3)
    → read_payload ssl_read len s3 ≡ (some xs, s4)
    → ws_read_frame ssl_read s
      ≡ (some (bit_and first 15, if not (bit_and b 128 == 0) then unmask mask 0 xs else xs), s4)
unfolding ws_read_frame and_then
frame_of_reads ssl_read s first b e1 e2 e3 e4 = rw (e1, e2, e3, e4) refl

-- The bytes of a frame of this server are read back as the frame, in whatever pieces the connection
-- delivers them, and the bytes after it are left.
frame_read :
    {S : Type 0} {ssl_read : ℕ → S → Option (List ℕ) × S} {pending : S → List ℕ}
    → Delivers ssl_read pending
    → (first : ℕ) (xs rest : List ℕ) (s : S) → length xs < size_mod
    → pending s ≡ frame_header first (length xs) ++ (xs ++ rest)
    → (s' : S) × (ws_read_frame ssl_read s ≡ (some (bit_and first 15, xs), s'))
      × (pending s' ≡ rest)
unfolding read_mask
frame_read {ssl_read = ssl_read} d first xs rest s h p =
    let n = length xs in
    let low = len7-low n in
    let (s1, e1, p1) =
      ssl_read_full_lem d s (first ∷ len7 n ∷ []) (extension n ++ (xs ++ rest))
        (p ∙ ap (λ hs. hs ++ (xs ++ rest)) (frame_header-parts first n)) in
    let (s2, e2, p2) = read_length_lem d n s1 (xs ++ rest) h p1 in
    let (s4, e4, p4) = read_payload_lem d s2 xs rest p2 in
    (
      s4,
      frame_of_reads ssl_read s first (len7 n) e1 (ap (λ k. read_length ssl_read k s1) low.0 ∙ e2)
            (ap (λ k. read_mask ssl_read (not (k == 0)) s2) low.1) e4
          ∙ ap
              (λ k. (
                some (
                  bit_and first 15,
                  if not (k == 0) then unmask (0 ∷ 0 ∷ 0 ∷ 0 ∷ []) 0 xs else xs,
                ),
                s4,
              ))
              low.1,
      p4,
    )

take-int_bytes : (xs : List ℕ) → length xs < 2 ^ 31 → take (int_bytes (length xs)) xs ≡ xs
unfolding int_bytes
take-int_bytes xs h = ap (λ n. take n xs) {y = length xs} (ground arith) ∙ take_whole xs

-- What `ws_send_binary` and `broadcast` write, `ws_read_frame` reads: a binary frame (opcode 2) or a
-- text frame (opcode 1) with the same payload, of any length that fits a `uint64_t` if it is binary, and
-- of fewer than 2 ^ 31 bytes if it is a text, in whatever pieces the connection delivers it; and the
-- bytes after the frame are left.
pub ws_read_frame-written :
    {S : Type 0} {ssl_read : ℕ → S → Option (List ℕ) × S} {pending : S → List ℕ}
    → Delivers ssl_read pending
    → (binary : Bool) (xs rest : List ℕ) (s : S) → length xs < (if binary then size_mod else 2 ^ 31)
    → pending s ≡ (if binary then ws_send_binary xs else broadcast xs) ++ rest
    → (s' : S) × (ws_read_frame ssl_read s ≡ (some (if binary then 2 else 1, xs), s'))
      × (pending s' ≡ rest)
unfolding ws_send_binary broadcast
ws_read_frame-written d true xs rest s h p =
    frame_read d 130 xs rest s h (p ∙ append_assoc (frame_header 130 (length xs)) xs rest)
ws_read_frame-written d false xs rest s h p = frame_read d 129 xs rest s (omega arith) (
    p
    ∙ ap (λ ys. (frame_header 129 (length xs) ++ ys) ++ rest) (take-int_bytes xs h)
    ∙ append_assoc (frame_header 129 (length xs)) xs rest)

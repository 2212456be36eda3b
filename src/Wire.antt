-- ===== src/Wire.antt =====
-- src/data/WSServer.cpp, the WebSocket frames: how `ws_send_binary` and `broadcast` head a frame, and how
-- `ws_read_frame` reads one from a TLS connection, which may deliver it in any pieces. Writing to the
-- connection is left out: the frames are the bytes given to `SSL_write`, in order.
pub mod Length
pub mod Stream
pub mod Frames
pub mod Masked
use lib_stereo_camera.Common.{
  ℕ, zero, suc, ◌+◌, ◌-◌, ◌*◌, ◌%◌, ◌^◌, min, List, [], ◌∷◌, ◌++◌, Bool, true, false, not, Option,
  none, some, if◌then◌else◌, ltb, ◌==◌, length, take, get_or, bit_and, bit_or, bit_xor,
}
use lib_stereo_camera.Common.Bits.{shr}
use lib_stereo_camera.Common.Size.{size_mod}

-- The bytes `(len >> (i * 8)) & 0xFF`, from the given number of bytes down.
unfoldable pub len_bytes : ℕ → ℕ → List ℕ
len_bytes zero len = []
len_bytes (suc i) len = bit_and (shr len (i * 8)) 255 ∷ len_bytes i len

-- The header of a frame of a payload of `len` bytes; `first` is 0x82 in `ws_send_binary` and 0x81 in
-- `broadcast`.
unfoldable pub frame_header : ℕ → ℕ → List ℕ
unfolding len_bytes
frame_header first len =
    if ltb len 126
    then first ∷ len ∷ []
    else if ltb len 65536
    then first ∷ 126 ∷ bit_and (shr len 8) 255 ∷ bit_and len 255 ∷ []
    else first ∷ 127 ∷ len_bytes 8 len

unfoldable pub ws_send_binary : List ℕ → List ℕ
unfolding frame_header
ws_send_binary payload = frame_header 130 (length payload) ++ payload

-- How many bytes a call of `SSL_write` writes when its `int` is given a `size_t`: none if that is
-- negative.
unfoldable pub int_bytes : ℕ → ℕ
int_bytes n = if ltb (n % 2 ^ 32) (2 ^ 31) then n % 2 ^ 32 else 0

-- The message is written in one call.
unfoldable pub broadcast : List ℕ → List ℕ
unfolding frame_header int_bytes
broadcast message = frame_header 129 (length message) ++ take (int_bytes (length message)) message

-- `payload_len = (payload_len << 8) | ext[i]` on a `uint64_t`
unfoldable pub join_bytes : ℕ → List ℕ → ℕ
join_bytes acc [] = acc
join_bytes acc (b ∷ bs) = join_bytes (bit_or (acc * 2 ^ 8 % size_mod) b) bs

-- `payload[i] ^= mask[i % 4]`, from index `i`
unfoldable pub unmask : List ℕ → ℕ → List ℕ → List ℕ
unmask mask i [] = []
unmask mask i (x ∷ xs) = bit_xor x (get_or mask (i % 4) 0) ∷ unmask mask (suc i) xs

abbrev pub prepend : List ℕ → Option (List ℕ) → Option (List ℕ)
prepend bs none = none
prepend bs (some rest) = some (bs ++ rest)

module _ {S : Type 0} where
  -- A step that may fail, then the next: `if (... <= 0) return false;`
  unfoldable pub and_then : {A B : Type 0} → Option A × S → (A → S → Option B × S) → Option B × S
  and_then (none, s) next = (none, s)
  and_then (some a, s) next = next a s

-- `ssl_read` is `SSL_read` on the connection's state: the bytes read, or none where it returns no
-- positive number.
module _ {S : Type 0} (ssl_read : ℕ → S → Option (List ℕ) × S) where
  -- `while (total < len)`, on fuel, for the bytes that are left to read; `chunk` is the number asked for.
  unfoldable pub read_loop : (ℕ → ℕ) → ℕ → ℕ → S → Option (List ℕ) × S
  read_loop chunk fuel zero s = (some [], s)
  read_loop chunk zero (suc n) s = (none, s)
  read_loop chunk (suc fuel) (suc n) s =
      let (got, s') = ssl_read (chunk (suc n)) s in
      elim got [
        | none ↦ (none, s')
        | some bs ↦
            let (rest, s'') = read_loop chunk fuel (suc n - length bs) s' in (prepend bs rest, s'')
      ]

  -- Each read gives a byte at least, so the length is fuel enough.
  unfoldable pub ssl_read_full : ℕ → S → Option (List ℕ) × S
  unfolding read_loop
  ssl_read_full len s = read_loop (λ n. n) len len s

  unfoldable pub read_payload : ℕ → S → Option (List ℕ) × S
  unfolding read_loop
  read_payload len s = read_loop (min 4096) len len s

  unfoldable pub read_length : ℕ → S → Option ℕ × S
  unfolding ssl_read_full and_then join_bytes
  read_length len7 s =
      if len7 == 126
      then and_then (ssl_read_full 2 s)
          (λ ext s'. (some (bit_or (get_or ext 0 0 * 2 ^ 8) (get_or ext 1 0)), s'))
      else if len7 == 127
      then and_then (ssl_read_full 8 s) (λ ext s'. (some (join_bytes 0 ext), s'))
      else (some len7, s)

  unfoldable pub read_mask : Bool → S → Option (List ℕ) × S
  unfolding ssl_read_full
  read_mask masked s = if masked then ssl_read_full 4 s else (some (0 ∷ 0 ∷ 0 ∷ 0 ∷ []), s)

  -- The opcode and the payload, which the caller passes in empty.
  unfoldable pub ws_read_frame : S → Option (ℕ × List ℕ) × S
  unfolding ssl_read_full and_then read_length read_mask read_payload unmask
  ws_read_frame s = and_then (ssl_read_full 2 s) (λ hdr s1.
      let masked = not (bit_and (get_or hdr 1 0) 128 == 0) in
      and_then (read_length (bit_and (get_or hdr 1 0) 127) s1) (λ len s2.
        and_then (read_mask masked s2) (λ mask s3. and_then (read_payload len s3) (λ payload s4. (
          some (bit_and (get_or hdr 0 0) 15, if masked then unmask mask 0 payload else payload),
          s4,
        )))))

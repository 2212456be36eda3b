-- ===== src/Ring.antt =====
-- include/stereo_camera/data/DataBuffer.h, `RingBuffer<T>`: a ring of a power of two of slots, two
-- `size_t` counters, and a mask. Each method runs under the mutex, so it is one function on the state.
pub mod Capacity
pub mod Invariant
pub mod Refine
use lib_stereo_camera.Common.{
  ℕ, zero, suc, ◌-◌, List, [], ◌∷◌, min, bit_and, bit_or, ltb, ◌==◌, if◌then◌else◌, get_or, set,
  replicate, length,
}
use lib_stereo_camera.Common.Bits.{shr}
use lib_stereo_camera.Common.Size.{add_size, sub_size}

-- `v |= v >> j`
unfoldable pub smear : ℕ → ℕ → ℕ
smear j v = bit_or v (shr v j)

-- `next_power_of_two`; it smears the highest bit over 32 bits.
unfoldable pub next_power_of_two : ℕ → ℕ
next_power_of_two v =
    if v == 0 then 1 else add_size (smear 16 (smear 8 (smear 4 (smear 2 (smear 1 (v - 1)))))) 1

-- `RingBuffer<T>`. A read outside `ring` is undefined behaviour in the source; here it gives the
-- default, and `IsValid` rules it out.
pub record RingBuffer {ℓ} (A : Type ℓ) : Type ℓ where
  pub capacity : ℕ
  pub mask : ℕ
  pub ring : List A
  pub write_idx : ℕ
  pub read_idx : ℕ

-- `T{}` is the argument `dflt`.
module _ {ℓ} {A : Type ℓ} (dflt : A) where
  -- the constructor
  unfoldable pub make : ℕ → RingBuffer A
  make wanted =
      let c = next_power_of_two wanted in
      record {
        capacity = c;
        mask = sub_size c 1;
        ring = replicate c dflt;
        write_idx = 0;
        read_idx = 0;
      }

  -- `ring_[(w - i) & mask_]`
  abbrev pub slot_back : RingBuffer A → ℕ → A
  slot_back r i = get_or r.ring (bit_and (sub_size r.write_idx i) r.mask) dflt

  unfoldable pub get_latest : RingBuffer A → A
  get_latest r = if r.write_idx == r.read_idx then dflt else slot_back r 1

  -- the loop of `get_latest_n`, `for (size_t i = n; i > 0; --i)`
  unfoldable pub latest_loop : RingBuffer A → ℕ → List A
  latest_loop r zero = []
  latest_loop r (suc i) = slot_back r (suc i) ∷ latest_loop r i

module _ {ℓ} {A : Type ℓ} where
  unfoldable pub push : A → RingBuffer A → RingBuffer A
  push item r =
      let idx = r.write_idx in
      let next = add_size idx 1 in
      record r {
        ring = set r.ring (bit_and idx r.mask) item;
        write_idx = next;
        read_idx =
            if ltb r.capacity (sub_size next r.read_idx)
            then sub_size next r.capacity
            else r.read_idx;
      }

  unfoldable pub size : RingBuffer A → ℕ
  size r = sub_size r.write_idx r.read_idx

  unfoldable pub clear : A → RingBuffer A → RingBuffer A
  clear dflt r = record r { ring = replicate (length r.ring) dflt; write_idx = 0; read_idx = 0 }

  unfoldable pub get_latest_n : A → ℕ → RingBuffer A → List A
  unfolding latest_loop size
  get_latest_n dflt count r = latest_loop dflt r (min count (size r))

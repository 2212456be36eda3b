-- ===== src/Ring/Invariant.antt =====
-- The representation invariant of `RingBuffer`: the mask cuts an index down to the storage, and the
-- counters, which may wrap at 2 ^ 64, are at most a capacity apart.
use native.Mathlib.Nat.{pow-le-pow_right, one-le-pow}
use lib_stereo_camera.Common.Modular.{Divides}
use lib_stereo_camera.Common.{
  ℕ, ◌-◌, ◌*◌, ◌%◌, ◌^◌, ◌≤◌, ◌<◌, ◌≡◌, sym, ap, ◌∙◌, arith, bit_and, length, length-set,
  length-replicate,
}
use lib_stereo_camera.Common.Bits.{pow-add, bit_and_mask}
use lib_stereo_camera.Common.Size.{size_mod, sub_size}
use lib_stereo_camera.Ring.{RingBuffer, make, push, clear, next_power_of_two}
use lib_stereo_camera.Ring.Capacity.{next_power_of_two_lem}

module _ {ℓ} {A : Type ℓ} where
  pub record IsValid (r : RingBuffer A) : Type 0 where
    pub exponent : ℕ
    pub small : exponent ≤ 32
    pub power : r.capacity ≡ 2 ^ exponent
    pub masked : r.mask ≡ r.capacity - 1
    pub storage : length r.ring ≡ r.capacity
    pub write_fits : r.write_idx < size_mod
    pub read_fits : r.read_idx < size_mod
    pub bounded : sub_size r.write_idx r.read_idx ≤ r.capacity

  pub capacity_bounds : {r : RingBuffer A} → IsValid r → (1 ≤ r.capacity) × (r.capacity ≤ 2 ^ 32)
  capacity_bounds v =
      let low : 1 ≤ 2 ^ v.exponent = one-le-pow v.exponent 2 (omega arith) in
      let high : 2 ^ v.exponent ≤ 2 ^ 32 = pow-le-pow_right {n = 2} (omega arith) v.small in
      (omega (arith, v.power), omega (arith, v.power))

  pub capacity-Divides : {r : RingBuffer A} → IsValid r → Divides r.capacity
  capacity-Divides {r} v = record {
    quotient = 2 ^ (64 - v.exponent);
    product =
        ap (λ (t : ℕ). t * 2 ^ (64 - v.exponent)) v.power
        ∙ sym (pow-add 2 v.exponent (64 - v.exponent))
        ∙ ap (λ k. 2 ^ k) {y = 64} (omega (arith, v.small));
    positive = (capacity_bounds v).0;
  }

  -- `x & mask_` is the remainder by the capacity.
  pub bit_and-mask : {r : RingBuffer A} → IsValid r → (x : ℕ) → bit_and x r.mask ≡ x % r.capacity
  bit_and-mask {r} v x = rw (v.masked, v.power) (bit_and_mask v.exponent x)

  -- A new ring is valid and empty.
  pub make-IsValid : (dflt : A) (wanted : ℕ) → wanted ≤ 2 ^ 32 → IsValid (make dflt wanted)
  unfolding make
  make-IsValid dflt wanted h =
      let (k, le, e, _, _) = next_power_of_two_lem wanted h in
      let low : 1 ≤ 2 ^ k = one-le-pow k 2 (omega arith) in
      let high : 2 ^ k ≤ 2 ^ 32 = pow-le-pow_right {n = 2} (omega arith) le in
      record {
        exponent = k;
        small = le;
        power = e;
        masked = omega (arith, e);
        storage = length-replicate (next_power_of_two wanted) dflt;
        write_fits = omega arith;
        read_fits = omega arith;
        bounded = omega arith;
      }

  -- `push` keeps the ring valid, also where a counter wraps.
  pub push-IsValid : (x : A) {r : RingBuffer A} → IsValid r → IsValid (push x r)
  unfolding push
  push-IsValid x {r} v = record {
    exponent = v.exponent;
    small = v.small;
    power = v.power;
    masked = v.masked;
    storage = length-set r.ring (bit_and r.write_idx r.mask) x ∙ v.storage;
    write_fits = omega arith;
    read_fits = ground (arith, v.read_fits);
    bounded = ground (arith, v.bounded, v.write_fits, v.read_fits, capacity_bounds v);
  }

  pub clear-IsValid : (x : A) {r : RingBuffer A} → IsValid r → IsValid (clear x r)
  unfolding clear
  clear-IsValid x {r} v = record {
    exponent = v.exponent;
    small = v.small;
    power = v.power;
    masked = v.masked;
    storage = length-replicate (length r.ring) x ∙ v.storage;
    write_fits = omega arith;
    read_fits = omega arith;
    bounded = omega arith;
  }

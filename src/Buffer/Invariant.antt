-- ===== src/Buffer/Invariant.antt =====
-- The calls that change a `DataBuffer`, and that they keep its rings valid.
use lib_stereo_camera.Common.{
  ℕ, ◌≤◌, ◌^◌, String, [], ◌∷◌, none, some, ite, ◌≡◌, refl, ◌∙◌, arith, lookup, insert,
  lookup-insert, lookup-remove, Option-cases, inl, inr, string_discrete, Assoc,
}
use lib_stereo_camera.Types.{DataType, DataBundle}
use lib_stereo_camera.Ring
use lib_stereo_camera.Ring.{next_power_of_two}
use lib_stereo_camera.Ring.Invariant
use lib_stereo_camera.Ring.Refine.{capacity-push}
use lib_stereo_camera.Buffer.{
  BufferSlotKey, key_discrete, key_of, Slot, DataBuffer, make, new_ring, push, create_slot,
  remove_slot, remove_camera, remove_all_slots, clear, clear_slot,
}

-- Every ring is valid and has the capacity that the buffer's limit rounds up to.
pub record IsValid (b : DataBuffer) : Type 0 where
  pub limit : b.max_frames_per_slot ≤ 2 ^ 32
  pub rings :
      (k : BufferSlotKey) (r : Slot)
      → lookup key_discrete k b.slots ≡ some r
      → Invariant.IsValid r × (r.capacity ≡ next_power_of_two b.max_frames_per_slot)

pub new_ring-IsValid :
    {b : DataBuffer}
    → IsValid b
    → Invariant.IsValid (new_ring b)
      × ((new_ring b).capacity ≡ next_power_of_two b.max_frames_per_slot)
unfolding new_ring Ring.make
new_ring-IsValid v = (Invariant.make-IsValid none _ v.limit, refl)

module _ {b : DataBuffer} (v : IsValid b) (k : BufferSlotKey) (r : Slot) where
  put_ring-IsValid :
      Invariant.IsValid r
      → r.capacity ≡ next_power_of_two b.max_frames_per_slot
      → IsValid (record b { slots = insert key_discrete k r b.slots })
  put_ring-IsValid good same = record {
    limit = v.limit;
    rings = λ j s e. ground (arith, lookup-insert key_discrete k j r b.slots, v.rings j s);
  }

-- The calls that change a buffer.
pub data Op : Type 0 where
  pushes : String → DataBundle → Op
  creates removes clears_slot : String → DataType → Op
  removes_all : String → Op
  clears : Op

unfoldable pub step : Op → DataBuffer → DataBuffer
step (pushes c x) b = push c x b
step (creates c t) b = create_slot c t b
step (removes c t) b = remove_slot c t b
step (clears_slot c t) b = clear_slot c t b
step (removes_all c) b = remove_all_slots c b
step clears b = clear b

push-IsValid : (c : String) (x : DataBundle) {b : DataBuffer} → IsValid b → IsValid (push c x b)
unfolding push
push-IsValid c x {b} v = elim (Option-cases (lookup key_discrete (key_of c x.type) b.slots)) [
  | inl e ↦
      rw (e, push)
        (put_ring-IsValid v _ _ (Invariant.push-IsValid (some x) (new_ring-IsValid v).0)
          (capacity-push none (some x) (new_ring b) ∙ (new_ring-IsValid v).1))
  | inr (r, e) ↦
      rw (e, push)
        (put_ring-IsValid v _ _ (Invariant.push-IsValid (some x) (v.rings _ r e).0)
          (capacity-push none (some x) r ∙ (v.rings _ r e).1))
]

pub lookup-remove_camera :
    (c : String) (k : BufferSlotKey) (m : Assoc BufferSlotKey Slot)
    → lookup key_discrete k (remove_camera c m)
      ≡ ite (string_discrete k.camera_id c) none (lookup key_discrete k m)
unfolding lookup remove_camera
lookup-remove_camera c k [] = ground arith
lookup-remove_camera c k ((j, r) ∷ m) = ground (arith, lookup-remove_camera c k m)

create_slot-IsValid :
    (c : String) (t : DataType) {b : DataBuffer} → IsValid b → IsValid (create_slot c t b)
unfolding create_slot
create_slot-IsValid c t {b} v = elim (Option-cases (lookup key_discrete (key_of c t) b.slots)) [
  | inl e ↦
      rw (e, create_slot) (put_ring-IsValid v _ _ (new_ring-IsValid v).0 (new_ring-IsValid v).1)
  | inr (r, e) ↦ rw (e, create_slot) v
]

clear_slot-IsValid :
    (c : String) (t : DataType) {b : DataBuffer} → IsValid b → IsValid (clear_slot c t b)
unfolding clear_slot Ring.clear
clear_slot-IsValid c t {b} v = elim (Option-cases (lookup key_discrete (key_of c t) b.slots)) [
  | inl e ↦ rw (e, clear_slot) v
  | inr (r, e) ↦
      rw (e, clear_slot)
        (put_ring-IsValid v _ _ (Invariant.clear-IsValid none (v.rings _ r e).0) (v.rings _ r e).1)
]

remove_slot-IsValid :
    (c : String) (t : DataType) {b : DataBuffer} → IsValid b → IsValid (remove_slot c t b)
unfolding remove_slot
remove_slot-IsValid c t {b} v = record {
  limit = v.limit;
  rings = λ j s e. ground (arith, lookup-remove key_discrete (key_of c t) j b.slots, v.rings j s);
}

remove_all_slots-IsValid :
    (c : String) {b : DataBuffer} → IsValid b → IsValid (remove_all_slots c b)
unfolding remove_all_slots
remove_all_slots-IsValid c {b} v = record {
  limit = v.limit;
  rings = λ j s e. ground (arith, lookup-remove_camera c j b.slots, v.rings j s);
}

-- Every call keeps the buffer valid.
pub step-IsValid : (op : Op) {b : DataBuffer} → IsValid b → IsValid (step op b)
unfolding step clear lookup
step-IsValid (pushes c x) v = push-IsValid c x v
step-IsValid (creates c t) v = create_slot-IsValid c t v
step-IsValid (removes c t) v = remove_slot-IsValid c t v
step-IsValid (clears_slot c t) v = clear_slot-IsValid c t v
step-IsValid (removes_all c) v = remove_all_slots-IsValid c v
step-IsValid clears v = record { limit = v.limit; rings = λ j s e. ground arith }

pub make-IsValid : (n : ℕ) → n ≤ 2 ^ 32 → IsValid (make n)
unfolding make lookup
make-IsValid n h = record { limit = h; rings = λ k r e. ground arith }

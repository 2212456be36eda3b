-- ===== src/Buffer.antt =====
-- include/stereo_camera/data/DataBuffer.h and src/data/DataBuffer.cpp: a ring of bundles for each
-- camera and data type. Each method runs under the mutex, so it is one function on the state.
pub mod Invariant
pub mod Refine
use lib_stereo_camera.Common.{
  ℕ, String, List, [], ◌∷◌, map, Option, none, some, ite, Assoc, lookup, insert, remove,
  string_discrete,
}
use lib_stereo_camera.Types.{DataType, data_type_discrete, DataBundle}
use lib_stereo_camera.Ring
use lib_stereo_camera.Ring.{RingBuffer}

-- `struct BufferSlotKey`, with its `operator==`
pub record BufferSlotKey : Type 0 where
  pub camera_id : String
  pub type : DataType

unfoldable pub key_discrete : Discrete BufferSlotKey
unfolding string_discrete data_type_discrete
key_discrete = hlevel (string_discrete, data_type_discrete)

abbrev pub key_of : String → DataType → BufferSlotKey
key_of c t = record { camera_id = c; type = t }

-- The items of a ring are `std::shared_ptr<DataBundle>`, whose default is null.
abbrev pub Slot : Type 0
Slot = RingBuffer (Option DataBundle)

-- `class DataBuffer`
pub record DataBuffer : Type 0 where
  pub max_frames_per_slot : ℕ
  pub slots : Assoc BufferSlotKey Slot

unfoldable pub make : ℕ → DataBuffer
make max_frames = record { max_frames_per_slot = max_frames; slots = [] }

unfoldable pub new_ring : DataBuffer → Slot
new_ring b = Ring.make none b.max_frames_per_slot

unfoldable pub push : String → DataBundle → DataBuffer → DataBuffer
push camera_id bundle b =
    let key = key_of camera_id bundle.type in
    let ring : Slot = elim (lookup key_discrete key b.slots) [ none ↦ new_ring b | some r ↦ r ] in
    record b { slots = insert key_discrete key (Ring.push (some bundle) ring) b.slots }

unfoldable pub get_latest : String → DataType → DataBuffer → Option DataBundle
get_latest camera_id type b = elim (lookup key_discrete (key_of camera_id type) b.slots) [
  | none ↦ none
  | some r ↦ Ring.get_latest none r
]

unfoldable pub get_latest_n : String → DataType → ℕ → DataBuffer → List (Option DataBundle)
get_latest_n camera_id type count b = elim (lookup key_discrete (key_of camera_id type) b.slots) [
  | none ↦ []
  | some r ↦ Ring.get_latest_n none count r
]

unfoldable pub create_slot : String → DataType → DataBuffer → DataBuffer
create_slot camera_id type b =
    let key = key_of camera_id type in
    elim (lookup key_discrete key b.slots) [
      | none ↦ record b { slots = insert key_discrete key (new_ring b) b.slots }
      | some r ↦ b
    ]

unfoldable pub remove_slot : String → DataType → DataBuffer → DataBuffer
remove_slot camera_id type b = record b {
  slots = remove key_discrete (key_of camera_id type) b.slots;
}

-- the loop of `remove_all_slots`
unfoldable pub remove_camera : String → Assoc BufferSlotKey Slot → Assoc BufferSlotKey Slot
remove_camera camera_id [] = []
remove_camera camera_id ((k, r) ∷ m) =
    ite (string_discrete k.camera_id camera_id) (remove_camera camera_id m)
      ((k, r) ∷ remove_camera camera_id m)

unfoldable pub remove_all_slots : String → DataBuffer → DataBuffer
remove_all_slots camera_id b = record b { slots = remove_camera camera_id b.slots }

unfoldable pub slot_size : String → DataType → DataBuffer → ℕ
slot_size camera_id type b = elim (lookup key_discrete (key_of camera_id type) b.slots) [
  | none ↦ 0
  | some r ↦ Ring.size r
]

unfoldable pub clear : DataBuffer → DataBuffer
clear b = record b { slots = [] }

unfoldable pub clear_slot : String → DataType → DataBuffer → DataBuffer
clear_slot camera_id type b =
    let key = key_of camera_id type in
    elim (lookup key_discrete key b.slots) [
      | none ↦ b
      | some r ↦ record b { slots = insert key_discrete key (Ring.clear none r) b.slots }
    ]

unfoldable pub active_slots : DataBuffer → List BufferSlotKey
active_slots b = map (λ e. e.0) b.slots

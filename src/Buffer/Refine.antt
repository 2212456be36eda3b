-- ===== src/Buffer/Refine.antt =====
-- The buffer as an abstract store: for each key the last bundles pushed, oldest first.
use mathlib.Core.Path.{fun_ext}
use lib_stereo_camera.Common.{
  ℕ, String, List, [], ◌∷◌, ◌++◌, Option, none, some, ite, ◌≡◌, refl, sym, ap₂, ◌∙◌, arith, lookup,
  insert, lookup-insert, lookup-remove, length, take_last, last_or, drop-nil, ◌-◌, Option-cases,
  inl, inr, string_discrete,
}
use lib_stereo_camera.Types.{DataType, stereo_image, DataBundle}
use lib_stereo_camera.Ring
use lib_stereo_camera.Ring.{next_power_of_two}
use lib_stereo_camera.Ring.Refine.{
  contents, length-contents, contents-push, contents-make, contents-clear, get_latest_refines,
  get_latest_n_refines,
}
use lib_stereo_camera.Buffer.{
  BufferSlotKey, key_discrete, key_of, Slot, DataBuffer, new_ring, push, get_latest, get_latest_n,
  create_slot, remove_slot, remove_all_slots, slot_size, clear, clear_slot,
}
use lib_stereo_camera.Buffer.Invariant.{
  IsValid, new_ring-IsValid, lookup-remove_camera, Op, pushes, creates, removes, clears_slot,
  removes_all, clears, step, step-IsValid,
}

abbrev bundles_in : Option Slot → List (Option DataBundle)
bundles_in none = []
bundles_in (some r) = contents none r

-- What the buffer holds for a key, oldest first.
unfoldable pub held : DataBuffer → BufferSlotKey → List (Option DataBundle)
held b k = bundles_in (lookup key_discrete k b.slots)

held-insert :
    (b : DataBuffer) (k j : BufferSlotKey) (r : Slot)
    → held (record b { slots = insert key_discrete k r b.slots }) j
      ≡ ite (key_discrete k j) (contents none r) (held b j)
unfolding held
held-insert b k j r = rw lookup-insert (ground arith)

-- The abstract store, and what each call does to it; `cap` is the capacity of its rings.
abbrev pub Store : Type 0
Store = BufferSlotKey → List (Option DataBundle)

unfoldable pub store_step : ℕ → Op → Store → Store
store_step cap (pushes c x) s k =
    ite (key_discrete (key_of c x.type) k) (take_last cap (s k ++ some x ∷ [])) (s k)
store_step cap (creates c t) s k = s k
store_step cap (removes c t) s k = ite (key_discrete (key_of c t) k) [] (s k)
store_step cap (clears_slot c t) s k = ite (key_discrete (key_of c t) k) [] (s k)
store_step cap (removes_all c) s k = ite (string_discrete k.camera_id c) [] (s k)
store_step cap clears s k = []

contents-new_ring : (b : DataBuffer) → contents none (new_ring b) ≡ []
unfolding new_ring
contents-new_ring b = contents-make none b.max_frames_per_slot

module _ (c : String) (t : DataType) (b : DataBuffer) (k : BufferSlotKey) where
  held-create_slot : held (create_slot c t b) k ≡ held b k
  unfolding create_slot held
  held-create_slot =
      ground
        (arith, lookup-insert key_discrete (key_of c t) k (new_ring b) b.slots, contents-new_ring b)

  held-remove_slot : held (remove_slot c t b) k ≡ ite (key_discrete (key_of c t) k) [] (held b k)
  unfolding remove_slot held
  held-remove_slot = ground (arith, lookup-remove key_discrete (key_of c t) k b.slots)

  held-clear_slot : held (clear_slot c t b) k ≡ ite (key_discrete (key_of c t) k) [] (held b k)
  unfolding clear_slot held
  held-clear_slot = elim (Option-cases (lookup key_discrete (key_of c t) b.slots)) [
    | inl e ↦ rw (e, clear_slot) (ground arith)
    | inr (r, e) ↦
        rw (e, clear_slot)
          (ground (
            arith,
            lookup-insert key_discrete (key_of c t) k (Ring.clear none r) b.slots,
            contents-clear none r,
          ))
  ]

  held-remove_all_slots :
      held (remove_all_slots c b) k ≡ ite (string_discrete k.camera_id c) [] (held b k)
  unfolding remove_all_slots held
  held-remove_all_slots = ground (arith, lookup-remove_camera c k b.slots)

held-push :
    (c : String) (x : DataBundle) {b : DataBuffer} (k : BufferSlotKey)
    → IsValid b
    → held (push c x b) k
      ≡ ite
          (key_discrete (key_of c x.type) k)
          (take_last (next_power_of_two b.max_frames_per_slot) (held b k ++ some x ∷ []))
          (held b k)
unfolding push held
held-push c x {b} k v = elim (Option-cases (lookup key_discrete (key_of c x.type) b.slots)) [
  | inl e ↦
      rw (e, push)
        (ground (
          arith,
          lookup-insert key_discrete (key_of c x.type) k (Ring.push (some x) (new_ring b)) b.slots,
          contents-push none (some x) (new_ring-IsValid v).0,
          (new_ring-IsValid v).1,
          contents-new_ring b,
        ))
  | inr (r, e) ↦
      rw (e, push)
        (ground (
          arith,
          lookup-insert key_discrete (key_of c x.type) k (Ring.push (some x) r) b.slots,
          contents-push none (some x) (v.rings _ r e).0,
          (v.rings _ r e).1,
        ))
]

-- Every call does to the contents what the abstract store says.
pub step_refines :
    (op : Op) {b : DataBuffer} (k : BufferSlotKey)
    → IsValid b
    → held (step op b) k ≡ store_step (next_power_of_two b.max_frames_per_slot) op (held b) k
unfolding step store_step held lookup clear
step_refines (pushes c x) k v = held-push c x k v
step_refines (creates c t) {b} k v = held-create_slot c t b k
step_refines (removes c t) {b} k v = held-remove_slot c t b k
step_refines (clears_slot c t) {b} k v = held-clear_slot c t b k
step_refines (removes_all c) {b} k v = held-remove_all_slots c stereo_image b k
step_refines clears k v = refl

-- The calls of a client in order, and their abstract counterpart.
unfoldable pub run : List Op → DataBuffer → DataBuffer
run [] b = b
run (op ∷ ops) b = run ops (step op b)

unfoldable pub store_run : ℕ → List Op → Store → Store
store_run cap [] s = s
store_run cap (op ∷ ops) s = store_run cap ops (store_step cap op s)

max_frames-step :
    (op : Op) (b : DataBuffer) → (step op b).max_frames_per_slot ≡ b.max_frames_per_slot
unfolding step push create_slot remove_slot clear_slot remove_all_slots clear
max_frames-step (pushes c x) b = refl
max_frames-step (creates c t) b = ground arith
max_frames-step (removes c t) b = refl
max_frames-step (clears_slot c t) b = ground arith
max_frames-step (removes_all c) b = refl
max_frames-step clears b = refl

-- Whatever the calls, a valid buffer stays valid and holds what the abstract store holds.
pub run_refines :
    (ops : List Op) {b : DataBuffer}
    → IsValid b
    → IsValid (run ops b)
      × (held (run ops b) ≡ store_run (next_power_of_two b.max_frames_per_slot) ops (held b))
unfolding run store_run
run_refines [] v = (v, refl)
run_refines (op ∷ ops) {b} v =
    let (valid, same) = run_refines ops (step-IsValid op v) in
    (
      valid,
      same
          ∙ ap₂ (λ n s. store_run (next_power_of_two n) ops s) (max_frames-step op b)
              (fun_ext (λ k. step_refines op k v)),
    )

module _ (c : String) (t : DataType) {b : DataBuffer} (v : IsValid b) where
  -- What the getters return on a valid buffer, in terms of the bundles held: the newest bundle or null, the newest
  -- `count` bundles oldest first, and their number.
  pub getters_refine :
      (count : ℕ)
      → (get_latest c t b ≡ last_or none (held b (key_of c t)))
        × (get_latest_n c t count b ≡ take_last count (held b (key_of c t)))
        × (slot_size c t b ≡ length (held b (key_of c t)))
  unfolding get_latest get_latest_n slot_size held
  getters_refine count = elim (Option-cases (lookup key_discrete (key_of c t) b.slots)) [
    | inl e ↦ (
      rw (e, get_latest) refl,
      rw (e, get_latest_n) (sym (drop-nil (0 - count))),
      rw (e, slot_size) refl,
    )
    | inr (r, e) ↦ (
      rw (e, get_latest) (get_latest_refines none (v.rings _ r e).0),
      rw (e, get_latest_n) (get_latest_n_refines none count r),
      rw (e, slot_size) (sym (length-contents none r)),
    )
  ]

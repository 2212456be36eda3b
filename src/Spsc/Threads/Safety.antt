-- ===== src/Spsc/Threads/Safety.antt =====
-- What the two threads may rely on, in every interleaving.
use lib_stereo_camera.Common.{
  ℕ, ◌-◌, ◌^◌, ◌≤◌, ◌<◌, min, ◌≡◌, ◌≢◌, refl, arith, List, [], ◌∷◌, ◌++◌, false, length,
  length-append, bit_and, leb,
}
use lib_stereo_camera.Common.Size.{size_mod, sub_size}
use lib_stereo_camera.Spsc.{mask}
use lib_stereo_camera.Spsc.Window.{window, length-window, index_ne}
use lib_stereo_camera.Spsc.Threads.{
  loaded_both, loaded_all, System, Step, load_write, load_read, refuse, write, publish, pop_read,
  pop_write, find_empty, take_out, release, start, Reach, begin, next,
}
use lib_stereo_camera.Spsc.Threads.Invariant.{Inv, start-Inv, Step-Inv, index}

module _ {A : Type 0} (dflt : A) where
  Step-grows :
      {s t : System A}
      → Step dflt s t
      → (length s.sent ≤ length t.sent) × (t.queue.max_depth ≡ s.queue.max_depth)
  Step-grows (load_write x e) = (omega arith, refl)
  Step-grows (load_read x wp e) = (omega arith, refl)
  Step-grows (refuse x wp rp e c) = (omega arith, refl)
  Step-grows (write x wp rp e c) = (omega arith, refl)
  Step-grows {s = s} (publish x wp e) = (omega (arith, length-append s.sent (x ∷ [])), refl)
  Step-grows (pop_read e) = (omega arith, refl)
  Step-grows (pop_write rp e) = (omega arith, refl)
  Step-grows (find_empty rp wp e c) = (omega arith, refl)
  Step-grows (take_out rp wp e c) = (omega arith, refl)
  Step-grows (release rp x e) = (omega arith, refl)

  -- The invariant holds in every state that is reached before the counters wrap.
  pub Reach-Inv :
      {k depth : ℕ} {s : System A} → Reach dflt k depth s → length s.sent < size_mod → Inv dflt k s
  Reach-Inv {k} {depth} begin h = start-Inv dflt k depth
  Reach-Inv (next r st) h = Step-Inv dflt st h (Reach-Inv r (omega (arith, Step-grows st)))

  max_depth-Reach :
      {k depth : ℕ} {s : System A} → Reach dflt k depth s → s.queue.max_depth ≡ min depth (2 ^ k)
  unfolding start
  max_depth-Reach begin = ground arith
  max_depth-Reach (next r st) = omega (arith, Step-grows st, max_depth-Reach r)

  -- In every interleaving, until the counters wrap, the consumer has received exactly the items
  -- that the producer sent, in order, but for the last few; and those are never more than the
  -- depth that was set, nor than the capacity.
  pub received_in_order :
      {k depth : ℕ} {s : System A}
      → Reach dflt k depth s
      → length s.sent < size_mod
      → (rest : List A) × (s.sent ≡ s.received ++ rest) × (length rest ≤ min depth (2 ^ k))
  received_in_order {s = s} r h =
      let i = Reach-Inv r h in
      let q = s.queue in
      (
        window dflt q.capacity q.buffer q.read_pos (q.write_pos - q.read_pos),
        i.fifo,
        omega (
          arith,
          length-window dflt q.capacity q.buffer q.read_pos (q.write_pos - q.read_pos),
          i.held,
          max_depth-Reach r,
        ),
      )

  -- No data race, until the counters wrap: where, in any interleaving, the producer is about to write a slot and the consumer to read one, the
  -- two slots differ.
  pub no_data_race :
      {k depth : ℕ} {s : System A} (x : A) (wp rp rp' wp' : ℕ)
      → Reach dflt k depth s
      → length s.sent < size_mod
      → s.producer ≡ loaded_both x wp rp
      → leb s.queue.max_depth (sub_size wp rp) ≡ false
      → s.consumer ≡ loaded_all rp' wp'
      → leb wp' rp' ≡ false
      → bit_and wp (mask s.queue) ≢ bit_and rp' (mask s.queue)
  no_data_race {s = s} x wp rp rp' wp' r h p room c some_left same =
      let i = Reach-Inv r h in
      let differ = index_ne dflt s.queue.capacity rp' wp in
      ground (arith, i, index dflt i wp, index dflt i rp', differ)

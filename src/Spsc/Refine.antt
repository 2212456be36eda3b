-- ===== src/Spsc/Refine.antt =====
-- A queue whose counters have not wrapped behaves as a bounded FIFO of its contents.
use lib_stereo_camera.Common.{
  ◌↔◌, ℕ, ◌+◌, ◌-◌, ◌%◌, ◌^◌, ◌≤◌, ◌<◌, ◌≡◌, refl, arith, List, [], ◌∷◌, ◌++◌, Bool, true, false,
  Option, none, some, ite, dec_lt, length, length-set, nil_of_length, length-replicate, bit_and,
}
use lib_stereo_camera.Common.Bits.{bit_and_mask}
use lib_stereo_camera.Common.Size.{size_mod}
use lib_stereo_camera.Spsc.{SpscQueue, make, mask, set_max_depth, try_push, pop, empty, size}
use lib_stereo_camera.Spsc.Window.{window, length-window, window-push, window_of_pos}

-- `static_assert` makes the capacity a power of two.
pub record IsValid {A : Type 0} (q : SpscQueue A) : Type 0 where
  pub exponent : ℕ
  pub power : q.capacity ≡ 2 ^ exponent
  pub storage : length q.buffer ≡ q.capacity
  pub depth : q.max_depth ≤ q.capacity
  pub ordered : q.read_pos ≤ q.write_pos
  pub held : q.write_pos - q.read_pos ≤ q.capacity
  pub fits : q.write_pos < size_mod

-- A FIFO that takes no item beyond `depth`; an item refused is the newest one.
unfoldable pub fifo_push : {A : Type 0} → ℕ → A → List A → Bool × List A
fifo_push depth x xs = ite (dec_lt (length xs) depth) (true, xs ++ x ∷ []) (false, xs)

unfoldable pub fifo_pop : {A : Type 0} → List A → Option A × List A
fifo_pop [] = (none, [])
fifo_pop (x ∷ xs) = (some x, xs)

module _ {A : Type 0} (dflt : A) where
  -- The items in the queue, oldest first.
  unfoldable pub contents : SpscQueue A → List A
  contents q = window dflt q.capacity q.buffer q.read_pos (q.write_pos - q.read_pos)

  pub length-contents : (q : SpscQueue A) → length (contents q) ≡ q.write_pos - q.read_pos
  unfolding contents
  length-contents q = length-window dflt q.capacity q.buffer q.read_pos (q.write_pos - q.read_pos)

  pub bit_and-mask : {q : SpscQueue A} → IsValid q → (x : ℕ) → bit_and x (mask q) ≡ x % q.capacity
  bit_and-mask v x = rw v.power (bit_and_mask v.exponent x)

  -- A new queue of power-of-two capacity is valid and empty.
  pub make-IsValid : (k : ℕ) → IsValid (make dflt (2 ^ k)) × (contents (make dflt (2 ^ k)) ≡ [])
  unfolding make contents window
  make-IsValid k = (
    record {
      exponent = k;
      power = refl;
      storage = length-replicate (2 ^ k) dflt;
      depth = omega arith;
      ordered = omega arith;
      held = omega arith;
      fits = omega arith;
    },
    refl,
  )

  -- Setting any depth keeps a valid queue valid, with a depth of at most the capacity, and loses no
  -- item.
  pub set_max_depth_lem :
      (d : ℕ) {q : SpscQueue A}
      → IsValid q
      → IsValid (set_max_depth d q) × (contents (set_max_depth d q) ≡ contents q)
  unfolding set_max_depth contents
  set_max_depth_lem d v = (ground arith, refl)

  module _ {q : SpscQueue A} (v : IsValid q) where
    -- On a valid queue `size` is the number of items, and `empty` tells whether there are none.
    pub size_refines : (size q ≡ length (contents q)) × ((empty q ≡ true) ↔ (contents q ≡ []))
    unfolding size empty
    size_refines = ground (arith, length-contents q, nil_of_length (contents q), v.ordered)

    pub try_push-IsValid : (x : A) → q.write_pos + 1 < size_mod → IsValid (try_push x q).1
    unfolding try_push
    try_push-IsValid x room =
        ground (arith, length-set q.buffer (bit_and q.write_pos (mask q)) x, v.depth)

    pub pop-IsValid : IsValid (pop dflt q).1
    unfolding pop
    pop-IsValid = ground arith

    -- On a valid queue whose write counter is not about to wrap, `try_push` is the push of the bounded
    -- FIFO: its result, and what it leaves.
    pub try_push_refines :
        (x : A)
        → q.write_pos + 1 < size_mod
        → let (done, q') = try_push x q in
          (done, contents q') ≡ fifo_push q.max_depth x (contents q)
    unfolding try_push fifo_push contents
    try_push_refines x room = ground (
      arith,
      bit_and-mask v q.write_pos,
      length-window dflt q.capacity q.buffer q.read_pos (q.write_pos - q.read_pos),
      window-push dflt q.capacity q.buffer q.read_pos (q.write_pos - q.read_pos) q.write_pos x,
      v.depth,
    )

    -- On a valid queue `pop` is the pop of the FIFO: the oldest item, or nothing and no change when it is empty.
    pub pop_refines : let (out, q') = pop dflt q in (out, contents q') ≡ fifo_pop (contents q)
    unfolding pop fifo_pop contents
    pop_refines = ground (
      arith,
      bit_and-mask v q.read_pos,
      length-window dflt q.capacity q.buffer q.read_pos (q.write_pos - q.read_pos),
      window_of_pos dflt q.capacity q.buffer q.read_pos (q.write_pos - q.read_pos),
      nil_of_length (contents q),
      v.ordered,
    )

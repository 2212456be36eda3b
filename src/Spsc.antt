-- ===== src/Spsc.antt =====
-- include/stereo_camera/data/SPSCQueue.h: the lock-free queue of one producer and one consumer.
-- Here each method runs alone; `Spsc.Threads` interleaves the accesses of the two threads.
pub mod Window
pub mod Refine
pub mod Loop
pub mod Threads
use lib_stereo_camera.Common.{
  ℕ, suc, ◌-◌, List, Option, none, some, Bool, true, false, not, bit_and, ltb, leb, if◌then◌else◌,
  get_or, set, replicate,
}
use lib_stereo_camera.Common.Size.{add_size, sub_size}

-- `SPSCQueue<T, Capacity>`
pub record SpscQueue (A : Type 0) : Type 0 where
  pub capacity : ℕ
  pub write_pos : ℕ
  pub read_pos : ℕ
  pub max_depth : ℕ
  pub buffer : List A

module _ {A : Type 0} where
  -- the constructor; `T buffer_[Capacity]` holds `T{}`, the argument `dflt`
  unfoldable pub make : A → ℕ → SpscQueue A
  make dflt capacity = record {
    capacity = capacity;
    write_pos = 0;
    read_pos = 0;
    max_depth = capacity;
    buffer = replicate capacity dflt;
  }

  -- `kMask`
  abbrev pub mask : SpscQueue A → ℕ
  mask q = q.capacity - 1

  unfoldable pub set_max_depth : ℕ → SpscQueue A → SpscQueue A
  set_max_depth depth q = record q {
    max_depth = if ltb q.capacity depth then q.capacity else depth;
  }

  -- Both overloads of `try_push`: they differ only in how the item is copied.
  unfoldable pub try_push : A → SpscQueue A → Bool × SpscQueue A
  try_push item q =
      let wp = q.write_pos in
      let rp = q.read_pos in
      if leb q.max_depth (sub_size wp rp) then (false, q) else (
        true,
        record q { buffer = set q.buffer (bit_and wp (mask q)) item; write_pos = add_size wp 1 },
      )

  -- What goes through `out` is the option. The slot read from is left in a moved-from state; no
  -- method reads it again before it is overwritten, and here it keeps its value.
  unfoldable pub pop : A → SpscQueue A → Option A × SpscQueue A
  pop dflt q =
      let rp = q.read_pos in
      let wp = q.write_pos in
      if leb wp rp then (none, q) else (
        some (get_or q.buffer (bit_and rp (mask q)) dflt),
        record q { read_pos = add_size rp 1 },
      )

  unfoldable pub empty : SpscQueue A → Bool
  empty q = leb q.write_pos q.read_pos

  unfoldable pub size : SpscQueue A → ℕ
  size q = if leb q.read_pos q.write_pos then q.write_pos - q.read_pos else 0

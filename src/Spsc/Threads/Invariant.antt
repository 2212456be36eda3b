-- ===== src/Spsc/Threads/Invariant.antt =====
-- What holds between any two accesses of the two threads.
use native.Mathlib.Nat.{mod-lt}
use lib_stereo_camera.Common.{
  ℕ, ◌+◌, ◌-◌, ◌%◌, ◌^◌, ◌≤◌, ◌<◌, ◌≡◌, refl, arith, [], ◌∷◌, ◌++◌, append_assoc, length,
  length-append, length-set, length-replicate, get_or, get_or-set_self, get_or-set_ne, bit_and,
}
use lib_stereo_camera.Common.Bits.{bit_and_mask}
use lib_stereo_camera.Common.Size.{size_mod}
use lib_stereo_camera.Spsc.{SpscQueue, mask}
use lib_stereo_camera.Spsc.Window.{window, window-set, window-suc, window_of_pos, index_ne}
use lib_stereo_camera.Spsc.Threads.{
  Producer, at_rest, loaded_write, loaded_both, wrote, Consumer, waits, loaded_read, loaded_all,
  took, System, Step, load_write, load_read, refuse, write, publish, pop_read, pop_write,
  find_empty, take_out, release, start,
}

module _ {A : Type 0} (dflt : A) where
  -- What the producer knows where it stands.
  abbrev pub Produces : SpscQueue A → Producer A → Type 0
  Produces q at_rest = Unit {0}
  Produces q (loaded_write x wp) = wp ≡ q.write_pos
  Produces q (loaded_both x wp rp) = (wp ≡ q.write_pos) × (rp ≤ q.read_pos)
  Produces q (wrote x wp) =
      (wp ≡ q.write_pos)
      × (q.write_pos - q.read_pos < q.max_depth)
      × (get_or q.buffer (wp % q.capacity) dflt ≡ x)

  -- What the consumer knows where it stands.
  abbrev pub Consumes : SpscQueue A → Consumer A → Type 0
  Consumes q waits = Unit {0}
  Consumes q (loaded_read rp) = rp ≡ q.read_pos
  Consumes q (loaded_all rp wp) = (rp ≡ q.read_pos) × (wp ≤ q.write_pos)
  Consumes q (took rp x) =
      (rp ≡ q.read_pos) × (q.read_pos < q.write_pos) × (x ≡ get_or q.buffer (rp % q.capacity) dflt)

  pub record Inv (k : ℕ) (s : System A) : Type 0 where
    pub power : s.queue.capacity ≡ 2 ^ k
    pub storage : length s.queue.buffer ≡ s.queue.capacity
    pub depth : s.queue.max_depth ≤ s.queue.capacity
    pub writes : s.queue.write_pos ≡ length s.sent
    pub reads : s.queue.read_pos ≡ length s.received
    pub ordered : s.queue.read_pos ≤ s.queue.write_pos
    pub held : s.queue.write_pos - s.queue.read_pos ≤ s.queue.max_depth
    pub fits : s.queue.write_pos < size_mod
    pub fifo :
        s.sent
        ≡ s.received
          ++ window dflt s.queue.capacity s.queue.buffer s.queue.read_pos
              (s.queue.write_pos - s.queue.read_pos)
    pub produces : Produces s.queue s.producer
    pub consumes : Consumes s.queue s.consumer

  pub start-Inv : (k depth : ℕ) → Inv k (start dflt k depth)
  unfolding start window
  start-Inv k depth = record {
    power = refl;
    storage = length-replicate (2 ^ k) dflt;
    depth = ground arith;
    writes = refl;
    reads = refl;
    ordered = omega arith;
    held = omega arith;
    fits = omega arith;
    fifo = refl;
    produces = tt;
    consumes = tt;
  }

  pub index :
      {k : ℕ} {s : System A} → Inv k s → (x : ℕ) → bit_and x (mask s.queue) ≡ x % s.queue.capacity
  index {k} i x = rw i.power (bit_and_mask k x)

  -- Every access keeps the invariant, while the counters have not run through all of `size_t`.
  pub Step-Inv :
      {k : ℕ} {s t : System A} → Step dflt s t → length t.sent < size_mod → Inv k s → Inv k t
  Step-Inv (load_write x e) h i = ground arith
  Step-Inv (load_read x wp e) h i = ground arith
  Step-Inv (refuse x wp rp e c) h i = ground arith
  Step-Inv {s = s} (write x wp rp e c) h i =
      let q = s.queue in
      let at_wp = get_or-set_self q.buffer (wp % q.capacity) x dflt in
      let at_rp = get_or-set_ne q.buffer (wp % q.capacity) (q.read_pos % q.capacity) x dflt in
      ground (
        arith,
        index i wp,
        length-set q.buffer (wp % q.capacity) x,
        at_wp,
        mod-lt wp {m = q.capacity},
        at_rp,
        index_ne dflt q.capacity q.read_pos wp,
        window-set dflt q.capacity q.buffer q.read_pos (q.write_pos - q.read_pos) wp x,
      )
  Step-Inv {s = s} (publish x wp e) h i =
      let q = s.queue in
      let n : ℕ = q.write_pos - q.read_pos in
      ground (
        arith,
        length-append s.sent (x ∷ []),
        window-suc dflt q.capacity q.buffer q.read_pos n,
        append_assoc s.received (window dflt q.capacity q.buffer q.read_pos n) (x ∷ []),
      )
  Step-Inv (pop_read e) h i = ground arith
  Step-Inv (pop_write rp e) h i = ground arith
  Step-Inv (find_empty rp wp e c) h i = ground arith
  Step-Inv {s = s} (take_out rp wp e c) h i = ground (arith, index i rp)
  Step-Inv {s = s} (release rp x e) h i =
      let q = s.queue in
      let n : ℕ = q.write_pos - q.read_pos in
      ground (
        arith,
        length-append s.received (x ∷ []),
        window_of_pos dflt q.capacity q.buffer q.read_pos n,
        append_assoc s.received (x ∷ []) (window dflt q.capacity q.buffer (q.read_pos + 1) (n - 1)),
      )

-- ===== src/Spsc/Threads.antt =====
-- include/stereo_camera/data/SPSCQueue.h under one producer and one consumer thread: `try_push` and
-- `pop` cut at their accesses of shared memory. A load is an acquire of what the other thread
-- stored last with release, so the accesses of the two threads are interleaved in any order.
-- `max_depth_` is set before the threads start.
pub mod Invariant
pub mod Safety
use lib_stereo_camera.Common.{
  ℕ, suc, ◌≡◌, List, [], ◌∷◌, ◌++◌, Bool, true, false, leb, bit_and, get_or, set, ◌^◌,
}
use lib_stereo_camera.Common.Size.{add_size, sub_size}
use lib_stereo_camera.Spsc.{SpscQueue, make, mask, set_max_depth}

-- Where the producer stands, with the local variables that are live there.
pub data Producer (A : Type 0) : Type 0 where
  at_rest : Producer A  -- outside `try_push`
  loaded_write : A → ℕ → Producer A  -- `wp` is loaded
  loaded_both : A → ℕ → ℕ → Producer A  -- `wp` and `rp` are loaded
  wrote : A → ℕ → Producer A  -- the slot is written, `write_pos_` is not stored yet

-- Where the consumer stands.
pub data Consumer (A : Type 0) : Type 0 where
  waits : Consumer A  -- outside `pop`
  loaded_read : ℕ → Consumer A  -- `rp` is loaded
  loaded_all : ℕ → ℕ → Consumer A  -- `rp` and `wp` are loaded
  took : ℕ → A → Consumer A  -- the slot is read, `read_pos_` is not stored yet

-- The shared queue, both threads, and the history: the items of the calls of `try_push` that
-- returned true, and those that `pop` returned.
pub record System (A : Type 0) : Type 0 where
  pub queue : SpscQueue A
  pub producer : Producer A
  pub consumer : Consumer A
  pub sent : List A
  pub received : List A

module _ {A : Type 0} (dflt : A) where
  pub data Step (s : System A) : System A → Type 0 where
    load_write :
        (x : A)
        → s.producer ≡ at_rest
        → Step s (record s { producer = loaded_write x s.queue.write_pos })
    load_read :
        (x : A) (wp : ℕ)
        → s.producer ≡ loaded_write x wp
        → Step s (record s { producer = loaded_both x wp s.queue.read_pos })
    refuse :
        (x : A) (wp rp : ℕ)
        → s.producer ≡ loaded_both x wp rp
        → leb s.queue.max_depth (sub_size wp rp) ≡ true
        → Step s (record s { producer = at_rest })
    write :
        (x : A) (wp rp : ℕ)
        → s.producer ≡ loaded_both x wp rp
        → leb s.queue.max_depth (sub_size wp rp) ≡ false
        → Step s (record s {
          queue = record s.queue { buffer = set s.queue.buffer (bit_and wp (mask s.queue)) x };
          producer = wrote x wp;
        })
    publish :
        (x : A) (wp : ℕ)
        → s.producer ≡ wrote x wp
        → Step s (record s {
          queue = record s.queue { write_pos = add_size wp 1 };
          producer = at_rest;
          sent = s.sent ++ x ∷ [];
        })
    pop_read : s.consumer ≡ waits → Step s (record s { consumer = loaded_read s.queue.read_pos })
    pop_write :
        (rp : ℕ)
        → s.consumer ≡ loaded_read rp
        → Step s (record s { consumer = loaded_all rp s.queue.write_pos })
    find_empty :
        (rp wp : ℕ)
        → s.consumer ≡ loaded_all rp wp
        → leb wp rp ≡ true
        → Step s (record s { consumer = waits })
    take_out :
        (rp wp : ℕ)
        → s.consumer ≡ loaded_all rp wp
        → leb wp rp ≡ false
        → Step s (record s {
          consumer = took rp (get_or s.queue.buffer (bit_and rp (mask s.queue)) dflt);
        })
    release :
        (rp : ℕ) (x : A)
        → s.consumer ≡ took rp x
        → Step s (record s {
          queue = record s.queue { read_pos = add_size rp 1 };
          consumer = waits;
          received = s.received ++ x ∷ [];
        })

  -- A new queue of capacity 2 ^ k with a depth set.
  unfoldable pub start : ℕ → ℕ → System A
  unfolding make set_max_depth
  start k depth = record {
    queue = set_max_depth depth (make dflt (2 ^ k));
    producer = at_rest;
    consumer = waits;
    sent = [];
    received = [];
  }

  pub data Reach (k depth : ℕ) : System A → Type 0 where
    begin : Reach k depth (start k depth)
    next : {s t : System A} → Reach k depth s → Step s t → Reach k depth t

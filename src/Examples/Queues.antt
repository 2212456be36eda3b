-- ===== src/Examples/Queues.antt =====
-- Runs of include/stereo_camera/data/SPSCQueue.h, alone and under two threads.
use lib_stereo_camera.Common.{
  ℕ, ◌≤◌, ◌^◌, ◌≡◌, ◌≢◌, refl, arith, List, [], ◌∷◌, ◌++◌, length, bit_and, min,
}
use lib_stereo_camera.Spsc.{SpscQueue, make, mask, set_max_depth, try_push, pop}
use lib_stereo_camera.Spsc.Refine.{
  IsValid, fifo_push, fifo_pop, contents, make-IsValid, set_max_depth_lem, try_push-IsValid,
  try_push_refines, pop_refines,
}
use lib_stereo_camera.Spsc.Threads.{
  at_rest, waits, loaded_both, loaded_all, System, load_write, load_read, write, publish, pop_read,
  pop_write, start, Reach, begin, next,
}
use lib_stereo_camera.Spsc.Threads.Safety.{received_in_order, no_data_race}

-- A queue of four slots whose depth is cut to two, with one item.
abbrev shallow : SpscQueue ℕ
shallow = set_max_depth 2 (make 0 (2 ^ 2))

abbrev one_item : SpscQueue ℕ
one_item = (try_push 7 shallow).1

shallow-IsValid : IsValid shallow
shallow-IsValid = (set_max_depth_lem 0 2 (make-IsValid 0 2).0).0

one_item-IsValid : IsValid one_item
unfolding set_max_depth make
one_item-IsValid = try_push-IsValid 0 shallow-IsValid 7 (omega arith)

try_push_refines_example :
    ((try_push 8 one_item).0, contents 0 (try_push 8 one_item).1)
    ≡ fifo_push one_item.max_depth 8 (contents 0 one_item)
unfolding try_push set_max_depth make
try_push_refines_example = try_push_refines 0 one_item-IsValid 8 (omega arith)

pop_refines_example :
    ((pop 0 one_item).0, contents 0 (pop 0 one_item).1) ≡ fifo_pop (contents 0 one_item)
pop_refines_example = pop_refines 0 one_item-IsValid

-- One item is sent; then both threads are inside their calls, past their loads.
abbrev queue_1 : SpscQueue ℕ
queue_1 = record { capacity = 2; write_pos = 1; read_pos = 0; max_depth = 2; buffer = 5 ∷ 0 ∷ [] }

abbrev sent_one : System ℕ
sent_one = record {
  queue = queue_1;
  producer = at_rest;
  consumer = waits;
  sent = 5 ∷ [];
  received = [];
}

abbrev both_inside : System ℕ
both_inside = record sent_one { producer = loaded_both 6 1 0; consumer = loaded_all 0 1 }

sent_one-Reach : Reach 0 1 2 sent_one
unfolding start set_max_depth make
sent_one-Reach =
    next (next (next (next begin (load_write 5 refl)) (load_read 5 0 refl)) (write 5 0 0 refl refl))
      (publish 5 0 refl)

both_inside-Reach : Reach 0 1 2 both_inside
both_inside-Reach =
    next
      (next (next (next sent_one-Reach (load_write 6 refl)) (load_read 6 1 refl)) (pop_read refl))
      (pop_write 0 refl)

received_in_order_example : (rest : List ℕ) × (5 ∷ [] ≡ [] ++ rest) × (length rest ≤ min 2 (2 ^ 1))
received_in_order_example = received_in_order 0 both_inside-Reach (omega arith)

no_data_race_example : bit_and 1 (mask queue_1) ≢ bit_and 0 (mask queue_1)
no_data_race_example = no_data_race 0 6 1 0 0 1 both_inside-Reach (omega arith) refl refl refl refl

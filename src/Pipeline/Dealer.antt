-- ===== src/Pipeline/Dealer.antt =====
-- What `dealer_loop` of src/data/SDKSlotManager.cpp does with the messages of a camera.
use lib_stereo_camera.Common.{
  ℕ, suc, ◌+◌, ◌<◌, ◌≡◌, refl, arith, String, List, [], ◌∷◌, ◌++◌, map, Bool, true, false,
  Bool-cases, Option, none, some, ◌>>=◌, length, if◌then◌else◌,
}
use lib_stereo_camera.Common.Size.{size_mod, add_size}
use lib_stereo_camera.Types.{
  DataType, Timestamp, DataBundle, ChannelFrame, DataGroup, visual_geometric_2d,
  visual_geometric_3d, sensor_tracking,
}
use lib_stereo_camera.Buffer
use lib_stereo_camera.Spsc.{SpscQueue, try_push}
use lib_stereo_camera.Pipeline.{DataPipeline, queue_for_group, set_queue, count, enqueue}

-- Whether the name of every part can be read.
unfoldable pub readable : List (Option String) → Bool
readable [] = true
readable (none ∷ ids) = false
readable (some id ∷ ids) = readable ids

-- None or one.
abbrev list_of : {A : Type 0} → Option A → List A
list_of none = []
list_of (some x) = x ∷ []

-- The bundles of the parts, each a name that can be read, and its payload: one for each name that is a
-- type's, with the message's time and the address of its place.
unfoldable pub bundles_of :
    (String → Option DataType) → Timestamp → ℕ → List (Option String × List ℕ) → List DataBundle
bundles_of get_type ts a [] = []
bundles_of get_type ts a ((id, payload) ∷ parts) =
    map (λ t. record { address = a; timestamp = ts; type = t; payload = payload })
      (list_of (id >>= get_type))
    ++ bundles_of get_type ts (suc a) parts

totals-set_queue :
    (g : DataGroup) (q : SpscQueue ChannelFrame) (p : DataPipeline)
    → ((set_queue g q p).total_pushed ≡ p.total_pushed)
      × ((set_queue g q p).total_dropped ≡ p.total_dropped)
unfolding set_queue
totals-set_queue visual_geometric_2d q p = (refl, refl)
totals-set_queue visual_geometric_3d q p = (refl, refl)
totals-set_queue sensor_tracking q p = (refl, refl)

totals-count :
    (b : Bool) (p : DataPipeline)
    → ((count b p).total_pushed ≡ (if b then add_size p.total_pushed 1 else p.total_pushed))
      × ((count b p).total_dropped ≡ (if b then p.total_dropped else add_size p.total_dropped 1))
unfolding count
totals-count true p = (refl, refl)
totals-count false p = (refl, refl)

-- The calls of `enqueue`, one after the other.
unfoldable pub enqueue_all : List (DataGroup × ChannelFrame) → DataPipeline → DataPipeline
enqueue_all [] p = p
enqueue_all ((g, frame) ∷ frames) p = enqueue_all frames (enqueue g frame p)

enqueue-totals :
    (g : DataGroup) (frame : ChannelFrame) (p : DataPipeline)
    → p.total_pushed + p.total_dropped + 1 < size_mod
    → let after = enqueue g frame p in
      after.total_pushed + after.total_dropped ≡ p.total_pushed + p.total_dropped + 1
unfolding enqueue
enqueue-totals g frame p h =
    let r = try_push frame (queue_for_group g p) in
    let totals = totals-count r.0 (set_queue g r.1 p) in
    let put = totals-set_queue g r.1 p in ground (arith, totals, put, Bool-cases r.0)

-- Until the counters wrap, every frame is counted once, as pushed or as dropped.
pub enqueue_all-totals :
    (frames : List (DataGroup × ChannelFrame)) (p : DataPipeline)
    → p.total_pushed + p.total_dropped + length frames < size_mod
    → let after = enqueue_all frames p in
      after.total_pushed + after.total_dropped ≡ p.total_pushed + p.total_dropped + length frames
unfolding enqueue_all
enqueue_all-totals [] p h = omega arith
enqueue_all-totals ((g, frame) ∷ frames) p h =
    let one = enqueue-totals g frame p (omega arith) in
    omega (arith, one, enqueue_all-totals frames (enqueue g frame p) (omega (arith, one)))

-- A frame of the bundles is offered to the queue, if there are any.
unfoldable pub offer :
    String → Timestamp → DataGroup → List DataBundle → DataPipeline → DataPipeline
offer c ts g [] p = p
offer c ts g (x ∷ xs) p = enqueue g (record { camera_id = c; timestamp = ts; bundles = x ∷ xs }) p

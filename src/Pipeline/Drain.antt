-- ===== src/Pipeline/Drain.antt =====
-- What a pass of `pub_loop` of src/data/DataPublisher.cpp publishes.
use lib_stereo_camera.Common.{
  ℕ, zero, suc, ◌≤◌, ◌≡◌, refl, sym, ap, ◌∙◌, arith, String, List, [], ◌∷◌, ◌++◌, map, append_assoc,
  append-nil, Bool, true, false, both_branches, inl, inr, if◌then◌else◌, length, filter, is_yes,
  nil_of_length,
}
use lib_stereo_camera.Types.{
  DataBundle, ChannelFrame, DataGroup, data_group_discrete, data_type_to_group, visual_geometric_2d,
  visual_geometric_3d, sensor_tracking,
}
use lib_stereo_camera.Pipeline.Encode.{EncodeQueues, push_encode}
use lib_stereo_camera.Buffer
use lib_stereo_camera.Buffer.{DataBuffer}
use lib_stereo_camera.Buffer.Invariant.{Op, pushes, step}
use lib_stereo_camera.Buffer.Refine.{run}
use lib_stereo_camera.Spsc.{SpscQueue, pop, empty, try_push}
use lib_stereo_camera.Spsc.Refine.{
  IsValid, contents, length-contents, pop_refines, pop-IsValid, size_refines,
}
use lib_stereo_camera.Spsc.Loop.{fifo_pop-cases}
use lib_stereo_camera.Pipeline.{DataPipeline, no_frame, has_data}
use lib_stereo_camera.Pipeline.Publisher.{
  Message, Outlet, push_bundles, message_of, send_if, publish_group, pub_callback, publish_frame,
  pub_queue, pub_pass,
}

module _ {R : Type 0} where
  -- The frames of a list, published one after the other.
  unfoldable pub publish_all : Bool → String → List ChannelFrame → Outlet R → Outlet R
  publish_all bound channel [] o = o
  publish_all bound channel (frame ∷ frames) o =
      publish_all bound channel frames (publish_frame bound channel frame o)

  -- With as much fuel as the queue holds frames, the loop publishes all of them, in order, and
  -- leaves a valid and empty queue.
  pub pub_queue_lem :
      (fuel : ℕ) (bound : Bool) (channel : String) {q : SpscQueue ChannelFrame} (o : Outlet R)
      → IsValid q
      → length (contents no_frame q) ≤ fuel
      → let r = pub_queue fuel bound channel q o in
        (r.1 ≡ publish_all bound channel (contents no_frame q) o)
        × IsValid r.0
        × (contents no_frame r.0 ≡ [])
  unfolding pub_queue publish_all
  pub_queue_lem zero bound channel {q} o v h =
      let none_left = nil_of_length (contents no_frame q) (omega arith) in
      (sym (ap (λ fs. publish_all bound channel fs o) none_left), v, none_left)
  pub_queue_lem (suc fuel) bound channel {q} o v h =
      elim (fifo_pop-cases (contents no_frame q) (pop no_frame q).0
        (contents no_frame (pop no_frame q).1) (pop_refines no_frame v)) [
          | inl (out, was, left) ↦
              rw (out, pub_queue)
                (sym (ap (λ fs. publish_all bound channel fs o) was), pop-IsValid no_frame v, left)
          | inr (frame, out, was) ↦
              let shorter : length (contents no_frame (pop no_frame q).1) ≤ fuel =
                omega (arith, ap length was) in
              let (rest, valid, left) =
                pub_queue_lem fuel bound channel (publish_frame bound channel frame o)
                  (pop-IsValid no_frame v) shorter in
              rw (out, pub_queue)
                (rest ∙ sym (ap (λ fs. publish_all bound channel fs o) was), valid, left)
        ]

  pub_queue-capacity :
      (bound : Bool) (channel : String) {q : SpscQueue ChannelFrame} (o : Outlet R)
      → IsValid q
      → let r = pub_queue q.capacity bound channel q o in
        (r.1 ≡ publish_all bound channel (contents no_frame q) o) × (empty r.0 ≡ true)
  pub_queue-capacity bound channel {q} o v =
      let (same, valid, left) =
        pub_queue_lem q.capacity bound channel o v
          (omega (arith, length-contents no_frame q, v.held)) in
      (same, (size_refines no_frame valid).1.1 left)

  -- A pass over valid queues publishes the frames that they hold, queue after queue, and leaves no data.
  pub_pass-publish_all :
      (bound : String → Bool) (p : DataPipeline) (o : Outlet R)
      → IsValid p.queue_2d
      → IsValid p.queue_3d
      → IsValid p.queue_sensor
      → let r = pub_pass bound p o in
        let o2 =
          publish_all
            (bound "visual_geometric_2d")
            "visual_geometric_2d"
            (contents no_frame p.queue_2d)
            o in
        let o3 =
          publish_all
            (bound "visual_geometric_3d")
            "visual_geometric_3d"
            (contents no_frame p.queue_3d)
            o2 in
        (r.1
          ≡ publish_all
              (bound "sensor_tracking")
              "sensor_tracking"
              (contents no_frame p.queue_sensor)
              o3)
        × (has_data r.0 ≡ false)
  unfolding pub_pass has_data
  pub_pass-publish_all bound p o v2 v3 vs =
      let s2 = pub_queue-capacity (bound "visual_geometric_2d") "visual_geometric_2d" o v2 in
      let o2 =
        (pub_queue p.queue_2d.capacity (bound "visual_geometric_2d") "visual_geometric_2d"
          p.queue_2d o).1 in
      let s3 = pub_queue-capacity (bound "visual_geometric_3d") "visual_geometric_3d" o2 v3 in
      let o3 =
        (pub_queue p.queue_3d.capacity (bound "visual_geometric_3d") "visual_geometric_3d"
          p.queue_3d o2).1 in
      let ss = pub_queue-capacity (bound "sensor_tracking") "sensor_tracking" o3 vs in
      (
        ss.0
            ∙ ap
                (publish_all (bound "sensor_tracking") "sensor_tracking"
                  (contents no_frame p.queue_sensor))
                (s3.0
                  ∙ ap
                      (publish_all (bound "visual_geometric_3d") "visual_geometric_3d"
                        (contents no_frame p.queue_3d))
                      s2.0),
        ground (arith, s2.1, s3.1, ss.1),
      )

-- The pushes of all bundles of the frames, in order.
unfoldable pub frame_pushes : List ChannelFrame → List Op
frame_pushes [] = []
frame_pushes (frame ∷ frames) = map (pushes frame.camera_id) frame.bundles ++ frame_pushes frames

push_bundles-run :
    (c : String) (xs : List DataBundle) (b : DataBuffer)
    → push_bundles c xs b ≡ run (map (pushes c) xs) b
unfolding push_bundles run step
push_bundles-run c [] b = refl
push_bundles-run c (x ∷ xs) b = push_bundles-run c xs (Buffer.push c x b)

run-append : (ops more : List Op) (b : DataBuffer) → run (ops ++ more) b ≡ run more (run ops b)
unfolding run
run-append [] more b = refl
run-append (op ∷ ops) more b = run-append ops more (step op b)

-- The encode queue of a group.
unfoldable pub encode_queue : DataGroup → EncodeQueues → SpscQueue ChannelFrame
encode_queue visual_geometric_2d e = e.encode_queue_2d
encode_queue visual_geometric_3d e = e.encode_queue_3d
encode_queue sensor_tracking e = e.encode_queue_sensor

-- Whether there is a bundle and the first one is of a group.
unfoldable pub starts_with : DataGroup → List DataBundle → Bool
starts_with g [] = false
starts_with g (x ∷ xs) = is_yes (data_group_discrete (data_type_to_group x.type) g)

-- A queue after pushes, of which a full queue refuses some.
unfoldable pub pushed : List ChannelFrame → SpscQueue ChannelFrame → SpscQueue ChannelFrame
pushed [] q = q
pushed (frame ∷ frames) q = pushed frames (try_push frame q).1

-- A group's queue after the frames that begin with a bundle of the group.
abbrev pub given : DataGroup → List ChannelFrame → SpscQueue ChannelFrame → SpscQueue ChannelFrame
given g frames = pushed (filter (λ f. starts_with g f.bundles) frames)

abbrev push_if : Bool → ChannelFrame → SpscQueue ChannelFrame → SpscQueue ChannelFrame
push_if b frame q = if b then (try_push frame q).1 else q

push_encode-encode_queue :
    (g h : DataGroup) (frame : ChannelFrame) (e : EncodeQueues)
    → encode_queue g (push_encode h frame e)
      ≡ push_if (is_yes (data_group_discrete h g)) frame (encode_queue g e)
unfolding encode_queue push_encode data_group_discrete
push_encode-encode_queue visual_geometric_2d visual_geometric_2d frame e = refl
push_encode-encode_queue visual_geometric_2d visual_geometric_3d frame e = refl
push_encode-encode_queue visual_geometric_2d sensor_tracking frame e = refl
push_encode-encode_queue visual_geometric_3d visual_geometric_2d frame e = refl
push_encode-encode_queue visual_geometric_3d visual_geometric_3d frame e = refl
push_encode-encode_queue visual_geometric_3d sensor_tracking frame e = refl
push_encode-encode_queue sensor_tracking visual_geometric_2d frame e = refl
push_encode-encode_queue sensor_tracking visual_geometric_3d frame e = refl
push_encode-encode_queue sensor_tracking sensor_tracking frame e = refl

pushed-push_if :
    (b : Bool) (frame : ChannelFrame) (frames : List ChannelFrame) (q : SpscQueue ChannelFrame)
    → pushed frames (push_if b frame q) ≡ pushed (if b then frame ∷ frames else frames) q
unfolding pushed
pushed-push_if true frame frames q = refl
pushed-push_if false frame frames q = refl

module _ {R : Type 0} where
  pub_callback-buffer2 :
      (frame : ChannelFrame) (xs : List DataBundle) (o : Outlet R)
      → (pub_callback frame xs o).buffer2 ≡ run (map (pushes frame.camera_id) xs) o.buffer2
  unfolding pub_callback run
  pub_callback-buffer2 frame [] o = refl
  pub_callback-buffer2 frame (x ∷ xs) o = push_bundles-run frame.camera_id (x ∷ xs) o.buffer2

  pub_callback-sent :
      (frame : ChannelFrame) (xs : List DataBundle) (o : Outlet R)
      → (pub_callback frame xs o).sent ≡ o.sent
  unfolding pub_callback
  pub_callback-sent frame [] o = refl
  pub_callback-sent frame (x ∷ xs) o = refl

  abbrev add_if : List DataBundle → Message R → List (Message R) → List (Message R)
  add_if [] msg msgs = msgs
  add_if (x ∷ xs) msg msgs = msg ∷ msgs

  -- The messages of the frames that have bundles.
  unfoldable pub messages : String → List ChannelFrame → List (Message R)
  messages channel [] = []
  messages channel (frame ∷ frames) =
      add_if frame.bundles (message_of channel frame) (messages channel frames)

  send_if-add_if :
      (bound : Bool) (xs : List DataBundle) (msg : Message R) (msgs sent : List (Message R))
      → send_if bound xs msg sent ++ (if bound then msgs else [])
        ≡ sent ++ (if bound then add_if xs msg msgs else [])
  unfolding send_if
  send_if-add_if bound [] msg msgs sent = refl
  send_if-add_if true (x ∷ xs) msg msgs sent = append_assoc sent (msg ∷ []) msgs
  send_if-add_if false (x ∷ xs) msg msgs sent = refl

  pub_callback-encode :
      (g : DataGroup) (frame : ChannelFrame) (xs : List DataBundle) (o : Outlet R)
      → encode_queue g (pub_callback frame xs o).encode
        ≡ push_if (starts_with g xs) frame (encode_queue g o.encode)
  unfolding pub_callback starts_with encode_queue
  pub_callback-encode g frame [] o = refl
  pub_callback-encode g frame (x ∷ xs) o =
      push_encode-encode_queue g (data_type_to_group x.type) frame o.encode

  -- What publishing frames does: the second buffer gets the bundles of all frames, in order; if the
  -- channel's socket is bound, one message is sent for each frame with bundles, in order; and each
  -- encode queue gets the frames whose first bundle is of its group, in order.
  pub publish_all_lem :
      (bound : Bool) (channel : String) (frames : List ChannelFrame) (o : Outlet R)
      → let after = publish_all bound channel frames o in
        (after.buffer2 ≡ run (frame_pushes frames) o.buffer2)
        × (after.sent ≡ o.sent ++ (if bound then messages channel frames else []))
        × ((g : DataGroup) → encode_queue g after.encode ≡ given g frames (encode_queue g o.encode))
  unfolding publish_all publish_frame frame_pushes run publish_group messages pushed filter
  publish_all_lem bound channel [] o = (
    refl,
    both_branches (λ ms. o.sent ≡ o.sent ++ ms) bound (sym (append-nil o.sent))
        (sym (append-nil o.sent)),
    λ g. refl,
  )
  publish_all_lem bound channel (frame ∷ frames) o =
      let next = publish_frame bound channel frame o in
      let before = record o { sent = publish_group bound channel frame o.sent } in
      let (buffers, sents, encodes) = publish_all_lem bound channel frames next in
      (
        buffers
            ∙ ap (run (frame_pushes frames)) (pub_callback-buffer2 frame frame.bundles before)
            ∙ sym (
                run-append (map (pushes frame.camera_id) frame.bundles) (frame_pushes frames)
                  o.buffer2),
        sents
            ∙ ap (λ s. s ++ (if bound then messages channel frames else []))
                (pub_callback-sent frame frame.bundles before)
            ∙ send_if-add_if bound frame.bundles (message_of channel frame)
                (messages channel frames) o.sent,
        λ g.
            let rest = filter (λ f. starts_with g f.bundles) frames in
            encodes g
            ∙ ap (pushed rest) (pub_callback-encode g frame frame.bundles before)
            ∙ pushed-push_if (starts_with g frame.bundles) frame rest (encode_queue g o.encode),
      )

  -- What a pass makes of the queues and the outlet, by the frames that the queues held. The second buffer
  -- has got the bundles of the frames of the 2D queue, then of the 3D queue, then of the sensor queue,
  -- each queue in its order; on each channel whose socket is bound one message has gone out for each frame
  -- with bundles; each encode queue has been given the frames whose first bundle is of its group; and no
  -- data is left.
  pub record Published (bound : String → Bool) (p : DataPipeline) (o : Outlet R)
      (r : DataPipeline × Outlet R) : Type 0 where
    pub drained : has_data r.0 ≡ false
    pub buffered :
        r.1.buffer2
        ≡ run (frame_pushes (contents no_frame p.queue_sensor)) (
            run
              (frame_pushes (contents no_frame p.queue_3d))
              (run (frame_pushes (contents no_frame p.queue_2d)) o.buffer2))
    pub sends :
        r.1.sent
        ≡ ((o.sent
              ++ (if bound "visual_geometric_2d"
                  then messages "visual_geometric_2d" (contents no_frame p.queue_2d)
                  else []))
            ++ (if bound "visual_geometric_3d"
                then messages "visual_geometric_3d" (contents no_frame p.queue_3d)
                else []))
          ++ (if bound "sensor_tracking"
              then messages "sensor_tracking" (contents no_frame p.queue_sensor)
              else [])
    pub encodes :
        (g : DataGroup)
        → encode_queue g r.1.encode
          ≡ given g (contents no_frame p.queue_sensor) (
              given g
                (contents no_frame p.queue_3d)
                (given g (contents no_frame p.queue_2d) (encode_queue g o.encode)))

  -- A pass over valid queues publishes every frame that they hold, each once and in order: `Published`
  -- says what comes of it.
  pub pub_pass_lem :
      (bound : String → Bool) (p : DataPipeline) (o : Outlet R)
      → IsValid p.queue_2d
      → IsValid p.queue_3d
      → IsValid p.queue_sensor
      → Published bound p o (pub_pass bound p o)
  pub_pass_lem bound p o v2 v3 vs =
      let f2 = contents no_frame p.queue_2d in
      let f3 = contents no_frame p.queue_3d in
      let fs = contents no_frame p.queue_sensor in
      let b2 = bound "visual_geometric_2d" in
      let b3 = bound "visual_geometric_3d" in
      let bs = bound "sensor_tracking" in
      let o2 = publish_all b2 "visual_geometric_2d" f2 o in
      let o3 = publish_all b3 "visual_geometric_3d" f3 o2 in
      let (same, drained) = pub_pass-publish_all bound p o v2 v3 vs in
      let (buffer_2, sent_2, encode_2) = publish_all_lem b2 "visual_geometric_2d" f2 o in
      let (buffer_3, sent_3, encode_3) = publish_all_lem b3 "visual_geometric_3d" f3 o2 in
      let (buffer_s, sent_s, encode_s) = publish_all_lem bs "sensor_tracking" fs o3 in
      let ms3 = if b3 then messages "visual_geometric_3d" f3 else [] in
      let mss = if bs then messages "sensor_tracking" fs else [] in
      record {
        drained = drained;
        buffered =
            ap (λ x. x.buffer2) same
            ∙ buffer_s
            ∙ ap (run (frame_pushes fs)) (buffer_3 ∙ ap (run (frame_pushes f3)) buffer_2);
        sends =
            ap (λ x. x.sent) same
            ∙ sent_s
            ∙ ap (λ s. s ++ mss) (sent_3 ∙ ap (λ s. s ++ ms3) sent_2);
        encodes = λ g.
            ap (λ x. encode_queue g x.encode) same
            ∙ encode_s g
            ∙ ap (given g fs) (encode_3 g ∙ ap (given g f3) (encode_2 g));
      }

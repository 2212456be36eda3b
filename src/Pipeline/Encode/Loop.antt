-- ===== src/Pipeline/Encode/Loop.antt =====
-- src/data/WSServer.cpp, `encode_loop`: stereo images are encoded once for all clients.
use lib_stereo_camera.Common.{
  ℕ, suc, ◌≡◌, refl, ap, ◌∙◌, arith, String, List, [], ◌∷◌, Bool, true, false, not, ◌||◌, Option,
  none, some, ◌↔◌, if◌then◌else◌, ◌==◌, Assoc, insert, string_discrete, is_yes,
}
use lib_stereo_camera.Types.{stereo_image, data_type_discrete, DataBundle, ChannelFrame}
use lib_stereo_camera.Spsc.{SpscQueue, empty}
use lib_stereo_camera.Spsc.Refine.{IsValid, contents, size_refines}
use lib_stereo_camera.Spsc.Loop.{pop_all, fold, pop_all-capacity}
use lib_stereo_camera.Pipeline.{no_frame}
use lib_stereo_camera.Pipeline.Encode.{EncodeQueues, encode_stereo_image, has_encode_data}

-- What `encode_loop` keeps: the cache of encoded images and the address of the last bundle it
-- encoded, none while it is null. `made` counts the bundles it made.
pub record Encoder : Type 0 where
  pub encoded_stereo : Assoc String DataBundle
  pub last_encoded_ptr : Option ℕ
  pub made : ℕ

unfoldable pub new_encoder : Encoder
new_encoder = record { encoded_stereo = []; last_encoded_ptr = none; made = 0 }

abbrev pub is_last : Option ℕ → ℕ → Bool
is_last none address = false
is_last (some last) address = last == address

abbrev pub is_nil : List ℕ → Bool
is_nil [] = true
is_nil (x ∷ xs) = false

-- `compress` is the JPEG compression, and `allocate` gives the address of the n-th bundle made.
module _ (compress : List ℕ → ℕ → ℕ → Option (List ℕ)) (allocate : ℕ → ℕ) where
  -- A bundle's encoding goes into the cache of its camera, unless it failed.
  unfoldable pub store_encoded : String → DataBundle → Option (List ℕ) → Encoder → Encoder
  store_encoded camera_id bundle none st = st
  store_encoded camera_id bundle (some encoded) st =
      let out : DataBundle = record {
        address = allocate st.made;
        timestamp = bundle.timestamp;
        type = bundle.type;
        payload = encoded;
      } in
      record st {
        encoded_stereo = insert string_discrete camera_id out st.encoded_stereo;
        made = suc st.made;
      }

  -- The body of the loop over a frame's bundles.
  unfoldable pub encode_bundle : String → DataBundle → Encoder → Encoder
  unfolding store_encoded
  encode_bundle camera_id bundle st =
      if not (is_yes (data_type_discrete bundle.type stereo_image))
      then st
      else if is_nil bundle.payload
      then st
      else if is_last st.last_encoded_ptr bundle.address
      then st
      else store_encoded camera_id bundle (encode_stereo_image compress bundle.payload)
          (record st { last_encoded_ptr = some bundle.address })

  unfoldable pub encode_bundles : String → List DataBundle → Encoder → Encoder
  encode_bundles camera_id [] st = st
  encode_bundles camera_id (bundle ∷ bundles) st =
      encode_bundles camera_id bundles (encode_bundle camera_id bundle st)

  -- The body of the loop on the 2D queue; whether there was data is kept beside.
  unfoldable pub encode_frame : ChannelFrame → Encoder × Bool → Encoder × Bool
  encode_frame frame (st, got_data) = (encode_bundles frame.camera_id frame.bundles st, true)

  -- The bodies of the loops on the 3D and the sensor queue.
  unfoldable pub skip_frame : ChannelFrame → Bool → Bool
  skip_frame frame got_data = true

  -- One pass of `encode_loop`, with whether it got data.
  unfoldable pub encode_pass : EncodeQueues → Encoder → EncodeQueues × Encoder × Bool
  unfolding pop_all
  encode_pass e st =
      let (q2, (st', got2)) =
        pop_all no_frame encode_frame e.encode_queue_2d.capacity e.encode_queue_2d (st, false) in
      let (q3, got3) =
        pop_all no_frame skip_frame e.encode_queue_3d.capacity e.encode_queue_3d got2 in
      let (qs, got_data) =
        pop_all no_frame skip_frame e.encode_queue_sensor.capacity e.encode_queue_sensor got3 in
      (
        record { encode_queue_2d = q2; encode_queue_3d = q3; encode_queue_sensor = qs },
        st',
        got_data,
      )

  -- The frames of a list, encoded one after the other.
  unfoldable pub encode_frames : List ChannelFrame → Encoder → Encoder
  encode_frames [] st = st
  encode_frames (frame ∷ frames) st =
      encode_frames frames (encode_bundles frame.camera_id frame.bundles st)

  fold-encode_frame :
      (frames : List ChannelFrame) (st : Encoder) (got : Bool)
      → (fold no_frame encode_frame frames (st, got)).0 ≡ encode_frames frames st
  unfolding fold encode_frame encode_frames
  fold-encode_frame [] st got = refl
  fold-encode_frame (frame ∷ frames) st got =
      fold-encode_frame frames (encode_bundles frame.camera_id frame.bundles st) true

  abbrev holds : List ChannelFrame → Bool
  holds [] = false
  holds (frame ∷ frames) = true

  fold-got :
      (frames : List ChannelFrame) (st : Encoder) (got : Bool)
      → (fold no_frame encode_frame frames (st, got)).1 ≡ (got || holds frames)
  unfolding fold encode_frame
  fold-got [] st got = ground arith
  fold-got (frame ∷ frames) st got =
      fold-got frames (encode_bundles frame.camera_id frame.bundles st) true ∙ ground arith

  fold-skip_frame :
      (frames : List ChannelFrame) (got : Bool)
      → fold no_frame skip_frame frames got ≡ (got || holds frames)
  unfolding fold skip_frame
  fold-skip_frame [] got = ground arith
  fold-skip_frame (frame ∷ frames) got = fold-skip_frame frames true ∙ ground arith

  holds-empty :
      {q : SpscQueue ChannelFrame} → IsValid q → holds (contents no_frame q) ≡ not (empty q)
  holds-empty {q} v = go (contents no_frame q) (empty q) (size_refines no_frame v).1
    where
      go : (xs : List ChannelFrame) (b : Bool) → (b ≡ true) ↔ (xs ≡ []) → holds xs ≡ not b
      go [] b h = ground (arith, h.1 refl)
      go (x ∷ xs) true h = absurd (ground (arith, h.0 refl))
      go (x ∷ xs) false h = refl

  -- A pass over valid queues goes through every frame that the 2D queue holds, in order, and what it
  -- keeps is what these frames make of it; the frames of the other queues are thrown away, no data is
  -- left in any, and the pass tells whether there was any.
  pub encode_pass_lem :
      (e : EncodeQueues) (st : Encoder)
      → IsValid e.encode_queue_2d
      → IsValid e.encode_queue_3d
      → IsValid e.encode_queue_sensor
      → let r = encode_pass e st in
        (r.1 ≡ encode_frames (contents no_frame e.encode_queue_2d) st)
        × (has_encode_data r.0 ≡ false)
        × (r.2 ≡ has_encode_data e)
  unfolding encode_pass has_encode_data
  encode_pass_lem e st v2 v3 vs =
      let f2 = contents no_frame e.encode_queue_2d in
      let first =
        pop_all no_frame encode_frame e.encode_queue_2d.capacity e.encode_queue_2d (st, false) in
      let second =
        pop_all no_frame skip_frame e.encode_queue_3d.capacity e.encode_queue_3d first.1.1 in
      let s2 = pop_all-capacity no_frame encode_frame (st, false) v2 in
      let s3 = pop_all-capacity no_frame skip_frame first.1.1 v3 in
      let ss = pop_all-capacity no_frame skip_frame second.1 vs in
      (
        ap (λ r. r.0) s2.0 ∙ fold-encode_frame f2 st false,
        ground (arith, s2.1, s3.1, ss.1),
        ground (
          arith,
          ap (λ r. r.1) s2.0,
          fold-got f2 st false,
          s3.0,
          fold-skip_frame (contents no_frame e.encode_queue_3d) first.1.1,
          ss.0,
          fold-skip_frame (contents no_frame e.encode_queue_sensor) second.1,
          holds-empty v2,
          holds-empty v3,
          holds-empty vs,
        ),
      )

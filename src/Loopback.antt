-- ===== src/Loopback.antt =====
-- src/data/LoopbackSubscriber.cpp: what `sub_loop` does with one multipart message. Polling and
-- receiving are ZMQ calls and left out; the node does not start this subscriber.
pub mod Received
use lib_stereo_camera.Common.{
  ℕ, suc, String, List, [], ◌∷◌, ◌++◌, Bool, true, false, Option, none, some, ◌>>=◌, if◌then◌else◌,
}
use lib_stereo_camera.Common.Size.{add_size}
use lib_stereo_camera.Types.{
  DataType, DataBundle, DataGroup, Timestamp, ChannelFrame, data_type_to_group,
}
use lib_stereo_camera.Client.{Json, string}
use lib_stereo_camera.Json.{JsonOps}
use lib_stereo_camera.Buffer
use lib_stereo_camera.Buffer.{DataBuffer}
use lib_stereo_camera.Pipeline.{Parts}

-- What the subscriber changes: the buffer, what its callback feeds, and the count of frames.
pub record Loopback (E : Type 0) : Type 0 where
  pub buffer : DataBuffer
  pub fed : E
  pub total_frames : ℕ

module _ {R : Type 0} (lib : JsonOps R) where
  -- `channel_to_type`; the JSON library gives some type for every text.
  unfoldable pub channel_to_type : String → DataType
  channel_to_type id = lib.get_type (string id)

  -- The loop over the parts and the payloads; new bundles lie from the address given upwards.
  unfoldable pub sub_parts :
      String → Timestamp → List (Json R) → List (List ℕ) → ℕ → DataBuffer → List DataBundle → Parts
  unfolding channel_to_type
  sub_parts camera_id ts [] payloads address b bundles = record {
    completed = true;
    buffer = b;
    bundles = bundles;
  }
  sub_parts camera_id ts (part ∷ parts) [] address b bundles = record {
    completed = true;
    buffer = b;
    bundles = bundles;
  }
  sub_parts camera_id ts (part ∷ parts) (payload ∷ payloads) address b bundles =
      elim (lib.value_text "id" "" part) [
        | none ↦ record { completed = false; buffer = b; bundles = bundles }
        | some id ↦
            let x : DataBundle = record {
              address = address;
              timestamp = ts;
              type = channel_to_type id;
              payload = payload;
            } in
            sub_parts camera_id ts parts payloads (suc address) (Buffer.push camera_id x b)
              (bundles ++ x ∷ [])
      ]

  -- `hdr["parts"]`, which is null and so has no items if there is no such member.
  unfoldable pub parts_arr : Json R → List (Json R)
  parts_arr hdr = elim (lib.at "parts" hdr) [ none ↦ [] | some parts ↦ lib.items parts ]

-- `encode_callback` may be unset.
module _ {E : Type 0} (encode_callback : Option (DataGroup → ChannelFrame → E → E)) where
  -- The callback is called for a frame with bundles.
  unfoldable pub feed : ChannelFrame → List DataBundle → E → E
  feed frame [] e = e
  feed frame (x ∷ xs) e = elim encode_callback [
    | none ↦ e
    | some call ↦ call (data_type_to_group x.type) frame e
  ]

  -- The end of the `try`: a throw in the loop skips it.
  unfoldable pub finish : String → Timestamp → Parts → Loopback E → Loopback E
  unfolding feed
  finish camera_id ts parts s =
      if parts.completed
      then record {
        buffer = parts.buffer;
        fed =
            feed (record { camera_id = camera_id; timestamp = ts; bundles = parts.bundles })
              parts.bundles s.fed;
        total_frames = add_size s.total_frames 1;
      }
      else record s { buffer = parts.buffer }

module _ {R E : Type 0} (lib : JsonOps R)
    (encode_callback : Option (DataGroup → ChannelFrame → E → E)) where
  -- The `try` on the header and the payloads; none of its reads may throw before the loop.
  unfoldable pub on_header : Json R → List (List ℕ) → ℕ → Loopback E → Option (Loopback E)
  unfolding sub_parts parts_arr finish
  on_header hdr payloads address s = lib.value_time "ts_sec" hdr >>= (λ sec.
      lib.value_time "ts_nsec" hdr >>= (λ nsec.
        lib.value_text "camera_id" "default" hdr >>= (λ camera_id.
          let ts : Timestamp = record { sec = sec; nsec = nsec } in
          some (
            finish encode_callback camera_id ts
              (sub_parts lib camera_id ts (parts_arr lib hdr) payloads address s.buffer []) s))))

  -- A message: topic, header and payloads; fewer than two parts are ignored, and so is a header that
  -- cannot be read. `parse` is `json::parse` on the header's bytes.
  unfoldable pub sub_message :
      (List ℕ → Option (Json R)) → List (List ℕ) → ℕ → Loopback E → Loopback E
  unfolding on_header
  sub_message parse [] address s = s
  sub_message parse (topic ∷ []) address s = s
  sub_message parse (topic ∷ hdr ∷ payloads) address s =
      elim (parse hdr >>= (λ j. on_header j payloads address s)) [ none ↦ s | some s' ↦ s' ]

-- ===== src/Loopback/Received.antt =====
-- src/data/LoopbackSubscriber.cpp: a message of src/data/DataPublisher.cpp as the subscriber receives it.
use lib_stereo_camera.Common.{
  ℕ, suc, ◌^◌, ◌<◌, ◌≡◌, refl, sym, ap, ◌∙◌, String, List, [], ◌∷◌, ◌++◌, append_assoc, append-nil,
  map, true, Option, some, pos, signed64, signed64_small, length, lookup, string_discrete,
}
use lib_stereo_camera.Common.Size.{add_size}
use lib_stereo_camera.Types.{DataBundle, DataGroup, Timestamp, ChannelFrame, data_type_to_channel}
use lib_stereo_camera.Client.{Json, string, integer, array, object, element, member, no_member}
use lib_stereo_camera.Json.{JsonOps, IsJson, elements_of, members_of, at-members_of}
use lib_stereo_camera.Buffer
use lib_stereo_camera.Buffer.{DataBuffer}
use lib_stereo_camera.Pipeline.Publisher.{parts_of, message_of, push_bundles}
use lib_stereo_camera.Loopback.{
  Loopback, channel_to_type, sub_parts, parts_arr, feed, finish, on_header, sub_message,
}

-- The bundles as they are made anew: from an address upwards, with the frame's time.
unfoldable pub copies : Timestamp → ℕ → List DataBundle → List DataBundle
copies ts address [] = []
copies ts address (x ∷ xs) =
    record x { address = address; timestamp = ts } ∷ copies ts (suc address) xs

-- The frame that the subscriber makes of one that was published.
unfoldable pub copied : ℕ → ChannelFrame → ChannelFrame
unfolding copies
copied address frame = record frame { bundles = copies frame.timestamp address frame.bundles }

abbrev part_json : {R : Type 0} → DataBundle → Json R
part_json x = object (
    member "id" (string (data_type_to_channel x.type))
      (member "size" (integer (pos (length x.payload))) no_member))

parts_of-elements_of :
    {R : Type 0} (xs : List DataBundle) → parts_of {R = R} xs ≡ elements_of (map part_json xs)
unfolding parts_of elements_of
parts_of-elements_of [] = refl
parts_of-elements_of (x ∷ xs) = ap (λ es. element (part_json x) es) (parts_of-elements_of xs)

module _ {R : Type 0} {lib : JsonOps R} (json : IsJson lib) where
  sub_parts_lem :
      (camera_id : String) (ts : Timestamp) (xs : List DataBundle) (address : ℕ) (b : DataBuffer)
      (acc : List DataBundle)
      → sub_parts lib camera_id ts (map part_json xs) (map (λ x. x.payload) xs) address b acc
        ≡ record {
          completed = true;
          buffer = push_bundles camera_id (copies ts address xs) b;
          bundles = acc ++ copies ts address xs;
        }
  unfolding sub_parts copies push_bundles channel_to_type
  sub_parts_lem camera_id ts [] address b acc =
      ap (λ bs. record { completed = true; buffer = b; bundles = bs }) (sym (append-nil acc))
  sub_parts_lem camera_id ts (x ∷ xs) address b acc =
      rw
        (
          json.value_text_found "id" "" (part_json x) (json.at_first "id" _ _),
          sub_parts,
          json.get_type_string x.type,
        )
        (let y : DataBundle = record x { address = address; timestamp = ts } in
          sub_parts_lem camera_id ts xs (suc address) (Buffer.push camera_id y b) (acc ++ y ∷ [])
          ∙ ap
              (λ bs. record {
                completed = true;
                buffer =
                    push_bundles camera_id (copies ts (suc address) xs) (Buffer.push camera_id y b);
                bundles = bs;
              })
              (append_assoc acc (y ∷ []) (copies ts (suc address) xs)))

  abbrev header_members : String → ChannelFrame → List (String × Json R)
  header_members channel frame =
      ("camera_id", string frame.camera_id)
      ∷ ("channel", string channel)
      ∷ ("parts", array (parts_of frame.bundles))
      ∷ ("ts_nsec", integer (signed64 frame.timestamp.nsec))
      ∷ ("ts_sec", integer (signed64 frame.timestamp.sec))
      ∷ []

  parts_arr_lem :
      (channel : String) (frame : ChannelFrame)
      → parts_arr lib (message_of channel frame).header ≡ map part_json frame.bundles
  unfolding parts_arr message_of members_of lookup string_discrete
  parts_arr_lem channel frame =
      rw
        (
          at-members_of json "parts" (header_members channel frame) refl,
          parts_arr,
          parts_of-elements_of frame.bundles,
        )
        (json.items_array (map part_json frame.bundles))

  -- A message of the publisher, whose header the library reads as it was written and whose time fits an
  -- `int64_t`, is received whole: the bundles of the frame, made anew from the given address with the
  -- frame's time, are pushed to the buffer in order, the callback is given the frame of these bundles
  -- if there are any, and the frame is counted.
  pub published_received :
      {E : Type 0} (encode_callback : Option (DataGroup → ChannelFrame → E → E))
      (parse : List ℕ → Option (Json R)) (topic hdr : List ℕ) (channel : String)
      (frame : ChannelFrame) (address : ℕ) (s : Loopback E)
      → frame.timestamp.sec < 2 ^ 63
      → frame.timestamp.nsec < 2 ^ 63
      → parse hdr ≡ some (message_of channel frame).header
      → let copy = copied address frame in
        sub_message lib encode_callback parse
          (topic ∷ hdr ∷ (message_of {R = R} channel frame).payloads)
          address
          s
        ≡ record {
          buffer = push_bundles frame.camera_id copy.bundles s.buffer;
          fed = feed encode_callback copy copy.bundles s.fed;
          total_frames = add_size s.total_frames 1;
        }
  unfolding sub_message on_header finish message_of members_of lookup string_discrete copied
  published_received encode_callback parse topic hdr channel frame address s small small' p =
      let ms = header_members channel frame in
      let j : Json R = object (members_of ms) in
      rw
        (
          p,
          sub_message,
          json.value_time_found "ts_sec" j small (
              at-members_of json "ts_sec" ms refl
              ∙ ap (λ n. some (integer n)) (signed64_small frame.timestamp.sec small)),
          json.value_time_found "ts_nsec" j small' (
              at-members_of json "ts_nsec" ms refl
              ∙ ap (λ n. some (integer n)) (signed64_small frame.timestamp.nsec small')),
          json.value_text_found "camera_id" "default" j (at-members_of json "camera_id" ms refl),
          parts_arr_lem channel frame,
          sub_parts_lem frame.camera_id frame.timestamp frame.bundles address s.buffer [],
        )
        refl

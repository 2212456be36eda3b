-- ===== src/Pipeline/Encode/Images.antt =====
-- src/data/WSServer.cpp, `encode_loop`: which images a pass encodes, and what it keeps of them.
use mathlib.Core.Path.{subst⁻¹}
use lib_stereo_camera.Common.{
  ℕ, suc, ◌≡◌, refl, sym, ap, ◌∙◌, arith, String, List, [], ◌∷◌, ◌++◌, map, filter, Bool, true,
  false, not, ◌&&◌, Option, none, some, if◌then◌else◌, Assoc, insert, string_discrete, is_yes,
  Bool-cases, inl, inr,
}
use lib_stereo_camera.Types.{stereo_image, data_type_discrete, DataBundle, ChannelFrame}
use lib_stereo_camera.Spsc.Refine.{IsValid, contents}
use lib_stereo_camera.Pipeline.{no_frame}
use lib_stereo_camera.Pipeline.Encode.{EncodeQueues, encode_stereo_image, has_encode_data}
use lib_stereo_camera.Pipeline.Encode.Loop.{
  Encoder, is_last, is_nil, store_encoded, encode_bundle, encode_bundles, encode_frames,
  encode_pass, encode_pass_lem,
}

-- A bundle with the camera that it came from.
abbrev pub Image : Type 0
Image = String × DataBundle

abbrev is_image : DataBundle → Bool
is_image x = is_yes (data_type_discrete x.type stereo_image) && not (is_nil x.payload)

-- The stereo images of frames that are not empty, in order.
unfoldable pub images : List ChannelFrame → List Image
images [] = []
images (frame ∷ frames) =
    map (λ x. (frame.camera_id, x)) (filter is_image frame.bundles) ++ images frames

-- Those whose address is not that of the one before.
unfoldable pub attempts : Option ℕ → List Image → List Image
attempts last [] = []
attempts last ((c, x) ∷ xs) =
    let rest = attempts (some x.address) xs in
    if is_last last x.address then rest else (c, x) ∷ rest

-- The address of the last of them.
unfoldable pub last_address : Option ℕ → List Image → Option ℕ
last_address last [] = last
last_address last ((c, x) ∷ xs) = last_address (some x.address) xs

-- What is put into the cache, one after the other.
unfoldable pub insert_all : List Image → Assoc String DataBundle → Assoc String DataBundle
insert_all [] m = m
insert_all ((c, x) ∷ xs) m = insert_all xs (insert string_discrete c x m)

module _ (compress : List ℕ → ℕ → ℕ → Option (List ℕ)) (allocate : ℕ → ℕ) where
  -- The bundle made of an image at the n-th address, if the encoding succeeded.
  abbrev made_of : ℕ → Image → Option (List ℕ) → List Image
  made_of n (c, x) none = []
  made_of n (c, x) (some encoded) = (c, record x { address = allocate n; payload = encoded }) ∷ []

  abbrev next_made : ℕ → List Image → ℕ
  next_made n [] = n
  next_made n (i ∷ is) = suc n

  unfoldable pub outputs : ℕ → List Image → List Image
  outputs n [] = []
  outputs n (i ∷ is) =
      let out = made_of n i (encode_stereo_image compress i.1.payload) in
      out ++ outputs (next_made n out) is

  -- What images make of an encoder, by what they are.
  pub record Encoded (xs : List Image) (st after : Encoder) : Type 0 where
    pub last : after.last_encoded_ptr ≡ last_address st.last_encoded_ptr xs
    pub cache :
        after.encoded_stereo
        ≡ insert_all (outputs st.made (attempts st.last_encoded_ptr xs)) st.encoded_stereo

  -- An image as the loop takes it.
  abbrev try_image : Image → Encoder → Encoder
  try_image (c, x) st =
      if is_last st.last_encoded_ptr x.address
      then st
      else store_encoded compress allocate c x (encode_stereo_image compress x.payload)
          (record st { last_encoded_ptr = some x.address })

  unfoldable try_all : List Image → Encoder → Encoder
  try_all [] st = st
  try_all (i ∷ is) st = try_all is (try_image i st)

  try_all-if :
      (stereo nil : Bool) (c : String) (x : DataBundle) (xs : List DataBundle) (st : Encoder)
      → try_all
          (map (λ y. (c, y)) xs)
          (if not stereo then st else if nil then st else try_image (c, x) st)
        ≡ try_all (map (λ y. (c, y)) (if stereo && not nil then x ∷ xs else xs)) st
  unfolding try_all
  try_all-if true true c x xs st = refl
  try_all-if true false c x xs st = refl
  try_all-if false nil c x xs st = refl

  encode_bundles-try_all :
      (c : String) (bundles : List DataBundle) (st : Encoder)
      → encode_bundles compress allocate c bundles st
        ≡ try_all (map (λ x. (c, x)) (filter is_image bundles)) st
  unfolding encode_bundles encode_bundle try_all filter
  encode_bundles-try_all c [] st = refl
  encode_bundles-try_all c (x ∷ xs) st =
      encode_bundles-try_all c xs (encode_bundle compress allocate c x st)
      ∙ try_all-if (is_yes (data_type_discrete x.type stereo_image)) (is_nil x.payload) c x
          (filter is_image xs) st

  try_all-append :
      (is js : List Image) (st : Encoder) → try_all (is ++ js) st ≡ try_all js (try_all is st)
  unfolding try_all
  try_all-append [] js st = refl
  try_all-append (i ∷ is) js st = try_all-append is js (try_image i st)

  encode_frames-try_all :
      (frames : List ChannelFrame) (st : Encoder)
      → encode_frames compress allocate frames st ≡ try_all (images frames) st
  unfolding encode_frames images try_all
  encode_frames-try_all [] st = refl
  encode_frames-try_all (frame ∷ frames) st =
      encode_frames-try_all frames
        (encode_bundles compress allocate frame.camera_id frame.bundles st)
      ∙ ap (try_all (images frames)) (encode_bundles-try_all frame.camera_id frame.bundles st)
      ∙ sym (
          try_all-append (map (λ x. (frame.camera_id, x)) (filter is_image frame.bundles))
            (images frames) st)

  last_is : (last : Option ℕ) (a : ℕ) → is_last last a ≡ true → last ≡ some a
  last_is none a h = absurd (ground arith)
  last_is (some b) a h = ap some (ground arith)

  -- One image and those after it.
  stored-Encoded :
      (c : String) (x : DataBundle) (o : Option (List ℕ)) (xs : List Image) (st : Encoder)
      {after : Encoder}
      → is_last st.last_encoded_ptr x.address ≡ false
      → encode_stereo_image compress x.payload ≡ o
      → Encoded xs
          (store_encoded compress allocate c x o (record st { last_encoded_ptr = some x.address }))
          after
      → Encoded ((c, x) ∷ xs) st after
  unfolding store_encoded attempts last_address outputs insert_all
  stored-Encoded c x none xs st other e v = record { last = v.last; cache = rw (other, e) v.cache }
  stored-Encoded c x (some encoded) xs st other e v = record {
    last = v.last;
    cache = rw (other, e) v.cache;
  }

  repeated-Encoded :
      (c : String) (x : DataBundle) (xs : List Image) (st : Encoder) {after : Encoder}
      → is_last st.last_encoded_ptr x.address ≡ true
      → Encoded xs st after
      → Encoded ((c, x) ∷ xs) st after
  unfolding attempts last_address
  repeated-Encoded c x xs st same v =
      let known = last_is st.last_encoded_ptr x.address same in
      record {
        last = v.last ∙ ap (λ l. last_address l xs) known;
        cache =
            v.cache
            ∙ ap (λ l. insert_all (outputs st.made (attempts l xs)) st.encoded_stereo) known
            ∙ rw same refl;
      }

  try_all-Encoded : (xs : List Image) (st : Encoder) → Encoded xs st (try_all xs st)
  unfolding try_all attempts outputs last_address insert_all
  try_all-Encoded [] st = record { last = refl; cache = refl }
  try_all-Encoded ((c, x) ∷ xs) st = elim (Bool-cases (is_last st.last_encoded_ptr x.address)) [
    | inl same ↦ repeated-Encoded c x xs st same (rw same (try_all-Encoded xs st))
    | inr other ↦
        stored-Encoded c x (encode_stereo_image compress x.payload) xs st other refl
          (rw other (try_all-Encoded xs _))
  ]

  -- A pass over valid queues keeps of the stereo images that the 2D queue holds, in their order and
  -- without the empty ones: the address of the last one, and in the cache, under each image's camera, the
  -- encoding of every image whose address is not that of the one before, as far as it succeeded. The
  -- frames of the other queues are thrown away, no data is left, and the pass tells whether there was any.
  pub encode_pass-images :
      (e : EncodeQueues) (st : Encoder)
      → IsValid e.encode_queue_2d
      → IsValid e.encode_queue_3d
      → IsValid e.encode_queue_sensor
      → let r = encode_pass compress allocate e st in
        Encoded (images (contents no_frame e.encode_queue_2d)) st r.1
        × (has_encode_data r.0 ≡ false)
        × (r.2 ≡ has_encode_data e)
  encode_pass-images e st v2 v3 vs =
      let (kept, drained, told) = encode_pass_lem compress allocate e st v2 v3 vs in
      let xs = images (contents no_frame e.encode_queue_2d) in
      (
        subst⁻¹ (Encoded xs st)
            (kept ∙ encode_frames-try_all (contents no_frame e.encode_queue_2d) st)
            (try_all-Encoded xs st),
        drained,
        told,
      )

-- ===== src/Server/Queue.antt =====
-- src/data/WSServer.cpp: the send queue of a client, over the passes of its two threads.
use mathlib.Core.Path.{subst⁻¹}
use lib_stereo_camera.Common.{
  ℕ, ◌≤◌, ◌≡◌, refl, ap, ◌∙◌, arith, String, List, [], ◌∷◌, ◌++◌, map, Bool, true, Option, none,
  some, Assoc, contains, Unique, erase_value, length, contains-erase_value, erase_value-Unique,
  Unique-append_one, length-Unique, both_branches, length-map, ◌==◌,
}
use lib_stereo_camera.Types.{
  DataType, stereo_image, depth_map, point_cloud, imu, disparity_map, confidence_map, temperature,
  magnetometer, barometer, data_type_discrete, DataBundle,
}
use lib_stereo_camera.Buffer.{DataBuffer, BufferSlotKey}
use lib_stereo_camera.Server.{
  SendItem, WssClient, erase_type, queue_bundle, wants, send_slot, send_slots, next_item, leave,
  send_found, pop_front,
}
use lib_stereo_camera.Server.Topics.{
  Incoming, nothing, broken, frame, send_pass, client_pass, on_frame,
}

abbrev types_of : List SendItem → List DataType
types_of queue = map (λ item. item.type) queue

-- No two items of the queue have the same type.
abbrev pub OnePerType : WssClient → Type 0
OnePerType c = Unique data_type_discrete (types_of c.send_queue)

abbrev all_types : List DataType
all_types =
    stereo_image ∷ depth_map ∷ point_cloud ∷ imu ∷ disparity_map ∷ confidence_map ∷ temperature
    ∷ magnetometer ∷ barometer ∷ []

contains-all_types : (t : DataType) → contains data_type_discrete t all_types ≡ true
unfolding contains data_type_discrete
contains-all_types stereo_image = refl
contains-all_types depth_map = refl
contains-all_types point_cloud = refl
contains-all_types imu = refl
contains-all_types disparity_map = refl
contains-all_types confidence_map = refl
contains-all_types temperature = refl
contains-all_types magnetometer = refl
contains-all_types barometer = refl

OnePerType-bound : (c : WssClient) → OnePerType c → length c.send_queue ≤ 9
OnePerType-bound c u =
    let few =
      length-Unique data_type_discrete (types_of c.send_queue) all_types
        (λ t h. contains-all_types t) u in
    omega (arith, few, length-map (λ item. item.type) c.send_queue)

types-erase_type :
    (type : DataType) (queue : List SendItem)
    → types_of (erase_type type queue) ≡ erase_value data_type_discrete type (types_of queue)
unfolding erase_type erase_value
types-erase_type type [] = refl
types-erase_type type (item ∷ queue) = ground (arith, types-erase_type type queue)

types-append : (xs ys : List SendItem) → types_of (xs ++ ys) ≡ types_of xs ++ types_of ys
types-append [] ys = refl
types-append (x ∷ xs) ys = ap (λ ts. x.type ∷ ts) (types-append xs ys)

queue_bundle-OnePerType :
    (slot : BufferSlotKey) (bundle : DataBundle) (c : WssClient)
    → OnePerType c
    → OnePerType (queue_bundle slot bundle c)
unfolding queue_bundle
queue_bundle-OnePerType slot bundle c u =
    let ts = types_of c.send_queue in
    let shape =
      types-append (erase_type slot.type c.send_queue)
        (record { type = slot.type; bundle = bundle } ∷ [])
      ∙ ap (λ us. us ++ slot.type ∷ []) (types-erase_type slot.type c.send_queue) in
    subst⁻¹ (Unique data_type_discrete) shape (
      Unique-append_one data_type_discrete slot.type (erase_value data_type_discrete slot.type ts)
        (ground (arith, contains-erase_value data_type_discrete slot.type slot.type ts))
        (erase_value-Unique data_type_discrete slot.type ts u))

module _ (P : WssClient → Type 0)
    (queued : (slot : BufferSlotKey) (bundle : DataBundle) (c : WssClient)
      → P c
      → P (queue_bundle slot bundle c))
    (encoded_stereo : Assoc String DataBundle) (buffer : DataBuffer) where
  send_found-keeps :
      (slot : BufferSlotKey) (found : Option DataBundle) (s : WssClient × ℕ)
      → P s.0
      → P (send_found slot found s).0
  unfolding send_found
  send_found-keeps slot none s p = p
  send_found-keeps slot (some bundle) s p = queued slot bundle s.0 p

  -- What queueing a bundle keeps, the loop over the slots keeps.
  pub send_slots-keeps :
      (slots : List BufferSlotKey) (s : WssClient × ℕ)
      → P s.0
      → P (send_slots encoded_stereo buffer slots s).0
  unfolding send_slots send_slot
  send_slots-keeps [] s p = p
  send_slots-keeps (slot ∷ slots) s p =
      send_slots-keeps slots (send_slot encoded_stereo buffer slot s) (
        both_branches {A = WssClient × ℕ} (λ r. P r.0) (wants slot s.0)
          (send_found-keeps slot _ s p) p)

pop_front-Unique :
    (queue : List SendItem)
    → Unique data_type_discrete (types_of queue)
    → Unique data_type_discrete (types_of (pop_front queue).1)
unfolding pop_front
pop_front-Unique [] u = u
pop_front-Unique (item ∷ queue) u = u.1

-- What can happen to a client: a pass of its `client_loop`, one slot of such a pass alone, and its
-- `send_loop` taking an item. A pass that the send thread cuts into is a series of slots and takes;
-- the buffer and the images differ from one to the next as other threads change them.
pub data Event : Type 0 where
  passes : Incoming → Assoc String DataBundle → DataBuffer → Event
  offers : Assoc String DataBundle → DataBuffer → BufferSlotKey → Event
  takes : Event

module _ {J : Type 0} (parse : List ℕ → Option J) (action : J → Option String)
    (has_topics : J → Bool) (topics : J → List (Option String)) where
  unfoldable pub happen : Event → WssClient × ℕ → WssClient × ℕ
  happen (passes incoming encoded_stereo buffer) s =
      client_pass parse action has_topics topics incoming encoded_stereo buffer s
  happen (offers encoded_stereo buffer slot) s = send_slot encoded_stereo buffer slot s
  happen takes s = ((next_item s.0).1, s.1)

  unfoldable pub happen_all : List Event → WssClient × ℕ → WssClient × ℕ
  happen_all [] s = s
  happen_all (e ∷ es) s = happen_all es (happen e s)

  send_pass-OnePerType :
      (encoded_stereo : Assoc String DataBundle) (buffer : DataBuffer) (s : WssClient × ℕ)
      → OnePerType s.0
      → OnePerType (send_pass parse action has_topics topics encoded_stereo buffer s).0
  unfolding send_pass
  send_pass-OnePerType encoded_stereo buffer s u =
      both_branches {A = WssClient × ℕ} (λ r. OnePerType r.0) _ u
        (send_slots-keeps OnePerType queue_bundle-OnePerType encoded_stereo buffer _ s u)

  on_frame-OnePerType :
      (opcode : ℕ) (payload : List ℕ) (c : WssClient)
      → OnePerType c
      → OnePerType (on_frame parse action has_topics topics opcode payload c)
  unfolding on_frame
  on_frame-OnePerType opcode [] c u = u
  on_frame-OnePerType opcode (byte ∷ bytes) c u = both_branches OnePerType (opcode == 1) u u

  happen-OnePerType : (e : Event) (s : WssClient × ℕ) → OnePerType s.0 → OnePerType (happen e s).0
  unfolding happen client_pass leave next_item send_slot wants send_slots
  happen-OnePerType (passes nothing encoded_stereo buffer) s u =
      send_pass-OnePerType encoded_stereo buffer s u
  happen-OnePerType (passes broken encoded_stereo buffer) s u = u
  happen-OnePerType (passes (frame opcode payload) encoded_stereo buffer) s u =
      both_branches {A = WssClient × ℕ} (λ r. OnePerType r.0) (opcode == 8) u
        (send_pass-OnePerType encoded_stereo buffer _ (on_frame-OnePerType opcode payload s.0 u))
  happen-OnePerType (offers encoded_stereo buffer slot) s u =
      send_slots-keeps OnePerType queue_bundle-OnePerType encoded_stereo buffer (slot ∷ []) s u
  happen-OnePerType takes s u = pop_front-Unique s.0.send_queue u

  -- From a client whose queue has at most one item of each type, and so from a new one: whatever
  -- messages it sends, whatever frames come and whenever the send thread takes an item, its queue
  -- has at most one item of each type, and so at most nine items.
  pub one_item_per_type :
      (es : List Event) (s : WssClient × ℕ)
      → OnePerType s.0
      → OnePerType (happen_all es s).0 × (length (happen_all es s).0.send_queue ≤ 9)
  unfolding happen_all
  one_item_per_type [] s u = (u, OnePerType-bound s.0 u)
  one_item_per_type (e ∷ es) s u = one_item_per_type es (happen e s) (happen-OnePerType e s u)

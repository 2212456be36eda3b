-- ===== src/Server/Again.antt =====
-- src/data/WSServer.cpp: `last_sent`, by which `client_loop` does not queue a bundle twice.
use Prim.Native.Char.{Char, code}
use Prim.Native.String
use Prim.Native.String.{String, [] as empty_text, ◌∷◌ as ◌:>◌, ◌++◌ as ◌+++◌, char_at}
use Prim.Native.String.append
use mathlib.Core.Path.{subst}
use lib_stereo_camera.Common.{
  ℕ, ◌≡◌, ◌≢◌, refl, sym, ap, ap₂, ◌∙◌, arith, List, [], ◌∷◌, Bool, true, false, Option, none, some,
  Assoc, lookup-insert, string_discrete, if◌then◌else◌, contains, Unique, contains_self, get_or,
  ◌-◌,
}
use lib_stereo_camera.Types.{
  DataType, DataBundle, stereo_image, depth_map, point_cloud, imu, disparity_map, confidence_map,
  temperature, magnetometer, barometer,
}
use lib_stereo_camera.Buffer.{DataBuffer, BufferSlotKey, key_discrete}
use lib_stereo_camera.Server.{
  WssClient, wants, sent_key, bundle_of, was_sent, to_send, queue_bundle, send_found, send_slot,
  send_slots, type_digit,
}

abbrev is_empty : String → Bool
is_empty empty_text = true
is_empty (c :> s) = false

abbrev tail : String → String
tail empty_text = empty_text
tail (c :> s) = s

append-not_empty : (s : String) (c : Char) (t : String) → is_empty (s +++ (c :> t)) ≡ false
append-not_empty empty_text c t = ap is_empty (append.nil (c :> t))
append-not_empty (b :> s) c t = ap is_empty (append.cons b s (c :> t))

append-not_one :
    (s : String) (c d : Char) → is_empty (tail (s +++ (c :> (d :> empty_text)))) ≡ false
append-not_one empty_text c d = ap (λ s. is_empty (tail s)) (append.nil (c :> (d :> empty_text)))
append-not_one (b :> s) c d =
    ap (λ s. is_empty (tail s)) (append.cons b s (c :> (d :> empty_text)))
    ∙ append-not_empty s c (d :> empty_text)

-- A text and the two characters after it, taken apart.
append-inj :
    (s t : String) (c x y : Char)
    → s +++ (c :> (x :> empty_text)) ≡ t +++ (c :> (y :> empty_text))
    → (s ≡ t) × (x ≡ y)
append-inj empty_text empty_text c x y e = (
  refl,
  ground (arith, e, append.nil (c :> (x :> empty_text)), append.nil (c :> (y :> empty_text))),
)
append-inj empty_text (b :> t) c x y e = ground (
  arith,
  ap (λ u. is_empty (tail (tail u))) e,
  ap (λ u. is_empty (tail (tail u))) (append.nil (c :> (x :> empty_text))),
  ap (λ u. is_empty (tail (tail u))) (append.cons b t (c :> (y :> empty_text))),
  append-not_one t c y,
)
append-inj (a :> s) empty_text c x y e = ground (
  arith,
  ap (λ u. is_empty (tail (tail u))) e,
  ap (λ u. is_empty (tail (tail u))) (append.nil (c :> (y :> empty_text))),
  ap (λ u. is_empty (tail (tail u))) (append.cons a s (c :> (x :> empty_text))),
  append-not_one s c x,
)
append-inj (a :> s) (b :> t) c x y e = ground (
  arith,
  append.cons a s (c :> (x :> empty_text)),
  append.cons b t (c :> (y :> empty_text)),
  append-inj s t c x y,
)

abbrev slash : Char
slash = "/"

-- The digit of a data type as a character, and the type back from its code.
digit_of : DataType → Char
digit_of t = char_at (type_digit t) 0

type_of_digit : ℕ → DataType
type_of_digit n =
    get_or
      (stereo_image ∷ depth_map ∷ point_cloud ∷ imu ∷ disparity_map ∷ confidence_map ∷ temperature
        ∷ magnetometer ∷ barometer ∷ [])
      (n - 48) imu

type_digit-digit_of :
    (t : DataType)
    → (String.◌++◌ "/" (type_digit t) ≡ slash :> (digit_of t :> empty_text))
      × (type_of_digit (code (digit_of t)) ≡ t)
unfolding type_digit digit_of type_of_digit
type_digit-digit_of stereo_image = (refl, refl)
type_digit-digit_of depth_map = (refl, refl)
type_digit-digit_of point_cloud = (refl, refl)
type_digit-digit_of imu = (refl, refl)
type_digit-digit_of disparity_map = (refl, refl)
type_digit-digit_of confidence_map = (refl, refl)
type_digit-digit_of temperature = (refl, refl)
type_digit-digit_of magnetometer = (refl, refl)
type_digit-digit_of barometer = (refl, refl)

sent_key_inj : (k j : BufferSlotKey) → sent_key k ≡ sent_key j → k ≡ j
unfolding sent_key
sent_key_inj k j e =
    let (kd, kt) = type_digit-digit_of k.type in
    let (jd, jt) = type_digit-digit_of j.type in
    let (same, digit) =
      append-inj k.camera_id j.camera_id slash (digit_of k.type) (digit_of j.type)
        (sym (ap (λ u. k.camera_id +++ u) kd) ∙ e ∙ ap (λ u. j.camera_id +++ u) jd) in
    ap₂ (λ c t. record { camera_id = c; type = t }) same (cc (kt, jt, digit))

to_send-queue_bundle :
    (slot : BufferSlotKey) (found : Option DataBundle) (c : WssClient) (x : DataBundle)
    → to_send slot found c ≡ some x
    → to_send slot found (queue_bundle slot x c) ≡ none
unfolding to_send was_sent queue_bundle
to_send-queue_bundle slot none c x h = refl
to_send-queue_bundle slot (some y) c x h =
    ground
      (arith, lookup-insert string_discrete (sent_key slot) (sent_key slot) x.address c.last_sent)

to_send-other :
    (slot other : BufferSlotKey) (found : Option DataBundle) (c : WssClient) (x : DataBundle)
    → sent_key other ≢ sent_key slot
    → to_send slot found (queue_bundle other x c) ≡ to_send slot found c
unfolding to_send was_sent queue_bundle
to_send-other slot other none c x ne = refl
to_send-other slot other (some y) c x ne =
    ground
      (arith, lookup-insert string_discrete (sent_key other) (sent_key slot) x.address c.last_sent)

module _ (encoded_stereo : Assoc String DataBundle) (buffer : DataBuffer) where
  -- What a slot has for a client; none once it is settled.
  abbrev offered : BufferSlotKey → WssClient → Option DataBundle
  offered slot c =
      if wants slot c then to_send slot (bundle_of encoded_stereo buffer slot) c else none

  settled-send_slot :
      (slot : BufferSlotKey) (s : WssClient × ℕ)
      → offered slot s.0 ≡ none
      → send_slot encoded_stereo buffer slot s ≡ s
  unfolding send_slot send_found
  settled-send_slot slot s h = ground arith

  found-settles :
      (slot : BufferSlotKey) (b : Bool) (found : Option DataBundle) (s : WssClient × ℕ)
      → wants slot s.0 ≡ b
      → to_send slot (bundle_of encoded_stereo buffer slot) s.0 ≡ found
      → offered slot (if b then send_found slot found s else s).0 ≡ none
  unfolding send_found wants queue_bundle
  found-settles slot false found s w f = ground arith
  found-settles slot true none s w f = ground arith
  found-settles slot true (some x) s w f =
      ground (arith, to_send-queue_bundle slot (bundle_of encoded_stereo buffer slot) s.0 x f)

  found-keeps :
      (slot other : BufferSlotKey) (b : Bool) (found : Option DataBundle) (s : WssClient × ℕ)
      → sent_key other ≢ sent_key slot
      → offered slot s.0 ≡ none
      → offered slot (if b then send_found other found s else s).0 ≡ none
  unfolding send_found wants queue_bundle
  found-keeps slot other false found s ne h = h
  found-keeps slot other true none s ne h = h
  found-keeps slot other true (some x) s ne h =
      ground (arith, to_send-other slot other (bundle_of encoded_stereo buffer slot) s.0 x ne)

  send_slot-settles :
      (slot : BufferSlotKey) (s : WssClient × ℕ)
      → offered slot (send_slot encoded_stereo buffer slot s).0 ≡ none
  unfolding send_slot
  send_slot-settles slot s = found-settles slot _ _ s refl refl

  send_slot-keeps :
      (slot other : BufferSlotKey) (s : WssClient × ℕ)
      → sent_key other ≢ sent_key slot
      → offered slot s.0 ≡ none
      → offered slot (send_slot encoded_stereo buffer other s).0 ≡ none
  unfolding send_slot
  send_slot-keeps slot other s ne h = found-keeps slot other _ _ s ne h

  -- Settled stays settled through the slots of other keys.
  send_slots-keeps :
      (slot : BufferSlotKey) (slots : List BufferSlotKey) (s : WssClient × ℕ)
      → contains key_discrete slot slots ≡ false
      → offered slot s.0 ≡ none
      → offered slot (send_slots encoded_stereo buffer slots s).0 ≡ none
  unfolding send_slots contains
  send_slots-keeps slot [] s u h = h
  send_slots-keeps slot (other ∷ slots) s u h =
      send_slots-keeps slot slots (send_slot encoded_stereo buffer other s) (ground arith)
        (send_slot-keeps slot other s (λ e. ground (arith, sent_key_inj other slot e)) h)

  settled-send_slots :
      (slots : List BufferSlotKey) (s : WssClient × ℕ)
      → ((slot : BufferSlotKey) → contains key_discrete slot slots ≡ true → offered slot s.0 ≡ none)
      → send_slots encoded_stereo buffer slots s ≡ s
  unfolding send_slots contains
  settled-send_slots [] s h = refl
  settled-send_slots (slot ∷ slots) s h =
      let same = settled-send_slot slot s (h slot (contains_self key_discrete slot slots)) in
      ap (send_slots encoded_stereo buffer slots) same
      ∙ settled-send_slots slots s (λ k e. h k (ground arith))

  send_slots-settles :
      (slots : List BufferSlotKey) (s : WssClient × ℕ)
      → Unique key_discrete slots
      → (slot : BufferSlotKey) → contains key_discrete slot slots ≡ true
      → offered slot (send_slots encoded_stereo buffer slots s).0 ≡ none
  unfolding send_slots contains
  send_slots-settles [] s u slot e = ground arith
  send_slots-settles (other ∷ slots) s u slot e =
      let s' = send_slot encoded_stereo buffer other s in
      elim (key_discrete other slot) [
        | yes same ↦
            send_slots-keeps slot slots s'
              (subst (λ k. contains key_discrete k slots ≡ false) same u.0)
              (subst (λ k. offered k s'.0 ≡ none) same (send_slot-settles other s))
        | no differ ↦ send_slots-settles slots s' u.1 slot (ground arith)
      ]

  -- While the buffer and the encoded images are the same, a second pass over the slots queues
  -- nothing: nothing of the client changes, nor the count of frames. No slot is listed twice.
  pub second_pass_idle :
      (slots : List BufferSlotKey) (s : WssClient × ℕ)
      → Unique key_discrete slots
      → let after = send_slots encoded_stereo buffer slots s in
        send_slots encoded_stereo buffer slots after ≡ after
  second_pass_idle slots s u =
      settled-send_slots slots (send_slots encoded_stereo buffer slots s)
        (send_slots-settles slots s u)

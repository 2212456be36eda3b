-- ===== src/Slots/Capture.antt =====
-- What starting and stopping a capture does.
use lib_stereo_camera.Common.{
  ◌<◌, String, List, true, false, ◌≡◌, ap, ◌∙◌, arith, none, Option-cases, inl, inr, lookup,
  contains, contains-erase_values, contains-missing_from, missing_from, missing_from_all,
  missing_from-add_missing, add_missing, erase_values-missing_from, string_discrete,
}
use lib_stereo_camera.Types.{DataType, data_type_discrete}
use lib_stereo_camera.Slots.{
  SdkSlot, SdkSlotManager, types_to_type_names, new_types, started, stopped, start_capture,
  stop_capture,
}
use lib_stereo_camera.Slots.Lifecycle.{
  get_client, capturing_active, halted, forced, stop_all, force_stop_all_captures,
}
use lib_stereo_camera.Slots.Invariant.{SlotIsValid, lookup-each_slot}

-- The list of "new" types that `start_capture` sends to the camera is always the list of all types
-- asked for, whichever types were active.
pub new_types-eq-all : (ts active : List DataType) → new_types ts active ≡ types_to_type_names ts
unfolding new_types
new_types-eq-all ts active = ap types_to_type_names (
    missing_from_all data_type_discrete (missing_from data_type_discrete ts active) ts
      (λ t asked. ground (arith, contains-missing_from data_type_discrete ts t active)))

-- On a valid slot, stopping types just started, none of which was active before, takes back the
-- subscription: the count, whether the camera captures, whether a dealer thread runs, and the active
-- types are what they were.
pub stopped-started :
    (ts : List DataType) {slot : SdkSlot}
    → SlotIsValid slot
    → ((t : DataType)
        → contains data_type_discrete t slot.active_types ≡ true
        → contains data_type_discrete t ts ≡ false)
    → let s = stopped ts (started ts slot) in
      (s.subscriber_count ≡ slot.subscriber_count)
      × (s.capturing ≡ slot.capturing)
      × (s.dealer_thread ≡ slot.dealer_thread)
      × (s.active_types ≡ slot.active_types)
unfolding stopped started
stopped-started ts {slot} v apart = (
  ground arith,
  ground (arith, v.counted),
  ground (arith, v.counted, v.threaded),
  erase_values-missing_from data_type_discrete ts _
      ∙ missing_from-add_missing data_type_discrete ts ts slot.active_types (λ t h. h)
      ∙ missing_from_all data_type_discrete ts slot.active_types apart,
)

-- Two subscribers start the same types, and one of them stops: the camera goes on capturing for
-- the other, but none of the types is active any more.
pub stop_takes_types_of_others :
    (ts : List DataType) (slot : SdkSlot) (t : DataType)
    → contains data_type_discrete t ts ≡ true
    → let s = stopped ts (started ts (started ts slot)) in
      (s.capturing ≡ true)
      × (0 < s.subscriber_count)
      × (contains data_type_discrete t s.active_types ≡ false)
unfolding stopped started
stop_takes_types_of_others ts slot t h = (
  ground arith,
  ground arith,
  ground (
    arith,
    contains-erase_values data_type_discrete ts t
        (add_missing data_type_discrete ts (add_missing data_type_discrete ts slot.active_types)),
  ),
)

-- A camera that is not known is refused by `start_capture` and `stop_capture`, it has no client and
-- does not capture, and nothing changes.
pub unknown_camera :
    {R : Type 0} (id : String) (ts : List DataType) (m : SdkSlotManager R)
    → lookup string_discrete id m.slots ≡ none
    → (start_capture id ts m ≡ (false, m))
      × (stop_capture id ts m ≡ (false, m))
      × (get_client id m ≡ none)
      × (capturing_active id m ≡ false)
unfolding start_capture stop_capture get_client capturing_active
unknown_camera id ts m e = (ground arith, ground arith, ground arith, ground arith)

-- `stop_all` and `force_stop_all_captures` leave no camera capturing.
pub stops_all_captures :
    {R : Type 0} (id : String) (m : SdkSlotManager R)
    → (capturing_active id (stop_all m) ≡ false)
      × (capturing_active id (force_stop_all_captures m) ≡ false)
unfolding capturing_active stop_all force_stop_all_captures halted forced
stops_all_captures id m = elim (Option-cases (lookup string_discrete id m.slots)) [
  | inl e ↦ (
    ground (arith, lookup-each_slot halted id m.slots),
    ground (arith, lookup-each_slot forced id m.slots),
  )
  | inr (slot, e) ↦ (
    ground (arith, lookup-each_slot halted id m.slots),
    ground (arith, lookup-each_slot forced id m.slots),
  )
]

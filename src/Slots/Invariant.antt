-- ===== src/Slots/Invariant.antt =====
-- What every method of `SDKSlotManager` keeps true of each camera's slot.
use mathlib.Core.Option
use mathlib.Core.Path.{subst}
use lib_stereo_camera.Common.{
  String, List, [], ◌∷◌, true, false, Bool, Bool-cases, ◌||◌, Option, none, ap, ap₂, ◌≡◌, refl,
  arith, some, Option-cases, inl, inr, both_branches, ltb, Assoc, lookup, insert, lookup-insert,
  contains, Unique, contains-append, contains-add_missing, contains-erase_values,
  contains-missing_from, add_missing-Unique, erase_values-Unique, string_discrete, missing_from,
  erase_values,
}
use lib_stereo_camera.Types.{DataType, data_type_discrete, data_type_to_group}
use lib_stereo_camera.Client.{Replies}
use lib_stereo_camera.Buffer.{DataBuffer}
use lib_stereo_camera.Slots.{
  SdkSlot, SdkSlotManager, CameraSdkConfig, make, new_slot, configure, owns_thread, started,
  start_capture, stopped, stop_capture, types_to_channels,
}
use lib_stereo_camera.Slots.Channels.{topic_of, topic-types_to_channels}
use lib_stereo_camera.Slots.Lifecycle.{
  halted, forced, each_slot, start_all, stop_all, force_stop_all_captures,
}

-- A camera captures exactly while it has subscribers, and then a dealer thread runs for it; no type
-- is listed twice; and the ZMQ channel of each active type is active.
pub record SlotIsValid (slot : SdkSlot) : Type 0 where
  pub counted : slot.capturing ≡ ltb 0 slot.subscriber_count
  pub threaded : slot.dealer_thread ≡ slot.capturing
  pub types_once : Unique data_type_discrete slot.active_types
  pub covered :
      (t : DataType)
      → contains data_type_discrete t slot.active_types ≡ true
      → contains string_discrete (topic_of (data_type_to_group t)) slot.active_channels ≡ true

pub new_slot-IsValid : (cfg : CameraSdkConfig) → SlotIsValid (new_slot cfg)
unfolding new_slot contains
new_slot-IsValid cfg = record {
  counted = refl;
  threaded = refl;
  types_once = tt;
  covered = λ t h. ground arith;
}

pub started-IsValid :
    (ts : List DataType) {slot : SdkSlot} → SlotIsValid slot → SlotIsValid (started ts slot)
unfolding started
started-IsValid ts {slot} v = record {
  counted = ground arith;
  threaded = ground (arith, v.threaded);
  types_once = add_missing-Unique data_type_discrete ts slot.active_types v.types_once;
  covered = λ t h. ground (
    arith,
    contains-add_missing data_type_discrete ts t slot.active_types,
    contains-append string_discrete (topic_of (data_type_to_group t)) slot.active_channels
        (missing_from string_discrete slot.active_channels (types_to_channels ts)),
    contains-missing_from string_discrete slot.active_channels (topic_of (data_type_to_group t))
        (types_to_channels ts),
    topic-types_to_channels t ts,
    v.covered t,
  );
}

pub stopped-IsValid :
    (ts : List DataType) {slot : SdkSlot} → SlotIsValid slot → SlotIsValid (stopped ts slot)
unfolding stopped
stopped-IsValid ts {slot} v = record {
  counted = ground (arith, v.counted);
  threaded = ground (arith, v.threaded);
  types_once = erase_values-Unique data_type_discrete ts slot.active_types v.types_once;
  covered = λ t h. ground (
    arith,
    contains-erase_values data_type_discrete ts t slot.active_types,
    contains-erase_values string_discrete
        (missing_from string_discrete
          (types_to_channels (erase_values data_type_discrete ts slot.active_types))
          (types_to_channels ts))
        (topic_of (data_type_to_group t)) slot.active_channels,
    contains-missing_from string_discrete
        (types_to_channels (erase_values data_type_discrete ts slot.active_types))
        (topic_of (data_type_to_group t)) (types_to_channels ts),
    topic-types_to_channels t (erase_values data_type_discrete ts slot.active_types),
    v.covered t,
  );
}

halted-IsValid : {slot : SdkSlot} → SlotIsValid slot → SlotIsValid (halted slot)
unfolding halted
halted-IsValid v = record {
  counted = refl;
  threaded = refl;
  types_once = v.types_once;
  covered = v.covered;
}

forced-IsValid : {slot : SdkSlot} → SlotIsValid slot → SlotIsValid (forced slot)
unfolding forced contains
forced-IsValid {slot} v =
    both_branches SlotIsValid slot.capturing
      (record { counted = refl; threaded = refl; types_once = tt; covered = λ t h. ground arith }) v

-- A slot found after a change of all slots is the change of a slot found before.
pub lookup-each_slot :
    (f : SdkSlot → SdkSlot) (id : String) (m : Assoc String SdkSlot)
    → lookup string_discrete id (each_slot f m) ≡ Option.map f (lookup string_discrete id m)
unfolding lookup
lookup-each_slot f id [] = refl
lookup-each_slot f id ((k, s) ∷ m) = ground (arith, lookup-each_slot f id m)

-- The calls that change the manager.
pub data Op : Type 0 where
  configures : List CameraSdkConfig → Op
  starts stops : String → List DataType → Op
  starts_all stops_all forces_all : Op

-- Whether one of the cameras that are configured has a slot that owns a dealer thread.
unfoldable pub owns_any : List CameraSdkConfig → Assoc String SdkSlot → Bool
owns_any [] slots = false
owns_any (cfg ∷ cfgs) slots = owns_thread cfg.id slots || owns_any cfgs slots

owns_thread-insert :
    (id : String) (cfg : CameraSdkConfig) (slots : Assoc String SdkSlot)
    → owns_thread cfg.id slots ≡ false
    → owns_thread id (insert string_discrete cfg.id (new_slot cfg) slots) ≡ owns_thread id slots
unfolding owns_thread new_slot
owns_thread-insert id cfg slots free = elim (string_discrete cfg.id id) [
  | yes p ↦ ground (
    arith,
    lookup-insert string_discrete cfg.id id (new_slot cfg) slots,
    ap (λ k. owns_thread k slots) p,
  )
  | no p ↦ ground (arith, lookup-insert string_discrete cfg.id id (new_slot cfg) slots)
]

owns_any-insert :
    (cfgs : List CameraSdkConfig) (cfg : CameraSdkConfig) (slots : Assoc String SdkSlot)
    → owns_thread cfg.id slots ≡ false
    → owns_any cfgs (insert string_discrete cfg.id (new_slot cfg) slots) ≡ owns_any cfgs slots
unfolding owns_any
owns_any-insert [] cfg slots free = refl
owns_any-insert (c ∷ cfgs) cfg slots free =
    ap₂ (λ a b. a || b) (owns_thread-insert c.id cfg slots free)
      (owns_any-insert cfgs cfg slots free)

module _ {R : Type 0} where
  pub record IsValid (m : SdkSlotManager R) : Type 0 where
    pub each :
        (id : String) (slot : SdkSlot)
        → lookup string_discrete id m.slots ≡ some slot
        → SlotIsValid slot

  pub new_manager-IsValid : (b : DataBuffer) → IsValid (make b)
  unfolding make lookup
  new_manager-IsValid b = record { each = λ id s e. absurd (ground arith) }

  pub insert-valid :
      (id : String) (slot : SdkSlot) (m : SdkSlotManager R)
      → SlotIsValid slot
      → IsValid m
      → (j : String) (s : SdkSlot)
      → lookup string_discrete j (insert string_discrete id slot m.slots) ≡ some s
      → SlotIsValid s
  insert-valid id slot m good v j s e = elim (string_discrete id j) [
    | yes p ↦
        subst SlotIsValid {x = slot}
          (ground (arith, lookup-insert string_discrete id j slot m.slots)) good
    | no p ↦ v.each j s (ground (arith, lookup-insert string_discrete id j slot m.slots))
  ]

  -- A call that ends the process gives nothing, and any other one a valid manager.
  unfoldable pub Outcome : Bool → Option (SdkSlotManager R) → Type 0
  Outcome true o = o ≡ none
  Outcome false o = (m : SdkSlotManager R) × (o ≡ some m) × IsValid m

  pub configure-IsValid :
      (cfgs : List CameraSdkConfig) (m : SdkSlotManager R)
      → IsValid m
      → Outcome (owns_any cfgs m.slots) (configure cfgs m)
  unfolding configure owns_any Outcome
  configure-IsValid [] m v = (m, refl, v)
  configure-IsValid (cfg ∷ cfgs) m v = elim (Bool-cases (owns_thread cfg.id m.slots)) [
    | inl owned ↦ rw owned refl
    | inr free ↦
        rw (free, ← owns_any-insert cfgs cfg m.slots free)
          (configure-IsValid cfgs _
            (record { each = insert-valid cfg.id (new_slot cfg) m (new_slot-IsValid cfg) v }))
  ]

  pub start_capture-IsValid :
      (id : String) (ts : List DataType) (m : SdkSlotManager R)
      → IsValid m
      → IsValid (start_capture id ts m).1
  unfolding start_capture
  start_capture-IsValid id ts m v = elim (Option-cases (lookup string_discrete id m.slots)) [
    | inl e ↦ rw (e, start_capture) v
    | inr (slot, e) ↦
        rw (e, start_capture)
          (record {
            each = insert-valid id (started ts slot) m (started-IsValid ts (v.each id slot e)) v;
          })
  ]

  pub stop_capture-IsValid :
      (id : String) (ts : List DataType) (m : SdkSlotManager R)
      → IsValid m
      → IsValid (stop_capture id ts m).1
  unfolding stop_capture
  stop_capture-IsValid id ts m v = elim (Option-cases (lookup string_discrete id m.slots)) [
    | inl e ↦ rw (e, stop_capture) v
    | inr (slot, e) ↦
        rw (e, stop_capture)
          (record {
            each = insert-valid id (stopped ts slot) m (stopped-IsValid ts (v.each id slot e)) v;
          })
  ]

  each_slot-valid :
      (f : SdkSlot → SdkSlot) (m : SdkSlotManager R)
      → ((s : SdkSlot) → SlotIsValid s → SlotIsValid (f s))
      → IsValid m
      → (j : String) (s : SdkSlot) → lookup string_discrete j (each_slot f m.slots) ≡ some s
      → SlotIsValid s
  each_slot-valid f m keeps v j s e = elim (Option-cases (lookup string_discrete j m.slots)) [
    | inl gone ↦ absurd (ground (arith, lookup-each_slot f j m.slots))
    | inr (t, found) ↦
        subst SlotIsValid {x = f t} (ground (arith, lookup-each_slot f j m.slots))
          (keeps t (v.each j t found))
  ]

  unfoldable pub step : Replies R → Op → SdkSlotManager R → Option (SdkSlotManager R)
  step reply (configures cfgs) m = configure cfgs m
  step reply (starts id ts) m = some (start_capture id ts m).1
  step reply (stops id ts) m = some (stop_capture id ts m).1
  step reply starts_all m = some (start_all reply m)
  step reply stops_all m = some (stop_all m)
  step reply forces_all m = some (force_stop_all_captures m)

  -- The calls that end the process: a configuration that names a camera whose slot owns a dealer thread.
  unfoldable pub terminates : Op → SdkSlotManager R → Bool
  unfolding owns_any
  terminates (configures cfgs) m = owns_any cfgs m.slots
  terminates (starts id ts) m = false
  terminates (stops id ts) m = false
  terminates starts_all m = false
  terminates stops_all m = false
  terminates forces_all m = false

  -- A configuration that names a camera whose slot owns a dealer thread ends the process. Every other
  -- call returns and keeps the slots of all cameras valid, whatever the camera service replies:
  -- `SlotIsValid` says what that is.
  pub step-IsValid :
      (reply : Replies R) (op : Op) (m : SdkSlotManager R)
      → IsValid m
      → Outcome (terminates op m) (step reply op m)
  unfolding step terminates Outcome start_all stop_all force_stop_all_captures
  step-IsValid reply (configures cfgs) m v = configure-IsValid cfgs m v
  step-IsValid reply (starts id ts) m v =
      ((start_capture id ts m).1, refl, start_capture-IsValid id ts m v)
  step-IsValid reply (stops id ts) m v =
      ((stop_capture id ts m).1, refl, stop_capture-IsValid id ts m v)
  step-IsValid reply starts_all m v = (start_all reply m, refl, record { each = v.each })
  step-IsValid reply stops_all m v =
      (stop_all m, refl, record { each = each_slot-valid halted m (λ s. halted-IsValid) v })
  step-IsValid reply forces_all m v = (
    force_stop_all_captures m,
    refl,
    record { each = each_slot-valid forced m (λ s. forced-IsValid) v },
  )

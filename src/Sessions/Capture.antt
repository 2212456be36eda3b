-- ===== src/Sessions/Capture.antt =====
-- What the commands of clients do to the captures.
mod Started
use lib_stereo_camera.Common.{
  ◌≡◌, ◌≢◌, refl, ap, ◌∙◌, sym, arith, String, List, [], ◌∷◌, true, false, Option, none, some,
  Option-cases, Bool-cases, inl, inr, Assoc, lookup, insert, lookup-insert, string_discrete,
  contains, contains-add_missing, map, add_missing,
}
use lib_stereo_camera.Types.{DataType, stereo_image, data_type_discrete, success}
use lib_stereo_camera.Client.{make_response}
use lib_stereo_camera.Slots.{SdkSlot, SdkSlotManager, start_capture, started, stopped, stop_capture}
use lib_stereo_camera.Slots.Lifecycle.{get_camera_ids}
use lib_stereo_camera.Sessions.{
  ClientSession, ClientHandler, connected_session, set_session, add_types, close_session, release,
  capture_types, first_camera, handle_disconnect, handle_start_capture, handle_stop_capture,
  drop_types,
}
use lib_stereo_camera.Slots.Invariant.{SlotIsValid}
use lib_stereo_camera.Slots.Capture.{stopped-started}
use lib_stereo_camera.Sessions.Capture.Started.{
  handle_start_capture-found, connected_after_start, found_after_start, handle_disconnect-found,
  found-stop_capture, handle_stop_capture-found, after_start, camera_after_start, started_manager,
}

-- The slot of a handler's camera.
unfoldable pub slot_of : {R : Type 0} → String → ClientHandler R → Option SdkSlot
slot_of id h = elim h.sdk_manager [ none ↦ none | some m ↦ lookup string_discrete id m.slots ]

-- A connected client starts a capture on the node's first camera, none of whose types is active,
-- and stops it again with the same request: both are answered `Success`, and the camera's
-- subscriber count, whether it captures, whether a dealer thread runs, and the active types are
-- what they were.
pub stop_undoes_start :
    {R : Type 0} (client_id : String) (types : List DataType) (h : ClientHandler R)
    {s : ClientSession} {m : SdkSlotManager R} {slot : SdkSlot}
    → connected_session client_id h.sessions ≡ some s
    → h.sdk_manager ≡ some m
    → lookup string_discrete (first_camera (get_camera_ids m)) m.slots ≡ some slot
    → SlotIsValid slot
    → ((t : DataType)
        → contains data_type_discrete t slot.active_types ≡ true
        → contains data_type_discrete t (capture_types types) ≡ false)
    → let r = handle_start_capture client_id types h in
      let q = handle_stop_capture client_id types r.1 in
      (r.0 ≡ make_response success "Capture started")
      × (q.0 ≡ make_response success "Capture stopped")
      × ((after : SdkSlot) × (slot_of (first_camera (get_camera_ids m)) q.1 ≡ some after)
          × (after.subscriber_count ≡ slot.subscriber_count)
          × (after.capturing ≡ slot.capturing)
          × (after.dealer_thread ≡ slot.dealer_thread)
          × (after.active_types ≡ slot.active_types))
unfolding slot_of
stop_undoes_start client_id types h {s} {m} {slot} e managed found v apart =
    let kept = stopped-started (capture_types types) v apart in
    rw
      (
        handle_start_capture-found client_id types h e managed found,
        handle_stop_capture-found client_id types (after_start client_id types h e managed found)
            (connected_after_start client_id types h e managed found) refl
            (found_after_start client_id types h e managed found),
      )
      (
        refl,
        refl,
        (
          stopped (capture_types types) (started (capture_types types) slot),
          rw (camera_after_start client_id types h e managed found) (
              found-stop_capture (first_camera (get_camera_ids m)) (capture_types types)
                (started_manager client_id types h e managed found)
                (ap
                    (λ id.
                      lookup string_discrete id
                        (started_manager client_id types h e managed found).slots)
                    (sym (camera_after_start client_id types h e managed found))
                  ∙ found_after_start client_id types h e managed found)),
          kept.0,
          kept.1,
          kept.2,
          kept.3,
        ),
      )

release-some :
    {R : Type 0} (id : String) (ts : List DataType) (m : SdkSlotManager R) (t : DataType)
    → id ≢ ""
    → contains data_type_discrete t ts ≡ true
    → release id ts (some m) ≡ some (stop_capture id ts m).1
unfolding release contains
release-some id [] m t named h = absurd (ground arith)
release-some id (u ∷ ts) m t named h = ground arith

stopped-twice_started :
    (ts us : List DataType) (slot : SdkSlot)
    → (stopped us (started ts (started ts slot))).capturing ≡ true
unfolding stopped started
stopped-twice_started ts us slot = ground arith

closed_session :
    {R : Type 0} (client_id : String) (s : ClientSession) (h : ClientHandler R)
    → connected_session client_id (set_session client_id (close_session s) h).sessions ≡ none
unfolding connected_session set_session close_session
closed_session client_id s h =
    ground (arith, lookup-insert string_discrete client_id client_id (close_session s) h.sessions)

-- The slot after the cleanup of a disconnect.
slot_of-release :
    {R : Type 0} (id camera_id : String) (ts : List DataType) (h : ClientHandler R)
    (m : SdkSlotManager R) (t : DataType) {slot : SdkSlot}
    → camera_id ≡ id
    → id ≢ ""
    → contains data_type_discrete t ts ≡ true
    → lookup string_discrete id m.slots ≡ some slot
    → slot_of id (record h { sdk_manager = release camera_id ts (some m) }) ≡ some (stopped ts slot)
unfolding slot_of
slot_of-release id camera_id ts h m t same named asked found =
    rw (same, release-some id ts m t named asked) (found-stop_capture id ts m found)

-- A request always asks for a type.
asks_for_one :
    (types : List DataType)
    → (t : DataType) × (contains data_type_discrete t (capture_types types) ≡ true)
unfolding capture_types contains
asks_for_one [] = (stereo_image, ground arith)
asks_for_one (t ∷ ts) = (t, ground (arith, data_type_discrete t t))

-- A connected client that starts a capture on the node's first camera twice and then disconnects
-- leaves the camera capturing: its disconnect takes back one of the two subscriptions.
pub disconnect_after_two_starts :
    {R : Type 0} (client_id : String) (types : List DataType) (h : ClientHandler R)
    {s : ClientSession} {m : SdkSlotManager R} {slot : SdkSlot}
    → connected_session client_id h.sessions ≡ some s
    → h.sdk_manager ≡ some m
    → lookup string_discrete (first_camera (get_camera_ids m)) m.slots ≡ some slot
    → first_camera (get_camera_ids m) ≢ ""
    → let once = (handle_start_capture client_id types h).1 in
      let twice = (handle_start_capture client_id types once).1 in
      let r = handle_disconnect client_id twice in
      (r.0 ≡ make_response success "Disconnected")
      × (connected_session client_id r.1.sessions ≡ none)
      × ((after : SdkSlot) × (slot_of (first_camera (get_camera_ids m)) r.1 ≡ some after)
          × (after.capturing ≡ true))
unfolding slot_of add_types
disconnect_after_two_starts client_id types h {s} {m} {slot} e managed found named =
    let asked = capture_types types in
    let h1 = after_start client_id types h e managed found in
    let e1 = connected_after_start client_id types h e managed found in
    let f1 = found_after_start client_id types h e managed found in
    let same1 = camera_after_start client_id types h e managed found in
    let h2 = after_start client_id types h1 e1 refl f1 in
    let e2 = connected_after_start client_id types h1 e1 refl f1 in
    let f2 = found_after_start client_id types h1 e1 refl f1 in
    let m2 = started_manager client_id types h1 e1 refl f1 in
    let same2 = camera_after_start client_id types h1 e1 refl f1 in
    let one = asks_for_one types in
    let ts =
      add_missing data_type_discrete asked (add_missing data_type_discrete asked s.active_types) in
    rw
      (
        handle_start_capture-found client_id types h e managed found,
        handle_start_capture-found client_id types h1 e1 refl f1,
        handle_disconnect-found client_id types h2 e2 refl f2,
      )
      (
        refl,
        closed_session client_id _ h2,
        (
          stopped ts (started asked (started asked slot)),
          slot_of-release (first_camera (get_camera_ids m)) _ ts h2 m2 one.0 same1 named
              (ground (
                arith,
                one.1,
                contains-add_missing data_type_discrete asked one.0
                    (add_missing data_type_discrete asked s.active_types),
              ))
              (ap (λ id. lookup string_discrete id m2.slots) (sym (same2 ∙ same1)) ∙ f2),
          stopped-twice_started asked ts slot,
        ),
      )

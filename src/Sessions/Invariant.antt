-- ===== src/Sessions/Invariant.antt =====
-- What every handler of src/api/ClientHandler.cpp keeps true of the sessions and of the cameras.
pub mod Asking
use mathlib.Core.Path.{subst}
use lib_stereo_camera.Common.{
  ◌≡◌, refl, arith, String, List, [], ◌∷◌, true, false, Bool-cases, both_branches, Option, none,
  some, Option-cases, inl, inr, is_yes, lookup, lookup-insert, string_discrete, Unique,
  add_missing-Unique, erase_values-Unique,
}
use lib_stereo_camera.Types.{DataType, data_type_discrete}
use lib_stereo_camera.Client.{
  Replies, ParameterValue, Response, Request, make_response_with, set_parameter, get_parameter,
}
use lib_stereo_camera.Slots.{SdkSlotManager}
use lib_stereo_camera.Slots.Lifecycle.{get_camera_ids, get_client}
use lib_stereo_camera.Slots.Invariant
use lib_stereo_camera.Slots.Invariant.{start_capture-IsValid, stop_capture-IsValid}
use lib_stereo_camera.Sessions.{
  ClientSession, ClientHandler, connected_session, session_of, set_session, open_session,
  close_session, add_types, drop_types, capture_types, first_camera, release, ask_client, ask_first,
  ask_camera, reopen_detail, handle_connect, handle_disconnect, handle_start_capture,
  handle_stop_capture, handle_set_parameter, handle_get_parameter,
}

-- A session lists no type twice, and none while it is not connected.
pub record SessionIsValid (s : ClientSession) : Type 0 where
  pub types_once : Unique data_type_discrete s.active_types
  pub idle : s.connected ≡ false → s.active_types ≡ []

unfoldable pub ManagerIsValid : {R : Type 0} → Option (SdkSlotManager R) → Type 0
ManagerIsValid none = Unit
ManagerIsValid (some m) = Invariant.IsValid m

pub record HandlerIsValid {R : Type 0} (h : ClientHandler R) : Type 0 where
  pub session :
      (id : String) (s : ClientSession)
      → lookup string_discrete id h.sessions ≡ some s
      → SessionIsValid s
  pub manager : ManagerIsValid h.sdk_manager

open_session-IsValid :
    (id : String) {s : ClientSession} → SessionIsValid s → SessionIsValid (open_session id s)
unfolding open_session
open_session-IsValid id v = record { types_once = v.types_once; idle = λ e. absurd (ground arith) }

close_session-IsValid : (s : ClientSession) → SessionIsValid (close_session s)
unfolding close_session
close_session-IsValid s = record { types_once = tt; idle = λ e. refl }

add_types-IsValid :
    (ts : List DataType) {s : ClientSession} (id : String)
    → s.connected ≡ true
    → SessionIsValid s
    → SessionIsValid (record (add_types ts s) { camera_id = id })
unfolding add_types
add_types-IsValid ts {s} id up v = record {
  types_once = add_missing-Unique data_type_discrete ts s.active_types v.types_once;
  idle = λ e. absurd (ground arith);
}

drop_types-IsValid :
    (ts : List DataType) {s : ClientSession}
    → s.connected ≡ true
    → SessionIsValid s
    → SessionIsValid (drop_types ts s)
unfolding drop_types
drop_types-IsValid ts {s} up v = record {
  types_once = erase_values-Unique data_type_discrete ts s.active_types v.types_once;
  idle = λ e. absurd (ground arith);
}

module _ {R : Type 0} where
  connected-IsValid :
      (id : String) {s : ClientSession} (h : ClientHandler R)
      → connected_session id h.sessions ≡ some s
      → HandlerIsValid h
      → SessionIsValid s × (s.connected ≡ true)
  unfolding connected_session
  connected-IsValid id {s} h e v = elim (Option-cases (lookup string_discrete id h.sessions)) [
    | inl gone ↦ absurd (ground arith)
    | inr (t, found) ↦
        let same : t ≡ s = ground (arith, Bool-cases t.connected) in
        (subst SessionIsValid same (v.session id t found), ground (arith, Bool-cases t.connected))
  ]

  session_of-IsValid :
      (id : String) (h : ClientHandler R)
      → HandlerIsValid h
      → SessionIsValid (session_of id h.sessions)
  unfolding session_of
  session_of-IsValid id h v = elim (Option-cases (lookup string_discrete id h.sessions)) [
    | inl gone ↦ rw (gone, session_of) (record { types_once = tt; idle = λ e. refl })
    | inr (t, found) ↦ rw (found, session_of) (v.session id t found)
  ]

  set_session-valid :
      (id : String) (s : ClientSession) (h : ClientHandler R)
      → SessionIsValid s
      → HandlerIsValid h
      → (j : String) (t : ClientSession)
      → lookup string_discrete j (set_session id s h).sessions ≡ some t
      → SessionIsValid t
  unfolding set_session
  set_session-valid id s h good v j t e = elim (string_discrete id j) [
    | yes p ↦
        subst SessionIsValid {x = s}
          (ground (arith, lookup-insert string_discrete id j s h.sessions)) good
    | no p ↦ v.session j t (ground (arith, lookup-insert string_discrete id j s h.sessions))
  ]

  release-IsValid :
      (id : String) (ts : List DataType) (m : Option (SdkSlotManager R))
      → ManagerIsValid m
      → ManagerIsValid (release id ts m)
  unfolding release ManagerIsValid
  release-IsValid id ts none v = v
  release-IsValid id [] (some m) v = v
  release-IsValid id (t ∷ ts) (some m) v =
      both_branches ManagerIsValid (is_yes (string_discrete id "")) v
        (stop_capture-IsValid id (t ∷ ts) m v)

  pub handle_connect-IsValid :
      (id : String) (h : ClientHandler R)
      → HandlerIsValid h
      → HandlerIsValid (handle_connect id h).1
  unfolding handle_connect set_session
  handle_connect-IsValid id h v =
      both_branches (λ (r : Response R × ClientHandler R). HandlerIsValid r.1) h.module_initialized
        (both_branches (λ (r : Response R × ClientHandler R). HandlerIsValid r.1)
          (session_of id h.sessions).connected v
          record {
            session =
                set_session-valid id (open_session id (session_of id h.sessions)) h
                  (open_session-IsValid id (session_of-IsValid id h v)) v;
            manager = v.manager;
          })
        v

  pub handle_disconnect-IsValid :
      (id : String) (h : ClientHandler R)
      → HandlerIsValid h
      → HandlerIsValid (handle_disconnect id h).1
  unfolding handle_disconnect set_session
  handle_disconnect-IsValid id h v = elim (Option-cases (connected_session id h.sessions)) [
    | inl e ↦ rw (e, handle_disconnect) v
    | inr (s, e) ↦
        rw (e, handle_disconnect)
          record {
            session = set_session-valid id (close_session s) h (close_session-IsValid s) v;
            manager = release-IsValid s.camera_id s.active_types h.sdk_manager v.manager;
          }
  ]

  pub handle_start_capture-IsValid :
      (id : String) (ts : List DataType) (h : ClientHandler R)
      → HandlerIsValid h
      → HandlerIsValid (handle_start_capture id ts h).1
  unfolding handle_start_capture set_session ManagerIsValid
  handle_start_capture-IsValid id ts h v = elim (Option-cases (connected_session id h.sessions)) [
    | inl e ↦ rw (e, handle_start_capture) v
    | inr (s, e) ↦
        let good = connected-IsValid id h e v in
        elim (Option-cases h.sdk_manager) [
          | inl none_there ↦
              rw (e, none_there, handle_start_capture)
                record {
                  session =
                      set_session-valid id _ h
                        (add_types-IsValid (capture_types ts) s.camera_id good.1 good.0) v;
                  manager = v.manager;
                }
          | inr (m, managed) ↦
              rw (e, managed, handle_start_capture)
                record {
                  session =
                      set_session-valid id _ h
                        (add_types-IsValid (capture_types ts) (first_camera (get_camera_ids m))
                          good.1 good.0)
                        v;
                  manager =
                      start_capture-IsValid (first_camera (get_camera_ids m)) (capture_types ts) m
                        (subst ManagerIsValid managed v.manager);
                }
        ]
  ]

  pub handle_stop_capture-IsValid :
      (id : String) (ts : List DataType) (h : ClientHandler R)
      → HandlerIsValid h
      → HandlerIsValid (handle_stop_capture id ts h).1
  unfolding handle_stop_capture set_session ManagerIsValid
  handle_stop_capture-IsValid id ts h v = elim (Option-cases (connected_session id h.sessions)) [
    | inl e ↦ rw (e, handle_stop_capture) v
    | inr (s, e) ↦
        let good = connected-IsValid id h e v in
        let kept =
          set_session-valid id _ h (drop_types-IsValid (capture_types ts) good.1 good.0) v in
        elim (Option-cases h.sdk_manager) [
          | inl none_there ↦
              rw (e, none_there, handle_stop_capture) record { session = kept; manager = tt }
          | inr (m, managed) ↦
              rw (e, managed, handle_stop_capture)
                record {
                  session = kept;
                  manager =
                      stop_capture-IsValid (first_camera (get_camera_ids m)) (capture_types ts) m
                        (subst ManagerIsValid managed v.manager);
                }
        ]
  ]

-- ===== src/Sessions/Invariant/Asking.antt =====
-- `handle_set_parameter` and `handle_get_parameter` of src/api/ClientHandler.cpp keep the handler valid.
use lib_stereo_camera.Common.{String, List, [], ◌∷◌, Option, none, some, Option-cases, inl, inr}
use lib_stereo_camera.Client.{
  Replies, ParameterValue, Response, Request, make_response_with, set_parameter, get_parameter,
}
use lib_stereo_camera.Slots.{SdkSlotManager}
use lib_stereo_camera.Slots.Lifecycle.{get_camera_ids, get_client}
use lib_stereo_camera.Slots.Invariant
use lib_stereo_camera.Slots.Invariant.{start_capture-IsValid, stop_capture-IsValid}
use lib_stereo_camera.Sessions.{
  ClientHandler, connected_session, ask_client, ask_first, ask_camera, reopen_detail,
  handle_set_parameter, handle_get_parameter,
}
use lib_stereo_camera.Sessions.Invariant.{HandlerIsValid, ManagerIsValid}

module _ {R : Type 0} where
  -- Asking a camera changes the manager's calls only.
  ask_client-IsValid :
      (reply : Replies R) (request : Request R) (h : ClientHandler R)
      (answer : Response R → Response R) (m : SdkSlotManager R) (client : Option String)
      → Invariant.IsValid m
      → HandlerIsValid h
      → HandlerIsValid (ask_client reply request h answer m client).1
  unfolding ask_client ManagerIsValid
  ask_client-IsValid reply request h answer m none good v = v
  ask_client-IsValid reply request h answer m (some client) good v = record {
    session = v.session;
    manager = record { each = good.each };
  }

  ask_first-IsValid :
      (reply : Replies R) (request : Request R) (h : ClientHandler R)
      (answer : Response R → Response R) (m : SdkSlotManager R) (ids : List String)
      → Invariant.IsValid m
      → HandlerIsValid h
      → HandlerIsValid (ask_first reply request h answer m ids).1
  unfolding ask_first
  ask_first-IsValid reply request h answer m [] good v = v
  ask_first-IsValid reply request h answer m (id ∷ ids) good v =
      ask_client-IsValid reply request h answer m (get_client id m) good v

  ask_camera-IsValid :
      (reply : Replies R) (request : Request R) (answer : Response R → Response R)
      (h : ClientHandler R) (m : Option (SdkSlotManager R))
      → ManagerIsValid m
      → HandlerIsValid h
      → HandlerIsValid (ask_camera reply request answer h m).1
  unfolding ask_camera ManagerIsValid
  ask_camera-IsValid reply request answer h none good v = v
  ask_camera-IsValid reply request answer h (some m) good v =
      ask_first-IsValid reply request h answer m (get_camera_ids m) good v

  pub handle_set_parameter-IsValid :
      (reply : Replies R) (id name : String) (value : ParameterValue R) (h : ClientHandler R)
      → HandlerIsValid h
      → HandlerIsValid (handle_set_parameter reply id name value h).1
  unfolding handle_set_parameter
  handle_set_parameter-IsValid reply id name value h v =
      elim (Option-cases (connected_session id h.sessions)) [
        | inl e ↦ rw (e, handle_set_parameter) v
        | inr (s, e) ↦
            rw (e, handle_set_parameter)
              (ask_camera-IsValid reply (set_parameter name value)
                (λ r. make_response_with r.code r.message (reopen_detail name)) h h.sdk_manager
                v.manager v)
      ]

  pub handle_get_parameter-IsValid :
      (reply : Replies R) (id name : String) (h : ClientHandler R)
      → HandlerIsValid h
      → HandlerIsValid (handle_get_parameter reply id name h).1
  unfolding handle_get_parameter
  handle_get_parameter-IsValid reply id name h v =
      elim (Option-cases (connected_session id h.sessions)) [
        | inl e ↦ rw (e, handle_get_parameter) v
        | inr (s, e) ↦
            rw (e, handle_get_parameter)
              (ask_camera-IsValid reply (get_parameter name) (λ r. r) h h.sdk_manager v.manager v)
      ]

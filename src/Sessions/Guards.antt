-- ===== src/Sessions/Guards.antt =====
-- The handler of the connect command in src/api/ClientHandler.cpp, called once and again.
use lib_stereo_camera.Common.{
  some, is_yes, if◌then◌else◌, ◌≡◌, refl, ap, arith, String, true, false, lookup, lookup-insert,
  string_discrete,
}
use lib_stereo_camera.Types.{already_init, success}
use lib_stereo_camera.Client.{make_response}
use lib_stereo_camera.Sessions.{
  ClientSession, ClientHandler, session_of, set_session, open_session, handle_connect,
}

abbrev opened : {R : Type 0} (client_id : String) (h : ClientHandler R) → ClientHandler R
opened client_id h =
    set_session client_id (open_session client_id (session_of client_id h.sessions)) h

handle_connect-new :
    {R : Type 0} (client_id : String) (h : ClientHandler R)
    → h.module_initialized ≡ true
    → (session_of client_id h.sessions).connected ≡ false
    → handle_connect client_id h ≡ (make_response success "Connected", opened client_id h)
unfolding handle_connect
handle_connect-new client_id h up e = ground arith

handle_connect-again :
    {R : Type 0} (client_id : String) (h : ClientHandler R)
    → h.module_initialized ≡ true
    → (session_of client_id h.sessions).connected ≡ true
    → handle_connect client_id h ≡ (make_response already_init "Already connected", h)
unfolding handle_connect
handle_connect-again client_id h up e = ground arith

session_of-opened :
    {R : Type 0} (client_id : String) (h : ClientHandler R)
    → session_of client_id (opened client_id h).sessions
      ≡ open_session client_id (session_of client_id h.sessions)
unfolding session_of set_session
session_of-opened client_id h = ground (
  arith,
  lookup-insert string_discrete client_id client_id
      (open_session client_id (session_of client_id h.sessions)) h.sessions,
)

-- While the node is initialised, `handle_connect` answers a client without a connected session
-- `Success` and opens a session; the cameras and the sessions of others stay as they are; and a second
-- `handle_connect` is answered `AlreadyInit` and changes nothing.
pub connect_once :
    {R : Type 0} (client_id other : String) (h : ClientHandler R)
    → h.module_initialized ≡ true
    → (session_of client_id h.sessions).connected ≡ false
    → let (r, after) = handle_connect client_id h in
      (r ≡ make_response success "Connected")
      × ((session_of client_id after.sessions).connected ≡ true)
      × (after.sdk_manager ≡ h.sdk_manager)
      × (lookup string_discrete other after.sessions ≡ (
          if is_yes (string_discrete client_id other)
          then some (open_session client_id (session_of client_id h.sessions))
          else lookup string_discrete other h.sessions))
      × (handle_connect client_id after ≡ (make_response already_init "Already connected", after))
unfolding set_session open_session
connect_once client_id other h up e = rw (handle_connect-new client_id h up e) (
  refl,
  ap ClientSession.connected (session_of-opened client_id h),
  refl,
  ground (
    arith,
    lookup-insert string_discrete client_id other
        (open_session client_id (session_of client_id h.sessions)) h.sessions,
  ),
  handle_connect-again client_id (opened client_id h) up
      (ap ClientSession.connected (session_of-opened client_id h)),
)
